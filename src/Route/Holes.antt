-- ===== src/Route/Holes.antt =====
-- Slots that fskit_unroute_* leaves NULL: fskit_route_match reads through them.
use fskit.Base.{
  ℕ, zero, suc, ◌<◌, ◌≡◌, refl, ap, ◌∙◌, subst, inl, inr, true, false, ◌&&◌, Option, none, some, [],
  ◌∷◌, arith, ◌==◌, length, Option-cases, and-true,
}
use fskit.Base.Int.{pos}
use fskit.Base.Bytes.{Str}
use fskit.Calls.{RouteType, null_route}
use fskit.Route.{
  Posix, PathRoute, Slots, null_slot, row_at_ref, row_emplace, all_null, first_match, finish_call,
  route_call, route_undecl,
}
use fskit.Route.Rows.{RowTree}
use fskit.Route.View.{same_type_refl, slot_at, slot_at-emplace, all_null_route}
use fskit.Route.Registry.{view, row_of}
use fskit.Route.First.{passes, all_pass, first_match_pass, passes_iff, route_call_row}

module _ (P : Posix) where
  open P use {Regex}

  first_match_hole :
      (row : Slots Regex) (path : Str) (i : ℕ)
      → i < length row
      → all_pass P path (slot_at row) i ≡ true
      → slot_at row i ≡ none
      → first_match P true row path ≡ null_slot
  first_match_hole [] path i h a e = absurd (omega arith)
  first_match_hole (none ∷ row) path i h a e = unfold first_match in refl
  first_match_hole (some r ∷ row) path zero h a e = cc
  first_match_hole (some r ∷ row) path (suc i) h a e =
      let both = and-true (passes P path (some r)) (all_pass P path (slot_at row) i) a in
      first_match_pass P r row path ((passes_iff P r path).0 both.0)
      ∙ first_match_hole row path i (omega arith) both.1 e

  -- Only the slots below `i` count.
  all_pass_cong :
      (path : Str) (f g : ℕ → Option (PathRoute Regex)) (i : ℕ)
      → ((j : ℕ) → j < i → f j ≡ g j)
      → all_pass P path f i ≡ all_pass P path g i
  all_pass_cong path f g zero h = refl
  all_pass_cong path f g (suc i) h = rw (h 0 (omega arith)) (
      ap (λ w. passes P path (g 0) && w)
        (all_pass_cong path (λ j. f (suc j)) (λ j. g (suc j)) i (λ j k. h (suc j) (omega arith))))

  length-emplace :
      (row : Slots Regex) (r : Option (PathRoute Regex)) (i : ℕ)
      → length (row_emplace row r i) ≡ length row
  length-emplace [] r i = refl
  length-emplace (x ∷ row) r zero = refl
  length-emplace (x ∷ row) r (suc i) = omega (arith, length-emplace row r i)

  slot_at_held :
      (row : Slots Regex) (i : ℕ) (r : PathRoute Regex)
      → slot_at row i ≡ some r
      → (row_at_ref row i ≡ some (some r)) × (i < length row)
  slot_at_held [] i r h = cc
  slot_at_held (x ∷ row) zero r h = (ap some h, omega arith)
  slot_at_held (x ∷ row) (suc i) r h =
      let rest = slot_at_held row i r h in (rest.0, omega (arith, rest.1))

module _ (P : Posix) (T : RowTree (Slots P.Regex)) where
  open P use {Regex}

  undecl_keeps_row :
      (table : T.Tree) (t : RouteType) (i : ℕ) (row : Slots Regex) (r : Option (PathRoute Regex))
      → T.find table t ≡ some row
      → row_at_ref row i ≡ some r
      → all_null (row_emplace row none i) ≡ false
      → (route_undecl P T table t (pos i)).1 ≡ T.update table t (row_emplace row none i)
  unfolding route_undecl
  undecl_keeps_row table t i row r e h k = ground (arith, e, h, k)

  row_of-update :
      (table : T.Tree) (t : RouteType) (row old : Slots Regex)
      → T.find table t ≡ some old
      → row_of P T (T.update table t row) t ≡ row
  row_of-update table t row old e =
      ground (arith, T.find-update table t row old t e, same_type_refl t)

  -- With a route `i` undeclared while another route `k` of its type stays, a call of that type with a
  -- path that no route before `i` matches reads the NULL that the route has left, and crashes.
  pub route_undecl_crashes :
      (table : T.Tree) (t : RouteType) (path : Str) (i k : ℕ) (r other : PathRoute Regex)
      → view P T table t i ≡ some r
      → view P T table t k ≡ some other
      → (i == k) ≡ false
      → all_pass P path (view P T table t) i ≡ true
      → route_call P T true (route_undecl P T table t (pos i)).1 t path ≡ null_route
  route_undecl_crashes table t path i k r other h hk ne a = elim (Option-cases (T.find table t)) [
    | inl e ↦ absurd (ground (arith, e))
    | inr (row, e) ↦
        let old : row_of P T table t ≡ row = ground (arith, e) in
        let mine : slot_at row i ≡ some r = subst (λ w. slot_at w i ≡ some r) old h in
        let theirs : slot_at row k ≡ some other = subst (λ w. slot_at w k ≡ some other) old hk in
        let held = slot_at_held P row i r mine in
        let cleared = row_emplace row none i in
        let slots = λ (j : ℕ). slot_at-emplace row none i j held.1 in
        let stays : all_null cleared ≡ false =
          all_null_route cleared k other (ground (arith, slots k)) in
        let below : all_pass P path (slot_at cleared) i ≡ true =
          all_pass_cong P path (slot_at cleared) (slot_at row) i (λ j l. ground (arith, slots j))
          ∙ subst (λ w. all_pass P path (slot_at w) i ≡ true) old a in
        let gone : slot_at cleared i ≡ none = ground (arith, slots i) in
        let now : row_of P T (route_undecl P T table t (pos i)).1 t ≡ cleared =
          ap (λ w. row_of P T w t) (undecl_keeps_row table t i row (some r) e held.0 stays)
          ∙ row_of-update table t cleared row e in
        route_call_row P T (route_undecl P T table t (pos i)).1 t path
        ∙ ap (λ w. finish_call P (first_match P true w path)) now
        ∙ ap (finish_call P) (
            first_match_hole P cleared path i (omega (arith, held.1, length-emplace P row none i))
              below gone)
        ∙ (unfold finish_call in refl)
  ]
