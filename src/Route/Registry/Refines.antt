-- ===== src/Route/Registry/Refines.antt =====
-- Undeclaring and erasing, and any sequence of calls.
use mathlib.Core.Path.{fun_ext}
use fskit.Base.{
  ℕ, suc, ◌≡◌, ◌≢◌, refl, sym, ap, ◌∙◌, subst, inl, inr, false, Option, none, some, List, [], ◌∷◌,
  arith, Bool-cases, Option-cases,
}
use fskit.Base.Int.{ℤ, pos, negsuc}
use fskit.Calls.{RouteType}
use fskit.Errno.{ok_rc, einval}
use fskit.Route.{
  Posix, PathRoute, Slots, slot, row_at_ref, all_null, clear_slot, route_undecl, undecl_code,
  erase_all,
}
use fskit.Route.Rows.{RowTree, same_type}
use fskit.Route.View.{same_type_sound, slot_at}
use fskit.Route.Registry.{
  Promised, Act, declare, undeclare, erase, View, clear, Undeclared, PromisedRun, view, TableOk,
  perform, perform_all,
}
use fskit.Route.Registry.Steps.{
  Keeps, Cleared, clear_slot-Cleared, update_same, declare-Keeps, delete-TableOk, view-clear,
}

module _ (P : Posix) (T : RowTree (Slots P.Regex)) where
  open P use {Regex}

  -- A bad handle leaves the table.
  undeclare_absent :
      (table : T.Tree) (t : RouteType) (i : ℕ)
      → TableOk P T table
      → view P T table t i ≡ none
      → Keeps P T table (undeclare t (pos i)) (some einval, table)
  undeclare_absent table t i ok h =
      let v = view P T table in
      (ok, subst (λ o. Undeclared P v t i o (some einval) v) (sym h) (refl, refl))

  undecl_no_row :
      (table : T.Tree) (t : RouteType) (i : ℕ)
      → T.find table t ≡ none
      → route_undecl P T table t (pos i) ≡ (some einval, table)
  unfolding route_undecl
  undecl_no_row table t i e = ground (arith, e)

  undecl_beyond :
      (table : T.Tree) (t : RouteType) (i : ℕ) (row : Slots Regex)
      → T.find table t ≡ some row
      → row_at_ref row i ≡ none
      → route_undecl P T table t (pos i) ≡ (some einval, table)
  unfolding route_undecl
  undecl_beyond table t i row e h = ground (arith, e, h)

  undecl_slot :
      (table : T.Tree) (t : RouteType) (i : ℕ) (row : Slots Regex) (r : Option (PathRoute Regex))
      → T.find table t ≡ some row
      → row_at_ref row i ≡ some r
      → route_undecl P T table t (pos i) ≡ (undecl_code P T (slot r), clear_slot P T table t row i)
  unfolding route_undecl
  undecl_slot table t i row r e h = ground (arith, e, h)

  -- The slot of a bad handle, or of a route.
  undeclare_slot :
      (table : T.Tree) (t : RouteType) (i : ℕ) (r : Option (PathRoute Regex)) (table' : T.Tree)
      → view P T table t i ≡ r
      → Cleared P T table t i table'
      → Keeps P T table (undeclare t (pos i)) (undecl_code P T (slot r), table')
  unfolding undecl_code
  undeclare_slot table t i none table' h c =
      let v = view P T table in
      (
        c.0,
        subst (λ o. Undeclared P v t i o (some einval) (view P T table')) (sym h)
            (refl, c.1 ∙ update_same P T v t i h),
      )
  undeclare_slot table t i (some r) table' h c =
      let v = view P T table in
      (c.0, subst (λ o. Undeclared P v t i o (some ok_rc) (view P T table')) (sym h) (refl, c.1))

  undeclare-Keeps :
      (table : T.Tree) (t : RouteType) (i : ℕ)
      → TableOk P T table
      → Keeps P T table (undeclare t (pos i)) (route_undecl P T table t (pos i))
  undeclare-Keeps table t i ok = elim (Option-cases (T.find table t)) [
    | inl e ↦
        subst (Keeps P T table (undeclare t (pos i))) (sym (undecl_no_row table t i e))
          (undeclare_absent table t i ok (ground (arith, e)))
    | inr (row, e) ↦ elim (Option-cases (row_at_ref row i)) [
      | inl h ↦
          subst (Keeps P T table (undeclare t (pos i))) (sym (undecl_beyond table t i row e h))
            (undeclare_absent table t i ok (ground (arith, e, h)))
      | inr (r, h) ↦
          subst (Keeps P T table (undeclare t (pos i))) (sym (undecl_slot table t i row r e h)) (
            undeclare_slot table t i r (clear_slot P T table t row i) (ground (arith, e, h))
              (clear_slot-Cleared P T table t row i r ok e h))
    ]
  ]

  undecl_negative :
      (table : T.Tree) (t : RouteType) (n : ℕ) (row : Slots Regex)
      → T.find table t ≡ some row
      → route_undecl P T table t (negsuc n) ≡ (none, table)
  unfolding route_undecl
  undecl_negative table t n row e = ground (arith, e)

  undecl_negative_none :
      (table : T.Tree) (t : RouteType) (n : ℕ)
      → T.find table t ≡ none
      → route_undecl P T table t (negsuc n) ≡ (some einval, table)
  unfolding route_undecl
  undecl_negative_none table t n e = ground (arith, e)

  some_slot : (row : Slots Regex) → all_null row ≡ false → (i : ℕ) × (slot_at row i ≢ none)
  unfolding all_null
  some_slot [] h = cc
  some_slot (none ∷ row) h = let rest = some_slot row h in (suc rest.0, rest.1)
  some_slot (some r ∷ row) h = (0, ground arith)

  negative-Keeps :
      (table : T.Tree) (t : RouteType) (n : ℕ)
      → TableOk P T table
      → Keeps P T table (undeclare t (negsuc n)) (route_undecl P T table t (negsuc n))
  negative-Keeps table t n ok = elim (Option-cases (T.find table t)) [
    | inl e ↦
        let bare : (i : ℕ) → view P T table t i ≡ none = λ i. ground (arith, e) in
        subst (Keeps P T table (undeclare t (negsuc n))) (sym (undecl_negative_none table t n e))
          (ok, (inr (refl, bare), refl))
    | inr (row, e) ↦
        let held = some_slot row (ok.used t row e) in
        let here : view P T table t held.0 ≡ slot_at row held.0 = ground (arith, e) in
        subst (Keeps P T table (undeclare t (negsuc n))) (sym (undecl_negative table t n row e))
          (ok, (inl (refl, held.0, λ k. held.1 (sym here ∙ k)), refl))
  ]

  erase_none :
      (table : T.Tree) (t : RouteType)
      → T.find table t ≡ none
      → erase_all P T table t ≡ (einval, table)
  unfolding erase_all
  erase_none table t e = rw (e, erase_all)

  erase_some :
      (table : T.Tree) (t : RouteType) (row : Slots Regex)
      → T.find table t ≡ some row
      → erase_all P T table t ≡ (ok_rc, T.delete table t)
  unfolding erase_all
  erase_some table t row e = rw (e, erase_all)

  clear-none : (v : View P) (t : RouteType) → ((i : ℕ) → v t i ≡ none) → clear P v t ≡ v
  clear-none v t h = fun_ext λ u. fun_ext λ j. elim (Bool-cases (same_type t u)) [
    | inl e ↦ rw e (sym (ap (λ w. v w j) (sym (same_type_sound t u e)) ∙ h j))
    | inr e ↦ rw e refl
  ]

  erase-Keeps :
      (table : T.Tree) (t : RouteType)
      → TableOk P T table
      → Keeps P T table (erase t) (perform P T table (erase t))
  unfolding perform
  erase-Keeps table t ok =
      let v = view P T table in
      elim (Option-cases (T.find table t)) [
        | inl e ↦
            let bare : (i : ℕ) → v t i ≡ none = λ i. ground (arith, e) in
            subst (λ o. Keeps P T table (erase t) (some o.0, o.1)) (sym (erase_none table t e))
              (ok, (inl (refl, bare), sym (clear-none v t bare)))
        | inr (row, e) ↦
            let held = some_slot row (ok.used t row e) in
            let here : view P T table t held.0 ≡ slot_at row held.0 = ground (arith, e) in
            subst (λ o. Keeps P T table (erase t) (some o.0, o.1)) (sym (erase_some table t row e))
              (
                delete-TableOk P T table t ok,
                (
                  inr (refl, held.0, λ k. held.1 (sym here ∙ k)),
                  view-clear P T table t ok.distinct,
                ),
              )
      ]

  perform-Keeps :
      (table : T.Tree) (act : Act) → TableOk P T table → Keeps P T table act (perform P T table act)
  perform-Keeps table (declare s t m d) ok = declare-Keeps P T table s t m d ok
  perform-Keeps table (undeclare t (pos i)) ok = unfold perform in undeclare-Keeps table t i ok
  perform-Keeps table (undeclare t (negsuc n)) ok = unfold perform in negative-Keeps table t n ok
  perform-Keeps table (erase t) ok = erase-Keeps table t ok

  run_stops :
      (table : T.Tree) (act : Act) (acts : List Act)
      → (perform P T table act).0 ≡ none
      → perform_all P T table (act ∷ acts) ≡ (none ∷ [], (perform P T table act).1)
  unfolding perform_all
  run_stops table act acts e = rw (e, perform_all) refl

  run_goes_on :
      (table : T.Tree) (act : Act) (acts : List Act) (c : ℤ)
      → (perform P T table act).0 ≡ some c
      → perform_all P T table (act ∷ acts) ≡ (
        some c ∷ (perform_all P T (perform P T table act).1 acts).0,
        (perform_all P T (perform P T table act).1 acts).1,
      )
  unfolding perform_all
  run_goes_on table act acts c e = rw (e, perform_all) refl

  -- The table and the codes of a run that keeps the invariant and the promise.
  abbrev KeepsRun : T.Tree → List Act → List (Option ℤ) × T.Tree → Type 0
  KeepsRun table acts (codes, table') =
      TableOk P T table' × PromisedRun P (view P T table) acts codes (view P T table')

  -- From a table whose types have one row each, with a route in it, any sequence of declarations,
  -- undeclarations and erasures, memory being there, up to its first read out of bounds, ends in such
  -- a table, and each call does to the map from types and ids to routes what is promised: a
  -- declaration takes the least free id and no other (or fails with -EINVAL), an undeclaration of an
  -- id frees it if it is taken (and else fails with -EINVAL), that of a negative handle fails with
  -- -EINVAL if the type has no routes and else reads out of bounds, and an erasure frees all ids of
  -- its type.
  pub perform_all_refines :
      (acts : List Act) (table : T.Tree)
      → TableOk P T table
      → TableOk P T (perform_all P T table acts).1
        × PromisedRun P
            (view P T table)
            acts
            (perform_all P T table acts).0
            (view P T (perform_all P T table acts).1)
  unfolding perform_all
  perform_all_refines [] table ok = (ok, (refl, refl))
  perform_all_refines (act ∷ acts) table ok =
      let out = perform P T table act in
      let one = perform-Keeps table act ok in
      let rest = perform_all_refines acts out.1 one.0 in
      let promised : (code : Option ℤ)
          → out.0 ≡ code
          → Promised P (view P T table) act code (view P T out.1) =
        λ code e. subst (λ c. Promised P (view P T table) act c (view P T out.1)) e one.1 in
      elim (Option-cases out.0) [
        | inl e ↦
            subst (KeepsRun table (act ∷ acts)) (sym (run_stops table act acts e))
              (one.0, (promised none e, refl))
        | inr (c, e) ↦
            subst (KeepsRun table (act ∷ acts)) (sym (run_goes_on table act acts c e))
              (rest.0, (view P T out.1, promised (some c) e, rest.1))
      ]

  -- the table that a core starts with
  pub null-TableOk : TableOk P T T.null
  null-TableOk = record {
    distinct = T.null-Distinct;
    used = λ t row e. absurd (ground (arith, T.find-null t));
  }
