-- ===== src/Route/Declare.antt =====
-- A route that is declared is called.
use fskit.Base.{
  ℕ, zero, suc, ◌<◌, ◌≡◌, refl, sym, ap, ◌∙◌, subst, inl, inr, true, Option, none, some, arith,
  ◌==◌, eq_refl, Bool-cases, and-true,
}
use fskit.Base.Int.{ℤ}
use fskit.Base.Bytes.{Str}
use fskit.Calls.{RouteType, ran}
use fskit.Route.{Posix, Metadata, Method, PathRoute, Slots, safe_dispatch, route_call, route_decl}
use fskit.Route.Rows.{RowTree}
use fskit.Route.View.{same_type_refl}
use fskit.Route.Registry.{
  View, update, view, is_just, taken_below, new_route, TableOk, Declared, perform,
}
use fskit.Route.Registry.Steps.{declare-Keeps}
use fskit.Route.First.{attempt, passes, passes_iff, all_pass, route_call-ran_iff}

module _ (P : Posix) where
  open P use {Regex}

  all_pass_below :
      (path : Str) (f : ℕ → Option (PathRoute Regex)) (i : ℕ)
      → ((j : ℕ) → j < i → passes P path (f j) ≡ true)
      → all_pass P path f i ≡ true
  all_pass_below path f zero h = refl
  all_pass_below path f (suc i) h =
      rw (h 0 (omega arith))
        (all_pass_below path (λ j. f (suc j)) i (λ j k. h (suc j) (omega arith)))

  taken_just :
      (v : View P) (t : RouteType) (i j : ℕ)
      → taken_below P v t i ≡ true
      → j < i
      → is_just P (v t j) ≡ true
  taken_just v t zero j h k = absurd (omega arith)
  taken_just v t (suc i) j h k =
      let both = and-true (is_just P (v t i)) (taken_below P v t i) h in
      elim (Bool-cases (j == i)) [
        | inl e ↦
            let same : j ≡ i = ground arith in
            subst (λ w. is_just P (v t w) ≡ true) (sym same) both.0
        | inr e ↦ taken_just v t i j both.1 (ground arith)
      ]

  -- the slots of a view after an update
  updated_self :
      (v : View P) (t : RouteType) (i : ℕ) (r : Option (PathRoute Regex)) → update P v t i r t i ≡ r
  updated_self v t i r = rw (same_type_refl t, eq_refl i) refl

  updated_below :
      (v : View P) (t : RouteType) (i j : ℕ) (r : Option (PathRoute Regex))
      → j < i
      → update P v t i r t j ≡ v t j
  updated_below v t i j r h = ground (arith, same_type_refl t)

  pass_of :
      (path : Str) (o : Option (PathRoute Regex))
      → is_just P o ≡ true
      → ((r : PathRoute Regex) → o ≡ some r → attempt P r path ≡ none)
      → passes P path o ≡ true
  pass_of path none h k = cc
  pass_of path (some r) h k = (passes_iff P r path).1 (k r refl)

module _ (P : Posix) (T : RowTree (Slots P.Regex)) where
  open P use {Regex}

  Declared-call :
      (table : T.Tree) (path : Str) (re : Regex) (s : Str) (t : RouteType) (m : Option Method)
      (d : ℕ) (metadata : Metadata) (code : Option ℤ) (table' : T.Tree)
      → attempt P (new_route P s re t m d) path ≡ some metadata
      → ((i : ℕ) (r : PathRoute Regex) → view P T table t i ≡ some r → attempt P r path ≡ none)
      → Declared P (view P T table) t (λ e. new_route P s e t m d) (some re) code (view P T table')
      → route_call P T true table' t path ≡ ran (safe_dispatch P (new_route P s re t m d) metadata)
  Declared-call table path re s t m d metadata code table' hit miss (i, c, free, taken, new) =
      let v = view P T table in
      let made = new_route P s re t m d in
      let v' = view P T table' in
      let here : v' t i ≡ some made =
        ap (λ (w : View P). w t i) new ∙ updated_self P v t i (some made) in
      let before : (j : ℕ) → j < i → passes P path (v' t j) ≡ true = λ j h.
        subst (λ w. passes P path w ≡ true)
          (sym (ap (λ (w : View P). w t j) new ∙ updated_below P v t i j (some made) h))
          (pass_of P path (v t j) (taken_just P v t i j taken h) (miss j)) in
      (route_call-ran_iff P T table' t path (safe_dispatch P made metadata)).1
        (i, (made, metadata, (all_pass_below P path (v' t) i before, here, hit), refl))

  -- A route that is declared, memory being there, with a regular expression that compiles and matches
  -- a path is called for it, if no route of its type that was there matches the path.
  pub route_call-route_decl :
      (table : T.Tree) (path : Str) (re : Regex) (s : Str) (t : RouteType) (m : Option Method)
      (d : ℕ) (metadata : Metadata)
      → TableOk P T table
      → P.regcomp s ≡ some re
      → attempt P (new_route P s re t m d) path ≡ some metadata
      → ((i : ℕ) (r : PathRoute Regex) → view P T table t i ≡ some r → attempt P r path ≡ none)
      → route_call P T true (route_decl P T true table s t m d).1 t path
        ≡ ran (safe_dispatch P (new_route P s re t m d) metadata)
  unfolding perform
  route_call-route_decl table path re s t m d metadata ok e hit miss =
      let out = route_decl P T true table s t m d in
      let kept = (declare-Keeps P T table s t m d ok).1 in
      Declared-call table path re s t m d metadata (some out.0) out.1 hit miss (
        subst
          (λ o.
            Declared P (view P T table) t (λ c. new_route P s c t m d) o (some out.0)
              (view P T out.1))
          e kept)
