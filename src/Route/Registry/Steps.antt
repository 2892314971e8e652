-- ===== src/Route/Registry/Steps.antt =====
-- Each call on the table of routes keeps what Registry promises.
use mathlib.Core.Path.{fun_ext}
use fskit.Base.{
  ℕ, zero, suc, ◌<◌, ◌≡◌, ◌≢◌, refl, sym, ap, ◌∙◌, subst, inl, inr, true, false, Option, none, some,
  [], ◌∷◌, arith, ◌==◌, if◌then◌else◌, length, Bool-cases, Option-cases,
}
use fskit.Base.Int.{ℤ, pos}
use fskit.Base.Bytes.{Str}
use fskit.Calls.{RouteType}
use fskit.Errno.{einval}
use fskit.Route.{
  Posix, Method, PathRoute, Slots, find_empty, row_at_ref, row_emplace, row_insert, all_null,
  table_insert, clear_slot, route_decl,
}
use fskit.Route.Rows.{RowTree, same_type}
use fskit.Route.View.{
  same_type_sound, slot_at, slot_at-emplace, all_null-slot_at, Inserted, row_insert-Inserted,
  all_null_route,
}
use fskit.Route.Registry.{
  Act, declare, View, update, clear, taken_below, new_route, Declared, Promised, row_of, view,
  TableOk, perform,
}

module _ (P : Posix) (T : RowTree (Slots P.Regex)) where
  open P use {Regex}

  -- The rows of a table in which the row of one type is another.
  abbrev pub SetsRow : T.Tree → T.Tree → RouteType → Slots Regex → Type 0
  SetsRow table table' t row =
      (u : RouteType) → row_of P T table' u ≡ (if same_type t u then row else row_of P T table u)

  add-SetsRow :
      (table : T.Tree) (t : RouteType) (row : Slots Regex)
      → T.find table t ≡ none
      → SetsRow table (T.add table t row) t row
  add-SetsRow table t row h u = ground (arith, T.find-add table t row u h)

  update-SetsRow :
      (table : T.Tree) (t : RouteType) (row old : Slots Regex)
      → T.find table t ≡ some old
      → SetsRow table (T.update table t row) t row
  update-SetsRow table t row old h u = ground (arith, T.find-update table t row old u h)

  delete-SetsRow :
      (table : T.Tree) (t : RouteType) → T.Distinct table → SetsRow table (T.delete table t) t []
  delete-SetsRow table t d u = ground (arith, T.find-delete table t u d)

  -- A row whose slots are the old ones but for one makes an update of the view.
  view-SetsRow :
      (table table' : T.Tree) (t : RouteType) (row : Slots Regex) (i : ℕ)
      (r : Option (PathRoute Regex))
      → SetsRow table table' t row
      → ((j : ℕ) → slot_at row j ≡ (if i == j then r else view P T table t j))
      → view P T table' ≡ update P (view P T table) t i r
  view-SetsRow table table' t row i r sets slots = fun_ext λ u. fun_ext λ j.
      elim (Bool-cases (same_type t u)) [
        | inl e ↦
            let here : row_of P T table' u ≡ row = ground (arith, sets u) in
            let same : t ≡ u = same_type_sound t u e in
            let old : view P T table t j ≡ view P T table u j = ap (λ w. view P T table w j) same in
            ap (λ w. slot_at w j) here ∙ slots j ∙ ground (arith, old)
        | inr e ↦
            let here : row_of P T table' u ≡ row_of P T table u = ground (arith, sets u) in
            ap (λ w. slot_at w j) here ∙ ground arith
      ]

  pub view-clear :
      (table : T.Tree) (t : RouteType)
      → T.Distinct table
      → view P T (T.delete table t) ≡ clear P (view P T table) t
  view-clear table t d =
      fun_ext λ u. fun_ext λ j. ap (λ w. slot_at w j) (delete-SetsRow table t d u) ∙ ground arith

  add-TableOk :
      (table : T.Tree) (t : RouteType) (row : Slots Regex)
      → TableOk P T table
      → T.find table t ≡ none
      → all_null row ≡ false
      → TableOk P T (T.add table t row)
  add-TableOk table t row ok h full = record {
    distinct = T.add-Distinct table t row ok.distinct h;
    used = λ u old e. ground (arith, T.find-add table t row u h, ok.used u old);
  }

  update-TableOk :
      (table : T.Tree) (t : RouteType) (row old : Slots Regex)
      → TableOk P T table
      → T.find table t ≡ some old
      → all_null row ≡ false
      → TableOk P T (T.update table t row)
  update-TableOk table t row old ok h full = record {
    distinct = T.update-Distinct table t row ok.distinct;
    used = λ u other e. ground (arith, T.find-update table t row old u h, ok.used u other);
  }

  pub delete-TableOk :
      (table : T.Tree) (t : RouteType) → TableOk P T table → TableOk P T (T.delete table t)
  delete-TableOk table t ok = record {
    distinct = T.delete-Distinct table t ok.distinct;
    used = λ u other e. ground (arith, T.find-delete table t u ok.distinct, ok.used u other);
  }

  taken_below_lem :
      (v : View P) (t : RouteType) (i : ℕ)
      → ((j : ℕ) → j < i → v t j ≢ none)
      → taken_below P v t i ≡ true
  taken_below_lem v t zero h = refl
  taken_below_lem v t (suc i) h = elim (Option-cases (v t i)) [
    | inl e ↦ absurd (h i (omega arith) e)
    | inr (r, e) ↦ rw e (taken_below_lem v t i (λ j k. h j (omega arith)))
  ]

  -- A table made by inserting a route.
  abbrev Grown : T.Tree → RouteType → PathRoute Regex → ℤ × T.Tree → Type 0
  Grown table t r (code, table') =
      TableOk P T table'
      × (i : ℕ) × (code ≡ pos i)
      × (view P T table t i ≡ none)
      × (taken_below P (view P T table) t i ≡ true)
      × (view P T table' ≡ update P (view P T table) t i (some r))

  -- The row behind the insertion has a route.
  kept : (row : Slots Regex) (r : PathRoute Regex) → all_null (row_insert row r).1 ≡ false
  kept row r =
      let out = row_insert row r in
      all_null_route out.1 out.0 r (ground (arith, (row_insert-Inserted row r).2 out.0))

  grown_lem :
      (table table' : T.Tree) (t : RouteType) (row : Slots Regex) (r : PathRoute Regex)
      → TableOk P T table'
      → row_of P T table t ≡ row
      → SetsRow table table' t (row_insert row r).1
      → Grown table t r (pos (row_insert row r).0, table')
  grown_lem table table' t row r ok e sets =
      let out = row_insert row r in
      let ins : Inserted row r out = row_insert-Inserted row r in
      let same : (j : ℕ) → slot_at row j ≡ view P T table t j =
        λ j. ap (λ w. slot_at w j) (sym e) in
      (
        ok,
        out.0,
        refl,
        sym (same out.0) ∙ ins.0,
        taken_below_lem (view P T table) t out.0 (λ j h. λ k. ins.1 j h (same j ∙ k)),
        view-SetsRow table table' t out.1 out.0 (some r) sets
            (λ j. ins.2 j ∙ ap (λ w. if out.0 == j then some r else w) (same j)),
      )

  table_insert_new :
      (table : T.Tree) (t : RouteType) (r : PathRoute Regex)
      → T.find table t ≡ none
      → table_insert P T true table t r
        ≡ (pos (row_insert {Regex = Regex} [] r).0, T.add table t (row_insert [] r).1)
  unfolding table_insert
  table_insert_new table t r e = rw (e, table_insert)

  table_insert_old :
      (table : T.Tree) (t : RouteType) (r : PathRoute Regex) (row : Slots Regex)
      → T.find table t ≡ some row
      → table_insert P T true table t r
        ≡ (pos (row_insert row r).0, T.update table t (row_insert row r).1)
  unfolding table_insert
  table_insert_old table t r row e = elim (Option-cases (find_empty row)) [
    | inl h ↦ rw (e, table_insert) (rw (h, table_insert))
    | inr (i, h) ↦ rw (e, table_insert) (rw (h, table_insert))
  ]

  table_insert-Grown :
      (table : T.Tree) (t : RouteType) (r : PathRoute Regex)
      → TableOk P T table
      → Grown table t r (table_insert P T true table t r)
  table_insert-Grown table t r ok = elim (Option-cases (T.find table t)) [
    | inl e ↦
        let row = (row_insert {Regex = Regex} [] r).1 in
        subst (Grown table t r) (sym (table_insert_new table t r e)) (
          grown_lem table (T.add table t row) t [] r (add-TableOk table t row ok e (kept [] r))
            (ground (arith, e)) (add-SetsRow table t row e))
    | inr (old, e) ↦
        let row = (row_insert old r).1 in
        subst (Grown table t r) (sym (table_insert_old table t r old e)) (
          grown_lem table (T.update table t row) t old r
            (update-TableOk table t row old ok e (kept old r)) (ground (arith, e))
            (update-SetsRow table t row old e))
  ]

  -- A call that keeps the invariant and the promise.
  abbrev pub Keeps : T.Tree → Act → Option ℤ × T.Tree → Type 0
  Keeps table act (code, table') =
      TableOk P T table' × Promised P (view P T table) act code (view P T table')

  decl_refused :
      (table : T.Tree) (s : Str) (t : RouteType) (m : Option Method) (d : ℕ)
      → P.regcomp s ≡ none
      → route_decl P T true table s t m d ≡ (einval, table)
  unfolding route_decl
  decl_refused table s t m d e = ground (arith, e)

  decl_made :
      (table : T.Tree) (s : Str) (t : RouteType) (m : Option Method) (d : ℕ) (re : Regex)
      → P.regcomp s ≡ some re
      → route_decl P T true table s t m d ≡ table_insert P T true table t (new_route P s re t m d)
  unfolding route_decl
  decl_made table s t m d re e = rw (e, route_decl)

  pub declare-Keeps :
      (table : T.Tree) (s : Str) (t : RouteType) (m : Option Method) (d : ℕ)
      → TableOk P T table
      → Keeps table (declare s t m d) (perform P T table (declare s t m d))
  unfolding perform
  declare-Keeps table s t m d ok =
      let made : Regex → PathRoute Regex = λ re. new_route P s re t m d in
      let v = view P T table in
      elim (Option-cases (P.regcomp s)) [
        | inl e ↦
            let out = decl_refused table s t m d e in
            subst (λ o. Keeps table (declare s t m d) (some o.0, o.1)) (sym out)
              (ok, subst (λ o. Declared P v t made o (some einval) v) (sym e) (refl, refl))
        | inr (re, e) ↦
            let r = made re in
            let out = table_insert P T true table t r in
            let grown : Grown table t r out = table_insert-Grown table t r ok in
            let spec : Declared P v t made (some re) (some out.0) (view P T out.1) =
              (grown.1, ap some grown.2, grown.3, grown.4, grown.5) in
            subst (λ o. Keeps table (declare s t m d) (some o.0, o.1))
              (sym (decl_made table s t m d re e))
              (
                grown.0,
                subst (λ o. Declared P v t made o (some out.0) (view P T out.1)) (sym e) spec,
              )
      ]

  row_at_ref-length :
      (row : Slots Regex) (i : ℕ) (r : Option (PathRoute Regex))
      → row_at_ref row i ≡ some r
      → i < length row
  row_at_ref-length [] i r h = cc
  row_at_ref-length (x ∷ row) zero r h = omega arith
  row_at_ref-length (x ∷ row) (suc i) r h = omega (arith, row_at_ref-length row i r h)

  pub update_same : (v : View P) (t : RouteType) (i : ℕ) → v t i ≡ none → update P v t i none ≡ v
  update_same v t i h = fun_ext λ u. fun_ext λ j. elim (Bool-cases (same_type t u)) [
    | inl e ↦
        let here : v u i ≡ none = ap (λ w. v w i) (sym (same_type_sound t u e)) ∙ h in
        elim (Bool-cases (i == j)) [
          | inl k ↦ let same : i ≡ j = ground arith in rw (e, k) (sym (ap (v u) (sym same) ∙ here))
          | inr k ↦ rw (e, k) refl
        ]
    | inr e ↦ rw e refl
  ]

  -- The table behind a slot's reset.
  abbrev pub Cleared : T.Tree → RouteType → ℕ → T.Tree → Type 0
  Cleared table t i table' =
      TableOk P T table' × (view P T table' ≡ update P (view P T table) t i none)

  pub clear_slot-Cleared :
      (table : T.Tree) (t : RouteType) (row : Slots Regex) (i : ℕ) (r : Option (PathRoute Regex))
      → TableOk P T table
      → T.find table t ≡ some row
      → row_at_ref row i ≡ some r
      → Cleared table t i (clear_slot P T table t row i)
  unfolding clear_slot
  clear_slot-Cleared table t row i r ok e h =
      let cleared = row_emplace row none i in
      let old : row_of P T table t ≡ row = ground (arith, e) in
      let slots : (j : ℕ) → slot_at cleared j ≡ (if i == j then none else view P T table t j) = λ j.
        slot_at-emplace row none i j (row_at_ref-length row i r h)
        ∙ ap (λ w. if i == j then none else slot_at w j) (sym old) in
      elim (Bool-cases (all_null cleared)) [
        | inl k ↦
            let none_left : (j : ℕ) → none ≡ (if i == j then none else view P T table t j) =
              λ j. sym (all_null-slot_at cleared j k) ∙ slots j in
            rw k (
              delete-TableOk table t ok,
              view-SetsRow table (T.delete table t) t [] i none (delete-SetsRow table t ok.distinct)
                  none_left,
            )
        | inr k ↦ rw k (
          update-TableOk table t cleared row ok e k,
          view-SetsRow table (T.update table t cleared) t cleared i none
              (update-SetsRow table t cleared row e) slots,
        )
      ]
