-- ===== src/Route/Registry.antt =====
-- What declaring, undeclaring and erasing routes promises, on the table seen as a function from types
-- and ids to routes, and that the table of libfskit/route.c keeps the promise.
pub mod Steps
pub mod Refines
use mathlib.Core.Path.{fun_ext}
use fskit.Base.{
  ℕ, zero, suc, ◌<◌, ◌≡◌, ◌≢◌, refl, sym, ap, ◌∙◌, subst, ◌⊎◌, inl, inr, Bool, true, false, ◌&&◌,
  Option, none, some, List, [], ◌∷◌, arith, ◌==◌, if◌then◌else◌, length, Bool-cases, Option-cases,
}
use fskit.Base.Int.{ℤ, pos, negsuc}
use fskit.Base.Bytes.{Str}
use fskit.Calls.{RouteType}
use fskit.Errno.{ok_rc, einval}
use fskit.Route.{
  Posix, Method, PathRoute, Slots, SlotRead, missing, out_of_bounds, slot, find_empty, row_at_ref,
  row_emplace, row_insert, all_null, num_expected_matches, path_route_init, table_insert,
  table_remove, clear_slot, route_decl, route_undecl, undecl_code, erase_all,
}
use fskit.Route.Rows.{RowTree, same_type}
use fskit.Route.View.{
  same_type_sound, same_type_refl, join, slot_at, slot_at-emplace, all_null-slot_at, Inserted,
  row_insert-Inserted, all_null_route,
}

-- The calls that change the table.
pub data Act : Type 0 where
  declare : Str → RouteType → Option Method → ℕ → Act
  undeclare : RouteType → ℤ → Act
  erase : RouteType → Act

module _ (P : Posix) where
  open P use {Regex, regcomp}

  abbrev pub View : Type 0
  View = RouteType → ℕ → Option (PathRoute Regex)

  abbrev pub update : View → RouteType → ℕ → Option (PathRoute Regex) → View
  update v t i r u j = if same_type t u && (i == j) then r else v u j

  abbrev pub clear : View → RouteType → View
  clear v t u j = if same_type t u then none else v u j

  abbrev pub is_just : Option (PathRoute Regex) → Bool
  is_just none = false
  is_just (some _) = true

  -- All ids below `i` are taken.
  abbrev pub taken_below : View → RouteType → ℕ → Bool
  taken_below v t zero = true
  taken_below v t (suc i) = is_just (v t i) && taken_below v t i

  -- the route of a declaration
  abbrev pub new_route : Str → Regex → RouteType → Option Method → ℕ → PathRoute Regex
  new_route regex_str path_regex route_type method consistency_discipline = record {
    path_regex_str = some regex_str;
    num_expected_matches = num_expected_matches regex_str;
    path_regex = path_regex;
    route_type = route_type;
    method = method;
    consistency_discipline = consistency_discipline;
  }

  -- A regular expression that compiles takes the least id that is free.
  abbrev pub Declared :
      View → RouteType → (Regex → PathRoute Regex) → Option Regex → Option ℤ → View → Type 0
  Declared v t made none code v' = (code ≡ some einval) × (v' ≡ v)
  Declared v t made (some re) code v' =
      (i : ℕ) × (code ≡ some (pos i))
      × (v t i ≡ none)
      × (taken_below v t i ≡ true)
      × (v' ≡ update v t i (some (made re)))

  -- An id that is taken becomes free.
  abbrev pub Undeclared : View → RouteType → ℕ → Option (PathRoute Regex) → Option ℤ → View → Type 0
  Undeclared v t i none code v' = (code ≡ some einval) × (v' ≡ v)
  Undeclared v t i (some _) code v' = (code ≡ some ok_rc) × (v' ≡ update v t i none)

  -- An erasure frees all ids of a type. A negative id fails with -EINVAL if the type has no routes, and
  -- otherwise a slot is read out of bounds.
  abbrev pub Promised : View → Act → Option ℤ → View → Type 0
  Promised v (declare s t m d) code v' =
      Declared v t (λ re. new_route s re t m d) (regcomp s) code v'
  Promised v (undeclare t (pos i)) code v' = Undeclared v t i (v t i) code v'
  Promised v (undeclare t (negsuc _)) code v' =
      (((code ≡ none) × (i : ℕ) × (v t i ≢ none))
        ⊎ ((code ≡ some einval) × ((i : ℕ) → v t i ≡ none)))
      × (v' ≡ v)
  Promised v (erase t) code v' =
      (((code ≡ some einval) × ((i : ℕ) → v t i ≡ none))
        ⊎ ((code ≡ some ok_rc) × (i : ℕ) × (v t i ≢ none)))
      × (v' ≡ clear v t)

  -- A run ends at a read out of bounds.
  abbrev pub PromisedRun : View → List Act → List (Option ℤ) → View → Type 0
  PromisedRun v [] codes v' = (codes ≡ []) × (v' ≡ v)
  PromisedRun v (act ∷ acts) [] v' = ⊥
  PromisedRun v (act ∷ acts) (none ∷ codes) v' = Promised v act none v' × (codes ≡ [])
  PromisedRun v (act ∷ acts) (some code ∷ codes) v' =
      (w : View) × Promised v act (some code) w × PromisedRun w acts codes v'

module _ (P : Posix) (T : RowTree (Slots P.Regex)) where
  open P use {Regex}

  abbrev pub row_of : T.Tree → RouteType → Slots Regex
  row_of table t = elim (T.find table t) [ none ↦ [] | some row ↦ row ]

  abbrev pub view : T.Tree → View P
  view table t i = slot_at (row_of table t) i

  -- Types have one row each, with a route in it.
  pub record TableOk (table : T.Tree) : Type 0 where
    pub distinct : T.Distinct table
    pub used :
        (t : RouteType) (row : Slots Regex) → T.find table t ≡ some row → all_null row ≡ false

  -- A call, its code and the new table.
  unfoldable pub perform : T.Tree → Act → Option ℤ × T.Tree
  perform table (declare s t m d) =
      let out = route_decl P T true table s t m d in (some out.0, out.1)
  perform table (undeclare t handle) = route_undecl P T table t handle
  perform table (erase t) = let out = erase_all P T table t in (some out.0, out.1)

  -- Behind a read out of bounds there is nothing to say: the run ends.
  unfoldable pub perform_all : T.Tree → List Act → List (Option ℤ) × T.Tree
  perform_all table [] = ([], table)
  perform_all table (act ∷ acts) =
      let out = perform table act in
      let rest = perform_all out.1 acts in
      elim out.0 [ none ↦ (none ∷ [], out.1) | some code ↦ (some code ∷ rest.0, rest.1) ]
