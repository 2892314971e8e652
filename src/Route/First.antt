-- ===== src/Route/First.antt =====
-- Which callback a call of fskit_route_call runs: that of the first route that matches.
use fskit.Base.{
  ℕ, zero, suc, ◌<◌, ◌≡◌, ◌≢◌, ◌↔◌, refl, sym, ap, ◌∙◌, subst, inl, inr, Bool, true, false, ◌&&◌,
  Option, none, some, [], ◌∷◌, arith, if◌then◌else◌, length, Option-cases, and-true,
}
use fskit.Base.Int.{ℤ}
use fskit.Base.Bytes.{Str}
use fskit.Calls.{RouteType, ran}
use fskit.Route.{
  Posix, Metadata, PathRoute, Slots, Match, unmatched, null_slot, matched, RegexResult, mismatch,
  groups, match_regex, is_defined, first_match, safe_dispatch, finish_call, route_match, route_call,
}
use fskit.Route.Rows.{RowTree}
use fskit.Route.View.{slot_at}
use fskit.Route.Registry.{view, row_of}

module _ (P : Posix) where
  open P use {Regex}

  abbrev given : RegexResult → Option Metadata
  given (mismatch _) = none
  given (groups metadata) = some metadata

  -- What a route makes of a path, if it is defined and the path matches.
  abbrev pub attempt : PathRoute Regex → Str → Option Metadata
  attempt route path = if is_defined P route then given (match_regex P true route path) else none

  -- The slot holds a route that does not match.
  abbrev pub passes : Str → Option (PathRoute Regex) → Bool
  passes path none = false
  passes path (some route) = elim (attempt route path) [ none ↦ true | some _ ↦ false ]

  -- The first `n` slots do.
  abbrev pub all_pass : Str → (ℕ → Option (PathRoute Regex)) → ℕ → Bool
  all_pass path slots zero = true
  all_pass path slots (suc n) = passes path (slots 0) && all_pass path (λ j. slots (suc j)) n

  first_match-some :
      (route : PathRoute Regex) (rest : Slots Regex) (path : Str)
      → first_match P true (some route ∷ rest) path
        ≡ elim (attempt route path) as (λ _. Match Regex) [
          | none ↦ first_match P true rest path
          | some metadata ↦ matched route metadata
        ]
  unfolding first_match
  first_match-some route rest path = ground arith

  pub first_match_pass :
      (route : PathRoute Regex) (rest : Slots Regex) (path : Str)
      → attempt route path ≡ none
      → first_match P true (some route ∷ rest) path ≡ first_match P true rest path
  first_match_pass route rest path h = first_match-some route rest path ∙ rw h refl

  first_match_hit :
      (route : PathRoute Regex) (rest : Slots Regex) (path : Str) (metadata : Metadata)
      → attempt route path ≡ some metadata
      → first_match P true (some route ∷ rest) path ≡ matched route metadata
  first_match_hit route rest path metadata h = first_match-some route rest path ∙ rw h refl

  pub passes_iff :
      (route : PathRoute Regex) (path : Str)
      → (passes path (some route) ≡ true) ↔ (attempt route path ≡ none)
  passes_iff route path = elim (Option-cases (attempt route path)) [
    | inl e ↦ rw (e, passes) ((λ _. refl), (λ _. refl))
    | inr (m, e) ↦ rw (e, passes) ((λ k. cc), (λ k. cc))
  ]

  pass_one :
      (route : PathRoute Regex) (path : Str)
      → attempt route path ≡ none
      → passes path (some route) ≡ true
  pass_one route path h = (passes_iff route path).1 h

  hit_one :
      (route : PathRoute Regex) (path : Str) (metadata : Metadata)
      → attempt route path ≡ some metadata
      → passes path (some route) ≢ true
  hit_one route path metadata h k = cc (h, (passes_iff route path).0 k)

  -- a first match at slot `i`
  abbrev pub MatchesAt :
      (ℕ → Option (PathRoute Regex)) → Str → PathRoute Regex → Metadata → ℕ → Type 0
  MatchesAt slots path route metadata i =
      (all_pass path slots i ≡ true) × (slots i ≡ some route) × (attempt route path ≡ some metadata)

  pub first_match_at :
      (row : Slots Regex) (path : Str) (route : PathRoute Regex) (metadata : Metadata) (i : ℕ)
      → MatchesAt (slot_at row) path route metadata i
      → first_match P true row path ≡ matched route metadata
  first_match_at [] path route metadata i (a, b, c) = cc
  first_match_at (none ∷ row) path route metadata zero (a, b, c) = cc
  first_match_at (none ∷ row) path route metadata (suc i) (a, b, c) = cc
  first_match_at (some r ∷ row) path route metadata zero (a, b, c) =
      let same : r ≡ route = ground arith in
      first_match_hit r row path metadata (ap (λ w. attempt w path) same ∙ c)
      ∙ ap (λ w. matched w metadata) same
  first_match_at (some r ∷ row) path route metadata (suc i) (a, b, c) =
      let both = and-true (passes path (some r)) (all_pass path (slot_at row) i) a in
      first_match_pass r row path ((passes_iff r path).0 both.0)
      ∙ first_match_at row path route metadata i (both.1, b, c)

  -- Where the loop stops.
  abbrev pub Stops : Slots Regex → Str → Match Regex → Type 0
  Stops row path unmatched = all_pass path (slot_at row) (length row) ≡ true
  Stops row path null_slot =
      (i : ℕ) × (i < length row) × (all_pass path (slot_at row) i ≡ true) × (slot_at row i ≡ none)
  Stops row path (matched route metadata) = (i : ℕ) × MatchesAt (slot_at row) path route metadata i

  Stops-pass :
      (r : PathRoute Regex) (row : Slots Regex) (path : Str) (m : Match Regex)
      → passes path (some r) ≡ true
      → Stops row path m
      → Stops (some r ∷ row) path m
  Stops-pass r row path unmatched p h = rw p h
  Stops-pass r row path null_slot p (i, below, a, b) = (suc i, (omega arith), rw p a, b)
  Stops-pass r row path (matched route metadata) p (i, at) = (suc i, (rw p at.0, at.1, at.2))

  pub first_match-Stops :
      (row : Slots Regex) (path : Str) → Stops row path (first_match P true row path)
  first_match-Stops [] path = unfold first_match in refl
  first_match-Stops (none ∷ row) path = unfold first_match in (0, (omega arith), refl, refl)
  first_match-Stops (some r ∷ row) path = elim (Option-cases (attempt r path)) [
    | inl e ↦ subst (Stops (some r ∷ row) path) (sym (first_match_pass r row path e)) (
        Stops-pass r row path (first_match P true row path) (pass_one r path e)
          (first_match-Stops row path))
    | inr (m, e) ↦
        subst (Stops (some r ∷ row) path) (sym (first_match_hit r row path m e))
          (0, (refl, refl, e))
  ]

module _ (P : Posix) (T : RowTree (Slots P.Regex)) where
  open P use {Regex}

  route_match_row :
      (table : T.Tree) (t : RouteType) (path : Str)
      → route_match P T true table t path ≡ first_match P true (row_of P T table t) path
  unfolding route_match
  route_match_row table t path = elim (Option-cases (T.find table t)) [
    | inl e ↦ ground (arith, e)
    | inr (row, e) ↦ ground (arith, e)
  ]

  pub route_call_row :
      (table : T.Tree) (t : RouteType) (path : Str)
      → route_call P T true table t path
        ≡ finish_call P (first_match P true (row_of P T table t) path)
  unfolding route_call
  route_call_row table t path = ap (finish_call P) (route_match_row table t path)

  abbrev pub CalledAt : T.Tree → RouteType → Str → ℤ → ℕ → Type 0
  CalledAt table t path code i =
      (route : PathRoute Regex) × (metadata : Metadata) × MatchesAt P (view P T table t) path route
        metadata i
      × (code ≡ safe_dispatch P route metadata)

  ran-CalledAt :
      (table : T.Tree) (t : RouteType) (path : Str) (code : ℤ) (m : Match Regex)
      → Stops P (row_of P T table t) path m
      → finish_call P m ≡ ran code
      → (i : ℕ) × CalledAt table t path code i
  unfolding finish_call
  ran-CalledAt table t path code unmatched s h = cc
  ran-CalledAt table t path code null_slot s h = cc
  ran-CalledAt table t path code (matched route metadata) (i, at) h =
      (i, (route, metadata, at, ground arith))

  -- A call on a table runs a callback exactly if some id has a route that is defined and matches the
  -- whole path, and all ids below have routes that are not or do not. The code is that of the
  -- callback of the least such id, on the path and its groups, or -ENOSYS if the callback is NULL.
  -- Memory is there.
  pub route_call-ran_iff :
      (table : T.Tree) (t : RouteType) (path : Str) (code : ℤ)
      → (route_call P T true table t path ≡ ran code) ↔ ((i : ℕ) × CalledAt table t path code i)
  unfolding finish_call
  route_call-ran_iff table t path code = (
    (λ h.
        ran-CalledAt table t path code (first_match P true (row_of P T table t) path)
          (first_match-Stops P (row_of P T table t) path) (sym (route_call_row table t path) ∙ h)),
    (λ (i, (route, metadata, at, c)).
        route_call_row table t path
        ∙ ap (finish_call P) (first_match_at P (row_of P T table t) path route metadata i at)
        ∙ ap ran (sym c)),
  )
