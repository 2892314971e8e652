-- ===== src/Route/Groups.antt =====
-- The groups of a match: what a callback is given as its arguments.
use fskit.Base.{
  ltb, List, if◌then◌else◌, ◌⊎◌, refl, ℕ, zero, suc, ◌+◌, ◌<◌, ◌≤◌, ◌≡◌, sym, ap, ◌∙◌, subst, inl,
  inr, true, false, some, [], ◌∷◌, arith, length, get_or, Bool-cases,
}
use fskit.Base.Bytes.{Str}
use fskit.Route.{
  Posix, Span, Metadata, PathRoute, groups, is_set, substring, group_at, collect, matched_metadata,
  whole, match_regex,
}

collect_set :
    (m : ℕ → Span) (path : Str) (left i : ℕ)
    → is_set (m i) ≡ true
    → collect m path (suc left) i ≡ substring path (m i) ∷ collect m path left (suc i)
unfolding collect
collect_set m path left i h = ground (arith, h)

collect_unset :
    (m : ℕ → Span) (path : Str) (left i : ℕ)
    → is_set (m i) ≡ false
    → collect m path (suc left) i ≡ []
unfolding collect
collect_unset m path left i h = ground (arith, h)

-- No more arguments than rounds.
length-collect_le : (m : ℕ → Span) (path : Str) (left i : ℕ) → length (collect m path left i) ≤ left
length-collect_le m path zero i = unfold collect in omega arith
length-collect_le m path (suc left) i = elim (Bool-cases (is_set (m i))) [
  | inl e ↦ rw (collect_set m path left i e) (omega (arith, length-collect_le m path left (suc i)))
  | inr e ↦ rw (collect_unset m path left i e) (omega arith)
]

get_or-collect :
    (m : ℕ → Span) (path : Str) (left i j : ℕ)
    → j < length (collect m path left i)
    → get_or (collect m path left i) j [] ≡ substring path (m (i + j))
get_or-collect m path zero i j h = absurd (unfold collect in omega arith)
get_or-collect m path (suc left) i zero h = elim (Bool-cases (is_set (m i))) [
  | inl e ↦
      ap (λ w. get_or w 0 []) (collect_set m path left i e)
      ∙ ap (λ w. substring path (m w)) (omega arith)
  | inr e ↦ absurd (omega (arith, ap length (collect_unset m path left i e)))
]
get_or-collect m path (suc left) i (suc j) h = elim (Bool-cases (is_set (m i))) [
  | inl e ↦
      let rest = collect m path left (suc i) in
      let longer : length (collect m path (suc left) i) ≡ suc (length rest) =
        ap length (collect_set m path left i e) in
      ap (λ w. get_or w (suc j) []) (collect_set m path left i e)
      ∙ get_or-collect m path left (suc i) j (omega arith)
      ∙ ap (λ w. substring path (m w)) (omega arith)
  | inr e ↦ absurd (omega (arith, ap length (collect_unset m path left i e)))
]

-- The loop ends only at a group that is not set, or when the rounds are used up.
collect-end :
    (m : ℕ → Span) (path : Str) (left i : ℕ)
    → (length (collect m path left i) ≡ left)
      ⊎ (is_set (m (i + length (collect m path left i))) ≡ false)
collect-end m path zero i = inl (unfold collect in refl)
collect-end m path (suc left) i = elim (Bool-cases (is_set (m i))) [
  | inl e ↦
      let rest = collect m path left (suc i) in
      let longer : length (collect m path (suc left) i) ≡ suc (length rest) =
        ap length (collect_set m path left i e) in
      elim (collect-end m path left (suc i)) [
        | inl h ↦ inl (longer ∙ ap suc h)
        | inr h ↦
            let here : suc i + length rest ≡ i + length (collect m path (suc left) i) =
              omega (arith, longer) in
            inr (subst (λ w. is_set (m w) ≡ false) here h)
      ]
  | inr e ↦
      let here : i ≡ i + length (collect m path (suc left) i) =
        omega (arith, ap length (collect_unset m path left i e)) in
      inr (subst (λ w. is_set (m w) ≡ false) here e)
]

get_or-nil : (l : List Str) (j : ℕ) → ltb j (length l) ≡ false → get_or l j [] ≡ []
get_or-nil [] j h = refl
get_or-nil (x ∷ l) zero h = absurd (ground (arith, h))
get_or-nil (x ∷ l) (suc j) h = get_or-nil l j (ground (arith, h))

get_or_beyond :
    (m : ℕ → Span) (path : Str) (left i j : ℕ)
    → get_or (collect m path left i) j []
      ≡ (if ltb j (length (collect m path left i)) then substring path (m (i + j)) else [])
get_or_beyond m path left i j = elim (Bool-cases (ltb j (length (collect m path left i)))) [
  | inl h ↦ rw h (get_or-collect m path left i j (ground (arith, h)))
  | inr h ↦ rw h (get_or-nil (collect m path left i) j h)
]

module _ (P : Posix) where
  open P use {Regex, regexec}

  -- What a match with memory consists of.
  match_regex_groups :
      (route : PathRoute Regex) (path : Str) (m : ℕ → Span) (metadata : Metadata)
      → regexec route.path_regex path route.num_expected_matches ≡ some m
      → match_regex P true route path ≡ groups metadata
      → (whole P path (group_at route.num_expected_matches m 0) ≡ true)
        × (metadata
            ≡ matched_metadata
                (group_at route.num_expected_matches m)
                path
                route.num_expected_matches)
  unfolding match_regex
  match_regex_groups route path m metadata e h =
      let n = route.num_expected_matches in
      elim (Bool-cases (whole P path (group_at n m 0))) [
        | inl k ↦ (k, ground (arith, e, k))
        | inr k ↦ absurd (ground (arith, e, k))
      ]

  -- A route that matches a path: the callback gets the path, and as arguments the texts of the groups
  -- from group 1 on, in their order: of all groups that were counted, or of those before the first one
  -- that is not set. The number of arguments that it is told is one more than there are.
  pub match_regex_argv :
      (route : PathRoute Regex) (path : Str) (m : ℕ → Span) (metadata : Metadata) (j : ℕ)
      → regexec route.path_regex path route.num_expected_matches ≡ some m
      → match_regex P true route path ≡ groups metadata
      → (metadata.path ≡ path)
        × (metadata.argc ≡ suc (length metadata.argv))
        × ((length metadata.argv ≡ route.num_expected_matches)
            ⊎ (is_set (group_at route.num_expected_matches m (suc (length metadata.argv))) ≡ false))
        × (length metadata.argv ≤ route.num_expected_matches)
        × (get_or metadata.argv j [] ≡ (
            if ltb j (length metadata.argv)
            then substring path (group_at route.num_expected_matches m (suc j))
            else []))
  unfolding matched_metadata
  match_regex_argv route path m metadata j e h =
      let n = route.num_expected_matches in
      let shape = (match_regex_groups route path m metadata e h).1 in
      let argv : metadata.argv ≡ collect (group_at n m) path n 1 =
        ap (λ (d : Metadata). d.argv) shape in
      (
        ap (λ (d : Metadata). d.path) shape,
        ap (λ (d : Metadata). d.argc) shape ∙ ap (λ w. suc (length w)) (sym argv),
        subst (λ w. (length w ≡ n) ⊎ (is_set (group_at n m (suc (length w))) ≡ false)) (sym argv)
            (subst
              (λ k.
                (length (collect (group_at n m) path n 1) ≡ n) ⊎ (is_set (group_at n m k) ≡ false))
              (omega arith) (collect-end (group_at n m) path n 1)),
        subst (λ w. length w ≤ n) (sym argv) (length-collect_le (group_at n m) path n 1),
        ap (λ w. get_or w j []) argv
            ∙ get_or_beyond (group_at n m) path n 1 j
            ∙ ap
                (λ w.
                  if ltb j (length (collect (group_at n m) path n 1))
                  then substring path (group_at n m w)
                  else [])
                (omega arith)
            ∙ ap (λ w. if ltb j (length w) then substring path (group_at n m (suc j)) else [])
                (sym argv),
      )
