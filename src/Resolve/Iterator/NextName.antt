-- ===== src/Resolve/Iterator/NextName.antt =====
-- The search for the next name finds the names that the resolver walks.
use fskit.Base.{
  ℕ, zero, suc, ◌+◌, ◌-◌, ◌<◌, ◌≤◌, ◌≡◌, ◌≢◌, refl, sym, ap, ◌∙◌, subst, inl, inr, Bool, true,
  false, not, some, List, [], ◌∷◌, arith, ◌==◌, Bool-cases, length,
}
use fskit.Base.Bytes.{Str, slash, str_eq, is_empty, dot}
use fskit.Path.{path_split, skip_dots}
use fskit.Path.Split.Cut.{path_split-nil, path_split-name_part}
use fskit.Resolve.Iterator.{skip_slashes, name_part, after_name, Scan, out_of_path, have_name, scan}

-- the names of a path that are not "."
abbrev pub names : Str → List Str
names s = skip_dots (path_split s)

pub length-skip_slashes_le : (s : Str) → length (skip_slashes s) ≤ length s
length-skip_slashes_le [] = omega arith
length-skip_slashes_le (c ∷ s) = ground (arith, length-skip_slashes_le s)

length-name_part : (s : Str) → length (name_part s) + length (after_name s) ≡ length s
length-name_part [] = refl
length-name_part (c ∷ s) = ground (arith, length-name_part s)

-- A text that starts no slash.
abbrev pub starts_name : Str → Bool
starts_name [] = true
starts_name (c ∷ s) = not (c == slash)

pub skip_slashes-starts_name : (s : Str) → starts_name (skip_slashes s) ≡ true
skip_slashes-starts_name [] = refl
skip_slashes-starts_name (c ∷ s) = ground (arith, skip_slashes-starts_name s)

abbrev rest_of : Str → Str
rest_of tmp = skip_slashes (after_name tmp)

empty_name : (tmp : Str) → starts_name tmp ≡ true → is_empty (name_part tmp) ≡ true → tmp ≡ []
empty_name [] h k = refl
empty_name (c ∷ s) h k = ground arith

-- What a search promises: no name is left, or the first of the names that are left, and the others.
abbrev pub Found : Str → Scan → Type 0
Found tmp out_of_path = names tmp ≡ []
Found tmp (have_name name rest len) =
    (names tmp ≡ name ∷ names rest) × (starts_name rest ≡ true) × (length rest < length tmp)

names_dot :
    (tmp : Str)
    → is_empty (name_part tmp) ≡ false
    → str_eq (name_part tmp) dot ≡ true
    → names tmp ≡ names (rest_of tmp)
unfolding skip_dots
names_dot tmp h k = ap skip_dots (path_split-name_part tmp) ∙ rw (h, k) refl

names_name :
    (tmp : Str)
    → is_empty (name_part tmp) ≡ false
    → str_eq (name_part tmp) dot ≡ false
    → names tmp ≡ name_part tmp ∷ names (rest_of tmp)
unfolding skip_dots
names_name tmp h k = ap skip_dots (path_split-name_part tmp) ∙ rw (h, k) refl

shorter : (tmp : Str) → is_empty (name_part tmp) ≡ false → length (rest_of tmp) < length tmp
shorter tmp h =
    let some_byte : length (name_part tmp) ≢ 0 = not_zero (name_part tmp) h in
    omega (arith, length-name_part tmp, length-skip_slashes_le (after_name tmp))
  where
    not_zero : (n : Str) → is_empty n ≡ false → length n ≢ 0
    not_zero [] e = cc
    not_zero (c ∷ n) e = omega arith

names_nil : names [] ≡ []
unfolding skip_dots
names_nil = ap skip_dots path_split-nil

Found-dot :
    (tmp rest : Str) (out : Scan)
    → names tmp ≡ names rest
    → length rest < length tmp
    → Found rest out
    → Found tmp out
Found-dot tmp rest out_of_path e less f = e ∙ f
Found-dot tmp rest (have_name name behind len) e less f = (e ∙ f.0, f.1, omega (arith, f.2))

-- With fuel for its bytes and one more, the search ends, and keeps the promise.
pub scan-Found :
    (fuel : ℕ) (tmp : Str) (len : ℕ)
    → starts_name tmp ≡ true
    → length tmp < fuel
    → (out : Scan) × (scan fuel false tmp len ≡ some out) × Found tmp out
unfolding scan
scan-Found zero tmp len h k = absurd (omega arith)
scan-Found (suc fuel) tmp len h k = elim (Bool-cases (is_empty (name_part tmp))) [
  | inl e ↦
      let same = empty_name tmp h e in
      (out_of_path, ground (arith, e, same), subst (λ w. names w ≡ []) (sym same) names_nil)
  | inr e ↦
      let less = shorter tmp e in
      elim (Bool-cases (str_eq (name_part tmp) dot)) [
        | inl d ↦
            let rest = rest_of tmp in
            let more =
              scan-Found fuel rest (len + (length tmp - length rest))
                (skip_slashes-starts_name (after_name tmp)) (omega arith) in
            (
              more.0,
              ground (arith, e, d, less, more.1),
              Found-dot tmp rest more.0 (names_dot tmp e d) less more.2,
            )
        | inr d ↦ (
          have_name (name_part tmp) (rest_of tmp) (len + (length tmp - length (rest_of tmp))),
          ground (arith, e, d, less),
          (names_name tmp e d, skip_slashes-starts_name (after_name tmp), less),
        )
      ]
]
