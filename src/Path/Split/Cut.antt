-- ===== src/Path/Split/Cut.antt =====
-- Cutting the first name off a path.
use mathlib.Core.List.{append-nil}
use fskit.Base.{
  ℕ, ◌≡◌, refl, sym, ap, ◌∙◌, subst, inl, inr, true, List, [], ◌∷◌, ◌++◌, arith, ◌==◌,
  if◌then◌else◌, Bool-cases,
}
use fskit.Base.Bytes.{Str, slash, is_empty, no_slash}
use fskit.Path.{path_split, split_from, add_name}
use fskit.Path.Split.{split_from-slash, split_from-name, split_from-last}
use fskit.Resolve.Iterator.{skip_slashes, name_part, after_name}

pub path_split-nil : path_split [] ≡ []
unfolding path_split split_from add_name
path_split-nil = refl

pub path_split-skip_slashes : (s : Str) → path_split (skip_slashes s) ≡ path_split s
path_split-skip_slashes [] = refl
path_split-skip_slashes (c ∷ s) = elim (Bool-cases (c == slash)) [
  | inl e ↦ rw e (path_split-skip_slashes s ∙ sym (slash_split c s e))
  | inr e ↦ rw e refl
]
  where
    slash_split : (b : ℕ) (t : Str) → (b == slash) ≡ true → path_split (b ∷ t) ≡ path_split t
    slash_split b t h = unfold path_split add_name in split_from-slash [] b t h

name_part-no_slash : (s : Str) → no_slash (name_part s) ≡ true
name_part-no_slash [] = refl
name_part-no_slash (c ∷ s) = elim (Bool-cases (c == slash)) [
  | inl e ↦ rw e refl
  | inr e ↦ rw (e, e) (name_part-no_slash s)
]

-- What stands behind a name: nothing, or a slash.
pub data Behind : Str → Type 0 where
  nothing : Behind []
  a_slash : (t : Str) → Behind (slash ∷ t)

pub after_name-Behind : (s : Str) → Behind (after_name s)
after_name-Behind [] = nothing
after_name-Behind (c ∷ s) = elim (Bool-cases (c == slash)) [
  | inl e ↦
      let same : slash ≡ c = ground arith in rw e (subst (λ w. Behind (w ∷ s)) same (a_slash s))
  | inr e ↦ rw e (after_name-Behind s)
]

pub name_part-append : (s : Str) → s ≡ name_part s ++ after_name s
name_part-append [] = refl
name_part-append (c ∷ s) = elim (Bool-cases (c == slash)) [
  | inl e ↦ rw e refl
  | inr e ↦ rw e (ap (λ w. c ∷ w) (name_part-append s))
]

split-Behind :
    (n t : Str)
    → no_slash n ≡ true
    → Behind t
    → path_split (n ++ t) ≡ add_name n (path_split (skip_slashes t))
unfolding path_split
split-Behind n _ h nothing =
    ap (split_from []) (append-nil n) ∙ split_from-last [] n h ∙ unfold split_from add_name in refl
split-Behind n _ h (a_slash t) =
    split_from-name [] n t h ∙ ap (add_name n) (sym (path_split-skip_slashes t))

add_name_if : (n : Str) (ns : List Str) → add_name n ns ≡ (if is_empty n then ns else n ∷ ns)
unfolding add_name
add_name_if [] ns = refl
add_name_if (c ∷ n) ns = refl

-- A path splits into its first name, if that is not empty, and the names behind it.
pub path_split-name_part :
    (s : Str)
    → path_split s ≡ (
        if is_empty (name_part s)
        then path_split (skip_slashes (after_name s))
        else name_part s ∷ path_split (skip_slashes (after_name s)))
path_split-name_part s =
    ap path_split (name_part-append s)
    ∙ split-Behind (name_part s) (after_name s) (name_part-no_slash s) (after_name-Behind s)
    ∙ add_name_if (name_part s) (path_split (skip_slashes (after_name s)))
