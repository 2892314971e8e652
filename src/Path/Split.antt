-- ===== src/Path/Split.antt =====
-- The names that fskit_path_split and the path resolver cut out of a path.
pub mod Cut
use mathlib.Core.List.{append-nil, append_assoc}
use fskit.Base.{
  ℕ, zero, suc, ◌+◌, ◌-◌, ◌≡◌, refl, inl, inr, sym, ap, ◌∙◌, subst, true, false, ◌&&◌, not, List,
  [], ◌∷◌, ◌++◌, arith, ◌==◌, if◌then◌else◌, length, take, Bool-cases, and-true,
}
use fskit.Base.Bytes.{Str, slash, at, str_eq, is_empty, dot, no_slash}
use fskit.Path.{
  path_split, split_from, add_name, count_names, split_slots, names_of, skip_dots, fullpath,
}

-- A name that can stand between two slashes.
abbrev pub IsName : Str → Type 0
IsName n = (is_empty n ≡ false) × (no_slash n ≡ true)

abbrev pub AllNames : List Str → Type 0
AllNames [] = Unit {0}
AllNames (n ∷ ns) = IsName n × AllNames ns

no_slash-append : (s t : Str) → no_slash (s ++ t) ≡ (no_slash s && no_slash t)
no_slash-append [] t = refl
no_slash-append (c ∷ s) t = rw (no_slash-append s t) (ground arith)

add_name-AllNames :
    (n : Str) (ns : List Str) → no_slash n ≡ true → AllNames ns → AllNames (add_name n ns)
unfolding add_name
add_name-AllNames [] ns h a = a
add_name-AllNames (c ∷ n) ns h a = ((refl, h), a)

split_from-slash :
    (name : Str) (c : ℕ) (s : Str)
    → (c == slash) ≡ true
    → split_from name (c ∷ s) ≡ add_name name (split_from [] s)
unfolding split_from
split_from-slash name c s e = rw (e, split_from)

split_from-byte :
    (name : Str) (c : ℕ) (s : Str)
    → (c == slash) ≡ false
    → split_from name (c ∷ s) ≡ split_from (name ++ c ∷ []) s
unfolding split_from
split_from-byte name c s e = rw (e, split_from)

split_from-AllNames : (name s : Str) → no_slash name ≡ true → AllNames (split_from name s)
split_from-AllNames name [] h = unfold split_from in add_name-AllNames name [] h tt
split_from-AllNames name (c ∷ s) h = elim (Bool-cases (c == slash)) [
  | inl e ↦
      rw (split_from-slash name c s e)
        (add_name-AllNames name (split_from [] s) h (split_from-AllNames [] s refl))
  | inr e ↦ rw (split_from-byte name c s e) (
      split_from-AllNames (name ++ c ∷ []) s (rw (no_slash-append name (c ∷ []), h) (ground arith)))
]

pub path_split-AllNames : (path : Str) → AllNames (path_split path)
unfolding path_split
path_split-AllNames path = split_from-AllNames [] path refl

length-add_name :
    (n : Str) (ns : List Str) → length (add_name n ns) ≡ (if is_empty n then 0 else 1) + length ns
unfolding add_name
length-add_name [] ns = omega arith
length-add_name (c ∷ n) ns = omega arith

is_empty-snoc : (name : Str) (c : ℕ) → is_empty (name ++ c ∷ []) ≡ false
is_empty-snoc [] c = refl
is_empty-snoc (x ∷ name) c = refl

length-split_from :
    (name s : Str)
    → length (split_from name s)
      ≡ (if is_empty name then 0 else 1) + count_names (not (is_empty name)) s
unfolding count_names
length-split_from name [] = unfold split_from in length-add_name name []
length-split_from name (c ∷ s) = elim (Bool-cases (c == slash)) [
  | inl e ↦
      rw (split_from-slash name c s e)
        (ground (arith, e, length-add_name name (split_from [] s), length-split_from [] s))
  | inr e ↦
      let rest = length-split_from (name ++ c ∷ []) s in
      rw (split_from-byte name c s e) (ground (arith, e, rest, is_empty-snoc name c))
]

-- The second pass stores exactly as many names as the first counted.
pub length-path_split : (path : Str) → length (path_split path) + 1 ≡ split_slots path
unfolding path_split split_slots
length-path_split path = omega (arith, length-split_from [] path)

-- The path of a list of names: a slash in front of each.
unfoldable pub spell : List Str → Str
spell [] = []
spell (n ∷ ns) = slash ∷ (n ++ spell ns)

split_from-name :
    (name n rest : Str)
    → no_slash n ≡ true
    → split_from name (n ++ slash ∷ rest) ≡ add_name (name ++ n) (split_from [] rest)
split_from-name name [] rest h = rw append-nil (split_from-slash name slash rest refl)
split_from-name name (c ∷ n) rest h =
    let p = and-true (not (c == slash)) (no_slash n) h in
    let e : (c == slash) ≡ false = ground arith in
    split_from-byte name c (n ++ slash ∷ rest) e
    ∙ split_from-name (name ++ c ∷ []) n rest p.1
    ∙ ap (λ u. add_name u (split_from [] rest)) (append_assoc name (c ∷ []) n)

split_from-last : (name n : Str) → no_slash n ≡ true → split_from name n ≡ add_name (name ++ n) []
split_from-last name [] h = unfold split_from in rw append-nil
split_from-last name (c ∷ n) h =
    let p = and-true (not (c == slash)) (no_slash n) h in
    let e : (c == slash) ≡ false = ground arith in
    split_from-byte name c n e
    ∙ split_from-last (name ++ c ∷ []) n p.1
    ∙ ap (λ u. add_name u []) (append_assoc name (c ∷ []) n)

add_name-cons : (n : Str) (ns : List Str) → is_empty n ≡ false → add_name n ns ≡ n ∷ ns
unfolding add_name
add_name-cons [] ns h = cc
add_name-cons (c ∷ n) ns h = refl

-- Behind a first slash.
split_from-spell :
    (n : Str) (ns : List Str) → AllNames (n ∷ ns) → split_from [] (n ++ spell ns) ≡ n ∷ ns
unfolding spell
split_from-spell n [] ((h, k), a) = rw append-nil (split_from-last [] n k ∙ add_name-cons n [] h)
split_from-spell n (m ∷ ns) ((h, k), a) =
    split_from-name [] n (m ++ spell ns) k
    ∙ add_name-cons n (split_from [] (m ++ spell ns)) h
    ∙ ap (λ u. n ∷ u) (split_from-spell m ns a)

-- A path that is spelled from names splits into these names.
pub path_split-spell : (ns : List Str) → AllNames ns → path_split (spell ns) ≡ ns
unfolding path_split spell
path_split-spell [] a = unfold split_from add_name in refl
path_split-spell (n ∷ ns) a =
    split_from-slash [] slash (n ++ spell ns) refl ∙ unfold add_name in split_from-spell n ns a

add_name-append : (n : Str) (xs ys : List Str) → add_name n (xs ++ ys) ≡ add_name n xs ++ ys
unfolding add_name
add_name-append [] xs ys = refl
add_name-append (c ∷ n) xs ys = refl

split_from-append :
    (name s t : Str) → split_from name (s ++ slash ∷ t) ≡ split_from name s ++ split_from [] t
split_from-append name [] t =
    split_from-slash name slash t refl
    ∙ unfold split_from in add_name-append name [] (split_from [] t)
split_from-append name (c ∷ s) t = elim (Bool-cases (c == slash)) [
  | inl e ↦
      rw
        (
          split_from-slash name c (s ++ slash ∷ t) e,
          split_from-slash name c s e,
          split_from-append [] s t,
        )
        (add_name-append name (split_from [] s) (split_from [] t))
  | inr e ↦
      rw (split_from-byte name c (s ++ slash ∷ t) e, split_from-byte name c s e)
        (split_from-append (name ++ c ∷ []) s t)
]

skip_dots-append : (xs ys : List Str) → skip_dots (xs ++ ys) ≡ skip_dots xs ++ skip_dots ys
unfolding skip_dots
skip_dots-append [] ys = refl
skip_dots-append (x ∷ xs) ys = ground (arith, skip_dots-append xs ys)

-- A text that ends in a slash, cut before it.
cut_last :
    (s : Str) (n : ℕ) → suc n ≡ length s → (at s n == slash) ≡ true → s ≡ take n s ++ slash ∷ []
cut_last [] n e h = absurd (omega arith)
cut_last (c ∷ []) zero e h = ground arith
cut_last (c ∷ []) (suc n) e h = absurd (omega arith)
cut_last (c ∷ d ∷ s) zero e h = absurd (omega arith)
cut_last (c ∷ d ∷ s) (suc n) e h = ap (λ u. c ∷ u) (cut_last (d ∷ s) n (omega arith) h)

pub last_slash :
    (s : Str) → (at s (length s - 1) == slash) ≡ true → s ≡ take (length s - 1) s ++ slash ∷ []
last_slash [] h = cc
last_slash (c ∷ s) h = cut_last (c ∷ s) (length (c ∷ s) - 1) (omega arith) h

skip_dots-final_dot :
    (t : Str)
    → skip_dots (path_split ((t ++ slash ∷ []) ++ dot)) ≡ skip_dots (path_split (t ++ slash ∷ []))
unfolding path_split skip_dots
skip_dots-final_dot t =
    rw (append_assoc t (slash ∷ []) dot, split_from-append [] t dot, split_from-append [] t [])
      (skip_dots-append (split_from [] t) (dot ∷ []) ∙ sym (skip_dots-append (split_from [] t) []))

fullpath-dot :
    (path : Str) → (at path (length path - 1) == slash) ≡ true → fullpath path dot ≡ path ++ dot
unfolding fullpath
fullpath-dot path h = ground arith

-- The "." that the resolver appends to a path with a final slash changes no name.
pub names_of-path_split : (path : Str) → names_of path ≡ skip_dots (path_split path)
unfolding names_of
names_of-path_split path = elim (Bool-cases (at path (length path - 1) == slash)) [
  | inl e ↦
      rw (e, fullpath-dot path e)
        (subst (λ u. skip_dots (path_split (u ++ dot)) ≡ skip_dots (path_split u))
          (sym (last_slash path e)) (skip_dots-final_dot (take (length path - 1) path)))
  | inr e ↦ rw e
]

-- The resolver's names are not empty, hold no slash, and are not ".".
abbrev pub AllWalked : List Str → Type 0
AllWalked [] = Unit {0}
AllWalked (n ∷ ns) = IsName n × (str_eq n dot ≡ false) × AllWalked ns

skip_dots-AllWalked : (ns : List Str) → AllNames ns → AllWalked (skip_dots ns)
unfolding skip_dots
skip_dots-AllWalked [] a = tt
skip_dots-AllWalked (n ∷ ns) a = ground (arith, skip_dots-AllWalked ns)

pub names_of-AllWalked : (path : Str) → AllWalked (names_of path)
names_of-AllWalked path =
    rw (names_of-path_split path) (skip_dots-AllWalked (path_split path) (path_split-AllNames path))
