-- ===== src/Path/Join.antt =====
-- Taking a path apart by fskit_dirname and fskit_basename and joining it by fskit_fullpath.
use fskit.Base.{
  ℕ, zero, suc, ◌+◌, ◌-◌, ◌≡◌, refl, inl, inr, sym, ◌∙◌, subst, true, false, ◌&&◌, ◌||◌, not, some,
  [], ◌∷◌, ◌++◌, arith, ◌==◌, if◌then◌else◌, length, take, drop, length-append, get_or-append_right,
  take-append, Bool-cases, and-true,
}
use fskit.Base.Bytes.{Str, slash, at, str_eq, is_empty, no_slash, str_eq_sound}
use fskit.Path.{find_slash, dirname, dir_len, basename, basename_len, fullpath, root}

-- A byte of a text without slashes is no slash.
no_slash-at : (s : Str) (i : ℕ) → no_slash s ≡ true → (at s i == slash) ≡ false
no_slash-at [] i h = refl
no_slash-at (c ∷ s) zero h = ground arith
no_slash-at (c ∷ s) (suc i) h = no_slash-at s i ((and-true (not (c == slash)) (no_slash s) h).1)

abbrev pub below : Str → Str → Str
below front base = front ++ slash ∷ base

-- A path cut at its last slash: `front`, the slash, and a last name without slashes.
module _ (front base : Str) (clean : no_slash base ≡ true) where
  at-slash : at (below front base) (length front) ≡ slash
  at-slash =
      subst (λ i. at (below front base) i ≡ slash) {x = length front + 0} (omega arith)
        (get_or-append_right front (slash ∷ base) 0 0)

  at-behind : (k : ℕ) → at (below front base) (length front + suc k) ≡ at base k
  at-behind k = get_or-append_right front (slash ∷ base) (suc k) 0

  find_slash-last :
      (k i : ℕ) → i ≡ length front + k → find_slash (below front base) i ≡ some (length front)
  unfolding find_slash
  find_slash-last zero zero e =
      let here : length front ≡ 0 = omega arith in ground (arith, at-slash, here)
  find_slash-last (suc k) zero e = absurd (omega arith)
  find_slash-last zero (suc i) e =
      let here : length front ≡ suc i = omega arith in ground (arith, at-slash, here)
  find_slash-last (suc k) (suc i) e =
      let behind : at (below front base) (suc i) ≡ at base k =
        subst (λ j. at (below front base) j ≡ at base k) (sym e) (at-behind k) in
      ground (arith, behind, no_slash-at base k clean, find_slash-last k i (omega arith))

-- The same where the last name is not empty.
below-ne-root : (front : Str) (c : ℕ) (name : Str) → str_eq (below front (c ∷ name)) root ≡ false
below-ne-root [] c name = refl
below-ne-root (x ∷ []) c name = ground arith
below-ne-root (x ∷ y ∷ front) c name = ground arith

below-ne-nil : (front base : Str) → is_empty (below front base) ≡ false
below-ne-nil [] base = refl
below-ne-nil (x ∷ front) base = refl

length-below : (front base : Str) → length (below front base) ≡ length front + suc (length base)
length-below front base = length-append front (slash ∷ base)

module _ (front : Str) (c : ℕ) (name : Str) (clean : no_slash (c ∷ name) ≡ true) where
  last-at : (at (below front (c ∷ name)) (length (below front (c ∷ name)) - 1) == slash) ≡ false
  last-at =
      let e : length (below front (c ∷ name)) - 1 ≡ length front + suc (length name) =
        omega (arith, length-below front (c ∷ name)) in
      subst (λ i. (at (below front (c ∷ name)) i == slash) ≡ false) (sym e)
        (rw (at-behind front (c ∷ name) clean (length name))
          (no_slash-at (c ∷ name) (length name) clean))

  dir_len-below : dir_len (below front (c ∷ name)) ≡ (if is_empty front then 1 else length front)
  unfolding dir_len
  dir_len-below =
      rw
        (find_slash-last front (c ∷ name) clean (suc (length name) + 1)
          (length (below front (c ∷ name))) (omega (arith, length-below front (c ∷ name))))
        (first front)
    where
      first :
          (f : Str)
          → (if (length f == 0) && (at (below f (c ∷ name)) 0 == slash) then 1 else length f)
            ≡ (if is_empty f then 1 else length f)
      first [] = refl
      first (x ∷ f) = ground arith

  pub dirname-below : dirname (below front (c ∷ name)) ≡ (if is_empty front then root else front)
  unfolding dirname
  dirname-below = rw (below-ne-nil, below-ne-root, dir_len-below) (parts front)
    where
      parts :
          (f : Str)
          → take (if is_empty f then 1 else length f) (below f (c ∷ name))
            ≡ (if is_empty f then root else f)
      parts [] = refl
      parts (x ∷ f) = take-append (x ∷ f) (slash ∷ c ∷ name)

  basename_len-below : basename_len (below front (c ∷ name)) ≡ suc (length name)
  unfolding basename_len
  basename_len-below =
      let len = length-below front (c ∷ name) in
      let found =
        find_slash-last front (c ∷ name) clean (suc (length name))
          (length (below front (c ∷ name)) - 1) (omega (arith, len)) in
      rw (below-ne-root front c name, last-at, found) (ground (arith, len))

  behind-below : (f : Str) (k : ℕ) → k ≡ suc (length f) → drop k (below f (c ∷ name)) ≡ c ∷ name
  behind-below [] k e = rw e
  behind-below (x ∷ f) zero e = absurd (omega arith)
  behind-below (x ∷ f) (suc k) e = behind-below f k (omega arith)

  pub basename-below : basename (below front (c ∷ name)) ≡ c ∷ name
  unfolding basename
  basename-below =
      behind-below front (length (below front (c ∷ name)) - basename_len (below front (c ∷ name)))
        (omega (arith, basename_len-below, length-below front (c ∷ name)))

-- A directory's path: not empty, and only the root's ends in a slash.
abbrev pub IsDirPath : Str → Type 0
IsDirPath d = (is_empty d ≡ false) × ((str_eq d root || not (at d (length d - 1) == slash)) ≡ true)

-- The front of a path whose directory is `d`.
abbrev front_of : Str → Str
front_of d = if str_eq d root then [] else d

fullpath-front :
    (d : Str) (c : ℕ) (name : Str)
    → IsDirPath d
    → (c == slash) ≡ false
    → fullpath d (c ∷ name) ≡ below (front_of d) (c ∷ name)
unfolding fullpath
fullpath-front d c name (h, k) e = elim (Bool-cases (str_eq d root)) [
  | inl r ↦
      subst (λ u. fullpath u (c ∷ name) ≡ below (front_of u) (c ∷ name))
        (sym (str_eq_sound d root r)) (rw e refl)
  | inr r ↦ let last : (at d (length d - 1) == slash) ≡ false = ground arith in rw (r, h, last, e)
]

fullpath-tidy :
    (x : ℕ) (f : Str) (c : ℕ) (name : Str)
    → (at (x ∷ f) (length (x ∷ f) - 1) == slash) ≡ false
    → (c == slash) ≡ false
    → fullpath (x ∷ f) (c ∷ name) ≡ below (x ∷ f) (c ∷ name)
unfolding fullpath
fullpath-tidy x f c name t e = rw (t, e)

-- Joining a directory's path and a name, and taking the result apart, gives the two back.
pub fullpath-split :
    (d : Str) (c : ℕ) (name : Str)
    → IsDirPath d
    → no_slash (c ∷ name) ≡ true
    → (dirname (fullpath d (c ∷ name)) ≡ d) × (basename (fullpath d (c ∷ name)) ≡ c ∷ name)
fullpath-split d c name (h, k) clean =
    let e : (c == slash) ≡ false = ground arith in
    let same : (if is_empty (front_of d) then root else front_of d) ≡ d =
      elim (Bool-cases (str_eq d root)) [
        | inl r ↦ rw r (sym (str_eq_sound d root r))
        | inr r ↦ rw (r, h)
      ] in
    rw (fullpath-front d c name (h, k) e)
      (dirname-below (front_of d) c name clean ∙ same, basename-below (front_of d) c name clean)

-- The other way round: a path of a directory's part, a slash and a name is the join of its parts.
pub fullpath-dirname-basename :
    (front : Str) (c : ℕ) (name : Str)
    → no_slash (c ∷ name) ≡ true
    → (at front (length front - 1) == slash) ≡ false
    → fullpath (dirname (below front (c ∷ name))) (basename (below front (c ∷ name)))
      ≡ below front (c ∷ name)
fullpath-dirname-basename front c name clean tidy =
    let e : (c == slash) ≡ false = ground arith in
    rw (dirname-below front c name clean, basename-below front c name clean) (join front tidy)
  where
    join :
        (f : Str)
        → (at f (length f - 1) == slash) ≡ false
        → fullpath (if is_empty f then root else f) (c ∷ name) ≡ below f (c ∷ name)
    join [] t = fullpath-front root c name (refl, refl) (ground arith)
    join (x ∷ f) t = fullpath-tidy x f c name t (ground arith)
