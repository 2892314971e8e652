-- ===== src/Path/Depth.antt =====
-- The depth of a path, the sizes of the buffers, and the removal of a final slash.
use mathlib.Core.List.{append-nil}
use fskit.Base.{
  ℕ, zero, suc, ◌+◌, ◌-◌, ◌≤◌, ◌≡◌, refl, inl, inr, subst, true, false, not, List, [], ◌∷◌, ◌++◌,
  arith, ◌==◌, if◌then◌else◌, length, length-append, Bool-cases, and-true, take, drop, take-append,
  get_or-append_right, length-drop,
}
use fskit.Base.Bytes.{Str, slash, at, str_eq, is_empty, no_slash}
use fskit.Path.{
  count_slashes, depth, fullpath, full_size, full_delim, dirname, dir_len, sanitize_path, root,
  full_offset,
}
use fskit.Path.Split.{AllNames, spell}

length-take_len : (n : ℕ) (s : Str) → length (take n s) ≤ length s
length-take_len zero s = omega arith
length-take_len (suc n) [] = omega arith
length-take_len (suc n) (c ∷ s) = omega (arith, length-take_len n s)

not-root : (c : ℕ) (path : Str) → str_eq ((c ∷ path) ++ slash ∷ []) root ≡ false
not-root c [] = ground arith
not-root c (d ∷ path) = ground arith

-- All slashes of a text.
slashes : Str → ℕ
slashes [] = 0
slashes (c ∷ s) = (if c == slash then 1 else 0) + slashes s

count_slashes-cons :
    (c : ℕ) (s : Str) (i : ℕ)
    → count_slashes (c ∷ s) (suc i) ≡ (if c == slash then 1 else 0) + count_slashes s i
unfolding count_slashes
count_slashes-cons c s zero = omega arith
count_slashes-cons c s (suc i) = omega (arith, count_slashes-cons c s i)

count_slashes-nil : (i : ℕ) → count_slashes [] i ≡ 0
unfolding count_slashes
count_slashes-nil zero = refl
count_slashes-nil (suc i) = omega (arith, count_slashes-nil i)

-- Slashes behind the index are not counted.
count_slashes-append : (s t : Str) (i : ℕ) → suc i ≡ length s → count_slashes (s ++ t) i ≡ slashes s
unfolding slashes
count_slashes-append [] t i h = absurd (omega arith)
count_slashes-append (c ∷ []) t zero h = unfold count_slashes in omega arith
count_slashes-append (c ∷ []) t (suc i) h = absurd (omega arith)
count_slashes-append (c ∷ d ∷ s) t zero h = absurd (omega arith)
count_slashes-append (c ∷ d ∷ s) t (suc i) h =
    omega
      (arith, count_slashes-cons c ((d ∷ s) ++ t) i, count_slashes-append (d ∷ s) t i (omega arith))

slashes-append : (s t : Str) → slashes (s ++ t) ≡ slashes s + slashes t
unfolding slashes
slashes-append [] t = omega arith
slashes-append (c ∷ s) t = omega (arith, slashes-append s t)

slashes-no_slash : (s : Str) → no_slash s ≡ true → slashes s ≡ 0
unfolding slashes
slashes-no_slash [] h = refl
slashes-no_slash (c ∷ s) h = ground (arith, slashes-no_slash s)

slashes-spell : (ns : List Str) → AllNames ns → slashes (spell ns) ≡ length ns
unfolding spell slashes
slashes-spell [] a = refl
slashes-spell (n ∷ ns) a =
    omega (arith, slashes-append n (spell ns), slashes-no_slash n (a.0.1), slashes-spell ns a.1)

length-spell : (n : Str) (ns : List Str) → AllNames (n ∷ ns) → 2 ≤ length (spell (n ∷ ns))
unfolding spell
length-spell [] ns a = absurd (ground arith)
length-spell (c ∷ n) ns a = omega arith

last-append :
    (s t : Str) → is_empty t ≡ false → at (s ++ t) (length (s ++ t) - 1) ≡ at t (length t - 1)
last-append s [] h = cc
last-append s (c ∷ t) h =
    let e : length (s ++ c ∷ t) - 1 ≡ length s + (length (c ∷ t) - 1) =
      omega (arith, length-append s (c ∷ t)) in
    rw e (get_or-append_right s (c ∷ t) (length (c ∷ t) - 1) 0)

no_slash-last : (n : Str) (k : ℕ) → no_slash n ≡ true → (at n k == slash) ≡ false
no_slash-last [] k h = refl
no_slash-last (c ∷ n) zero h = ground arith
no_slash-last (c ∷ n) (suc k) h = no_slash-last n k (and-true (not (c == slash)) (no_slash n) h).1

-- A spelled path does not end in a slash.
spell-last :
    (n : Str) (ns : List Str)
    → AllNames (n ∷ ns)
    → (at (spell (n ∷ ns)) (length (spell (n ∷ ns)) - 1) == slash) ≡ false
unfolding spell
spell-last n [] ((h, k), a) =
    rw (append-nil, last-append (slash ∷ []) n h) (no_slash-last n (length n - 1) k)
spell-last n (m ∷ ns) (_, a) =
    rw (last-append (slash ∷ n) (spell (m ∷ ns)) refl) (spell-last m ns a)

count_slashes-all : (s : Str) (i : ℕ) → suc i ≡ length s → count_slashes s i ≡ slashes s
count_slashes-all s i h =
    subst (λ u. count_slashes u i ≡ slashes s) (append-nil s) (count_slashes-append s [] i h)

-- The depth of a normalized path is the number of its names.
pub depth-spell :
    (n : Str) (ns : List Str) → AllNames (n ∷ ns) → depth (spell (n ∷ ns)) ≡ suc (length ns)
unfolding depth
depth-spell n ns a =
    let two = length-spell n ns a in
    rw (spell-last n ns a) (
      ground (
        arith,
        two,
        count_slashes-all (spell (n ∷ ns)) (length (spell (n ∷ ns)) - 1) (omega (arith, two)),
        slashes-spell (n ∷ ns) a,
      ))

-- It does not count a final slash.
pub depth-spell-slash :
    (n : Str) (ns : List Str)
    → AllNames (n ∷ ns)
    → depth (spell (n ∷ ns) ++ slash ∷ []) ≡ suc (length ns)
unfolding depth
depth-spell-slash n ns a =
    let two = length-spell n ns a in
    let len = length-append (spell (n ∷ ns)) (slash ∷ []) in
    rw (last-append (spell (n ∷ ns)) (slash ∷ []) refl) (
      ground (
        arith,
        two,
        len,
        count_slashes-append (spell (n ∷ ns)) (slash ∷ [])
            (length (spell (n ∷ ns) ++ slash ∷ []) - 2) (omega (arith, two, len)),
        slashes-spell (n ∷ ns) a,
      ))

-- fskit_fullpath stays inside the buffer that it allocates, the NUL included.
length-fullpath : (r path : Str) → length (fullpath r path) + 1 ≤ full_size r path
unfolding fullpath full_size
length-fullpath r path =
    let mid : Str = if full_delim r path then slash ∷ [] else [] in
    let tail : Str = drop (full_offset r path) path in
    ground (
      arith,
      length-append r (mid ++ tail),
      length-append mid tail,
      length-drop (full_offset r path) path,
    )

-- So does fskit_dirname, but for the empty path.
pub length-dirname :
    (path : Str) → is_empty path ≡ false → length (dirname path) + 1 ≤ length path + 1
unfolding dirname
length-dirname [] h = cc
length-dirname (c ∷ path) h = elim (Bool-cases (str_eq (c ∷ path) root)) [
  | inl e ↦ rw e (omega arith)
  | inr e ↦ rw e (omega (arith, length-take_len (dir_len (c ∷ path)) (c ∷ path)))
]

-- Removing a final slash.
pub sanitize_path-slash : (c : ℕ) (path : Str) → sanitize_path ((c ∷ path) ++ slash ∷ []) ≡ c ∷ path
unfolding sanitize_path
sanitize_path-slash c path =
    let len = length-append (c ∷ path) (slash ∷ []) in
    let e : length ((c ∷ path) ++ slash ∷ []) - 1 ≡ length (c ∷ path) = omega (arith, len) in
    let long : str_eq ((c ∷ path) ++ slash ∷ []) root ≡ false = not-root c path in
    rw (long, last-append (c ∷ path) (slash ∷ []) refl, e) (take-append (c ∷ path) (slash ∷ []))
