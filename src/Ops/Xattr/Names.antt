-- ===== src/Ops/Xattr/Names.antt =====
-- The list of attribute names that fskit_listxattr copies.
use fskit.Base.{
  ltb, ◌^◌, ℕ, ◌+◌, ◌≡◌, refl, sym, ap, ◌∙◌, Bool, true, false, ◌&&◌, not, List, [], ◌∷◌, ◌++◌,
  arith, ◌==◌, leb, if◌then◌else◌, length,
}
use fskit.Base.Int.{pos, to_int, to_unsigned, to_int_small}
use fskit.Base.Bytes.{Str}
use fskit.Errno.{erange}
use fskit.Ops.Xattr.{sum_len, listxattr_len, copy_names, xattr_flistxattr}
use fskit.Store.{Sglib, Inode}

abbrev pub no_zero : Str → Bool
no_zero [] = true
no_zero (b ∷ bs) = not (b == 0) && no_zero bs

abbrev pub all_no_zero : List (Str × Str) → Bool
all_no_zero [] = true
all_no_zero ((name, value) ∷ xs) = no_zero name && all_no_zero xs

-- A reader of such a list: names end at zero bytes. The first argument is what it has read of one.
pub read_names : Str → Str → List Str
read_names acc [] = []
read_names acc (b ∷ bs) =
    let same = read_names (acc ++ (b ∷ [])) bs in
    let next = read_names [] bs in if b == 0 then acc ∷ next else same

abbrev pub keys : List (Str × Str) → List Str
keys [] = []
keys ((name, value) ∷ xs) = name ∷ keys xs

append_nil : (a : Str) → a ++ [] ≡ a
append_nil [] = refl
append_nil (x ∷ a) = ap (λ u. x ∷ u) (append_nil a)

append_assoc : (a : Str) (b : ℕ) (c : Str) → (a ++ (b ∷ [])) ++ c ≡ a ++ (b ∷ c)
append_assoc [] b c = refl
append_assoc (x ∷ a) b c = ap (λ u. x ∷ u) (append_assoc a b c)

read_one :
    (acc name rest : Str)
    → no_zero name ≡ true
    → read_names acc (name ++ (0 ∷ rest)) ≡ (acc ++ name) ∷ read_names [] rest
unfolding read_names
read_one acc [] rest h = ap (λ u. u ∷ read_names [] rest) (sym (append_nil acc))
read_one acc (b ∷ bs) rest h =
    let go : read_names (acc ++ (b ∷ [])) (bs ++ (0 ∷ rest))
        ≡ ((acc ++ (b ∷ [])) ++ bs) ∷ read_names [] rest =
      read_one (acc ++ (b ∷ [])) bs rest (ground arith) in
    let z : (b == 0) ≡ false = ground arith in
    rw z (go ∙ ap (λ u. u ∷ read_names [] rest) (append_assoc acc b bs))

-- The copied list is read back as the names in their order, if no name has a zero byte.
pub read_names-copy_names :
    (xs : List (Str × Str)) → all_no_zero xs ≡ true → read_names [] (copy_names xs) ≡ keys xs
read_names-copy_names [] h = unfold read_names in refl
read_names-copy_names ((name, value) ∷ xs) h =
    read_one [] name (copy_names xs) (ground arith)
    ∙ ap (λ u. name ∷ u) (read_names-copy_names xs (ground arith))

length-append : (a : Str) (b : Str) → length (a ++ b) ≡ length a + length b
length-append [] b = ground arith
length-append (x ∷ a) b = ground (arith, length-append a b)

length-copy_names : (xs : List (Str × Str)) → length (copy_names xs) ≡ sum_len xs
length-copy_names [] = refl
length-copy_names ((name, value) ∷ xs) =
    ground (arith, length-append name (0 ∷ copy_names xs), length-copy_names xs)

total_len :
    (xs : List (Str × Str))
    → ltb (length (copy_names xs)) (2 ^ 31) ≡ true
    → listxattr_len xs ≡ pos (length (copy_names xs))
unfolding listxattr_len
total_len xs h = ap to_int (sym (length-copy_names xs)) ∙ to_int_small (length (copy_names xs)) h

-- If the list of names is shorter than 2 GiB, what fskit_xattr_flistxattr copies fits in the buffer,
-- and is as long as the code that it returns says. The code is -ERANGE if the buffer has bytes but is
-- too small, and the length of the whole list if it has none, where nothing is copied.
pub xattr_flistxattr_fits :
    (G : Sglib) (e : Inode G) (size : ℕ)
    → ltb (length (copy_names (G.attrs.members e.xattrs))) (2 ^ 31) ≡ true
    → (leb (length (xattr_flistxattr G e size).1) size ≡ true)
      × ((xattr_flistxattr G e size).0 ≡ (
          if size == 0
          then pos (length (copy_names (G.attrs.members e.xattrs)))
          else if ltb size (length (copy_names (G.attrs.members e.xattrs)))
          then erange
          else pos (length (xattr_flistxattr G e size).1)))
unfolding xattr_flistxattr to_unsigned
xattr_flistxattr_fits G e size h =
    let total = total_len (G.attrs.members e.xattrs) h in
    (ground (arith, total), ground (arith, total))

-- Where the lengths add up to 4 GiB, the names are copied to a buffer of one byte.
xattr_flistxattr_overruns :
    (G : Sglib) (e : Inode G)
    → length (copy_names (G.attrs.members e.xattrs)) ≡ 2 ^ 32
    → length (xattr_flistxattr G e 1).1 ≡ 2 ^ 32
unfolding xattr_flistxattr to_int to_unsigned
xattr_flistxattr_overruns G e h = ground (arith, h, length-copy_names (G.attrs.members e.xattrs))
