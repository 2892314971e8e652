-- ===== src/Ops/Xattr/Lookup.antt =====
-- What is set as an extended attribute is what is read.
use fskit.Base.{
  ltb, ◌^◌, ℕ, ◌≡◌, refl, sym, ◌∙◌, inl, inr, Bool, true, false, ◌&&◌, none, some, List, [], ◌∷◌,
  arith, ◌==◌, leb, if◌then◌else◌, length, Bool-cases,
}
use fskit.Base.Int.{to_int_small, pos, is_nonpos}
use fskit.Base.Bytes.{Str, str_eq, str_eq_refl}
use fskit.Calls.{no_route, getxattr as getxattr_route, setxattr as setxattr_route}
use fskit.Entry.Inv.{put_self}
use fskit.Errno.{ok_rc, enomem}
use fskit.Ops.{Env}
use fskit.Ops.Xattr.{xattr_set_insert, with_xattrs, xattr_fgetxattr, fgetxattr, fsetxattr}
use fskit.Store.{Sglib, Inode, Store, Ptr, done, Ends, ends, put}
use fskit.Tree.{lookup}

module _ (G : Sglib) where
  open G use {attrs}

  no_members : (xs : List (Str × Str)) (k : Str) → length xs ≡ 0 → lookup k xs ≡ none
  no_members [] k h = refl
  no_members (x ∷ xs) k h = ground arith

  empty-find : (t : attrs.Tree) (k : Str) → (attrs.len t == 0) ≡ true → attrs.find t k ≡ none
  empty-find t k h =
      sym (attrs.lookup-members t k)
      ∙ no_members (attrs.members t) k (sym (attrs.len-members t) ∙ ground arith)

  deleted-find :
      (t : attrs.Tree) (k : Str) → attrs.Distinct t → attrs.find (attrs.delete t k) k ≡ none
  deleted-find t k d = ground (arith, attrs.find-delete t k k d, str_eq_refl k)

  -- Inserting an attribute with success sets its value and leaves the others.
  pub xattr_set_insert-find :
      (mem : Bool) (set : attrs.Tree) (name value : Str) (flags : ℕ)
      → attrs.Distinct set
      → (xattr_set_insert G mem set name value flags).0 ≡ ok_rc
      → (j : Str)
      → attrs.find (xattr_set_insert G mem set name value flags).1 j
        ≡ (if str_eq name j then some value else attrs.find set j)
  unfolding xattr_set_insert
  xattr_set_insert-find mem set name value flags d h j = elim (Bool-cases (attrs.len set == 0)) [
    | inl t ↦ ground (arith, attrs.find-add set name value j (empty-find set name t))
    | inr t ↦ ground (
      arith,
      attrs.find-add (attrs.delete set name) name value j (deleted-find set name d),
      attrs.find-delete set name j d,
    )
  ]

  -- With XATTR_REPLACE, a first attribute is made although it does not exist.
  xattr_set_insert_replace :
      (set : attrs.Tree) (name value : Str)
      → (attrs.len set == 0) ≡ true
      → (xattr_set_insert G true set name value 2).0 ≡ ok_rc
  unfolding xattr_set_insert
  xattr_set_insert_replace set name value h = ground arith

  -- Where memory runs out while a value is exchanged, the old value is lost.
  pub xattr_set_insert_lost :
      (set : attrs.Tree) (name value old : Str)
      → attrs.Distinct set
      → attrs.find set name ≡ some old
      → ((xattr_set_insert G false set name value 0).0 ≡ enomem)
        × (attrs.find (xattr_set_insert G false set name value 0).1 name ≡ none)
  unfolding xattr_set_insert
  xattr_set_insert_lost set name value old d h = elim (Bool-cases (attrs.len set == 0)) [
    | inl t ↦ absurd (ground (arith, empty-find set name t))
    | inr t ↦ (ground arith, ground (arith, deleted-find set name d))
  ]

  insert_plain :
      (set : attrs.Tree) (name value : Str) → (xattr_set_insert G true set name value 0).0 ≡ ok_rc
  unfolding xattr_set_insert
  insert_plain set name value = ground arith

  plain-find :
      (set : attrs.Tree) (name value : Str)
      → attrs.Distinct set
      → attrs.find (xattr_set_insert G true set name value 0).1 name ≡ some value
  plain-find set name value d = ground (
    arith,
    xattr_set_insert-find true set name value 0 d (insert_plain set name value) name,
    str_eq_refl name,
  )

module _ (G : Sglib) (env : Env) where
  open G use {attrs}

  abbrev changed : Str → Str → Inode G → Inode G
  changed name value e = with_xattrs G (xattr_set_insert G true e.xattrs name value 0).1 e

  set_steps :
      (path : Str) (fent : Ptr) (name value : Str) (s : Store G) (e : Inode G)
      → env.mem ≡ true
      → env.routes setxattr_route path ≡ no_route
      → s fent ≡ some e
      → (is_nonpos e.open_count && is_nonpos e.link_count) ≡ false
      → fsetxattr G env path fent name value 0 s
        ≡ done ok_rc (put s fent (some (changed name value e)))
  unfolding fsetxattr
  set_steps path fent name value s e mem r h live =
      ground (arith, insert_plain G e.xattrs name value)

  get_steps :
      (path : Str) (fent : Ptr) (name value : Str) (size : ℕ) (t : Store G) (e : Inode G)
      → env.routes getxattr_route path ≡ no_route
      → t fent ≡ some e
      → (is_nonpos e.open_count && is_nonpos e.link_count) ≡ false
      → attrs.find e.xattrs name ≡ some value
      → (size == 0) ≡ false
      → leb (length value) size ≡ true
      → ltb (length value) (2 ^ 31) ≡ true
      → fgetxattr G env path fent name size t ≡ done (pos (length value), value) t
  unfolding fgetxattr xattr_fgetxattr
  get_steps path fent name value size t e r h live f a b short =
      ground (arith, to_int_small (length value) short)

  -- Where memory is there and the application has no callbacks, setting an attribute of a referenced
  -- inode, with neither XATTR_CREATE nor XATTR_REPLACE, succeeds, and its value, if it is shorter than
  -- 2 GiB, is read back with its length by every buffer that has bytes and that it fits in.
  pub fsetxattr-fgetxattr :
      (path : Str) (fent : Ptr) (name value : Str) (size : ℕ) (s : Store G) (e : Inode G)
      → env.mem ≡ true
      → env.routes setxattr_route path ≡ no_route
      → env.routes getxattr_route path ≡ no_route
      → s fent ≡ some e
      → (is_nonpos e.open_count && is_nonpos e.link_count) ≡ false
      → attrs.Distinct e.xattrs
      → (size == 0) ≡ false
      → leb (length value) size ≡ true
      → ltb (length value) (2 ^ 31) ≡ true
      → Ends
          (λ rc t.
            (rc ≡ ok_rc)
            × (fgetxattr G env path fent name size t ≡ done (pos (length value), value) t))
          (fsetxattr G env path fent name value 0 s)
  unfolding with_xattrs
  fsetxattr-fgetxattr path fent name value size s e mem r g h live d a b short =
      rw (set_steps path fent name value s e mem r h live) (
        ends (
          refl,
          get_steps path fent name value size (put s fent (some (changed name value e)))
              (changed name value e) g (put_self s fent (changed name value e)) live
              (plain-find G e.xattrs name value d) a b short,
        ))
