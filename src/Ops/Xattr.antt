-- ===== src/Ops/Xattr.antt =====
-- The extended attributes: the set of libfskit/entry.c, libfskit/getxattr.c, libfskit/setxattr.c and
-- libfskit/removexattr.c.
pub mod Lookup
pub mod Names
use fskit.Base.{
  ℕ, suc, ◌+◌, List, ◌∷◌, ◌++◌, Bool, true, false, ◌&&◌, ◌||◌, not, Option, none, some, [], ◌==◌,
  ltb, if◌then◌else◌, length,
}
use fskit.Base.Int.{to_int, to_unsigned, ℤ, pos, is_neg, is_zero, eq_ℤ}
use fskit.Base.Bytes.{Str}
use fskit.Calls.{
  run_user_getxattr, run_user_listxattr, run_user_removexattr, run_user_setxattr,
  getxattr as getxattr_route, setxattr as setxattr_route, removexattr as removexattr_route,
  listxattr as listxattr_route, run_user,
}
use fskit.Errno.{ok_rc, eperm, enomem, eexist, einval, enospc, erange, enoattr}
use fskit.Ops.{Env, on_found}
use fskit.Perm.{bit}
use fskit.Resolve.{resolve_path}
use fskit.Store.{Sglib, Inode, Store, Cmd, Ptr, Run, done, pure, load, modify, ◌>>=◌, ◌>>◌}

-- XATTR_CREATE is bit 0 of the flags, XATTR_REPLACE bit 1.
abbrev pub xattr_create : ℕ → Bool
xattr_create flags = bit 0 flags

abbrev pub xattr_replace : ℕ → Bool
xattr_replace flags = bit 1 flags

module _ (G : Sglib) where
  open G use {attrs}

  abbrev pub set_has : attrs.Tree → Str → Bool
  set_has set name = elim (attrs.find set name) [ none ↦ false | some _ ↦ true ]

  -- An empty set is a NULL pointer, and the flags are not read then. The old value is removed
  -- before the new one is allocated.
  unfoldable pub xattr_set_insert : Bool → attrs.Tree → Str → Str → ℕ → ℤ × attrs.Tree
  xattr_set_insert mem set name value flags =
      if not (attrs.len set == 0) && (set_has set name && xattr_create flags)
      then (eexist, set)
      else if not (attrs.len set == 0) && (not (set_has set name) && xattr_replace flags)
      then (enoattr, set)
      else let cleared : attrs.Tree = if attrs.len set == 0 then set else attrs.delete set name in
        if mem then (ok_rc, attrs.add cleared name value) else (enomem, cleared)

  pub xattr_set_remove : attrs.Tree → Str → Bool × attrs.Tree
  xattr_set_remove set name = (set_has set name, attrs.delete set name)

  pub with_xattrs : attrs.Tree → Inode G → Inode G
  with_xattrs set e = record e { xattrs = set }

  -- The code and the bytes copied to a buffer of `size` bytes; 0 asks for the length only. The length
  -- is returned as an int.
  pub xattr_fgetxattr : Inode G → Str → ℕ → ℤ × Str
  xattr_fgetxattr e name size = elim (attrs.find e.xattrs name) [
    | none ↦ (enoattr, [])
    | some value ↦
        if size == 0
        then (to_int (length value), [])
        else if ltb size (length value)
        then (erange, [])
        else (to_int (length value), value)
  ]

abbrev pub sum_len : List (Str × Str) → ℕ
sum_len [] = 0
sum_len ((name, value) ∷ xs) = suc (length name) + sum_len xs

-- The sum is kept in an int.
unfoldable pub listxattr_len : List (Str × Str) → ℤ
listxattr_len xs = to_int (sum_len xs)

-- Each name and a zero byte.
abbrev pub copy_names : List (Str × Str) → Str
copy_names [] = []
copy_names ((name, value) ∷ xs) = name ++ (0 ∷ copy_names xs)

module _ (G : Sglib) where
  open G use {attrs}

  -- As fskit_xattr_fgetxattr, for the list of names: the code, and what is written from the start of
  -- the buffer on.
  pub xattr_flistxattr : Inode G → ℕ → ℤ × Str
  unfolding listxattr_len
  xattr_flistxattr e size =
      let total_size : ℤ = listxattr_len (attrs.members e.xattrs) in
      if size == 0
      then (total_size, [])
      else if ltb size (to_unsigned total_size)
      then (erange, [])
      else (total_size, copy_names (attrs.members e.xattrs))

module _ (G : Sglib) (env : Env) where
  open G use {attrs}

  pub flistxattr : Str → Ptr → ℕ → Cmd G (ℤ × Str)
  unfolding run_user xattr_flistxattr
  flistxattr path fent size = do
    rc ← run_user_listxattr G env.routes path fent
    e ← load fent
    pure (if is_zero rc then xattr_flistxattr G e size else (rc, []))

  unfoldable pub listxattr : Str → (user gid : ℕ) → ℕ → Cmd G (ℤ × Str)
  unfolding flistxattr resolve_path
  listxattr path user gid size s =
      on_found G (resolve_path G env.mem user gid s path) (λ rc. (rc, []))
        (λ fent _. flistxattr path fent size) s

  -- The built-in set where there is no callback, or where it returns 0.
  pub fgetxattr : Str → Ptr → Str → ℕ → Cmd G (ℤ × Str)
  unfolding run_user xattr_fgetxattr
  fgetxattr path fent name size = do
    rc ← run_user_getxattr G env.routes path fent
    e ← load fent
    pure (if is_zero rc then xattr_fgetxattr G e name size else (rc, []))

  unfoldable pub getxattr : Str → (user gid : ℕ) → Str → ℕ → Cmd G (ℤ × Str)
  unfolding fgetxattr resolve_path
  getxattr path user gid name size s =
      on_found G (resolve_path G env.mem user gid s path) (λ rc. (rc, []))
        (λ fent _. fgetxattr path fent name size) s

  pub xattr_fsetxattr : Ptr → Str → Str → ℕ → Cmd G ℤ
  unfolding xattr_set_insert with_xattrs
  xattr_fsetxattr fent name value flags = do
    e ← load fent
    modify fent (with_xattrs G (xattr_set_insert G env.mem e.xattrs name value flags).1)
    let rc = (xattr_set_insert G env.mem e.xattrs name value flags).0
    pure (if eq_ℤ rc enomem then enospc else rc)

  -- 1 where there is no callback.
  pub fsetxattr : Str → Ptr → Str → Str → ℕ → Cmd G ℤ
  unfolding run_user xattr_fsetxattr
  fsetxattr path fent name value flags =
      if xattr_replace flags && xattr_create flags then pure einval else do
        rc ← run_user_setxattr G env.routes path fent
        if is_neg rc
            then pure eperm
            else (if is_zero rc then pure ok_rc else xattr_fsetxattr fent name value flags)

  unfoldable pub setxattr : Str → (user gid : ℕ) → Str → Str → ℕ → Cmd G ℤ
  unfolding fsetxattr resolve_path
  setxattr path user gid name value flags s =
      on_found G (resolve_path G env.mem user gid s path) (λ rc. rc)
        (λ fent _. fsetxattr path fent name value flags) s

  pub xattr_fremovexattr : Ptr → Str → Cmd G ℤ
  unfolding xattr_set_remove with_xattrs
  xattr_fremovexattr fent name = do
    e ← load fent
    modify fent (with_xattrs G (xattr_set_remove G e.xattrs name).1)
    pure (if (xattr_set_remove G e.xattrs name).0 then ok_rc else enoattr)

  -- 0 where there is no callback, which counts as removed.
  pub fremovexattr : Str → Ptr → Str → Cmd G ℤ
  unfolding run_user xattr_fremovexattr
  fremovexattr path fent name = do
    rc ← run_user_removexattr G env.routes path fent
    if is_neg rc
        then pure eperm
        else (if is_zero rc then pure ok_rc else xattr_fremovexattr fent name)

  unfoldable pub removexattr : Str → (user gid : ℕ) → Str → Cmd G ℤ
  unfolding fremovexattr resolve_path
  removexattr path user gid name s =
      on_found G (resolve_path G env.mem user gid s path) (λ rc. rc)
        (λ fent _. fremovexattr path fent name) s
