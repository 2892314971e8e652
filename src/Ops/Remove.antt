-- ===== src/Ops/Remove.antt =====
-- libfskit/unlink.c and libfskit/rmdir.c.
pub mod Outcome
pub mod Rmdir
use fskit.Base.{
  ℕ, Bool, true, false, ◌&&◌, ◌||◌, not, Option, none, some, ◌==◌, ltb, leb, if◌then◌else◌, length,
}
use fskit.Base.Int.{ℤ, pos, is_neg, is_zero, is_nonpos, eq_ℤ}
use fskit.Base.Bytes.{Str}
use fskit.Calls.{detach, run_user}
use fskit.Entry.{detach_lowlevel}
use fskit.Entry.Destroy.{try_destroy_and_free}
use fskit.Errno.{ok_rc, enoent, enotdir, enotempty, enametoolong, name_max, path_max}
use fskit.Ops.{Env, on_found_unlock}
use fskit.Path.{dirname, basename, basename_len, sanitize_path}
use fskit.Resolve.{resolve_path}
use fskit.Store.{
  Sglib, Entry, Inode, Store, Cmd, Ptr, Run, done, fault, pure, load, ◌>>=◌, ◌>>◌, is_dir,
}

module _ (G : Sglib) (env : Env) where
  open G use {names}

  -- The end of both: a destroyed inode counts as success.
  pub finish : Str → Ptr → Cmd G ℤ
  unfolding try_destroy_and_free
  finish path fent = do
    rc ← try_destroy_and_free G env.routes path fent
    pure (if is_nonpos rc then rc else ok_rc)

  -- Behind the look-up of the entry. The detach callback's code is dropped.
  pub unlink_entry : Str → Ptr → Str → Ptr → Cmd G ℤ
  unfolding detach_lowlevel run_user finish
  unlink_entry path parent name fent = do
    rc ← detach_lowlevel G env.clock.now parent name
    if not (is_zero rc) && not (eq_ℤ rc enoent)
        then pure rc
        else (do cb ← run_user G ok_rc env.routes detach path fent; finish path fent)

  pub unlink_from : Str → Ptr → Str → Cmd G ℤ
  unfolding unlink_entry
  unlink_from path parent name = do
    e ← load parent
    if not (is_dir e.kind) then pure enotdir else elim (names.find e.children name) [
      | none ↦ pure enoent
      | some fent ↦ unlink_entry path parent name fent
    ]

  -- Without memory, fskit_dirname writes through the NULL that it got, before its caller looks.
  pub unlink : Str → (user gid : ℕ) → Cmd G ℤ
  unfolding unlink_from resolve_path
  unlink path user gid s =
      if not env.mem
      then fault
      else if ltb name_max (length (basename path))
      then done enametoolong s
      else on_found_unlock G (resolve_path G env.mem user gid s (dirname path))
          (λ parent. unlink_from path parent (basename path)) s

  pub rmdir_entry : Str → Ptr → Str → Ptr → Cmd G ℤ
  unfolding detach_lowlevel finish
  rmdir_entry path parent name dent = do
    d ← load dent
    if not (is_dir d.kind)
        then pure enotdir
        else (if ltb 2 (names.len d.children) then pure enotempty else (do
          rc ← detach_lowlevel G env.clock.now parent name
          if is_zero rc then finish path dent else pure rc))

  pub rmdir_from : Str → Ptr → Str → Cmd G ℤ
  unfolding rmdir_entry
  rmdir_from path parent name = do
    e ← load parent
    if not (is_dir e.kind) then pure enotdir else elim (names.find e.children name) [
      | none ↦ pure enoent
      | some dent ↦ rmdir_entry path parent name dent
    ]

  -- The path is copied and its final slash removed.
  pub rmdir : Str → (user gid : ℕ) → Cmd G ℤ
  unfolding rmdir_from resolve_path
  rmdir _path user gid s =
      let path : Str = sanitize_path _path in
      if leb path_max (length _path) || ltb name_max (basename_len _path)
      then done enametoolong s
      else on_found_unlock G (resolve_path G env.mem user gid s (dirname path))
          (λ parent. rmdir_from path parent (basename path)) s
