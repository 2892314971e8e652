-- ===== src/Ops/Hardlink.antt =====
-- libfskit/link.c, and fskit_entry_ref_entry and fskit_entry_unref of libfskit/path.c.
use fskit.Base.{ℕ, ◌&&◌, ◌||◌, not, none, some, ltb, if◌then◌else◌, length}
use fskit.Base.Int.{ℤ, is_zero, is_nonpos}
use fskit.Base.Bytes.{Str}
use fskit.Calls.{run_user_link, run_user}
use fskit.Entry.{attach_lowlevel, detach_lowlevel}
use fskit.Entry.Destroy.{try_destroy_and_free}
use fskit.Errno.{ok_rc, eperm, eacces, eexist, enotdir, name_max, path_max}
use fskit.Ops.{Env, on_found}
use fskit.Ops.Make.{add_open, drop_open, writeable}
use fskit.Path.{dirname, basename}
use fskit.Resolve.{resolve_path}
use fskit.Store.{Sglib, Cmd, Ptr, fault, pure, load, modify, ◌>>=◌, ◌>>◌, is_dir}

module _ (G : Sglib) (env : Env) where
  open G use {names}

  unfoldable pub ref_entry : Ptr → Cmd G ℤ
  unfolding add_open
  ref_entry fent = modify fent (add_open G) >> pure ok_rc

  unfoldable pub unref : Str → Ptr → Cmd G ℤ
  unfolding drop_open try_destroy_and_free
  unref fs_path fent = do
    modify fent (drop_open G)
    e ← load fent
    if is_nonpos e.open_count && is_nonpos e.link_count
        then (do
          rc ← try_destroy_and_free G env.routes fs_path fent
          pure (if is_nonpos rc then rc else ok_rc))
        else pure ok_rc

  -- Behind the checks: the link is made first, and undone if the callback refuses it.
  pub link_to : Str → Ptr → Ptr → Str → Cmd G ℤ
  unfolding attach_lowlevel detach_lowlevel ref_entry unref run_user
  link_to from from_fent to_parent to_child = do
    attached ← attach_lowlevel G env.mem env.clock.now to_parent from_fent to_child
    held ← ref_entry from_fent
    rc ← run_user_link G env.routes from from_fent
    undone ← (if is_zero rc then pure ok_rc else detach_lowlevel G env.clock.now to_parent to_child)
    released ← unref from from_fent
    pure rc

  pub link_in : Str → Ptr → Str → (uid gid : ℕ) → Ptr → Cmd G ℤ
  unfolding link_to writeable
  link_in from from_fent to_child uid gid to_parent = do
    e ← load to_parent
    if not (is_dir e.kind)
        then pure enotdir
        else (if not (writeable G uid gid e)
            then pure eacces
            else elim (names.find e.children to_child) [
              | some _ ↦ pure eexist
              | none ↦ link_to from from_fent to_parent to_child
            ])

  pub link_from : Str → Str → (uid gid : ℕ) → Ptr → Cmd G ℤ
  unfolding link_in resolve_path
  link_from from to uid gid from_fent = do
    f ← load from_fent
    if is_dir f.kind then pure eperm else (λ s.
        on_found G (resolve_path G env.mem uid gid s (dirname to)) (λ rc. rc)
          (λ to_parent _. link_in from from_fent (basename to) uid gid to_parent) s)

  -- The parts of `to` are written to buffers of PATH_MAX + 1 and FSKIT_FILESYSTEM_NAMEMAX + 1 bytes
  -- with no test of their lengths.
  unfoldable pub link : Str → Str → (uid gid : ℕ) → Cmd G ℤ
  unfolding link_from resolve_path
  link from to uid gid s =
      if ltb path_max (length (dirname to)) || ltb name_max (length (basename to))
      then fault
      else on_found G (resolve_path G env.mem uid gid s from) (λ rc. rc)
          (λ from_fent _. link_from from to uid gid from_fent) s
