-- ===== src/Entry/Destroy.antt =====
-- libfskit/entry.c: destroying an inode that has no links and is not open, and collecting garbage.
use fskit.Base.{◌&&◌, [], if◌then◌else◌}
use fskit.Base.Int.{ℤ, pos, inc, dec, is_neg, is_nonpos, is_zero, eq_ℤ}
use fskit.Base.Bytes.{Str}
use fskit.Errno.{ok_rc, enoent, enotempty, eexist, eio}
use fskit.Path.{basename}
use fskit.Calls.{Routes, destroy, run_user}
use fskit.Store.{
  Sglib, Inode, Cmd, Ptr, Time, exits, pure, load, modify, free, ◌>>=◌, ◌>>◌, dead, is_dead,
}
use fskit.Entry.{set_remove, detach_lowlevel}

module _ (G : Sglib) where
  open G use {names, attrs}

  -- fskit_entry_destroy; the release of the inode number is the application's.
  unfoldable pub destroy_entry : Inode G → Inode G
  destroy_entry e =
      if is_dead e.kind
      then e
      else record e { kind = dead; children = names.null; symlink_target = []; xattrs = attrs.null }

  unfoldable pub open_once : Inode G → Inode G
  open_once e = record e { open_count = inc e.open_count }

  -- The code, and the code of the destroy callback, which is `cbrc` if none is run.
  unfoldable pub try_destroy : Routes → Str → Ptr → ℤ → Cmd G (ℤ × ℤ)
  unfolding open_once destroy_entry run_user
  try_destroy routes fs_path fent cbrc = do
    e ← load fent
    if is_nonpos e.link_count && is_nonpos e.open_count
        then (if is_neg e.link_count
            then (λ _. exits)
            else if is_neg e.open_count
            then (λ _. exits)
            else do
              modify fent open_once
              rc ← run_user G ok_rc routes destroy fs_path fent
              modify fent destroy_entry
              pure (pos 1, rc))
        else pure (ok_rc, cbrc)

  unfoldable pub try_destroy_and_free_ex : Routes → Str → Ptr → ℤ → Cmd G (ℤ × ℤ)
  unfolding try_destroy
  try_destroy_and_free_ex routes fs_path fent cbrc = do
    r ← try_destroy routes fs_path fent cbrc
    (if is_nonpos r.0 then pure tt else free fent)
    pure r

  unfoldable pub try_destroy_and_free : Routes → Str → Ptr → Cmd G ℤ
  unfolding try_destroy_and_free_ex
  try_destroy_and_free routes fs_path fent = do
    r ← try_destroy_and_free_ex routes fs_path fent ok_rc
    pure r.0

  -- The name is removed once more from the set, and the children are counted once more.
  pub collected : Str → Inode G → Inode G
  collected name e = record e {
    children = (set_remove G e.children name).1;
    num_children = dec e.num_children;
  }

  -- -ENOENT of the detach counts as success, -ENOTEMPTY stays, any other error is -EIO.
  abbrev pub collect_rc : ℤ → ℤ
  collect_rc rc =
      if is_neg rc
      then (if eq_ℤ rc enoent then ok_rc else if eq_ℤ rc enotempty then rc else eio)
      else rc

  unfoldable pub try_garbage_collect : Routes → Time → Str → Ptr → Ptr → Cmd G ℤ
  unfolding detach_lowlevel try_destroy_and_free collected
  try_garbage_collect routes now path parent child = do
    c ← load child
    if c.deletion_in_progress
        then (do
          d ← detach_lowlevel G now parent (basename path)
          if is_zero (collect_rc d)
              then (do
                rc ← try_destroy_and_free routes path child
                (if is_nonpos rc then pure tt else modify parent (collected (basename path)))
                pure rc)
              else pure (collect_rc d))
        else pure eexist
