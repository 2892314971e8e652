-- ===== src/Ops/File.antt =====
-- libfskit/trunc.c, libfskit/read.c and libfskit/write.c, and the setters of utime.c with the time
-- of the clock.
pub mod Size
use fskit.Base.{
  ℕ, ◌+◌, ◌-◌, ◌%◌, ◌^◌, Bool, true, false, ◌&&◌, ◌||◌, not, Option, none, some, ◌==◌, ltb,
  if◌then◌else◌,
}
use fskit.Base.Int.{ℤ, pos, negsuc, ◌+ℤ◌, is_neg, is_zero, is_nonpos, ltb_ℤ}
use fskit.Base.Bytes.{Str}
use fskit.Calls.{
  run_user_read, RouteType, Call, no_route, ran, null_route, trunc as trunc_route,
  read as read_route, write as write_route, run_user,
}
use fskit.Entry.Init.{Clock}
use fskit.Entry.Destroy.{try_destroy_and_free}
use fskit.Errno.{ok_rc, ebadf, enametoolong, name_max}
use fskit.Ops.{Env, on_found}
use fskit.Ops.Make.{add_open, drop_open}
use fskit.Path.{basename_len}
use fskit.Perm.{bit}
use fskit.Resolve.{resolve_path}
use fskit.Store.{Sglib, Inode, Store, Cmd, Ptr, Run, done, pure, load, modify, ◌>>=◌, ◌>>◌}

-- struct fskit_file_handle, less its lock
pub record Handle : Type 0 where
  pub fent : Ptr
  pub file_id : ℕ
  pub path : Str
  pub flags : ℕ
  pub app_data : ℕ

-- O_WRONLY is bit 0 of the flags, O_RDWR bit 1.
abbrev pub wronly : ℕ → Bool
wronly flags = bit 0 flags

abbrev pub rdwr : ℕ → Bool
rdwr flags = bit 1 flags

-- a size_t read as an off_t
abbrev pub as_off_t : ℕ → ℤ
as_off_t n = if ltb n (2 ^ 63) then pos n else negsuc (2 ^ 64 - n - 1)

module _ (G : Sglib) (clock : Clock) where
  -- Where the clock fails, the time stays.
  unfoldable pub set_atime : Inode G → Inode G
  set_atime e = if is_zero clock.rc then record e { atime = clock.now } else e

  pub set_mtime : Inode G → Inode G
  set_mtime e = if is_zero clock.rc then record e { mtime = clock.now } else e

  pub set_size : ℤ → Inode G → Inode G
  set_size size e = record e { size = size }

  pub trunc_cont : ℤ → ℤ → Inode G → Inode G
  unfolding set_atime set_mtime set_size
  trunc_cont new_size trunc_rc e =
      if is_zero trunc_rc then set_size new_size (set_atime (set_mtime e)) else e

  -- The greater of the old size and the end of what was written.
  pub grown : ℕ → ℤ → ℤ → ℤ
  unfolding ◌+ℤ◌
  grown offset num_written size =
      if ltb_ℤ size (pos offset +ℤ num_written) then pos offset +ℤ num_written else size

  pub write_cont : ℕ → ℤ → Inode G → Inode G
  unfolding set_atime set_mtime set_size grown
  write_cont offset num_written e =
      if is_neg num_written
      then e
      else set_size (grown offset num_written e.size) (set_atime (set_mtime e))

  -- (unsigned)(offset + buflen) > size ? offset + buflen : size, with an unsigned of 32 bits
  pub size_behind : ℕ → ℕ → ℤ → ℤ
  size_behind offset buflen size =
      if ltb_ℤ size (pos ((offset + buflen) % 2 ^ 32))
      then as_off_t ((offset + buflen) % 2 ^ 64)
      else size

  pub written : ℕ → ℕ → Inode G → Inode G
  unfolding set_atime set_mtime set_size size_behind
  written offset buflen e = set_size (size_behind offset buflen e.size) (set_atime (set_mtime e))

module _ (G : Sglib) (env : Env) where
  -- A route's callback, and its continuation on the inode where it ran.
  pub run_user_io : RouteType → (ℤ → Inode G → Inode G) → Str → Ptr → Cmd G ℤ
  unfolding run_user
  run_user_io t cont path fent = do
    rc ← run_user G ok_rc env.routes t path fent
    elim (env.routes t path) [ ran rc ↦ modify fent (cont rc) | _ ↦ pure tt ]
    pure rc

  unfoldable pub run_user_trunc : Str → Ptr → ℤ → Cmd G ℤ
  unfolding run_user_io trunc_cont
  run_user_trunc path fent new_size =
      run_user_io trunc_route (trunc_cont G env.clock new_size) path fent

  unfoldable pub ftrunc : Handle → ℤ → Cmd G ℤ
  unfolding run_user_trunc
  ftrunc fh new_size =
      if not (rdwr fh.flags || wronly fh.flags)
      then pure ebadf
      else run_user_trunc fh.path fh.fent new_size

  -- Behind the look-up.
  pub trunc_at : Str → Ptr → ℤ → Cmd G ℤ
  unfolding run_user_trunc add_open drop_open try_destroy_and_free
  trunc_at path fent new_size = do
    modify fent (add_open G)
    code ← run_user_trunc path fent new_size
    modify fent (drop_open G)
    rc ← try_destroy_and_free G env.routes path fent
    pure (if is_nonpos rc then rc else ok_rc)

  -- The callback's code is overwritten by that of the clean-up.
  pub trunc : Str → (user gid : ℕ) → ℤ → Cmd G ℤ
  unfolding trunc_at resolve_path
  trunc path user gid new_size s =
      if ltb name_max (basename_len path)
      then done enametoolong s
      else on_found G (resolve_path G env.mem user gid s path) (λ rc. rc)
          (λ fent _. trunc_at path fent new_size) s

  -- The bytes that the callback fills in are the application's.
  unfoldable pub read : Handle → Cmd G ℤ
  unfolding run_user set_atime
  read fh = if wronly fh.flags then pure ebadf else (do
    num_read ← run_user_read G env.routes fh.path fh.fent
    (if is_neg num_read then pure tt else modify fh.fent (set_atime G env.clock))
    pure num_read)

  pub write : Handle → (buflen offset : ℕ) → Cmd G ℤ
  unfolding run_user_io write_cont written
  write fh buflen offset = if not (rdwr fh.flags || wronly fh.flags) then pure ebadf else (do
    num_written ← run_user_io write_route (write_cont G env.clock offset) fh.path fh.fent
    (if is_neg num_written then pure tt else modify fh.fent (written G env.clock offset buflen))
    pure num_written)
