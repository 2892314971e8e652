-- ===== src/Ops/Attr.antt =====
-- libfskit/chown.c, libfskit/chmod.c, libfskit/utime.c, libfskit/stat.c, libfskit/access.c and
-- libfskit/symlink.c.
pub mod Owner
use fskit.Base.{
  ℕ, ◌+◌, ◌*◌, ◌/◌, ◌%◌, ◌^◌, ◌-◌, Bool, true, false, ◌&&◌, ◌||◌, not, Option, none, some, ◌==◌,
  ltb, leb, if◌then◌else◌, length,
}
use fskit.Base.Int.{ℤ, is_zero}
use fskit.Base.Bytes.{Str}
use fskit.Calls.{
  run_user_setmetadata, RouteType, Call, no_route, ran, null_route, stat as stat_route, setmetadata,
  run_user,
}
use fskit.Entry.{attach_lowlevel}
use fskit.Entry.Init.{Clock, init_symlink}
use fskit.Errno.{
  ok_rc, eperm, eio, enomem, eacces, eexist, enotdir, enametoolong, name_max, path_max,
}
use fskit.Ops.{Env, on_found}
use fskit.Ops.Make.{add_open, writeable}
use fskit.Ops.Hardlink.{unref}
use fskit.Path.{dirname, basename, basename_len}
use fskit.Perm.{bit, is_readable, is_writeable, is_searchable}
use fskit.Resolve.{Look, found, failed, crashed, resolve_path}
use fskit.Store.{
  Sglib, Inode, Store, Cmd, Ptr, Time, Kind, dead, file, dir, fifo, sock, chr, blk, lnk, Run, done,
  fault, pure, load, store, modify, free, ◌>>=◌, ◌>>◌, is_dir,
}

-- struct timeval
pub record Timeval : Type 0 where
  pub tv_sec : ℕ
  pub tv_usec : ℕ

-- struct stat, less what is always 0
pub record Stat : Type 0 where
  pub st_ino : ℕ
  pub st_mode : ℕ
  pub st_nlink : ℤ
  pub st_uid : ℕ
  pub st_gid : ℕ
  pub st_rdev : ℕ
  pub st_size : ℤ
  pub st_atim : Time
  pub st_mtim : Time
  pub st_ctim : Time

pub or_bit : ℕ → ℕ → ℕ → ℕ
or_bit k a b = if bit k a || bit k b then 2 ^ k else 0

-- a | b, for numbers of four bits
pub or_nibble : ℕ → ℕ → ℕ
unfolding or_bit
or_nibble a b = or_bit 0 a b + or_bit 1 a b + or_bit 2 a b + or_bit 3 a b

-- type | mode, where the type is the given number in bits 12 to 15
pub or_type : ℕ → ℕ → ℕ
unfolding or_nibble
or_type t mode = mode / 2 ^ 16 * 2 ^ 16 + or_nibble t (mode / 2 ^ 12 % 16) * 2 ^ 12 + mode % 2 ^ 12

-- (mode_t)-EINVAL for a dead inode
unfoldable pub fullmode : Kind → ℕ → ℕ
unfolding or_type
fullmode dead mode = 2 ^ 32 - 22
fullmode file mode = or_type 8 mode
fullmode dir mode = or_type 4 mode
fullmode fifo mode = or_type 1 mode
fullmode sock mode = or_type 12 mode
fullmode chr mode = or_type 2 mode
fullmode blk mode = or_type 6 mode
fullmode lnk mode = or_type 10 mode

-- fskit_access on the inode's own data. R_OK is bit 2 of the mode, W_OK bit 1, X_OK bit 0.
pub access_check : (user gid mode : ℕ) → Stat → ℤ
access_check user gid mode sb =
    if bit 2 mode && not (is_readable sb.st_mode sb.st_uid sb.st_gid user gid)
    then eacces
    else if bit 1 mode && not (is_writeable sb.st_mode sb.st_uid sb.st_gid user gid)
    then eacces
    else if bit 0 mode && not (is_searchable sb.st_mode sb.st_uid sb.st_gid user gid)
    then eacces
    else ok_rc

module _ (G : Sglib) where
  pub set_owner_and_group : (new_user new_group : ℕ) → Inode G → Inode G
  set_owner_and_group new_user new_group e = record e { owner = new_user; group = new_group }

  pub set_mode : ℕ → Inode G → Inode G
  set_mode mode e = record e { mode = mode }

  pub set_times : Timeval → Timeval → Inode G → Inode G
  set_times atime mtime e = record e {
    atime = record { sec = atime.tv_sec; nsec = atime.tv_usec * 1000 };
    mtime = record { sec = mtime.tv_sec; nsec = mtime.tv_usec * 1000 };
  }

  pub entry_fstat : Inode G → Stat
  unfolding fullmode
  entry_fstat e = record {
    st_ino = e.file_id;
    st_mode = fullmode e.kind e.mode;
    st_nlink = e.link_count;
    st_uid = e.owner;
    st_gid = e.group;
    st_rdev = e.dev;
    st_size = e.size;
    st_atim = e.atime;
    st_mtim = e.mtime;
    st_ctim = e.ctime;
  }

module _ (G : Sglib) (env : Env) where
  open G use {names}

  -- fskit_chown and fskit_chmod behind the look-up.
  pub change : Str → ℕ → (Inode G → Inode G) → Ptr → Cmd G ℤ
  unfolding run_user
  change path user f fent = do
    e ← load fent
    if not (e.owner == user) then pure eperm else (do
      rc ← run_user_setmetadata G env.routes path fent
      (if is_zero rc then modify fent f else pure tt)
      pure rc)

  unfoldable pub chown : Str → (user gid new_user new_group : ℕ) → Cmd G ℤ
  unfolding change set_owner_and_group resolve_path
  chown path user gid new_user new_group s =
      if not env.mem
      then done enomem s
      else on_found G (resolve_path G env.mem user gid s path) (λ rc. rc)
          (λ fent _. change path user (set_owner_and_group G new_user new_group) fent) s

  pub chmod : Str → (user gid mode : ℕ) → Cmd G ℤ
  unfolding change set_mode resolve_path
  chmod path user gid mode s =
      if not env.mem
      then done enomem s
      else on_found G (resolve_path G env.mem user gid s path) (λ rc. rc)
          (λ fent _. change path user (set_mode G mode) fent) s

  -- The time of the clock, in microseconds.
  now_timeval : Timeval
  now_timeval = record { tv_sec = env.clock.now.sec; tv_usec = env.clock.now.nsec / 1000 }

  -- Without times those of the clock are set.
  pub utimes_at : (user gid : ℕ) → Option (Timeval × Timeval) → Ptr → Cmd G ℤ
  unfolding writeable set_times now_timeval
  utimes_at user gid times fent = do
    e ← load fent
    if not (writeable G user gid e) then pure eacces else elim times [
      | some t ↦ modify fent (set_times G t.0 t.1) >> pure ok_rc
      | none ↦
          if is_zero env.clock.rc
          then modify fent (set_times G now_timeval now_timeval) >> pure ok_rc
          else pure env.clock.rc
    ]

  pub utimes : Str → (user gid : ℕ) → Option (Timeval × Timeval) → Cmd G ℤ
  unfolding utimes_at resolve_path
  utimes path user gid times s =
      on_found G (resolve_path G env.mem user gid s path) (λ rc. rc)
        (λ fent _. utimes_at user gid times fent) s

  unfoldable pub utime : Str → (user gid actime modtime : ℕ) → Cmd G ℤ
  unfolding utimes
  utime path user gid actime modtime =
      utimes path user gid
        (some (record { tv_sec = actime; tv_usec = 0 }, record { tv_sec = modtime; tv_usec = 0 }))

  unfoldable pub access : Str → (user gid mode : ℕ) → Cmd G ℤ
  unfolding access_check entry_fstat resolve_path
  access path user gid mode s =
      on_found G (resolve_path G env.mem user gid s path) (λ rc. rc)
        (λ fent _. load fent >>= λ e. pure (access_check user gid mode (entry_fstat G e))) s

  -- The code of the stat callback where there is no inode.
  stat_absent : Call → Cmd G (ℤ × Option Stat)
  stat_absent no_route = pure (ok_rc, none)
  stat_absent (ran rc) = pure (rc, none)
  stat_absent null_route = λ _. fault

  -- fskit_fstat between fskit_entry_ref and fskit_entry_unref. The callback gets the buffer and
  -- leaves it.
  pub stat_at : Str → Ptr → Cmd G (ℤ × Option Stat)
  unfolding add_open entry_fstat run_user unref
  stat_at path fent = do
    modify fent (add_open G)
    e ← load fent
    rc ← run_user G ok_rc env.routes stat_route path fent
    released ← unref G env path fent
    pure (rc, some (entry_fstat G e))

  -- Any error of the look-up, which is made as user 0, hands the path to the callback.
  unfoldable pub stat : Str → Cmd G (ℤ × Option Stat)
  unfolding stat_at stat_absent resolve_path
  stat path s =
      if leb name_max (basename_len path)
      then done (enametoolong, none) s
      else elim (resolve_path G env.mem 0 0 s path) [
        | found fent c ↦ stat_at path fent s
        | failed rc c ↦ stat_absent (env.routes stat_route path) s
        | crashed ↦ fault
      ]

  -- Behind the checks of fskit_symlink.
  pub make_symlink : Str → Ptr → Str → Cmd G ℤ
  unfolding init_symlink attach_lowlevel
  make_symlink target parent name =
      if not env.mem
      then pure enomem
      else if env.inode == 0
      then pure eio
      else elim (init_symlink G env.mem env.clock env.inode target).1 [
        | none ↦ pure eio
        | some e ↦ do
          store env.fresh e
          rc ← attach_lowlevel G env.mem env.clock.now parent env.fresh name
          if is_zero rc then pure ok_rc else free env.fresh >> pure eio
      ]

  pub symlink_in : Str → Str → (user gid : ℕ) → Ptr → Cmd G ℤ
  unfolding make_symlink writeable
  symlink_in target name user gid parent = do
    e ← load parent
    if not (writeable G user gid e)
        then pure eacces
        else (if not (is_dir e.kind) then pure enotdir else elim (names.find e.children name) [
          | some _ ↦ pure eexist
          | none ↦ make_symlink target parent name
        ])

  -- Both parts of the path go to buffers on the stack, with no test of their lengths.
  unfoldable pub symlink : Str → Str → (user gid : ℕ) → Cmd G ℤ
  unfolding symlink_in resolve_path
  symlink target linkpath user gid s =
      if ltb path_max (length (dirname linkpath)) || ltb name_max (length (basename linkpath))
      then fault
      else on_found G (resolve_path G env.mem user gid s (dirname linkpath)) (λ rc. rc)
          (λ parent _. symlink_in target (basename linkpath) user gid parent) s
