-- ===== src/Ops/Open.antt =====
-- libfskit/open.c, libfskit/create.c and libfskit/close.c.
pub mod Counts
use fskit.Base.{ℕ, Bool, true, false, ◌&&◌, ◌||◌, not, Option, none, some, ◌==◌, ltb, if◌then◌else◌}
use fskit.Base.Int.{ℤ, is_neg, is_zero, is_nonpos, eq_ℤ}
use fskit.Base.Bytes.{Str}
use fskit.Calls.{
  run_user_close, run_user_create, RouteType, Call, no_route, create as create_route, open_file,
  close as close_route, run_user,
}
use fskit.Entry.{attach_lowlevel}
use fskit.Entry.Init.{init_file}
use fskit.Entry.Destroy.{try_garbage_collect, try_destroy_and_free}
use fskit.Errno.{
  ok_rc, enoent, eio, enomem, eacces, eexist, enotdir, eisdir, einval, enametoolong, name_max,
}
use fskit.Ops.{Env, on_found}
use fskit.Ops.File.{Handle, wronly, rdwr, set_atime, run_user_trunc}
use fskit.Ops.Hardlink.{unref}
use fskit.Ops.Make.{add_open, drop_open, set_user_data, writeable}
use fskit.Ops.Node.{set_file_id}
use fskit.Path.{dirname, basename, basename_len, sanitize_path}
use fskit.Perm.{bit, is_readable}
use fskit.Resolve.{resolve_path, searchable}
use fskit.Store.{
  Sglib, Inode, Store, Cmd, Ptr, Run, done, pure, load, store, modify, free, ◌>>=◌, ◌>>◌, is_dir,
  is_dead,
}

-- O_CREAT is bit 6 of the flags, O_TRUNC bit 9; O_RDONLY is 0.
abbrev pub creat : ℕ → Bool
creat flags = bit 6 flags

abbrev pub truncates : ℕ → Bool
truncates flags = bit 9 flags && (rdwr flags || wronly flags)

-- The tests of O_RDONLY come out the same for all flags.
pub check_flags : ℕ → ℤ
check_flags flags = if rdwr flags && wronly flags then einval else ok_rc

module _ (G : Sglib) where
  readable : ℕ → ℕ → Inode G → Bool
  readable user gid e = is_readable e.mode e.owner e.group user gid

  pub parent_check : ℕ → (user gid : ℕ) → Inode G → ℤ
  unfolding writeable
  parent_check flags user gid e =
      if not (is_dir e.kind)
      then enotdir
      else if not (searchable G user gid e)
      then eacces
      else if creat flags && not (writeable G user gid e)
      then eacces
      else ok_rc

  -- The code of the checks of fskit_do_open on the inode.
  unfoldable pub open_check : ℕ → (user gid : ℕ) → Inode G → ℤ
  unfolding writeable readable
  open_check flags user gid c =
      if is_zero c.link_count || c.deletion_in_progress || is_dead c.kind
      then enoent
      else if is_dir c.kind
      then eisdir
      else if (not (rdwr flags) && not (wronly flags)) && not (readable user gid c)
      then eacces
      else if wronly flags && not (writeable G user gid c)
      then eacces
      else if rdwr flags && (not (readable user gid c) || not (writeable G user gid c))
      then eacces
      else ok_rc

module _ (G : Sglib) (env : Env) where
  open G use {names}

  -- What the callback gives back, 0 where there is none.
  unfoldable pub given : RouteType → Str → ℕ → ℕ
  given t path v = elim (env.routes t path) [ no_route ↦ 0 | _ ↦ v ]

  -- The code and the handle's data.
  pub do_open : Str → Ptr → ℕ → (user gid : ℕ) → Cmd G (ℤ × ℕ)
  unfolding add_open run_user unref given
  do_open path child flags user gid = do
    c ← load child
    if not (is_zero (open_check G flags user gid c))
        then pure (open_check G flags user gid c, 0)
        else (do
          modify child (add_open G)
          rc ← run_user G ok_rc env.routes open_file path child
          if is_zero rc
              then pure (ok_rc, given open_file path env.handle_data)
              else (do released ← unref G env path child; pure (rc, 0)))

  -- Behind the initialization of the new file, which stays open.
  pub enter_file : Ptr → Str → Cmd G (ℤ × ℕ)
  unfolding run_user attach_lowlevel add_open set_user_data set_file_id given
  enter_file parent path = if env.inode == 0 then free env.fresh >> pure (eio, 0) else do
    modify env.fresh (set_file_id G env env.inode)
    modify env.fresh (add_open G)
    rc ← run_user_create G env.routes path env.fresh
    if is_zero rc
        then (do
          modify env.fresh (set_user_data G (given create_route path env.user_data))
          attached ← attach_lowlevel G env.mem env.clock.now parent env.fresh (basename path)
          pure (ok_rc, given create_route path env.handle_data))
        else (free env.fresh >> pure (rc, 0))

  pub do_create : Ptr → Str → (mode user gid : ℕ) → Cmd G (ℤ × ℕ)
  unfolding init_file enter_file
  do_create parent path mode user gid =
      if not env.mem
      then pure (enomem, 0)
      else let init : ℤ × Option (Inode G) =
          init_file G env.clock 0 (record { user = user; gid = gid; bits = mode }) in
        elim init.1 [
          | none ↦ pure (init.0, 0)
          | some e ↦ store env.fresh e >> enter_file parent path
        ]

  -- The end of fskit_open_ex, and fskit_file_handle_create.
  pub make_handle : Str → Ptr → ℕ → ℕ → Cmd G (ℤ × Option Handle)
  unfolding set_atime
  make_handle path child flags handle_data = do
    modify child (set_atime G env.clock)
    c ← load child
    if env.mem
        then pure (
          ok_rc,
          some (record {
            fent = child;
            file_id = c.file_id;
            path = path;
            flags = flags;
            app_data = handle_data;
          }),
        )
        else pure (enomem, none)

  -- The truncation, if it is asked for.
  pub open_trunc : Str → Ptr → ℕ → Cmd G ℤ
  unfolding run_user_trunc
  open_trunc path child flags =
      if truncates flags then run_user_trunc G env path child (ℤ.pos 0) else pure ok_rc

  pub open_existing : Str → Ptr → ℕ → (user gid : ℕ) → Cmd G (ℤ × Option Handle)
  unfolding open_trunc do_open make_handle
  open_existing path child flags user gid = do
    rc ← open_trunc path child flags
    if not (is_zero rc) then pure (rc, none) else (do
      opened ← do_open path child flags user gid
      if is_zero opened.0 then make_handle path child flags opened.1 else pure (opened.0, none))

  pub open_new : Str → Ptr → (flags mode user gid : ℕ) → Cmd G (ℤ × Option Handle)
  unfolding do_create open_trunc make_handle
  open_new path parent flags mode user gid = do
    created ← do_create parent path mode user gid
    if not (is_zero created.0) then pure (created.0, none) else (do
      rc ← open_trunc path env.fresh flags
      if is_zero rc then make_handle path env.fresh flags created.1 else pure (rc, none))

  -- With O_CREAT; a name that is taken has to be garbage.
  pub open_create : Str → Ptr → (flags mode user gid : ℕ) → Option Ptr → Cmd G (ℤ × Option Handle)
  unfolding open_new try_garbage_collect
  open_create path parent flags mode user gid none = open_new path parent flags mode user gid
  open_create path parent flags mode user gid (some child) = do
    rc ← try_garbage_collect G env.routes env.clock.now path parent child
    if is_neg rc
        then pure ((if eq_ℤ rc eexist then eexist else eio), none)
        else open_new path parent flags mode user gid

  pub open_in : Str → Ptr → (flags mode user gid : ℕ) → Cmd G (ℤ × Option Handle)
  unfolding parent_check open_create open_existing
  open_in path parent flags mode user gid = do
    e ← load parent
    if not (is_zero (parent_check G flags user gid e))
        then pure (parent_check G flags user gid e, none)
        else (if creat flags
            then open_create path parent flags mode user gid (names.find e.children (basename path))
            else elim (names.find e.children (basename path)) [
              | none ↦ pure (enoent, none)
              | some child ↦ open_existing path child flags user gid
            ])

  -- The code that is left in *err, and the handle.
  unfoldable pub open_ex : Str → (user gid flags mode : ℕ) → Cmd G (ℤ × Option Handle)
  unfolding check_flags open_in resolve_path
  open_ex _path user gid flags mode s =
      let path : Str = sanitize_path _path in
      if not (is_zero (check_flags flags))
      then done (einval, none) s
      else if not env.mem
      then done (enomem, none) s
      else if ltb name_max (basename_len path)
      then done (enametoolong, none) s
      else on_found G (resolve_path G env.mem user gid s (dirname path)) (λ rc. (rc, none))
          (λ parent _. open_in path parent flags mode user gid) s

  -- O_CREAT | O_WRONLY | O_TRUNC
  unfoldable pub create : Str → (user gid mode : ℕ) → Cmd G (ℤ × Option Handle)
  unfolding open_ex
  create path user gid mode = open_ex path user gid 577 mode

  -- The handle is freed, but where this fails.
  pub close : Handle → Cmd G ℤ
  unfolding run_user drop_open try_destroy_and_free
  close fh = do
    cb ← run_user_close G env.routes fh.path fh.fent
    if not (is_zero cb) then pure cb else (do
      modify fh.fent (drop_open G)
      rc ← try_destroy_and_free G env.routes fh.path fh.fent
      pure (if is_nonpos rc then rc else ok_rc))
