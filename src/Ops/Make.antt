-- ===== src/Ops/Make.antt =====
-- libfskit/mkdir.c.
pub mod NewDir
pub mod Outcome
use fskit.Base.{ℕ, Bool, not, Option, none, some, ◌==◌, ltb, if◌then◌else◌}
use fskit.Base.Int.{ℤ, is_neg, is_zero, inc, dec, eq_ℤ}
use fskit.Base.Bytes.{Str}
use fskit.Calls.{run_user_mkdir, no_route, mkdir as mkdir_route, run_user}
use fskit.Entry.{attach_lowlevel}
use fskit.Entry.Destroy.{try_garbage_collect, destroy_entry}
use fskit.Entry.Init.{init_dir}
use fskit.Errno.{ok_rc, enotdir, eacces, eexist, eio, enomem, enametoolong, name_max}
use fskit.Ops.{Env, on_found}
use fskit.Path.{dirname, basename, basename_len, sanitize_path}
use fskit.Perm.{is_writeable}
use fskit.Resolve.{resolve_path}
use fskit.Store.{Sglib, Inode, Cmd, Ptr, done, pure, load, store, modify, free, ◌>>=◌, ◌>>◌, is_dir}

module _ (G : Sglib) where
  unfoldable pub add_open : Inode G → Inode G
  add_open e = record e { open_count = inc e.open_count }

  unfoldable pub drop_open : Inode G → Inode G
  drop_open e = record e { open_count = dec e.open_count }

  unfoldable pub set_user_data : ℕ → Inode G → Inode G
  set_user_data user_data e = record e { app_data = user_data }

  unfoldable pub writeable : ℕ → ℕ → Inode G → Bool
  writeable user gid e = is_writeable e.mode e.owner e.group user gid

module _ (G : Sglib) (env : Env) where
  open G use {names}

  -- Collecting garbage under a name that is taken: 0 if the name is free now.
  unfoldable pub clear_name : Str → Ptr → Ptr → Cmd G ℤ
  unfolding try_garbage_collect
  clear_name path parent child = do
    rc ← try_garbage_collect G env.routes env.clock.now path parent child
    pure (if is_neg rc then (if eq_ℤ rc eexist then eexist else eio) else ok_rc)

  -- Behind the initialization of the new directory: it is held open while the callback runs.
  unfoldable pub enter_dir : Str → Ptr → Str → Cmd G ℤ
  unfolding run_user destroy_entry add_open drop_open set_user_data
  enter_dir path parent name = do
    modify env.fresh (add_open G)
    rc ← run_user_mkdir G env.routes path env.fresh
    modify env.fresh (drop_open G)
    if is_zero rc
        then (do
          modify env.fresh (
              set_user_data G
                (elim (env.routes mkdir_route path) [ no_route ↦ 0 | _ ↦ env.user_data ]))
          attached ← attach_lowlevel G env.mem env.clock.now parent env.fresh name
          pure ok_rc)
        else (free env.fresh >> pure rc)

  unfoldable pub make_dir : Str → Ptr → Str → (mode user gid : ℕ) → Cmd G ℤ
  unfolding init_dir
  make_dir path parent name mode user gid =
      if not env.mem
      then pure enomem
      else if env.inode == 0
      then pure eio
      else let init : ℤ × Option (Inode G) =
          init_dir G env.mem env.clock env.fresh parent env.inode
            (record { user = user; gid = gid; bits = mode }) in
        elim init.1 [
          | none ↦ pure init.0
          | some e ↦ store env.fresh e >> enter_dir path parent name
        ]

  unfoldable pub mkdir_lowlevel : Str → Ptr → Str → (mode user gid : ℕ) → Cmd G ℤ
  unfolding clear_name
  mkdir_lowlevel path parent name mode user gid = do
    e ← load parent
    elim (names.find e.children name) [
      | none ↦ make_dir path parent name mode user gid
      | some child ↦ do
        rc ← clear_name path parent child
        if is_zero rc then make_dir path parent name mode user gid else pure rc
    ]

  unfoldable pub mkdir_in : Str → Str → (mode user gid : ℕ) → Ptr → Cmd G ℤ
  unfolding writeable
  mkdir_in path name mode user gid parent = do
    e ← load parent
    if not (is_dir e.kind)
        then pure enotdir
        else (if not (writeable G user gid e)
            then pure eacces
            else mkdir_lowlevel path parent name mode user gid)

  -- The names are cut from a copy without its final slash; the callbacks see the path as given.
  unfoldable pub mkdir : Str → (mode user gid : ℕ) → Cmd G ℤ
  unfolding resolve_path
  mkdir path mode user gid s =
      let fpath : Str = sanitize_path path in
      if ltb name_max (basename_len path)
      then done enametoolong s
      else on_found G (resolve_path G env.mem user gid s (sanitize_path (dirname fpath))) (λ rc. rc)
          (λ parent _. mkdir_in path (basename fpath) mode user gid parent) s
