-- ===== src/Ops/Node.antt =====
-- libfskit/mknod.c.
use fskit.Base.{ℕ, ◌+◌, ◌*◌, ◌/◌, ◌%◌, ◌^◌, not, Option, none, some, ◌==◌, ltb, if◌then◌else◌}
use fskit.Base.Int.{ℤ, is_zero}
use fskit.Base.Bytes.{Str}
use fskit.Calls.{run_user_mknod, run_user}
use fskit.Entry.{attach_lowlevel}
use fskit.Entry.Init.{Access, init_file, init_fifo, init_sock, init_chr, init_blk}
use fskit.Errno.{ok_rc, einval, eacces, eio, enametoolong, name_max}
use fskit.Ops.{Env, on_found}
use fskit.Ops.Make.{add_open, drop_open, writeable, clear_name}
use fskit.Path.{dirname, basename, basename_len, sanitize_path}
use fskit.Resolve.{resolve_path, searchable}
use fskit.Store.{Sglib, Inode, Cmd, Ptr, done, fault, pure, load, store, modify, free, ◌>>=◌, ◌>>◌}

-- The kinds that mknod makes, by the type bits of the mode: S_IFMT is bits 12 to 15.
pub data NodeKind : Type 0 where
  regular fifo_node socket char_device block_device unsupported : NodeKind

type_bits : ℕ → ℕ
type_bits mode = mode / 2 ^ 12 % 16

pub node_kind : ℕ → NodeKind
unfolding type_bits
node_kind mode =
    if type_bits mode == 8
    then regular
    else if type_bits mode == 1
    then fifo_node
    else if type_bits mode == 12
    then socket
    else if type_bits mode == 2
    then char_device
    else if type_bits mode == 6
    then block_device
    else unsupported

-- (mode & 0777) | type
pub node_mode : ℕ → ℕ
unfolding type_bits
node_mode mode = mode % 2 ^ 9 + type_bits mode * 2 ^ 12

module _ (G : Sglib) (env : Env) where
  open G use {names}

  init_node : NodeKind → ℕ → Access → ℤ × Option (Inode G)
  unfolding init_file init_fifo init_sock init_chr init_blk
  init_node regular dev a = init_file G env.clock 0 a
  init_node fifo_node dev a = init_fifo G env.clock 0 a
  init_node socket dev a = init_sock G env.clock 0 a
  init_node char_device dev a = init_chr G env.clock 0 a dev
  init_node block_device dev a = init_blk G env.clock 0 a dev
  init_node unsupported dev a = (einval, none)

  unfoldable pub set_file_id : ℕ → Inode G → Inode G
  set_file_id file_id e = record e { file_id = file_id }

  -- Behind the initialization. The data that the callback returns is not kept.
  enter_node : Str → Ptr → Str → Cmd G ℤ
  unfolding run_user attach_lowlevel add_open drop_open set_file_id
  enter_node path parent name = if env.inode == 0 then free env.fresh >> pure eio else do
    modify env.fresh (set_file_id env.inode)
    modify env.fresh (add_open G)
    rc ← run_user_mknod G env.routes path env.fresh
    modify env.fresh (drop_open G)
    if is_zero rc
        then (do
          attached ← attach_lowlevel G env.mem env.clock.now parent env.fresh name
          pure ok_rc)
        else (free env.fresh >> pure rc)

  -- calloc's result is used unchecked.
  pub make_node : Str → Ptr → Str → (mode dev user gid : ℕ) → Cmd G ℤ
  unfolding init_node enter_node node_kind node_mode
  make_node path parent name mode dev user gid =
      if not env.mem
      then (λ _. fault)
      else let init : ℤ × Option (Inode G) =
          init_node (node_kind mode) dev
            (record { user = user; gid = gid; bits = node_mode mode }) in
        elim init.1 [
          | none ↦ pure init.0
          | some e ↦ store env.fresh e >> enter_node path parent name
        ]

  -- Nothing asks whether the parent is a directory.
  pub mknod_in : Str → (mode dev user gid : ℕ) → Ptr → Cmd G ℤ
  unfolding make_node clear_name writeable
  mknod_in path mode dev user gid parent = do
    e ← load parent
    if not (searchable G user gid e)
        then pure eacces
        else (if not (writeable G user gid e)
            then pure eacces
            else elim (names.find e.children (basename path)) [
              | none ↦ make_node path parent (basename path) mode dev user gid
              | some child ↦ do
                rc ← clear_name G env path parent child
                if is_zero rc
                    then make_node path parent (basename path) mode dev user gid
                    else pure rc
            ])

  unfoldable pub mknod : Str → (mode dev user gid : ℕ) → Cmd G ℤ
  unfolding mknod_in resolve_path
  mknod fs_path mode dev user gid s =
      let path : Str = sanitize_path fs_path in
      if ltb name_max (basename_len fs_path)
      then done enametoolong s
      else on_found G (resolve_path G env.mem user gid s (dirname path)) (λ rc. rc)
          (λ parent _. mknod_in path mode dev user gid parent) s
