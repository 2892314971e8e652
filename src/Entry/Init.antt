-- ===== src/Entry/Init.antt =====
-- libfskit/entry.c: the initializers of inodes.
use fskit.Base.{ℕ, Bool, false, Option, none, some, [], if◌then◌else◌, length}
use fskit.Base.Int.{ℤ, pos, is_zero}
use fskit.Base.Bytes.{Str}
use fskit.Errno.{ok_rc, enomem}
use fskit.Store.{Sglib, Inode, Ptr, Time, Kind, file, dir, fifo, sock, chr, blk, lnk}
use fskit.Entry.{set_new}

-- clock_gettime: its code, and the time.
pub record Clock : Type 0 where
  pub rc : ℤ
  pub now : Time

abbrev pub epoch : Time
epoch = record { sec = 0; nsec = 0 }

-- The owner, group and mode that an inode is made with.
pub record Access : Type 0 where
  pub user : ℕ
  pub gid : ℕ
  pub bits : ℕ

module _ (G : Sglib) where
  open G use {names, attrs}

  -- Every field is set to zero first.
  unfoldable pub init_lowlevel : Kind → ℕ → Access → Inode G
  init_lowlevel kind file_id a = record {
    file_id = file_id;
    kind = kind;
    owner = a.user;
    group = a.gid;
    mode = a.bits;
    ctime = epoch;
    mtime = epoch;
    atime = epoch;
    open_count = pos 0;
    link_count = pos 0;
    size = pos 0;
    deletion_in_progress = false;
    deletion_through_rename = false;
    num_children = pos 0;
    children = names.null;
    app_data = 0;
    dev = 0;
    xattrs = attrs.null;
    symlink_target = [];
  }

  -- Each initializer returns its code and, on success, the inode.
  unfoldable pub init_common : Clock → Kind → ℕ → Access → ℤ × Option (Inode G)
  unfolding init_lowlevel
  init_common clock kind file_id a =
      if is_zero clock.rc
      then (
        ok_rc,
        some (record (init_lowlevel kind file_id a) {
          ctime = clock.now;
          mtime = clock.now;
          atime = clock.now;
        }),
      )
      else (clock.rc, none)

  unfoldable pub init_file : Clock → ℕ → Access → ℤ × Option (Inode G)
  unfolding init_common
  init_file clock = init_common clock file

  unfoldable pub init_fifo : Clock → ℕ → Access → ℤ × Option (Inode G)
  unfolding init_common
  init_fifo clock = init_common clock fifo

  unfoldable pub init_sock : Clock → ℕ → Access → ℤ × Option (Inode G)
  unfolding init_common
  init_sock clock = init_common clock sock

  abbrev with_inode : ℤ × Option (Inode G) → (Inode G → Inode G) → ℤ × Option (Inode G)
  with_inode (rc, none) f = (rc, none)
  with_inode (rc, some e) f = (rc, some (f e))

  unfoldable pub init_chr : Clock → ℕ → Access → ℕ → ℤ × Option (Inode G)
  unfolding init_common
  init_chr clock file_id a dev =
      with_inode (init_common clock chr file_id a) λ e. record e { dev = dev }

  unfoldable pub init_blk : Clock → ℕ → Access → ℕ → ℤ × Option (Inode G)
  unfolding init_common
  init_blk clock file_id a dev =
      with_inode (init_common clock blk file_id a) λ e. record e { dev = dev }

  -- `fent` is the address of the new directory.
  unfoldable pub init_dir : Bool → Clock → Ptr → Ptr → ℕ → Access → ℤ × Option (Inode G)
  unfolding init_common
  init_dir mem clock fent parent file_id a = elim (set_new G mem fent parent) [
    | none ↦ (enomem, none)
    | some set ↦ with_inode (init_common clock dir file_id a) λ e. record e { children = set }
  ]

  -- `linkpath` is not NULL. The mode is 0777.
  unfoldable pub init_symlink : Bool → Clock → ℕ → Str → ℤ × Option (Inode G)
  unfolding init_common
  init_symlink mem clock file_id linkpath =
      if mem
      then with_inode (init_common clock lnk file_id (record { user = 0; gid = 0; bits = 0o777 }))
          (λ e. record e { symlink_target = linkpath; size = pos (length linkpath) })
      else (enomem, none)
