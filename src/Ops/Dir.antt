-- ===== src/Ops/Dir.antt =====
-- libfskit/opendir.c, libfskit/readdir.c and libfskit/closedir.c.
pub mod Listing
pub mod Chunks
pub mod Whole
pub mod Reads
pub mod Rewind
use fskit.Base.{
  ℕ, zero, suc, ◌-◌, ◌^◌, Bool, true, false, ◌||◌, not, Option, none, some, List, [], ◌∷◌, ◌==◌,
  ltb, leb, if◌then◌else◌, length, take, map,
}
use fskit.Base.Int.{ℤ, is_zero, is_nonpos}
use fskit.Base.Bytes.{Str, str_eq, dot, is_empty}
use fskit.Calls.{
  run_user_close, run_user_readdir, Call, no_route, ran, null_route, open_file,
  close as close_route, readdir as readdir_route, run_user,
}
use fskit.Entry.Destroy.{try_destroy_and_free}
use fskit.Errno.{ok_rc, ebadf, enomem, enotdir, einval, enametoolong, name_max, path_max}
use fskit.Ops.{Env, on_found}
use fskit.Ops.Hardlink.{ref_entry, unref}
use fskit.Ops.Make.{drop_open}
use fskit.Ops.Open.{given}
use fskit.Path.{sanitize_path}
use fskit.Resolve.{resolve_path}
use fskit.Store.{
  Sglib, Inode, Store, Cmd, Ptr, Kind, Run, done, fault, pure, load, modify, ◌>>=◌, ◌>>◌, is_dir,
  is_dead,
}

-- struct fskit_dir_handle, less its lock. `telldir_list` has the offsets and names of the saved
-- positions.
pub record DirHandle : Type 0 where
  pub dent : Option Ptr
  pub path : Str
  pub file_id : ℕ
  pub curr_name : Str
  pub telldir_list : List (ℕ × Str)
  pub app_data : ℕ
  pub eof : Bool

-- struct fskit_dir_entry
pub record DirEntry : Type 0 where
  pub kind : Kind
  pub file_id : ℕ
  pub name : Str

-- strcmp(s, t) < 0
abbrev pub str_lt : Str → Str → Bool
str_lt [] [] = false
str_lt [] (d ∷ t) = true
str_lt (c ∷ s) [] = false
str_lt (c ∷ s) (d ∷ t) = if c == d then str_lt s t else ltb c d

-- The members of a set from one on, in the order of its iterator.
abbrev pub Members : Type 0
Members = List (Str × Ptr)

-- from the first name that is greater
abbrev pub from_greater : Str → Members → Members
from_greater curr [] = []
from_greater curr ((name, p) ∷ rest) =
    if str_lt curr name then (name, p) ∷ rest else from_greater curr rest

-- from the member with that name
abbrev pub from_member : Str → Members → Members
from_member curr [] = []
from_member curr ((name, p) ∷ rest) =
    if str_eq curr name then (name, p) ∷ rest else from_member curr rest

abbrev pub tail : Members → Members
tail [] = []
tail (x ∷ rest) = rest

-- UINT64_MAX
abbrev pub all_children : ℕ
all_children = 2 ^ 64 - 1

abbrev pub last_name : DirEntry → List DirEntry → Str
last_name e [] = e.name
last_name e (f ∷ rest) = last_name f rest

-- The handle behind a read.
unfoldable pub read_to : DirHandle → List DirEntry → Option (List DirEntry) × DirHandle
read_to dirh [] = (none, record dirh { eof = true })
read_to dirh (e ∷ rest) = (some (e ∷ rest), record dirh { curr_name = last_name e rest })

-- The slots that are not NULL.
unfoldable pub count_entries : List (Option DirEntry) → ℕ
count_entries [] = 0
count_entries (none ∷ rest) = count_entries rest
count_entries (some _ ∷ rest) = suc (count_entries rest)

unfoldable pub copy_entries : List (Option DirEntry) → List DirEntry
copy_entries [] = []
copy_entries (none ∷ rest) = copy_entries rest
copy_entries (some e ∷ rest) = e ∷ copy_entries rest

-- The code and the list; nothing is allocated if no slot is NULL.
unfoldable pub compactify_list : Bool → List (Option DirEntry) → ℤ × List DirEntry
unfolding count_entries copy_entries
compactify_list mem entries =
    if count_entries entries == length entries
    then (ok_rc, copy_entries entries)
    else if mem
    then (ok_rc, copy_entries entries)
    else (enomem, copy_entries entries)

module _ (G : Sglib) where
  open G use {names}

  unfoldable pub make_dir_entry : Inode G → Str → DirEntry
  make_dir_entry e name = record { kind = e.kind; file_id = e.file_id; name = take name_max name }

  unfoldable pub find_start : Str → names.Tree → Members
  find_start curr children = elim (names.find children curr) [
    | none ↦ from_greater curr (names.members children)
    | some _ ↦ from_member curr (names.members children)
  ]

  -- an entry that is not listed
  abbrev pub skipped : Inode G → Bool
  skipped e = e.deletion_in_progress || is_dead e.kind

  -- The entry "." is made from the directory itself.
  unfoldable pub entry_of : Inode G → Inode G → Str → DirEntry
  unfolding make_dir_entry
  entry_of d e name = make_dir_entry (if str_eq name dot then d else e) name

  -- The loop of fskit_readdir_itr, with the count of entries that may still be read.
  unfoldable pub read_entries : Inode G → ℕ → Members → Cmd G (List DirEntry)
  unfolding entry_of
  read_entries d n [] = pure []
  read_entries d zero (x ∷ rest) = pure []
  read_entries d (suc n) ((name, p) ∷ rest) = do
    let others = read_entries d (suc n) rest
    let more = read_entries d n rest
    e ← load p
    if skipped e then others else (do entries ← more; pure (entry_of d e name ∷ entries))

  -- *err and the list
  unfoldable pub readdir_itr : Bool → Inode G → ℕ → Members → Cmd G (ℤ × Option (List DirEntry))
  unfolding read_entries
  readdir_itr mem d num_children read_start =
      if not mem
      then pure (enomem, none)
      else do entries ← read_entries d num_children read_start; pure (ok_rc, some entries)

  unfoldable pub listdir_locked : Bool → Ptr → Cmd G (ℤ × Option (List DirEntry))
  unfolding readdir_itr
  listdir_locked mem dent = do
    d ← load dent
    if is_dir d.kind
        then readdir_itr mem d (names.len d.children) (names.members d.children)
        else pure (einval, none)

  abbrev pub how_many : Inode G → ℕ → ℕ
  how_many d num_children =
      if num_children == all_children then names.len d.children else num_children

  unfoldable pub read_from :
      Bool → DirHandle → Inode G → ℕ → Members → Cmd G (ℤ × Option (List DirEntry) × DirHandle)
  unfolding readdir_itr read_to
  read_from mem dirh d num_children read_start = do
    r ← readdir_itr mem d num_children read_start
    elim r.1 [
      | none ↦ pure (r.0, none, dirh)
      | some entries ↦ pure (r.0, (read_to dirh entries).0, (read_to dirh entries).1)
    ]

  -- *err, the list or NULL, and the handle.
  unfoldable pub readdir_lowlevel :
      Bool → DirHandle → Ptr → ℕ → Cmd G (ℤ × Option (List DirEntry) × DirHandle)
  readdir_lowlevel mem dirh dent num_children = if dirh.eof then pure (ok_rc, none, dirh) else (do
    d ← load dent
    if is_empty dirh.curr_name
        then elim (names.members d.children) [
          | [] ↦ (λ _. fault)
          | (name, p) ∷ rest ↦
              read_from mem (record dirh { curr_name = take name_max name }) d
                (how_many d num_children) ((name, p) ∷ rest)
        ]
        else elim (tail (find_start dirh.curr_name d.children)) [
          | [] ↦ pure (ok_rc, none, dirh)
          | x ∷ rest ↦ read_from mem dirh d (how_many d num_children) (x ∷ rest)
        ])

  -- For a position that was saved, the stream goes to where its current name stands.
  unfoldable pub seek : DirHandle → names.Tree → DirHandle
  unfolding find_start
  seek dirh children = elim (find_start dirh.curr_name children) [
    | [] ↦ dirh
    | (name, p) ∷ rest ↦ record dirh { curr_name = take name_max name }
  ]

  unfoldable pub seekdir_list : List (ℕ × Str) → ℕ → DirHandle → names.Tree → DirHandle
  unfolding seek
  seekdir_list [] loc dirh children = dirh
  seekdir_list ((offset, name) ∷ tents) loc dirh children =
      seekdir_list tents loc (if offset == loc then seek dirh children else dirh) children

  -- The handle is open: dirh->dent is not NULL.
  unfoldable pub seekdir : DirHandle → Ptr → ℕ → Cmd G DirHandle
  unfolding seekdir_list
  seekdir dirh dent loc = do
    d ← load dent
    pure (seekdir_list dirh.telldir_list loc dirh d.children)

  unfoldable pub rewinddir : DirHandle → Ptr → Cmd G DirHandle
  rewinddir dirh dent = do
    d ← load dent
    elim (names.members d.children) [
      | [] ↦ (λ _. fault)
      | (name, p) ∷ rest ↦ pure (record dirh { curr_name = take name_max name })
    ]

-- `offset` is the random number that the call draws. The result is the offset, or -EBADF.
unfoldable pub telldir : Bool → ℕ → DirHandle → ℤ × DirHandle
telldir mem offset dirh =
    if mem
    then (ℤ.pos offset, record dirh { telldir_list = (offset, dirh.curr_name) ∷ dirh.telldir_list })
    else (ebadf, dirh)

module _ (G : Sglib) (env : Env) where
  -- What the application's callback leaves of a list: some slots are NULL then.
  pub kept_slots :
      Call → (List DirEntry → List (Option DirEntry)) → List DirEntry → List (Option DirEntry)
  kept_slots (ran _) omit entries = omit entries
  kept_slots no_route omit entries = map some entries
  kept_slots null_route omit entries = map some entries

  -- Behind the low-level read.
  unfoldable pub run_and_compactify :
      (List DirEntry → List (Option DirEntry))
      → Str
      → Ptr
      → List DirEntry
      → Cmd G (ℤ × Option (List DirEntry))
  unfolding run_user kept_slots compactify_list
  run_and_compactify omit path dent entries = do
    rc ← run_user_readdir G env.routes path dent
    let compact = compactify_list env.mem (kept_slots (env.routes readdir_route path) omit entries)
    -- A list that could not be made compact is freed, and its address returned.
    pure (if is_zero rc then (compact.0, some compact.1) else (rc, none))

  -- *err, the list or NULL, and the handle.
  unfoldable pub readdir :
      (List DirEntry → List (Option DirEntry))
      → DirHandle
      → ℕ
      → Cmd G (ℤ × Option (List DirEntry) × DirHandle)
  readdir omit dirh num_children = elim dirh.dent [
    | none ↦ pure (ebadf, none, dirh)
    | some dent ↦ do
      r ← readdir_lowlevel G env.mem dirh dent num_children
      elim r.1 [
        | none ↦ pure (r.0, none, r.2)
        | some entries ↦ do c ← run_and_compactify omit dirh.path dent entries; pure (c.0, c.1, r.2)
      ]
  ]

  unfoldable pub listdir :
      (List DirEntry → List (Option DirEntry))
      → DirHandle
      → Cmd G (ℤ × Option (List DirEntry) × DirHandle)
  unfolding readdir
  listdir omit dirh = readdir omit dirh all_children

  unfoldable pub dir_handle_create : Ptr → ℕ → Str → ℕ → DirHandle
  dir_handle_create dir file_id path app_handle_data = record {
    dent = some dir;
    path = path;
    file_id = file_id;
    curr_name = [];
    telldir_list = [];
    app_data = app_handle_data;
    eof = false;
  }

  -- Behind the look-up.
  unfoldable pub opendir_at : Str → Ptr → Cmd G (ℤ × Option DirHandle)
  unfolding run_user ref_entry unref given dir_handle_create
  opendir_at path dir = do
    d ← load dir
    if not (is_dir d.kind) then pure (enotdir, none) else (do
      held ← ref_entry G env dir
      rc ← run_user G ok_rc env.routes open_file path dir
      if not (is_zero rc)
          then (do released ← unref G env path dir; pure (rc, none))
          else if env.mem
          then pure (
            ok_rc,
            some
                (dir_handle_create dir d.file_id path (given G env open_file path env.handle_data)),
          )
          else (do released ← unref G env path dir; pure (enomem, none)))

  -- The code that is left in *err, and the handle.
  unfoldable pub opendir : Str → (user gid : ℕ) → Cmd G (ℤ × Option DirHandle)
  unfolding opendir_at resolve_path sanitize_path
  opendir _path user gid s =
      if leb path_max (length _path)
      then done (enametoolong, none) s
      else on_found G (resolve_path G env.mem user gid s (sanitize_path _path)) (λ rc. (rc, none))
          (λ dir _. opendir_at (sanitize_path _path) dir) s

  -- The handle is freed, but where this fails.
  unfoldable pub closedir : DirHandle → Cmd G ℤ
  unfolding run_user drop_open try_destroy_and_free
  closedir dirh = elim dirh.dent [
    | none ↦ pure ebadf
    | some dent ↦ do
      cb ← run_user_close G env.routes dirh.path dent
      if not (is_zero cb) then pure cb else (do
        modify dent (drop_open G)
        rc ← try_destroy_and_free G env.routes dirh.path dent
        pure (if is_nonpos rc then rc else ok_rc))
  ]
