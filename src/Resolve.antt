-- ===== src/Resolve.antt =====
-- libfskit/path.c: fskit_entry_resolve_path_cls and fskit_entry_resolve_path, which walk from the
-- root along the names of a path. The walk reads inodes and changes none.
pub mod Walk
pub mod Iterator
use fskit.Base.{
  ℕ, Bool, true, false, ◌&&◌, ◌||◌, not, Option, none, some, List, [], ◌∷◌, ◌==◌, if◌then◌else◌,
  length, ◌-◌,
}
use fskit.Base.Int.{ℤ, pos, is_zero}
use fskit.Base.Bytes.{Str, is_empty, at, slash}
use fskit.Errno.{ok_rc, enomem, einval, enoent, enotdir, eacces}
use fskit.Path.{names_of}
use fskit.Perm.{is_searchable}
use fskit.Store.{Sglib, Entry, Inode, Store, Ptr, is_dir, is_dead, root_ptr}

-- The inode at the end of the path, an error, or a read of NULL or of a freed inode; with what the
-- evaluation callback has gathered.
pub data Look (C : Type 0) : Type 0 where
  found : Ptr → C → Look C
  failed : ℤ → C → Look C
  crashed : Look C

abbrev pub ends_in_slash : Str → Bool
ends_in_slash path = at path (length path - 1) == slash

module _ (G : Sglib) where
  open G use {names}

  abbrev pub searchable : ℕ → ℕ → Inode G → Bool
  searchable user gid e = is_searchable e.mode e.owner e.group user gid

  module _ {C : Type 0} (eval : Option (C → Inode G → ℤ × C)) (user gid : ℕ) (s : Store G) where
    -- `ent_eval`, if it is not NULL
    abbrev pub evaluate : C → Inode G → ℤ × C
    evaluate c e = elim eval [ none ↦ (ok_rc, c) | some f ↦ f c e ]

    abbrev pub enter : C → Inode G → Look C → Look C
    enter c d next =
        if not (is_zero (evaluate c d).0)
        then failed (evaluate c d).0 (evaluate c d).1
        else if is_zero d.link_count || is_dead d.kind || d.deletion_in_progress
        then failed enoent (evaluate c d).1
        else next

    -- `next` is the walk from the child, made with what the callback has gathered there.
    abbrev pub descend : (Ptr → C → Look C) → C → Inode G → Str → Look C
    descend next c e n =
        if not (is_dir e.kind)
        then failed (if is_dead e.kind then enoent else enotdir) c
        else if not (searchable user gid e)
        then failed eacces c
        else elim (names.find e.children n) [
          | none ↦ failed enoent c
          | some q ↦ elim (s q) [
            | none ↦ crashed
            | some d ↦
                if d.deletion_in_progress || is_dead d.kind
                then failed enoent c
                else enter c d (next q (evaluate c d).1)
          ]
        ]

    unfoldable pub walk : List Str → Ptr → C → Look C
    walk [] cur c = elim (s cur) [
      | none ↦ crashed
      | some e ↦
          if is_dir e.kind && not (searchable user gid e) then failed eacces c else found cur c
    ]
    walk (n ∷ ns) cur c = elim (s cur) [ none ↦ crashed | some e ↦ descend (walk ns) c e n ]

    -- Without memory, strdup fails, and the NULL that fskit_fullpath got is written to.
    unfoldable pub no_copy : Str → C → Look C
    no_copy path c = if ends_in_slash path then crashed else failed enomem c

    -- fskit_core_resolve_root gives NULL if the root is being deleted, and the test behind it reads
    -- the root's link count. `root` is core->root. `mem` says whether the path can be copied.
    unfoldable pub resolve_path_cls : Bool → Str → C → Look C
    unfolding walk no_copy
    resolve_path_cls mem path c =
        if is_empty path
        then failed einval c
        else if not mem
        then no_copy path c
        else elim (s root_ptr) [
          | none ↦ crashed
          | some root ↦
              if not (is_dir root.kind) || root.deletion_in_progress
              then crashed
              else if is_zero root.link_count
              then failed enoent c
              else if not (is_zero (evaluate c root).0)
              then failed (evaluate c root).0 (evaluate c root).1
              else walk (names_of path) root_ptr (evaluate c root).1
        ]

  unfoldable pub resolve_path : Bool → ℕ → ℕ → Store G → Str → Look (Unit {0})
  unfolding resolve_path_cls
  resolve_path mem user gid s path = resolve_path_cls none user gid s mem path tt
