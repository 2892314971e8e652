-- ===== src/Ops/Rename.antt =====
-- libfskit/rename.c.
pub mod Loops
pub mod Replace
pub mod Moves
use fskit.Base.{
  ℕ, ◌≡◌, Bool, true, false, ◌&&◌, ◌||◌, not, Option, none, some, List, [], ◌∷◌, ◌==◌, ltb,
  if◌then◌else◌, refl,
}
use fskit.Base.Int.{ℤ, pos, is_zero, is_nonpos}
use fskit.Base.Bytes.{Str, str_eq}
use fskit.Calls.{run_user_rename, rename as rename_route, run_user}
use fskit.Entry.{attach_lowlevel, detach_lowlevel, set_remove, set_insert}
use fskit.Entry.Destroy.{try_destroy_and_free}
use fskit.Errno.{
  ok_rc, enoent, enomem, eacces, enotdir, eisdir, enotempty, einval, enametoolong, name_max,
}
use fskit.Ops.{Env}
use fskit.Ops.Make.{writeable}
use fskit.Path.{dirname, basename, basename_len, depth}
use fskit.Resolve.{Look, found, failed, crashed, searchable, resolve_path, resolve_path_cls}
use fskit.Store.{
  Sglib, Inode, Store, Cmd, Ptr, Run, done, fault, exits, pure, load, store, modify, ◌>>=◌, ◌>>◌,
  kind_code, is_dir,
}

-- The red-black tree of inode numbers, fskit_inode_set, as an interface.
pub record IdSet : Type 1 where
  pub Set : Type 0
  pub null : Set
  pub add : Set → ℕ → Set
  pub has : Set → ℕ → Bool
  pub has-null : (i : ℕ) → has null i ≡ false
  pub has-add : (t : Set) (i j : ℕ) → has (add t i) j ≡ ((i == j) || has t j)

abbrev pub has_id : List ℕ → ℕ → Bool
has_id [] j = false
has_id (i ∷ is) j = (i == j) || has_id is j

-- The sets of the tests.
abbrev pub id_list : IdSet
id_list = record {
  Set = List ℕ;
  null = [];
  add = λ t i. i ∷ t;
  has = has_id;
  has-null = λ i. refl;
  has-add = λ t i j. refl;
}

module _ (G : Sglib) (ids : IdSet) where
  -- The set that the walk to the new parent gathers, NULL at first; `exited` where the callback has
  -- called exit(1), and so is not heard of again.
  pub record Gathered : Type 0 where
    pub inode_set : Option ids.Set
    pub exited : Bool

  -- The new member's number stays 0.
  pub resolve_inodes_cb : Bool → Gathered → Inode G → ℤ × Gathered
  resolve_inodes_cb mem g e = if not mem then (enomem, g) else elim g.inode_set [
    | none ↦ (ok_rc, record { inode_set = some (ids.add (ids.add ids.null 0) 0); exited = false })
    | some set ↦
        if ids.has set e.file_id
        then (einval, record { inode_set = some set; exited = true })
        else (ok_rc, record { inode_set = some (ids.add set 0); exited = false })
  ]

  -- The number that is looked up is 0, whatever the argument.
  pub inode_set_contains : ids.Set → ℕ → Bool
  inode_set_contains inode_set file_id = ids.has inode_set 0

  -- The parents that the two paths come to: one directory for both, or two, with the set.
  pub data Parents : Type 0 where
    common : Ptr → Parents
    apart : Ptr → Ptr → Option ids.Set → Parents
    refused : ℤ → Parents
    stuck leaves : Parents

  abbrev pub new_only : Look Gathered → (Ptr → Option ids.Set → Parents) → (ℤ → Parents) → Parents
  new_only (found n g) next err = next n g.inode_set
  new_only (failed rc g) next err = if g.exited then leaves else err rc
  new_only crashed next err = stuck

  abbrev pub old_only : Look (Unit {0}) → (Ptr → Parents) → (ℤ → Parents) → Parents
  old_only (found o c) next err = next o
  old_only (failed rc c) next err = err rc
  old_only crashed next err = stuck

  module _ (mem : Bool) (user gid : ℕ) (s : Store G) where
    abbrev pub resolve_inodes : Str → Look Gathered
    resolve_inodes path =
        resolve_path_cls G (some (resolve_inodes_cb mem)) user gid s mem path
          (record { inode_set = none; exited = false })

    -- The old parent first.
    pub old_then_new : Str → Str → Parents
    unfolding resolve_inodes_cb resolve_path_cls resolve_path
    old_then_new old_dir new_dir =
        old_only (resolve_path G mem user gid s old_dir)
          (λ o. new_only (resolve_inodes new_dir) (λ n set. apart o n set) (λ rc. refused rc))
          (λ rc. refused rc)

    -- The new parent first; its error comes before that of the old one.
    pub new_then_old : Str → Str → Parents
    unfolding resolve_inodes_cb resolve_path_cls resolve_path
    new_then_old old_dir new_dir =
        new_only (resolve_inodes new_dir)
          (λ n set.
            old_only (resolve_path G mem user gid s old_dir) (λ o. apart o n set)
              (λ rc. refused rc))
          (λ rc.
            old_only (resolve_path G mem user gid s old_dir) (λ _. refused rc) (λ _. refused rc))

    unfoldable pub parents : Str → Str → Parents
    unfolding old_then_new new_then_old resolve_path depth
    parents old_path new_path =
        if ltb (depth new_path) (depth old_path)
        then old_then_new (dirname old_path) (dirname new_path)
        else if ltb (depth old_path) (depth new_path)
        then new_then_old (dirname old_path) (dirname new_path)
        else if str_eq (dirname old_path) (dirname new_path)
        then old_only (resolve_path G mem user gid s (dirname old_path)) (λ p. common p)
            (λ rc. refused rc)
        else new_then_old (dirname old_path) (dirname new_path)

module _ (G : Sglib) (ids : IdSet) (env : Env) where
  open G use {names}

  -- fskit_entry_rename_in_directory
  unfoldable pub rename_in_directory : Ptr → Ptr → Str → Str → Cmd G ℤ
  rename_in_directory fent_parent fent old_name new_name = do
    e ← load fent_parent
    elim (names.find e.children old_name) [
      | none ↦ pure enoent
      | some found_fent ↦
          if not (found_fent == fent)
          then pure enoent
          else store fent_parent (record e {
            children =
                (set_insert G env.mem (set_remove G (set_remove G e.children old_name).1 new_name).1
                  new_name fent).1;
          })
            >> pure ok_rc
    ]

  abbrev pub may_change : ℕ → ℕ → Inode G → Bool
  may_change user gid e = searchable G user gid e && writeable G user gid e

  -- The inode that the new name leads to: its kind, its entries, and the test for loops.
  pub replace_check : Option ids.Set → Inode G → Inode G → ℤ
  unfolding inode_set_contains
  replace_check set old_e new_e =
      if is_dir new_e.kind && not (is_nonpos new_e.num_children)
      then enotempty
      else if not (kind_code new_e.kind == kind_code old_e.kind)
      then (if is_dir new_e.kind then eisdir else enotdir)
      else elim set [
        | none ↦ ok_rc
        | some t ↦ if inode_set_contains G ids t new_e.file_id then einval else ok_rc
      ]

  -- The name moves. The codes of the steps are dropped.
  pub move_entry :
      (old_parent new_parent fent_old : Ptr) → Option Ptr → Str → Str → Cmd G (Unit {0})
  unfolding attach_lowlevel detach_lowlevel
  move_entry old_parent new_parent fent_old fent_new old_name new_name = do
    gone ← detach_lowlevel G env.clock.now old_parent old_name
    replaced ← elim fent_new [
      | none ↦ pure ok_rc
      | some _ ↦ detach_lowlevel G env.clock.now new_parent new_name
    ]
    attached ← attach_lowlevel G env.mem env.clock.now new_parent fent_old new_name
    pure tt

  renamed_over : Bool → Inode G → Inode G
  renamed_over b e = record e { deletion_through_rename = b }

  pub drop_replaced : Str → Ptr → Cmd G ℤ
  unfolding try_destroy_and_free renamed_over
  drop_replaced new_path fent_new = do
    modify fent_new (renamed_over true)
    rc ← try_destroy_and_free G env.routes new_path fent_new
    (if is_zero rc then modify fent_new (renamed_over false) else pure tt)
    pure ok_rc

  -- Behind the checks.
  pub rename_entry : Str → Str → (old_parent new_parent fent_old : Ptr) → Option Ptr → Cmd G ℤ
  unfolding run_user
  rename_entry old_path new_path old_parent new_parent fent_old fent_new = do
    rc ← run_user_rename G env.routes old_path fent_old
    if not (is_zero rc) then pure rc else (do
      moved ←
          move_entry old_parent new_parent fent_old fent_new (basename old_path) (basename new_path)
      elim fent_new [ none ↦ pure ok_rc | some f ↦ drop_replaced new_path f ])

  pub rename_onto :
      Str
      → Str
      → (old_parent new_parent : Ptr) → Option ids.Set
      → (fent_old fent_new : Ptr) → Cmd G ℤ
  rename_onto old_path new_path old_parent new_parent set fent_old fent_new =
      if fent_old == fent_new then pure ok_rc else do
        old_e ← load fent_old
        new_e ← load fent_new
        if is_zero (replace_check set old_e new_e)
            then rename_entry old_path new_path old_parent new_parent fent_old (some fent_new)
            else pure (replace_check set old_e new_e)

  pub rename_in :
      Str → Str → (user gid : ℕ) → (old_parent new_parent : Ptr) → Option ids.Set → Cmd G ℤ
  unfolding writeable
  rename_in old_path new_path user gid old_parent new_parent set = do
    new_e ← load new_parent
    old_e ← load old_parent
    if not (may_change user gid new_e) || not (may_change user gid old_e)
        then pure eacces
        else elim (names.find old_e.children (basename old_path)) [
          | none ↦ pure enoent
          | some fent_old ↦ elim (names.find new_e.children (basename new_path)) [
            | none ↦
                load fent_old >> rename_entry old_path new_path old_parent new_parent fent_old none
            | some fent_new ↦
                rename_onto old_path new_path old_parent new_parent set fent_old fent_new
          ]
        ]

  pub rename : Str → Str → (user gid : ℕ) → Cmd G ℤ
  rename old_path new_path user gid s =
      if ltb name_max (basename_len old_path) || ltb name_max (basename_len new_path)
      then done enametoolong s
      else if not env.mem
      then done enomem s
      else elim (parents G ids env.mem user gid s old_path new_path) [
        | common p ↦ rename_in old_path new_path user gid p p none s
        | apart o n set ↦ rename_in old_path new_path user gid o n set s
        | refused rc ↦ done rc s
        | stuck ↦ fault
        | leaves ↦ exits
      ]
