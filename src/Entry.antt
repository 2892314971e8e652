-- ===== src/Entry.antt =====
-- libfskit/entry.c: a directory's set of children, and attaching an inode to a directory and
-- detaching it.
pub mod Init
pub mod Destroy
pub mod Inv
pub mod Links
pub mod Unlinks
pub mod Collect
use fskit.Base.{
  ℕ, suc, ◌≡◌, Bool, true, false, ◌&&◌, ◌||◌, not, Option, none, some, ◌==◌, if◌then◌else◌,
}
use fskit.Base.Int.{ℤ, pos, negsuc, inc, dec, is_neg, ltb_ℤ}
use fskit.Base.Bytes.{Str, str_eq, dot, dotdot}
use fskit.Errno.{ok_rc, enoent, enomem, enotempty, eio}
use fskit.Tree.{RbTree}
use fskit.Store.{
  Sglib, Entry, Inode, Store, Cmd, Ptr, Time, Run, done, fault, pure, load, store, modify, ◌>>=◌,
  ◌>>◌, is_dir,
}

module _ (G : Sglib) where
  open G use {names}

  -- `mem` says whether the allocations of the call succeed.
  abbrev pub set_insert : Bool → names.Tree → Str → Ptr → ℤ × names.Tree
  set_insert mem set name child = if mem then (ok_rc, names.add set name child) else (enomem, set)

  abbrev pub set_new : Bool → Ptr → Ptr → Option names.Tree
  set_new mem node parent =
      if mem then some (set_insert mem (names.add names.null dot node) dotdot parent).1 else none

  abbrev pub is_some : Option Ptr → Bool
  is_some none = false
  is_some (some _) = true

  -- The entries "." and ".." cannot be removed.
  abbrev pub set_remove : names.Tree → Str → Bool × names.Tree
  set_remove set name =
      if str_eq name dot || str_eq name dotdot
      then (false, set)
      else (is_some (names.find set name), names.delete set name)

  abbrev pub set_replace : names.Tree → Str → Ptr → Bool × names.Tree
  set_replace set name replacement = elim (names.find set name) [
    | none ↦ (false, set)
    | some _ ↦ (true, names.update set name replacement)
  ]

  -- A pointer to a tree is NULL if the tree is empty.
  abbrev pub get_num_children : Inode G → ℤ
  get_num_children e = if names.len e.children == 0 then negsuc 0 else e.num_children

  pub add_link : Inode G → Inode G
  add_link e = record e { link_count = inc e.link_count }

  -- `link_count--`, and back to 0 if that is negative
  unfoldable pub drop_link : Inode G → Inode G
  drop_link e = record e {
    link_count = if is_neg (dec e.link_count) then pos 0 else dec e.link_count;
  }

  pub count_child : Time → Inode G → Inode G
  count_child now e = record e { num_children = inc e.num_children; mtime = now }

  pub point_up : Ptr → Inode G → Inode G
  point_up parent e =
      if is_dir e.kind then record e { children = (set_replace e.children dotdot parent).1 } else e

  unfoldable pub attach_lowlevel : Bool → Time → Ptr → Ptr → Str → Cmd G ℤ
  unfolding add_link count_child point_up
  attach_lowlevel mem now parent fent name = do
    if parent == fent then pure tt else modify fent add_link
    modify parent (count_child now)
    modify fent (point_up parent)
    e ← load parent
    store parent (record e { children = (set_insert mem e.children name fent).1 })
    pure (set_insert mem e.children name fent).0

  unfoldable pub uncount_child : Time → names.Tree → Inode G → Inode G
  uncount_child now set e = record e {
    children = set;
    mtime = now;
    num_children = dec e.num_children;
  }

  -- The part behind the checks. `child` is never `parent` here.
  pub unlink_child : Time → Ptr → Ptr → Str → Inode G → Cmd G ℤ
  unfolding uncount_child drop_link
  unlink_child now parent child name e =
      let removed = set_remove e.children name in
      if not removed.0
      then pure enoent
      else modify parent (uncount_child now removed.1)
        >> (if parent == child then pure tt else modify child drop_link)
        >> pure ok_rc

  -- fskit_entry_detach_lowlevel_ex, whose argument update_mtime is not read, and
  -- fskit_entry_detach_lowlevel
  unfoldable pub detach_lowlevel : Time → Ptr → Str → Cmd G ℤ
  unfolding unlink_child
  detach_lowlevel now parent child_name = do
    e ← load parent
    elim (names.find e.children child_name) [
      | none ↦ pure enoent
      | some child ↦ if parent == child then pure enotempty else do
        c ← load child
        if is_dir c.kind && ltb_ℤ (pos 2) (get_num_children c)
            then pure enotempty
            else unlink_child now parent child child_name e
    ]

  -- fskit_entry_tag_garbage: the old set of children goes to the caller.
  abbrev pub tagged : names.Tree → Inode G → Inode G
  tagged set e = record e { children = set; num_children = pos 0; deletion_in_progress = true }

  unfoldable pub tag_garbage : Bool → Ptr → Cmd G (ℤ × Option names.Tree)
  tag_garbage mem ent = do
    e ← load ent
    if is_dir e.kind
        then elim (names.find e.children dotdot) [
          | none ↦ pure (eio, none)
          | some parent ↦ elim (set_new mem ent parent) [
            | none ↦ pure (enomem, none)
            | some empty ↦ store ent (tagged empty e) >> pure (ok_rc, some e.children)
          ]
        ]
        else store ent (record e { deletion_in_progress = true }) >> pure (ok_rc, none)
