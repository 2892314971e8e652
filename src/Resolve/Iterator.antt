-- ===== src/Resolve/Iterator.antt =====
-- The path iterator of libfskit/path.c, which gives the inodes on a path one after another. It looks
-- at no permissions.
pub mod NextName
pub mod Visits
use fskit.Base.{
  ℕ, zero, suc, ◌+◌, ◌-◌, Bool, true, false, ◌&&◌, ◌||◌, not, Option, none, some, List, [], ◌∷◌,
  ◌==◌, ltb, if◌then◌else◌, length, take,
}
use fskit.Base.Int.{ℤ, pos, is_zero}
use fskit.Base.Bytes.{Str, slash, str_eq, is_empty, dot}
use fskit.Errno.{ok_rc, enoent, enomem, enotdir, name_max}
use fskit.Store.{
  Sglib, Inode, Store, Cmd, Ptr, Run, done, fault, pure, load, ◌>>=◌, ◌>>◌, is_dir, is_dead,
  root_ptr,
}

-- struct fskit_path_iterator, less its lock mode. `name` is the text from that pointer on.
pub record PathIterator : Type 0 where
  pub rc : ℤ
  pub path : Str
  pub name : Str
  pub name_i : ℕ
  pub cur_name : Str
  pub cur_ent : Option Ptr
  pub prev_ent : Option Ptr
  pub end_of_path : Bool

abbrev pub skip_slashes : Str → Str
skip_slashes [] = []
skip_slashes (c ∷ s) = if c == slash then skip_slashes s else c ∷ s

-- The bytes of a text before its first slash, and the text from there on.
abbrev pub name_part : Str → Str
name_part [] = []
name_part (c ∷ s) = if c == slash then [] else c ∷ name_part s

abbrev pub after_name : Str → Str
after_name [] = []
after_name (c ∷ s) = if c == slash then c ∷ s else after_name s

-- What the search for the next name comes to.
pub data Scan : Type 0 where
  out_of_path : Scan
  have_name : (name rest : Str) → (len : ℕ) → Scan

-- The loop that skips "."; `none` means that the fuel ran out.
unfoldable pub scan : ℕ → Bool → Str → ℕ → Option Scan
scan zero no_prev tmp len = none
scan (suc fuel) no_prev tmp len =
    let rest = skip_slashes (after_name tmp) in
    let len' = len + (length tmp - length rest) in
    let next = scan fuel no_prev rest len' in
    if (len' == 0) || (is_empty rest && is_empty (name_part tmp)) || no_prev
    then some out_of_path
    else if str_eq (name_part tmp) dot
    then next
    else some (have_name (name_part tmp) rest len')

abbrev pub is_none : Option Ptr → Bool
is_none none = true
is_none (some _) = false

module _ (G : Sglib) where
  open G use {names}

  -- what calloc leaves, with a code
  abbrev pub failed_iterator : ℤ → PathIterator
  failed_iterator rc = record {
    rc = rc;
    path = [];
    name = [];
    name_i = 0;
    cur_name = [];
    cur_ent = none;
    prev_ent = none;
    end_of_path = false;
  }

  abbrev pub first_iterator : Str → PathIterator
  first_iterator path = record {
    rc = ok_rc;
    path = path;
    name = skip_slashes path;
    name_i = length path - length (skip_slashes path);
    cur_name = [];
    cur_ent = some root_ptr;
    prev_ent = none;
    end_of_path = false;
  }

  unfoldable pub path_begin : Bool → Str → Cmd G (Option PathIterator)
  path_begin mem path = if not mem then pure none else (do
    root ← load root_ptr
    pure (
        some (
          if not (is_dir root.kind) || root.deletion_in_progress
          then failed_iterator enoent
          else if is_zero root.link_count || is_dead root.kind
          then failed_iterator enoent
          else first_iterator path)))

  unfoldable pub path_end : PathIterator → Cmd G Bool
  path_end itr = if not (is_zero itr.rc) then pure true else elim itr.cur_ent [
    | none ↦ pure true
    | some cur ↦ do e ← load cur; pure (e.deletion_in_progress || is_dead e.kind || itr.end_of_path)
  ]

  -- Behind the search for the next name, in the directory `prev`. The name is copied to a buffer of
  -- 256 bytes with no test of its length.
  unfoldable pub enter_name : Bool → PathIterator → Ptr → Scan → Cmd G PathIterator
  enter_name mem itr prev out_of_path = pure (record itr { rc = ok_rc; end_of_path = true })
  enter_name mem itr prev (have_name name rest len) = do
    e ← load prev
    if not (is_dir e.kind)
        then pure (record itr { rc = enotdir })
        else if not mem
        then pure (record itr { rc = enomem })
        else if ltb name_max (length name)
        then (λ _. fault)
        else pure (record itr {
          name = rest;
          name_i = itr.name_i + len;
          cur_name = name;
          cur_ent = names.find e.children name;
          rc = elim (names.find e.children name) [ none ↦ enoent | some _ ↦ itr.rc ];
        })

  abbrev pub stepped : PathIterator → PathIterator
  stepped itr = record itr { prev_ent = itr.cur_ent; cur_ent = none }

  unfoldable pub path_next : Bool → PathIterator → Cmd G PathIterator
  path_next mem itr = if itr.end_of_path then pure itr else elim itr.cur_ent [
    | none ↦ pure (record (stepped itr) { rc = ok_rc; end_of_path = true })
    | some prev ↦ elim (scan (suc (length itr.name)) false itr.name 0) [
      | none ↦ (λ _. fault)
      | some found ↦ enter_name mem (stepped itr) prev found
    ]
  ]

-- fskit_path_iterator_path; memory is there.
unfoldable pub path_iterator_path : PathIterator → Str
path_iterator_path itr = take itr.name_i itr.path
