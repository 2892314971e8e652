-- ===== src/Ops/Dir/Chunks.antt =====
-- Reading a directory to its end through one handle.
use fskit.Base.{
  ℕ, zero, suc, ◌≡◌, refl, sym, ap, ◌∙◌, subst, inl, inr, Bool, true, false, Option, none, some,
  List, [], ◌∷◌, ◌++◌, arith, if◌then◌else◌, length, take, drop, map, Bool-cases, Option-cases,
}
use fskit.Base.Int.{ℤ}
use fskit.Base.Bytes.{Str, str_eq, str_eq_refl, is_empty}
use fskit.Errno.{ok_rc}
use fskit.Ops.Dir.{
  DirHandle, DirEntry, Members, str_lt, from_member, from_greater, tail, find_start, read_to,
  read_from, readdir_itr, compactify_list, count_entries, copy_entries,
}
use fskit.Ops.Dir.Listing.{NamesOk, from_member-append, AllLive, listing, read_entries_lem, Cut}
use fskit.Store.{Sglib, Inode, Store, Ptr, Run, done}
use fskit.Tree.{lookup}

-- The loops of find_start stop at a suffix.
abbrev pub Suffix : Members → Members → Type 0
Suffix ms rest = (pre : Members) × (ms ≡ pre ++ rest)

Suffix-cons : (x : Str × Ptr) (ms rest : Members) → Suffix ms rest → Suffix (x ∷ ms) rest
Suffix-cons x ms rest (pre, e) = (x ∷ pre, ap (λ w. x ∷ w) e)

Suffix-tail : (ms rest : Members) → Suffix ms rest → Suffix ms (tail rest)
Suffix-tail ms [] h = h
Suffix-tail ms (x ∷ rest) (pre, e) = (pre ++ x ∷ [], e ∙ move pre)
  where
    move : (xs : Members) → xs ++ x ∷ rest ≡ (xs ++ x ∷ []) ++ rest
    move [] = refl
    move (y ∷ ys) = ap (λ w. y ∷ w) (move ys)

from_member-Suffix : (k : Str) (ms : Members) → Suffix ms (from_member k ms)
from_member-Suffix k [] = ([], refl)
from_member-Suffix k ((j, p) ∷ ms) = elim (Bool-cases (str_eq k j)) [
  | inl e ↦ rw e ([], refl)
  | inr e ↦ rw e (Suffix-cons (j, p) ms (from_member k ms) (from_member-Suffix k ms))
]

from_greater-Suffix : (k : Str) (ms : Members) → Suffix ms (from_greater k ms)
from_greater-Suffix k [] = ([], refl)
from_greater-Suffix k ((j, p) ∷ ms) = elim (Bool-cases (str_lt k j)) [
  | inl e ↦ rw e ([], refl)
  | inr e ↦ rw e (Suffix-cons (j, p) ms (from_greater k ms) (from_greater-Suffix k ms))
]

pub NamesOk-append : (pre rest : Members) → NamesOk (pre ++ rest) → NamesOk rest
NamesOk-append [] rest h = h
NamesOk-append ((k, p) ∷ pre) rest (a, b, c, h) = NamesOk-append pre rest h

-- A list of slots that are all filled.
count_entries-map : (es : List DirEntry) → count_entries (map some es) ≡ length (map some es)
unfolding count_entries
count_entries-map [] = refl
count_entries-map (e ∷ es) = omega (arith, count_entries-map es)

copy_entries-map : (es : List DirEntry) → copy_entries (map some es) ≡ es
unfolding copy_entries
copy_entries-map [] = refl
copy_entries-map (e ∷ es) = ap (λ w. e ∷ w) (copy_entries-map es)

pub compactify_full :
    (mem : Bool) (es : List DirEntry) → compactify_list mem (map some es) ≡ (ok_rc, es)
unfolding compactify_list
compactify_full mem es = ground (arith, count_entries-map es, copy_entries-map es)

append_assoc : (xs ys zs : Members) → xs ++ (ys ++ zs) ≡ (xs ++ ys) ++ zs
append_assoc [] ys zs = refl
append_assoc (x ∷ xs) ys zs = ap (λ w. x ∷ w) (append_assoc xs ys zs)

drop_nothing : (n : ℕ) (l : List DirEntry) → l ≡ [] → drop n l ≡ []
drop_nothing zero l h = h
drop_nothing (suc n) [] h = refl
drop_nothing (suc n) (x ∷ l) h = cc

module _ (G : Sglib) where
  open G use {names}

  -- The members that the handle has not come to.
  abbrev pub remaining : DirHandle → names.Tree → Members
  remaining dirh children =
      if dirh.eof
      then []
      else if is_empty dirh.curr_name
      then names.members children
      else tail (find_start G dirh.curr_name children)

  pub find_start-none :
      (k : Str) (t : names.Tree)
      → names.find t k ≡ none
      → find_start G k t ≡ from_greater k (names.members t)
  unfolding find_start
  find_start-none k t e = rw (e, find_start)

  find_start-some :
      (k : Str) (t : names.Tree) (p : Ptr)
      → names.find t k ≡ some p
      → find_start G k t ≡ from_member k (names.members t)
  unfolding find_start
  find_start-some k t p e = rw (e, find_start)

  find_start-Suffix : (k : Str) (t : names.Tree) → Suffix (names.members t) (find_start G k t)
  find_start-Suffix k t = elim (Option-cases (names.find t k)) [
    | inl e ↦ rw (find_start-none k t e) (from_greater-Suffix k (names.members t))
    | inr (p, e) ↦ rw (find_start-some k t p e) (from_member-Suffix k (names.members t))
  ]

  pub AllLive-append :
      (s : Store G) (d : Inode G) (pre rest : Members)
      → AllLive G s d (pre ++ rest)
      → AllLive G s d rest
  AllLive-append s d [] rest h = h
  AllLive-append s d ((k, p) ∷ pre) rest (a, h) = AllLive-append s d pre rest h

  lookup-member :
      (pre post : Members) (k : Str) (p : Ptr)
      → (q : Ptr) × (lookup k (pre ++ (k, p) ∷ post) ≡ some q)
  lookup-member [] post k p = (p, rw (str_eq_refl k) refl)
  lookup-member ((j, q) ∷ pre) post k p = elim (Bool-cases (str_eq j k)) [
    | inl e ↦ (q, ground (arith, e))
    | inr e ↦ let rest = lookup-member pre post k p in (rest.0, ground (arith, e, rest.1))
  ]

  pub find_start_member :
      (t : names.Tree) (pre post : Members) (k : Str) (p : Ptr)
      → names.members t ≡ pre ++ (k, p) ∷ post
      → NamesOk (names.members t)
      → find_start G k t ≡ (k, p) ∷ post
  find_start_member t pre post k p e ok =
      let hit = lookup-member pre post k p in
      let found : names.find t k ≡ some hit.0 =
        sym (names.lookup-members t k) ∙ ap (lookup k) e ∙ hit.1 in
      find_start-some k t hit.0 found
      ∙ ap (from_member k) e
      ∙ from_member-append pre post k p (subst NamesOk e ok)

  pub remaining-Suffix :
      (dirh : DirHandle) (t : names.Tree)
      → dirh.eof ≡ false
      → Suffix (names.members t) (remaining dirh t)
  remaining-Suffix dirh t h = elim (Bool-cases (is_empty dirh.curr_name)) [
    | inl e ↦ rw (h, e) ([], refl)
    | inr e ↦
        rw (h, e)
          (Suffix-tail (names.members t) (find_start G dirh.curr_name t)
            (find_start-Suffix dirh.curr_name t))
  ]

module _ (G : Sglib) (s : Store G) (d : Inode G) where
  open G use {names}

  -- A read that returns the entries `chunk`, behind which `left` is to be listed.
  abbrev pub Reads :
      DirHandle
      → List DirEntry
      → List DirEntry
      → Run (Store G) (ℤ × Option (List DirEntry) × DirHandle)
      → Type 0
  Reads dirh chunk left r =
      (dirh' : DirHandle) × (r ≡ done (ok_rc, (read_to dirh chunk).0, dirh') s)
      × (listing G s d (remaining G dirh' d.children) ≡ left)
      × (dirh'.dent ≡ dirh.dent)
      × (dirh'.path ≡ dirh.path)

  pub read_from_lem :
      (dirh : DirHandle) (n : ℕ) (rest : Members)
      → AllLive G s d rest
      → read_from G true dirh d n rest s
        ≡ done
            (
              ok_rc,
              (read_to dirh (take n (listing G s d rest))).0,
              (read_to dirh (take n (listing G s d rest))).1,
            )
            s
  unfolding read_from readdir_itr
  read_from_lem dirh n rest ok = rw (read_entries_lem G s d n rest ok) refl

  -- What stands behind a chunk that was cut from a suffix of the members.
  pub remaining-read_to :
      (dirh : DirHandle) (n : ℕ) (pre rest : Members) (chunk : List DirEntry)
      → dirh.eof ≡ false
      → NamesOk (names.members d.children)
      → names.members d.children ≡ pre ++ rest
      → Cut G s d n rest chunk
      → listing G s d (remaining G (read_to dirh chunk).1 d.children) ≡ drop n (listing G s d rest)
  unfolding read_to
  remaining-read_to dirh n pre rest [] h ok e c = sym (drop_nothing n (listing G s d rest) c)
  remaining-read_to dirh n pre rest (f ∷ fs) h ok e (before, k, p, post, a, b, c) =
      let split : names.members d.children ≡ (pre ++ before) ++ (k, p) ∷ post =
        e ∙ ap (λ w. pre ++ w) a ∙ append_assoc pre before ((k, p) ∷ post) in
      let full : is_empty k ≡ false =
        (NamesOk-append (pre ++ before) ((k, p) ∷ post) (subst NamesOk split ok)).0 in
      let start = find_start_member G d.children (pre ++ before) post k p split ok in
      ap (listing G s d) (rw (h, b, full) (ap tail start)) ∙ c
