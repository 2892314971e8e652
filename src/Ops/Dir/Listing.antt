-- ===== src/Ops/Dir/Listing.antt =====
-- What fskit_readdir reads of a directory that does not change: the entries of its live members, in
-- their order, in chunks.
use fskit.Base.{
  ℕ, zero, suc, ◌-◌, ◌≡◌, ◌≢◌, refl, sym, ap, ◌∙◌, subst, inl, inr, true, false, Option, none, some,
  List, [], ◌∷◌, ◌++◌, arith, if◌then◌else◌, take, drop, Bool-cases,
}
use fskit.Base.Bytes.{Str, str_eq, str_eq_refl, is_empty}
use fskit.Errno.{name_max}
use fskit.Ops.Dir.{DirEntry, Members, from_member, skipped, entry_of, read_entries, last_name}
use fskit.Store.{Sglib, Inode, Store, Ptr, done}
use fskit.Tree.{lookup}

-- Names are not empty, short enough for the handle's buffer, and all different.
abbrev pub NamesOk : Members → Type 0
NamesOk [] = Unit
NamesOk ((name, p) ∷ rest) =
    (is_empty name ≡ false) × (take name_max name ≡ name) × (lookup name rest ≡ none) × NamesOk rest

lookup-append :
    (pre post : Members) (j k : Str) (p : Ptr)
    → lookup j (pre ++ (k, p) ∷ post) ≡ none
    → str_eq k j ≡ false
lookup-append [] post j k p h = ground arith
lookup-append ((i, q) ∷ pre) post j k p h = ground (arith, lookup-append pre post j k p)

lookup-append_hit :
    (pre post : Members) (k : Str) (p : Ptr) → lookup k (pre ++ (k, p) ∷ post) ≢ none
lookup-append_hit [] post k p h = cc (str_eq_refl k, h)
lookup-append_hit ((i, q) ∷ pre) post k p h = ground (arith, lookup-append_hit pre post k p)

-- The position of a name.
pub from_member-append :
    (pre post : Members) (k : Str) (p : Ptr)
    → NamesOk (pre ++ (k, p) ∷ post)
    → from_member k (pre ++ (k, p) ∷ post) ≡ (k, p) ∷ post
from_member-append [] post k p ok = rw (str_eq_refl k) refl
from_member-append ((i, q) ∷ pre) post k p (a, b, c, ok) =
    rw (lookup-append pre post i k p c) (from_member-append pre post k p ok)

module _ (G : Sglib) (s : Store G) (d : Inode G) where
  open G use {names}

  -- All members lead to inodes.
  abbrev pub AllLive : Members → Type 0
  AllLive [] = Unit
  AllLive ((name, p) ∷ rest) = (s p ≢ none) × AllLive rest

  -- The entries of the members that are not being deleted.
  abbrev pub listing : Members → List DirEntry
  listing [] = []
  listing ((name, p) ∷ rest) = elim (s p) [
    | none ↦ listing rest
    | some e ↦ if skipped G e then listing rest else entry_of G d e name ∷ listing rest
  ]

  listing_skip :
      (name : Str) (p : Ptr) (rest : Members) (e : Inode G)
      → s p ≡ some e
      → skipped G e ≡ true
      → listing ((name, p) ∷ rest) ≡ listing rest
  listing_skip name p rest e h k = ground (arith, h, k)

  listing_keep :
      (name : Str) (p : Ptr) (rest : Members) (e : Inode G)
      → s p ≡ some e
      → skipped G e ≡ false
      → listing ((name, p) ∷ rest) ≡ entry_of G d e name ∷ listing rest
  listing_keep name p rest e h k = ground (arith, h, k)

  read_skip :
      (n : ℕ) (name : Str) (p : Ptr) (rest : Members) (e : Inode G)
      → s p ≡ some e
      → skipped G e ≡ true
      → read_entries G d (suc n) ((name, p) ∷ rest) s ≡ read_entries G d (suc n) rest s
  unfolding read_entries
  read_skip n name p rest e h k = ground (arith, h, k)

  read_keep :
      (n : ℕ) (name : Str) (p : Ptr) (rest : Members) (e : Inode G) (more : List DirEntry)
      → s p ≡ some e
      → skipped G e ≡ false
      → read_entries G d n rest s ≡ done more s
      → read_entries G d (suc n) ((name, p) ∷ rest) s ≡ done (entry_of G d e name ∷ more) s
  unfolding read_entries
  read_keep n name p rest e more h k r = ground (arith, h, k, r)

  live : (o : Option (Inode G)) → o ≢ none → (e : Inode G) × (o ≡ some e)
  live none h = absurd (h refl)
  live (some e) h = (e, refl)

  pub read_entries_lem :
      (n : ℕ) (ms : Members) → AllLive ms → read_entries G d n ms s ≡ done (take n (listing ms)) s
  read_entries_lem zero [] ok = unfold read_entries in refl
  read_entries_lem (suc n) [] ok = unfold read_entries in refl
  read_entries_lem zero (x ∷ ms) ok = unfold read_entries in refl
  read_entries_lem (suc n) ((name, p) ∷ ms) (l, ok) =
      let here = live (s p) l in
      let e : Inode G = here.0 in
      elim (Bool-cases (skipped G e)) [
        | inl k ↦
            read_skip n name p ms e here.1 k
            ∙ read_entries_lem (suc n) ms ok
            ∙ ap (λ w. done (take (suc n) w) s) (sym (listing_skip name p ms e here.1 k))
        | inr k ↦
            read_keep n name p ms e (take n (listing ms)) here.1 k (read_entries_lem n ms ok)
            ∙ ap (λ w. done (take (suc n) w) s) (sym (listing_keep name p ms e here.1 k))
      ]

  -- A chunk that was read from `rest`: nothing, and nothing is left to list; or up to the member with
  -- the name of the last entry, behind which stands what is left to list.
  abbrev pub Cut : ℕ → Members → List DirEntry → Type 0
  Cut n rest [] = listing rest ≡ []
  Cut n rest (e ∷ es) =
      (pre : Members) × (k : Str) × (p : Ptr) × (post : Members) × (rest ≡ pre ++ (k, p) ∷ post)
      × (last_name e es ≡ k)
      × (listing post ≡ drop n (listing rest))

  entry_of-name :
      (e : Inode G) (name : Str) → take name_max name ≡ name → (entry_of G d e name).name ≡ name
  unfolding entry_of
  entry_of-name e name h = h

  -- One more member before the chunk.
  Cut-skip :
      (n : ℕ) (name : Str) (p : Ptr) (rest : Members) (chunk : List DirEntry)
      → listing ((name, p) ∷ rest) ≡ listing rest
      → Cut n rest chunk
      → Cut n ((name, p) ∷ rest) chunk
  Cut-skip n name p rest [] e c = e ∙ c
  Cut-skip n name p rest (f ∷ fs) e (pre, k, q, post, a, b, c) =
      ((name, p) ∷ pre, k, q, post, ap (λ w. (name, p) ∷ w) a, b, c ∙ ap (drop n) (sym e))

  drop_nil : (n : ℕ) (l : List DirEntry) → l ≡ [] → drop n l ≡ []
  drop_nil zero l h = h
  drop_nil (suc n) [] h = refl
  drop_nil (suc n) (x ∷ l) h = cc

  -- One more entry before the chunk.
  Cut-keep :
      (n : ℕ) (name : Str) (p : Ptr) (rest : Members) (f : DirEntry) (chunk : List DirEntry)
      → listing ((name, p) ∷ rest) ≡ f ∷ listing rest
      → f.name ≡ name
      → Cut n rest chunk
      → Cut (suc n) ((name, p) ∷ rest) (f ∷ chunk)
  Cut-keep n name p rest f [] e h c =
      ([], name, p, rest, refl, h, c ∙ sym (ap (drop (suc n)) e ∙ drop_nil n (listing rest) c))
  Cut-keep n name p rest f (g ∷ gs) e h (pre, k, q, post, a, b, c) =
      ((name, p) ∷ pre, k, q, post, ap (λ w. (name, p) ∷ w) a, b, c ∙ sym (ap (drop (suc n)) e))

  from_entry :
      (n : ℕ) (name : Str) (p : Ptr) (rest : Members) (f : DirEntry)
      → listing ((name, p) ∷ rest) ≡ f ∷ listing rest
      → f.name ≡ name
      → Cut (suc (n - 1)) rest (take (suc (n - 1)) (listing rest))
      → Cut (suc n) ((name, p) ∷ rest) (take (suc n) (f ∷ listing rest))
  from_entry zero name p rest f e h c = ([], name, p, rest, refl, h, sym (ap (drop 1) e))
  from_entry (suc n) name p rest f e h c =
      let back : suc (suc n - 1) ≡ suc n = omega arith in
      Cut-keep (suc n) name p rest f (take (suc n) (listing rest)) e h
        (subst (λ w. Cut w rest (take w (listing rest))) back c)

  pub take-Cut :
      (n : ℕ) (rest : Members)
      → NamesOk rest
      → AllLive rest
      → Cut (suc n) rest (take (suc n) (listing rest))
  take-Cut n [] names ok = refl
  take-Cut n ((name, p) ∷ rest) (a, b, c, names) (l, ok) =
      let here = live (s p) l in
      let e : Inode G = here.0 in
      elim (Bool-cases (skipped G e)) [
        | inl k ↦
            let same = listing_skip name p rest e here.1 k in
            subst (λ w. Cut (suc n) ((name, p) ∷ rest) (take (suc n) w)) (sym same)
              (Cut-skip (suc n) name p rest (take (suc n) (listing rest)) same
                (take-Cut n rest names ok))
        | inr k ↦
            let same = listing_keep name p rest e here.1 k in
            let f = entry_of G d e name in
            subst (λ w. Cut (suc n) ((name, p) ∷ rest) (take (suc n) w)) (sym same)
              (from_entry n name p rest f same (entry_of-name e name b)
                (take-Cut (n - 1) rest names ok))
      ]
