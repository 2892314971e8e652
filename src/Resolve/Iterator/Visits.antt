-- ===== src/Resolve/Iterator/Visits.antt =====
-- The inodes that a loop over a path visits.
pub mod Loop
pub mod Resolved
use fskit.Base.{
  ℕ, zero, suc, ◌+◌, ◌-◌, ◌<◌, ◌≤◌, ◌≡◌, ◌≢◌, refl, sym, ap, ◌∙◌, subst, inl, inr, Bool, true,
  false, ◌&&◌, ◌||◌, not, Option, none, some, List, [], ◌∷◌, arith, ◌==◌, if◌then◌else◌, Bool-cases,
  Option-cases, length, ltb,
}
use fskit.Base.Int.{ℤ, pos, is_zero}
use fskit.Base.Bytes.{Str}
use fskit.Errno.{ok_rc, enoent, enotdir, name_max}
use fskit.Resolve.Iterator.{
  PathIterator, Scan, out_of_path, have_name, scan, path_end, path_next, enter_name, stepped,
  path_begin, first_iterator, skip_slashes,
}
use fskit.Resolve.Iterator.NextName.{
  names, starts_name, Found, scan-Found, skip_slashes-starts_name,
}
use fskit.Store.{
  Sglib, Inode, Store, Cmd, Ptr, Run, done, fault, pure, load, ◌>>=◌, is_dir, is_dead, root_ptr,
}

abbrev pub visit : Ptr → List Ptr × ℤ → List Ptr × ℤ
visit p (ps, rc) = (p ∷ ps, rc)

add_visit : Ptr → Option (List Ptr × ℤ) → Option (List Ptr × ℤ)
add_visit p none = none
add_visit p (some r) = some (visit p r)

module _ (G : Sglib) where
  -- for( itr = begin; !end( itr ); next( itr ) ): the inodes that were visited, and the code that is
  -- left. `none` means that the fuel ran out.
  unfoldable pub iterate : ℕ → PathIterator → Cmd G (Option (List Ptr × ℤ))
  unfolding add_visit
  iterate zero itr = pure none
  iterate (suc fuel) itr = do
    finished ← path_end G itr
    if finished then pure (some ([], itr.rc)) else elim itr.cur_ent [
      | none ↦ pure (some ([], itr.rc))
      | some p ↦ do next ← path_next G true itr; rest ← iterate fuel next; pure (add_visit p rest)
    ]

  abbrev pub dying : Inode G → Bool
  dying e = e.deletion_in_progress || is_dead e.kind

module _ (G : Sglib) (s : Store G) where
  -- The inodes from `p` along a list of names, up to one that is being deleted, to what is no
  -- directory, or to a directory without the name.
  abbrev pub chain : List Str → Ptr → List Ptr × ℤ
  chain [] p = elim (s p) [
    | none ↦ ([], ok_rc)
    | some e ↦ if dying G e then ([], ok_rc) else (p ∷ [], ok_rc)
  ]
  chain (n ∷ ns) p = elim (s p) [
    | none ↦ ([], ok_rc)
    | some e ↦
        if dying G e
        then ([], ok_rc)
        else if not (is_dir e.kind)
        then (p ∷ [], enotdir)
        else elim (G.names.find e.children n) [
          | none ↦ (p ∷ [], enoent)
          | some q ↦ visit p (chain ns q)
        ]
  ]

  -- Every name leads to an inode.
  abbrev pub AllReach : Type 0
  AllReach =
      (p : Ptr) (e : Inode G) (k : Str) (q : Ptr)
      → s p ≡ some e
      → G.names.find e.children k ≡ some q
      → s q ≢ none

  -- names that fit in the iterator's buffer
  abbrev pub AllShort : List Str → Type 0
  AllShort [] = Unit
  AllShort (n ∷ ns) = (ltb name_max (length n) ≡ false) × AllShort ns

  -- An iterator that stands at `p`.
  pub record At (itr : PathIterator) (p : Ptr) : Type 0 where
    pub no_error : itr.rc ≡ ok_rc
    pub not_ended : itr.end_of_path ≡ false
    pub current : itr.cur_ent ≡ some p
    pub at_name : starts_name itr.name ≡ true

  end-At :
      (itr : PathIterator) (p : Ptr) (e : Inode G)
      → At itr p
      → s p ≡ some e
      → path_end G itr s ≡ done (dying G e) s
  unfolding path_end
  end-At itr p e a h = ground (arith, a.no_error, a.not_ended, a.current, h)

  end_nothing : (itr : PathIterator) → itr.cur_ent ≡ none → path_end G itr s ≡ done true s
  unfolding path_end
  end_nothing itr h = ground (arith, h)

  iterate_stop :
      (f : ℕ) (itr : PathIterator)
      → path_end G itr s ≡ done true s
      → iterate G (suc f) itr s ≡ done (some ([], itr.rc)) s
  unfolding iterate
  iterate_stop f itr h = ground (arith, h)

  iterate_go :
      (f : ℕ) (itr next : PathIterator) (p : Ptr) (r : List Ptr × ℤ)
      → path_end G itr s ≡ done false s
      → itr.cur_ent ≡ some p
      → path_next G true itr s ≡ done next s
      → iterate G f next s ≡ done (some r) s
      → iterate G (suc f) itr s ≡ done (some (visit p r)) s
  unfolding iterate
  iterate_go f itr next p r h k l m = ground (arith, h, k, l, m)

  next-At :
      (itr : PathIterator) (p : Ptr) (out : Scan)
      → At itr p
      → scan (suc (length itr.name)) false itr.name 0 ≡ some out
      → path_next G true itr s ≡ enter_name G true (stepped G itr) p out s
  unfolding path_next
  next-At itr p out a h = ground (arith, a.not_ended, a.current, h)

  -- A step that leaves no current inode ends the loop with the code of the iterator.
  last_visit :
      (f : ℕ) (itr next : PathIterator) (p : Ptr) (e : Inode G) (rc : ℤ)
      → At itr p
      → s p ≡ some e
      → dying G e ≡ false
      → path_next G true itr s ≡ done next s
      → next.cur_ent ≡ none
      → next.rc ≡ rc
      → iterate G (suc (suc f)) itr s ≡ done (some (p ∷ [], rc)) s
  last_visit f itr next p e rc a h k l m c =
      iterate_go (suc f) itr next p ([], rc) (end-At itr p e a h ∙ ap (λ w. done w s) k) a.current l
        (iterate_stop f next (end_nothing next m) ∙ ap (λ w. done (some ([], w)) s) c)

  enter_notdir :
      (itr : PathIterator) (p : Ptr) (e : Inode G) (n rest : Str) (len : ℕ)
      → s p ≡ some e
      → is_dir e.kind ≡ false
      → enter_name G true (stepped G itr) p (have_name n rest len) s
        ≡ done (record (stepped G itr) { rc = enotdir }) s
  unfolding enter_name
  enter_notdir itr p e n rest len h k = ground (arith, h, k)

  -- the iterator at the next name
  abbrev moved : PathIterator → Str → Str → ℕ → Option Ptr → ℤ → PathIterator
  moved itr n rest len cur rc = record (stepped G itr) {
    name = rest;
    name_i = itr.name_i + len;
    cur_name = n;
    cur_ent = cur;
    rc = rc;
  }

  enter_absent :
      (itr : PathIterator) (p : Ptr) (e : Inode G) (n rest : Str) (len : ℕ)
      → s p ≡ some e
      → is_dir e.kind ≡ true
      → ltb name_max (length n) ≡ false
      → G.names.find e.children n ≡ none
      → enter_name G true (stepped G itr) p (have_name n rest len) s
        ≡ done (moved itr n rest len none enoent) s
  unfolding enter_name
  enter_absent itr p e n rest len h k l m = ground (arith, h, k, l, m)

  enter_found :
      (itr : PathIterator) (p q : Ptr) (e : Inode G) (n rest : Str) (len : ℕ)
      → s p ≡ some e
      → is_dir e.kind ≡ true
      → ltb name_max (length n) ≡ false
      → G.names.find e.children n ≡ some q
      → enter_name G true (stepped G itr) p (have_name n rest len) s
        ≡ done (moved itr n rest len (some q) itr.rc) s
  unfolding enter_name
  enter_found itr p q e n rest len h k l m = ground (arith, h, k, l, m)

  chain-dying :
      (ns : List Str) (p : Ptr) (e : Inode G)
      → s p ≡ some e
      → dying G e ≡ true
      → chain ns p ≡ ([], ok_rc)
  chain-dying [] p e h k = ground (arith, h, k)
  chain-dying (n ∷ ns) p e h k = ground (arith, h, k)

  inode_at : (p : Ptr) → s p ≢ none → (e : Inode G) × (s p ≡ some e)
  inode_at p h = elim (Option-cases (s p)) [ inl e ↦ absurd (h e) | inr found ↦ found ]
