-- ===== src/Resolve/Iterator/Visits/Loop.antt =====
-- The loop over a path visits the chain of inodes along the path's names.
use fskit.Base.{
  ℕ, zero, suc, ◌+◌, ◌<◌, ◌≡◌, ◌≢◌, refl, sym, ap, ◌∙◌, subst, inl, inr, true, false, none, some,
  List, [], ◌∷◌, arith, Bool-cases, Option-cases, length,
}
use fskit.Base.Int.{ℤ, is_zero}
use fskit.Base.Bytes.{Str}
use fskit.Errno.{ok_rc, enoent, enotdir}
use fskit.Path.{names_of, skip_dots}
use fskit.Path.Split.{names_of-path_split}
use fskit.Path.Split.Cut.{path_split-skip_slashes}
use fskit.Resolve.Iterator.{
  PathIterator, Scan, out_of_path, have_name, path_next, enter_name, stepped, path_begin,
  first_iterator, skip_slashes,
}
use fskit.Resolve.Iterator.NextName.{
  names, Found, length-skip_slashes_le, scan-Found, skip_slashes-starts_name,
}
use fskit.Resolve.Iterator.Visits.{
  visit, iterate, dying, chain, AllReach, AllShort, At, end-At, iterate_stop, iterate_go, next-At,
  last_visit, enter_notdir, moved, enter_absent, enter_found, chain-dying, inode_at,
}
use fskit.Store.{Sglib, Inode, Store, Ptr, done, is_dir, root_ptr}

abbrev first_of : Scan → Str
first_of out_of_path = []
first_of (have_name n rest len) = n

module _ (G : Sglib) (s : Store G) where
  pub chain_end :
      (p : Ptr) (e : Inode G) → s p ≡ some e → dying G e ≡ false → chain G s [] p ≡ (p ∷ [], ok_rc)
  chain_end p e h k = ground (arith, h, k)

  chain_notdir :
      (n : Str) (ns : List Str) (p : Ptr) (e : Inode G)
      → s p ≡ some e
      → dying G e ≡ false
      → is_dir e.kind ≡ false
      → chain G s (n ∷ ns) p ≡ (p ∷ [], enotdir)
  chain_notdir n ns p e h k l = ground (arith, h, k, l)

  chain_absent :
      (n : Str) (ns : List Str) (p : Ptr) (e : Inode G)
      → s p ≡ some e
      → dying G e ≡ false
      → is_dir e.kind ≡ true
      → G.names.find e.children n ≡ none
      → chain G s (n ∷ ns) p ≡ (p ∷ [], enoent)
  chain_absent n ns p e h k l m = ground (arith, h, k, l, m)

  pub chain_found :
      (n : Str) (ns : List Str) (p q : Ptr) (e : Inode G)
      → s p ≡ some e
      → dying G e ≡ false
      → is_dir e.kind ≡ true
      → G.names.find e.children n ≡ some q
      → chain G s (n ∷ ns) p ≡ visit p (chain G s ns q)
  chain_found n ns p q e h k l m = ground (arith, h, k, l, m)

  -- One round at a live inode.
  round :
      (f : ℕ) (itr : PathIterator) (p : Ptr) (e : Inode G) (out : Scan)
      → At G s itr p
      → s p ≡ some e
      → dying G e ≡ false
      → AllShort G s (names itr.name)
      → Found itr.name out
      → path_next G true itr s ≡ enter_name G true (stepped G itr) p out s
      → ((next : PathIterator) (q : Ptr)
          → At G s next q
          → length next.name < length itr.name
          → AllShort G s (names next.name)
          → G.names.find e.children (first_of out) ≡ some q
          → iterate G (suc f) next s ≡ done (some (chain G s (names next.name) q)) s)
      → iterate G (suc (suc f)) itr s ≡ done (some (chain G s (names itr.name) p)) s
  round f itr p e out_of_path a h k short found step ih =
      last_visit G s f itr (record (stepped G itr) { rc = ok_rc; end_of_path = true }) p e ok_rc a h
        k (step ∙ unfold enter_name in refl) refl refl
      ∙ ap (λ w. done (some w) s) (sym (ap (λ w. chain G s w p) found ∙ chain_end p e h k))
  round f itr p e (have_name n rest len) a h k short (split, starts, less) step ih =
      let ns = names rest in
      let cut : AllShort G s (n ∷ ns) = subst (AllShort G s) split short in
      let back : (r : List Ptr × ℤ) → chain G s (n ∷ ns) p ≡ r → r ≡ chain G s (names itr.name) p =
        λ r w. sym (ap (λ v. chain G s v p) split ∙ w) in
      elim (Bool-cases (is_dir e.kind)) [
        | inr l ↦
            last_visit G s f itr (record (stepped G itr) { rc = enotdir }) p e enotdir a h k
              (step ∙ enter_notdir G s itr p e n rest len h l) refl refl
            ∙ ap (λ w. done (some w) s) (back (p ∷ [], enotdir) (chain_notdir n ns p e h k l))
        | inl l ↦ elim (Option-cases (G.names.find e.children n)) [
          | inl m ↦
              last_visit G s f itr (moved G s itr n rest len none enoent) p e enoent a h k
                (step ∙ enter_absent G s itr p e n rest len h l cut.0 m) refl refl
              ∙ ap (λ w. done (some w) s) (back (p ∷ [], enoent) (chain_absent n ns p e h k l m))
          | inr (q, m) ↦
              let next = moved G s itr n rest len (some q) itr.rc in
              let there : At G s next q = record {
                no_error = a.no_error;
                not_ended = a.not_ended;
                current = refl;
                at_name = starts;
              } in
              iterate_go G s (suc f) itr next p (chain G s ns q)
                (end-At G s itr p e a h ∙ ap (λ w. done w s) k) a.current
                (step ∙ enter_found G s itr p q e n rest len h l cut.0 m)
                (ih next q there less cut.1 m)
              ∙ ap (λ w. done (some w) s)
                  (back (visit p (chain G s ns q)) (chain_found n ns p q e h k l m))
        ]
      ]

  -- Standing at a live inode, with fuel for the bytes that are left and two more.
  iterate-chain :
      (fuel : ℕ) (itr : PathIterator) (p : Ptr)
      → At G s itr p
      → s p ≢ none
      → AllReach G s
      → AllShort G s (names itr.name)
      → length itr.name + 1 < fuel
      → iterate G fuel itr s ≡ done (some (chain G s (names itr.name) p)) s
  iterate-chain zero itr p a live reach short k = absurd (omega arith)
  iterate-chain (suc zero) itr p a live reach short k = absurd (omega arith)
  iterate-chain (suc (suc f)) itr p a live reach short k =
      let here = inode_at G s p live in
      let e : Inode G = here.0 in
      elim (Bool-cases (dying G e)) [
        | inl d ↦
            iterate_stop G s (suc f) itr (end-At G s itr p e a here.1 ∙ ap (λ w. done w s) d)
            ∙ ap (λ w. done (some ([], w)) s) a.no_error
            ∙ ap (λ w. done (some w) s) (sym (chain-dying G s (names itr.name) p e here.1 d))
        | inr d ↦
            let next = scan-Found (suc (length itr.name)) itr.name 0 a.at_name (omega arith) in
            round f itr p e next.0 a here.1 d short next.2 (next-At G s itr p next.0 a next.1)
              (λ g q b less short' m.
                iterate-chain (suc f) g q b (reach p e (first_of next.0) q here.1 m) reach short'
                  (omega arith))
      ]

  -- A loop over a path, from a root directory that is linked and not being deleted, in a store whose
  -- names all lead to inodes, comes to its end, and has visited the inodes along the names that the
  -- resolver would walk, in their order: up to one that is being deleted, to what is no directory
  -- (-ENOTDIR), or to a directory without the next name (-ENOENT). The names are at most 255 bytes
  -- long, and memory is there.
  pub iterate-path_begin :
      (path : Str) (root : Inode G)
      → s root_ptr ≡ some root
      → is_dir root.kind ≡ true
      → root.deletion_in_progress ≡ false
      → is_zero root.link_count ≡ false
      → AllReach G s
      → AllShort G s (names_of path)
      → (path_begin G true path s ≡ done (some (first_iterator G path)) s)
        × (iterate G (length path + 2) (first_iterator G path) s
            ≡ done (some (chain G s (names_of path) root_ptr)) s)
  iterate-path_begin path root h dir live linked reach short =
      let same : names (skip_slashes path) ≡ names_of path =
        ap skip_dots (path_split-skip_slashes path) ∙ sym (names_of-path_split path) in
      let start : At G s (first_iterator G path) root_ptr = record {
        no_error = refl;
        not_ended = refl;
        current = refl;
        at_name = skip_slashes-starts_name path;
      } in
      (
        unfold path_begin in ground (arith, h, dir, live, linked),
        iterate-chain (length path + 2) (first_iterator G path) root_ptr start
              (λ none_there. cc (none_there, h)) reach (subst (AllShort G s) (sym same) short)
              (omega (arith, length-skip_slashes_le path))
            ∙ ap (λ w. done (some (chain G s w root_ptr)) s) same,
      )
