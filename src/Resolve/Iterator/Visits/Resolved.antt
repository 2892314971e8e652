-- ===== src/Resolve/Iterator/Visits/Resolved.antt =====
-- Where the resolver finds an inode, a loop over the path ends at it.
use fskit.Base.{
  Bool, ℕ, ◌+◌, ◌≡◌, refl, sym, ap, ◌∙◌, subst, true, false, Option, none, some, List, [], ◌∷◌,
  arith, length,
}
use fskit.Base.Int.{ℤ}
use fskit.Base.Bytes.{Str}
use fskit.Errno.{ok_rc}
use fskit.Path.{names_of}
use fskit.Resolve.{found, resolve_path}
use fskit.Resolve.Iterator.{first_iterator}
use fskit.Resolve.Iterator.Visits.{visit, iterate, dying, chain, AllReach, AllShort}
use fskit.Resolve.Iterator.Visits.Loop.{chain_end, chain_found, iterate-path_begin}
use fskit.Resolve.Walk.{Live, Leads, here, down, resolve_path_iff}
use fskit.Store.{Sglib, Inode, Store, Ptr, done, is_dir, root_ptr}

abbrev pub last_visited : List Ptr → Option Ptr
last_visited [] = none
last_visited (p ∷ []) = some p
last_visited (p ∷ q ∷ ps) = last_visited (q ∷ ps)

last_visited-cons :
    (p r : Ptr) (ps : List Ptr) → last_visited ps ≡ some r → last_visited (p ∷ ps) ≡ some r
last_visited-cons p r [] h = cc
last_visited-cons p r (q ∷ ps) h = h

-- A loop that went through, and visited `r` last.
abbrev Through : Ptr → List Ptr × ℤ → Type 0
Through r (ps, rc) = (rc ≡ ok_rc) × (last_visited ps ≡ some r)

Through-visit : (p r : Ptr) (v : List Ptr × ℤ) → Through r v → Through r (visit p v)
Through-visit p r (ps, rc) (a, b) = (a, last_visited-cons p r ps b)

module _ (G : Sglib) (user gid : ℕ) (s : Store G) where
  Live-dying : (d : Inode G) → Live G user gid s d → dying G d ≡ false
  Live-dying d live = ground (arith, live.kept, live.alive)

  Leads-chain :
      {p r : Ptr} {ns : List Str} (e : Inode G)
      → Leads G user gid s p ns r
      → s p ≡ some e
      → dying G e ≡ false
      → Through r (chain G s ns p)
  Leads-chain {p} e (here hp h) k l = subst (Through p) (sym (chain_end G s p e k l)) (refl, refl)
  Leads-chain e (down {p} {q} {r} {e = f} {d} {n} {ns} hp hd hs hf hq live rest) k l =
      let same : f ≡ e = ground arith in
      let dir : is_dir e.kind ≡ true = subst (λ (w : Inode G). is_dir w.kind ≡ true) same hd in
      let child : G.names.find e.children n ≡ some q =
        subst (λ (w : Inode G). G.names.find w.children n ≡ some q) same hf in
      subst (Through r) (sym (chain_found G s n ns p q e k l dir child))
        (Through-visit p r (chain G s ns q) (Leads-chain d rest hq (Live-dying d live)))

  -- If a path resolves to an inode, for whatever caller, a loop over the path comes to its end with
  -- code 0 and visits that inode last. Names lead to inodes and those of the path are at most 255 bytes
  -- long, and memory is there.
  pub iterate-resolve_path :
      (mem : Bool) (path : Str) (r : Ptr)
      → resolve_path G mem user gid s path ≡ found r tt
      → AllReach G s
      → AllShort G s (names_of path)
      → (ps : List Ptr) × (iterate G (length path + 2) (first_iterator G path) s
          ≡ done (some (ps, ok_rc)) s)
        × (last_visited ps ≡ some r)
  iterate-resolve_path mem path r h reach short =
      let way = (resolve_path_iff G user gid s mem path r).0 h in
      let looped =
        (iterate-path_begin G s path way.root way.root_at way.root_dir way.root_kept way.root_linked
          reach short).1 in
      let run = chain G s (names_of path) root_ptr in
      let through : Through r run =
        Leads-chain way.root way.leads way.root_at (ground (arith, way.root_kept, way.root_dir)) in
      (run.0, looped ∙ ap (λ w. done (some (run.0, w)) s) through.0, through.1)
