-- ===== src/Resolve/Walk.antt =====
-- The resolver finds exactly the inodes that a chain of searchable directories leads to.
use fskit.Base.{
  ℕ, ◌≡◌, ◌≢◌, refl, sym, ◌∙◌, subst, ◌⊎◌, inl, inr, ◌↔◌, Bool, true, false, ◌&&◌, ◌||◌, not, none,
  some, List, [], ◌∷◌, arith, Bool-cases, Option-cases,
}
use fskit.Base.Int.{is_zero}
use fskit.Base.Bytes.{Str, is_empty}
use fskit.Errno.{einval, enomem, enoent, enotdir, eacces}
use fskit.Path.{names_of}
use fskit.Store.{Sglib, Inode, Store, Ptr, is_dir, is_dead, root_ptr}
use fskit.Entry.Inv.{StoreOk}
use fskit.Resolve.{
  Look, found, failed, crashed, searchable, walk, no_copy, ends_in_slash, resolve_path,
}

module _ (G : Sglib) (user gid : ℕ) (s : Store G) where
  open G use {names}

  -- Neither dead nor being deleted, and linked.
  pub record Live (d : Inode G) : Type 0 where
    pub kept : d.deletion_in_progress ≡ false
    pub alive : is_dead d.kind ≡ false
    pub linked : is_zero d.link_count ≡ false

  -- From an inode the names lead down searchable directories to another inode. If that is a
  -- directory, it is searchable too.
  pub data Leads : Ptr → List Str → Ptr → Type 0 where
    here :
        {p : Ptr} {e : Inode G}
        → s p ≡ some e
        → (is_dir e.kind && not (searchable G user gid e)) ≡ false
        → Leads p [] p
    down :
        {p q r : Ptr} {e d : Inode G} {n : Str} {ns : List Str}
        → s p ≡ some e
        → is_dir e.kind ≡ true
        → searchable G user gid e ≡ true
        → names.find e.children n ≡ some q
        → s q ≡ some d
        → Live d
        → Leads q ns r
        → Leads p (n ∷ ns) r

  abbrev plain : List Str → Ptr → Look (Unit {0})
  plain ns p = walk G {C = Unit {0}} none user gid s ns p tt

  -- One step of the walk, where nothing stops it, and nothing else lets it come to an end.
  walk_step :
      (n : Str) (ns : List Str) (p q : Ptr) (e d : Inode G)
      → s p ≡ some e
      → is_dir e.kind ≡ true
      → searchable G user gid e ≡ true
      → names.find e.children n ≡ some q
      → s q ≡ some d
      → Live d
      → plain (n ∷ ns) p ≡ plain ns q
  unfolding walk
  walk_step n ns p q e d hp hd hs hf hq live = ground (arith, live.kept, live.alive, live.linked)

  abbrev Step : Str → List Str → Ptr → Ptr → Type 0
  Step n ns p r =
      (e : Inode G) × (q : Ptr) × (d : Inode G) × (s p ≡ some e)
      × (is_dir e.kind ≡ true)
      × (searchable G user gid e ≡ true)
      × (names.find e.children n ≡ some q)
      × (s q ≡ some d)
      × Live d
      × (plain ns q ≡ found r tt)

  walk-Step_inv :
      (n : Str) (ns : List Str) (p r : Ptr) → plain (n ∷ ns) p ≡ found r tt → Step n ns p r
  unfolding walk
  walk-Step_inv n ns p r h = elim (Option-cases (s p)) [
    | inl t ↦ ground arith
    | inr (e, t) ↦ elim (Option-cases (names.find e.children n)) [
      | inl u ↦ ground arith
      | inr (q, u) ↦ elim (Option-cases (s q)) [
        | inl v ↦ ground arith
        | inr (d, v) ↦ (e, q, d, t, ground arith, ground arith, u, v, ground arith, ground arith)
      ]
    ]
  ]

  walk_complete : {p r : Ptr} {ns : List Str} → Leads p ns r → plain ns p ≡ found r tt
  walk_complete (here hp h) = unfold walk in rw (hp, walk) (rw h)
  walk_complete (down {p} {q} {r} {e} {d} {n} {ns} hp hd hs hf hq live l) =
      walk_step n ns p q e d hp hd hs hf hq live ∙ walk_complete l

  walk_end : (p r : Ptr) → plain [] p ≡ found r tt → Leads p [] r
  unfolding walk
  walk_end p r h = elim (Option-cases (s p)) [
    | inl t ↦ absurd (ground arith)
    | inr (e, t) ↦
        let same : p ≡ r = ground arith in subst (λ u. Leads p [] u) same (here t (ground arith))
  ]

  walk_sound : (ns : List Str) (p r : Ptr) → plain ns p ≡ found r tt → Leads p ns r
  walk_sound [] p r h = walk_end p r h
  walk_sound (n ∷ ns) p r h =
      let (e, q, d, t, i, j, u, v, live, rest) = walk-Step_inv n ns p r h in
      down t i j u v live (walk_sound ns q r rest)

  -- What a path has to be like to be resolved, where memory is there: not empty, below a linked root directory that is not
  -- being deleted, with names that lead to the inode.
  pub record Resolves (mem : Bool) (path : Str) (r : Ptr) : Type 0 where
    pub memory : mem ≡ true
    pub given : is_empty path ≡ false
    pub root : Inode G
    pub root_at : s root_ptr ≡ some root
    pub root_dir : is_dir root.kind ≡ true
    pub root_kept : root.deletion_in_progress ≡ false
    pub root_linked : is_zero root.link_count ≡ false
    pub leads : Leads root_ptr (names_of path) r

  resolve_of :
      (mem : Bool) (path : Str) (root : Inode G)
      → mem ≡ true
      → is_empty path ≡ false
      → s root_ptr ≡ some root
      → is_dir root.kind ≡ true
      → root.deletion_in_progress ≡ false
      → is_zero root.link_count ≡ false
      → resolve_path G mem user gid s path ≡ plain (names_of path) root_ptr
  unfolding resolve_path
  resolve_of mem path root m g a d k l = ground arith

  resolve_empty :
      (mem : Bool) (path : Str)
      → is_empty path ≡ true
      → resolve_path G mem user gid s path ≡ failed einval tt
  unfolding resolve_path
  resolve_empty mem path g = ground arith

  resolve_unlinked :
      (mem : Bool) (path : Str) (root : Inode G)
      → mem ≡ true
      → is_empty path ≡ false
      → s root_ptr ≡ some root
      → is_dir root.kind ≡ true
      → root.deletion_in_progress ≡ false
      → is_zero root.link_count ≡ true
      → resolve_path G mem user gid s path ≡ failed enoent tt
  unfolding resolve_path
  resolve_unlinked mem path root m g a d k l = ground arith

  resolve_enomem :
      (mem : Bool) (path : Str)
      → mem ≡ false
      → is_empty path ≡ false
      → ends_in_slash path ≡ false
      → resolve_path G mem user gid s path ≡ failed enomem tt
  unfolding resolve_path no_copy
  resolve_enomem mem path m g e = ground arith

  resolve_inv :
      (mem : Bool) (path : Str) (r : Ptr)
      → resolve_path G mem user gid s path ≡ found r tt
      → (mem ≡ true)
        × (is_empty path ≡ false)
        × ((root : Inode G) × (s root_ptr ≡ some root)
            × (is_dir root.kind ≡ true)
            × (root.deletion_in_progress ≡ false)
            × (is_zero root.link_count ≡ false)
            × (plain (names_of path) root_ptr ≡ found r tt))
  unfolding resolve_path no_copy
  resolve_inv mem path r h = elim (Option-cases (s root_ptr)) [
    | inl t ↦ ground arith
    | inr (e, t) ↦
        (ground arith, ground arith, (e, t, ground arith, ground arith, ground arith, ground arith))
  ]

  -- A path resolves to an inode exactly if it is not empty, memory is there to copy it, the root is a linked directory that is
  -- not being deleted, and each of its names stands in a directory that the caller may search and
  -- leads to a live inode, the inode at the end too being searchable if it is a directory.
  pub resolve_path_iff :
      (mem : Bool) (path : Str) (r : Ptr)
      → (resolve_path G mem user gid s path ≡ found r tt) ↔ Resolves mem path r
  resolve_path_iff mem path r = (to, λ v. back v)
    where
      to : resolve_path G mem user gid s path ≡ found r tt → Resolves mem path r
      to h =
          let (m, g, (root, a, d, k, l, w)) = resolve_inv mem path r h in
          record {
            memory = m;
            given = g;
            root = root;
            root_at = a;
            root_dir = d;
            root_kept = k;
            root_linked = l;
            leads = walk_sound (names_of path) root_ptr r w;
          }

      back : Resolves mem path r → resolve_path G mem user gid s path ≡ found r tt
      back v =
          resolve_of mem path v.root v.memory v.given v.root_at v.root_dir v.root_kept v.root_linked
          ∙ walk_complete v.leads

  -- The codes that the resolver fails with.
  abbrev pub IsLookupError : Bool → Look (Unit {0}) → Type 0
  IsLookupError mem (found p c) = Unit
  IsLookupError mem (failed rc c) =
      (rc ≡ enoent)
      ⊎ ((rc ≡ enotdir) ⊎ ((rc ≡ eacces) ⊎ ((rc ≡ einval) ⊎ ((mem ≡ false) × (rc ≡ enomem)))))
  IsLookupError mem crashed = ⊥

  is_live : Inode G → Bool
  is_live d = not d.deletion_in_progress && not (is_dead d.kind) && not (is_zero d.link_count)

  Stops : Look (Unit {0}) → Type 0
  Stops x = (x ≡ failed enoent tt) ⊎ ((x ≡ failed enotdir tt) ⊎ (x ≡ failed eacces tt))

  Stops-IsLookupError : (mem : Bool) (x : Look (Unit {0})) → Stops x → IsLookupError mem x
  unfolding Stops
  Stops-IsLookupError mem x (inl h) = subst (IsLookupError mem) (sym h) (inl refl)
  Stops-IsLookupError mem x (inr (inl h)) = subst (IsLookupError mem) (sym h) (inr (inl refl))
  Stops-IsLookupError mem x (inr (inr h)) = subst (IsLookupError mem) (sym h) (inr (inr (inl refl)))

  walk_end_cases :
      (p : Ptr) (e : Inode G) → s p ≡ some e → (plain [] p ≡ found p tt) ⊎ Stops (plain [] p)
  unfolding walk Stops
  walk_end_cases p e hp = elim (Bool-cases (is_dir e.kind && not (searchable G user gid e))) [
    | inl t ↦ inr (inr (inr (ground arith)))
    | inr t ↦ inl (ground arith)
  ]

  walk_step_cases :
      (n : Str) (ns : List Str) (p : Ptr) (e : Inode G)
      → StoreOk G s
      → s p ≡ some e
      → Stops (plain (n ∷ ns) p) ⊎ ((q : Ptr) × (s q ≢ none) × (plain (n ∷ ns) p ≡ plain ns q))
  unfolding walk Stops is_live
  walk_step_cases n ns p e ok hp = elim (Bool-cases (is_dir e.kind)) [
    | inr a ↦ elim (Bool-cases (is_dead e.kind)) [
      | inl b ↦ inl (inl (ground arith))
      | inr b ↦ inl (inr (inl (ground arith)))
    ]
    | inl a ↦ elim (Bool-cases (searchable G user gid e)) [
      | inr b ↦ inl (inr (inr (ground arith)))
      | inl b ↦ elim (Option-cases (names.find e.children n)) [
        | inl c ↦ inl (inl (ground arith))
        | inr (q, c) ↦ elim (Option-cases (s q)) [
          | inl d ↦ absurd (ok.closed p e n q hp c d)
          | inr (f, d) ↦ elim (Bool-cases (is_live f)) [
            | inl l ↦ inr (q, ok.closed p e n q hp c, ground arith)
            | inr l ↦ inl (inl (ground arith))
          ]
        ]
      ]
    ]
  ]

  walk_codes :
      (mem : Bool) (ns : List Str) (p : Ptr) (e : Inode G)
      → StoreOk G s
      → s p ≡ some e
      → IsLookupError mem (plain ns p)
  walk_codes mem [] p e ok hp = elim (walk_end_cases p e hp) [
    | inl h ↦ subst (IsLookupError mem) (sym h) tt
    | inr h ↦ Stops-IsLookupError mem (plain [] p) h
  ]
  walk_codes mem (n ∷ ns) p e ok hp = elim (walk_step_cases n ns p e ok hp) [
    | inl h ↦ Stops-IsLookupError mem (plain (n ∷ ns) p) h
    | inr (q, live, h) ↦ subst (IsLookupError mem) (sym h) (elim (Option-cases (s q)) [
      | inl t ↦ absurd (live t)
      | inr (d, t) ↦ walk_codes mem ns q d ok t
    ])
  ]

  -- In a well-formed store with a root directory that is not being deleted the resolver does not
  -- crash, where memory is there or the path does not end in a slash: it finds an inode, or fails
  -- with -ENOENT, -ENOTDIR, -EACCES or -EINVAL, or without memory with -ENOMEM.
  pub resolve_path_codes :
      (mem : Bool) (path : Str) (root : Inode G)
      → (mem || not (ends_in_slash path)) ≡ true
      → StoreOk G s
      → s root_ptr ≡ some root
      → is_dir root.kind ≡ true
      → root.deletion_in_progress ≡ false
      → IsLookupError mem (resolve_path G mem user gid s path)
  resolve_path_codes mem path root copied ok a d k = elim (Bool-cases (is_empty path)) [
    | inl g ↦
        subst (IsLookupError mem) (sym (resolve_empty mem path g)) (inr (inr (inr (inl refl))))
    | inr g ↦ elim (Bool-cases mem) [
      | inr m ↦
          subst (IsLookupError mem) (sym (resolve_enomem mem path m g (ground arith)))
            (inr (inr (inr (inr (m, refl)))))
      | inl m ↦ elim (Bool-cases (is_zero root.link_count)) [
        | inl l ↦
            subst (IsLookupError mem) (sym (resolve_unlinked mem path root m g a d k l)) (inl refl)
        | inr l ↦
            subst (IsLookupError mem) (sym (resolve_of mem path root m g a d k l))
              (walk_codes mem (names_of path) root_ptr root ok a)
      ]
    ]
  ]

  -- Only with memory is an inode found.
  pub resolve_path_mem :
      (mem : Bool) (path : Str) (r : Ptr)
      → resolve_path G mem user gid s path ≡ found r tt
      → mem ≡ true
  resolve_path_mem mem path r h = (resolve_inv mem path r h).0
