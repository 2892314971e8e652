-- ===== src/Ops/Rename/Loops.antt =====
-- The set of inode numbers that fskit_rename gathers always has 0, and nothing else.
use fskit.Base.{
  ℕ, ◌≡◌, ◌≢◌, refl, sym, ◌∙◌, subst, inl, inr, Bool, true, false, Option, none, some, List, [],
  ◌∷◌, arith, ltb, Bool-cases, Option-cases,
}
use fskit.Base.Int.{is_zero}
use fskit.Base.Bytes.{Str, str_eq}
use fskit.Ops.Rename.{
  IdSet, Gathered, resolve_inodes_cb, resolve_inodes, common, apart, refused, new_only, old_only,
  parents,
}
use fskit.Path.{names_of, dirname, depth}
use fskit.Resolve.{Look, found, failed, crashed, walk, resolve_path_cls, resolve_path}
use fskit.Store.{Sglib, Inode, Store, Ptr, root_ptr}

module _ (G : Sglib) (ids : IdSet) (mem : Bool) where
  -- A set is there, and has 0.
  abbrev HasZero : Gathered G ids → Type 0
  HasZero g = (t : ids.Set) × (g.inode_set ≡ some t) × (ids.has t 0 ≡ true)

  cb-HasZero :
      (g : Gathered G ids) (e : Inode G)
      → is_zero (resolve_inodes_cb G ids mem g e).0 ≡ true
      → HasZero (resolve_inodes_cb G ids mem g e).1
  unfolding resolve_inodes_cb
  cb-HasZero g e h = elim (Bool-cases mem) [
    | inr m ↦ absurd (ground arith)
    | inl m ↦ elim (Option-cases g.inode_set) [
      | inl t ↦
          rw (m, t)
            (
              ids.add (ids.add ids.null 0) 0,
              refl,
              ground (arith, ids.has-add (ids.add ids.null 0) 0 0),
            )
      | inr (set, t) ↦ elim (Bool-cases (ids.has set e.file_id)) [
        | inl b ↦ absurd (ground arith)
        | inr b ↦ rw (m, t, b) (ids.add set 0, refl, ground (arith, ids.has-add set 0 0))
      ]
    ]
  ]

  open G use {names}

  module _ (user gid : ℕ) (s : Store G) where
    abbrev go : List Str → Ptr → Gathered G ids → Look (Gathered G ids)
    go ns p g = walk G (some (resolve_inodes_cb G ids mem)) user gid s ns p g

    abbrev Keeps : Look (Gathered G ids) → Type 0
    Keeps x = (p : Ptr) (g : Gathered G ids) → x ≡ found p g → HasZero g

    walk_cons_inv :
        (n : Str) (ns : List Str) (p : Ptr) (g : Gathered G ids) (q : Ptr) (k : Gathered G ids)
        → go (n ∷ ns) p g ≡ found q k
        → (d : Inode G) × (r : Ptr) × (is_zero (resolve_inodes_cb G ids mem g d).0 ≡ true)
          × (go ns r (resolve_inodes_cb G ids mem g d).1 ≡ found q k)
    unfolding walk
    walk_cons_inv n ns p g q k h = elim (Option-cases (s p)) [
      | inl t ↦ ground arith
      | inr (e, t) ↦ elim (Option-cases (names.find e.children n)) [
        | inl u ↦ ground arith
        | inr (r, u) ↦ elim (Option-cases (s r)) [
          | inl v ↦ ground arith
          | inr (d, v) ↦ (d, r, ground arith, ground arith)
        ]
      ]
    ]

    walk-HasZero : (ns : List Str) (p : Ptr) (g : Gathered G ids) → HasZero g → Keeps (go ns p g)
    unfolding walk
    walk-HasZero [] p g z q k h = elim (Option-cases (s p)) [
      | inl t ↦ absurd (ground arith)
      | inr (e, t) ↦ let same : g ≡ k = ground arith in subst HasZero same z
    ]
    walk-HasZero (n ∷ ns) p g z q k h =
        let (d, r, a, b) = walk_cons_inv n ns p g q k h in
        walk-HasZero ns r (resolve_inodes_cb G ids mem g d).1 (cb-HasZero g d a) q k b

    resolve_inodes-HasZero : (path : Str) → Keeps (resolve_inodes G ids mem user gid s path)
    unfolding resolve_path_cls
    resolve_inodes-HasZero path q k h = elim (Option-cases (s root_ptr)) [
      | inl t ↦ absurd (ground arith)
      | inr (e, t) ↦
          let none_yet : Gathered G ids = record { inode_set = none; exited = false } in
          walk-HasZero (names_of path) root_ptr (resolve_inodes_cb G ids mem none_yet e).1
            (cb-HasZero none_yet e (ground arith)) q k (ground arith)
    ]

    abbrev new_look : Str → Look (Gathered G ids)
    new_look path = resolve_inodes G ids mem user gid s path

    abbrev old_look : Str → Look (Unit {0})
    old_look path = resolve_path G mem user gid s path

    -- Where the look-ups end in two parents, the set is the one gathered.
    abbrev Gathers : Look (Gathered G ids) → Ptr → Option ids.Set → Type 0
    Gathers x n set = (g : Gathered G ids) × (x ≡ found n g) × (g.inode_set ≡ set)

    old_first :
        (x : Look (Gathered G ids)) (y : Look (Unit {0})) (o n : Ptr) (set : Option ids.Set)
        → old_only G ids y
            (λ p. new_only G ids x (λ m t. apart p m t) (λ rc. refused rc))
            (λ rc. refused rc)
          ≡ apart o n set
        → Gathers x n set
    old_first (found m g) (found p c) o n set h = (g, ground arith, ground arith)
    old_first (failed rc g) (found p c) o n set h = ground arith
    old_first crashed (found p c) o n set h = ground arith
    old_first x (failed rc c) o n set h = ground arith
    old_first x crashed o n set h = ground arith

    new_first :
        (x : Look (Gathered G ids)) (y : Look (Unit {0})) (o n : Ptr) (set : Option ids.Set)
        → new_only G ids x
            (λ m t. old_only G ids y (λ p. apart p m t) (λ rc. refused rc))
            (λ rc. old_only G ids y (λ _. refused rc) (λ _. refused rc))
          ≡ apart o n set
        → Gathers x n set
    new_first (found m g) (found p c) o n set h = (g, ground arith, ground arith)
    new_first (found m g) (failed rc c) o n set h = ground arith
    new_first (found m g) crashed o n set h = ground arith
    new_first (failed rc g) (found p c) o n set h = ground arith
    new_first (failed rc g) (failed rd c) o n set h = ground arith
    new_first (failed rc g) crashed o n set h = ground arith
    new_first crashed y o n set h = ground arith

    one_only :
        (y : Look (Unit {0})) (o n : Ptr) (set : Option ids.Set)
        → old_only G ids y (λ p. common p) (λ rc. refused rc) ≢ apart o n set
    one_only (found p c) o n set h = ground arith
    one_only (failed rc c) o n set h = ground arith
    one_only crashed o n set h = ground arith

    parents_gather :
        (old_path new_path : Str) (o n : Ptr) (set : Option ids.Set)
        → parents G ids mem user gid s old_path new_path ≡ apart o n set
        → Gathers (new_look (dirname new_path)) n set
    unfolding parents
    parents_gather old_path new_path o n set h =
        elim (Bool-cases (ltb (depth new_path) (depth old_path))) [
          | inl a ↦
              old_first (new_look (dirname new_path)) (old_look (dirname old_path)) o n set
                (rw a at h)
          | inr a ↦ elim (Bool-cases (ltb (depth old_path) (depth new_path))) [
            | inl b ↦
                new_first (new_look (dirname new_path)) (old_look (dirname old_path)) o n set
                  (rw (a, b) at h)
            | inr b ↦ elim (Bool-cases (str_eq (dirname old_path) (dirname new_path))) [
              | inl c ↦ absurd (one_only (old_look (dirname old_path)) o n set (rw (a, b, c) at h))
              | inr c ↦
                  new_first (new_look (dirname new_path)) (old_look (dirname old_path)) o n set
                    (rw (a, b, c) at h)
            ]
          ]
        ]

    -- Where the two paths come to two parents, the set of inode numbers has 0.
    pub parents-HasZero :
        (old_path new_path : Str) (o n : Ptr) (set : Option ids.Set)
        → parents G ids mem user gid s old_path new_path ≡ apart o n set
        → (t : ids.Set) × (set ≡ some t) × (ids.has t 0 ≡ true)
    parents-HasZero old_path new_path o n set h =
        let (g, a, b) = parents_gather old_path new_path o n set h in
        let (t, u, v) = resolve_inodes-HasZero (dirname new_path) n g a in (t, sym b ∙ u, v)
