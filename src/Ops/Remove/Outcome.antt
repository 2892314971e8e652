-- ===== src/Ops/Remove/Outcome.antt =====
-- What fskit_unlink does to the store.
use fskit.Base.{
  ◌∙◌, ℕ, ◌≡◌, ◌≢◌, refl, sym, subst, inl, inr, Bool, true, false, ◌&&◌, none, some, arith, ◌==◌,
  ltb, if◌then◌else◌, length, Bool-cases, eq_refl,
}
use fskit.Base.Int.{ℤ, pos, is_neg, is_nonpos}
use fskit.Base.Bytes.{Str, str_eq, str_eq_refl}
use fskit.Calls.{Call, no_route, ran, null_route, detach, destroy, outcome, run_user}
use fskit.Entry.{drop_link}
use fskit.Entry.Collect.{answers, destroy_busy, destroy_idle, free-StoreOk}
use fskit.Entry.Inv.{DirOk, StoreOk, put_self}
use fskit.Entry.Unlinks.{
  looks_full, is_special, detach_run, detached, detached-StoreOk, eq_sym, without, without_names,
  without-find,
}
use fskit.Errno.{ok_rc, name_max}
use fskit.Ops.{Env}
use fskit.Ops.Remove.{finish, unlink_entry, unlink_from, unlink}
use fskit.Path.{dirname, basename}
use fskit.Resolve.Walk.{resolve_path_mem}
use fskit.Resolve.{found, resolve_path}
use fskit.Store.{Sglib, Inode, Store, Ptr, done, Ends, ends, is_dir, put}

nonpos-zero : (z : ℤ) → is_nonpos z ≡ true → is_neg z ≡ false → z ≡ pos 0
nonpos-zero z a b = ground arith

module _ (G : Sglib) (env : Env) where
  open G use {names}

  outcome_done :
      (e : Inode G) (k : Call) (t : Store G)
      → answers k ≡ true
      → (rc : ℤ) × (outcome G detach e k ok_rc t ≡ done rc t)
  outcome_done e no_route t a = (ok_rc, refl)
  outcome_done e (ran rc) t a = (rc, refl)
  outcome_done e null_route t a = cc

  run_detach :
      (path : Str) (c : Ptr) (t : Store G) (ce : Inode G)
      → t c ≡ some ce
      → answers (env.routes detach path) ≡ true
      → (rc : ℤ) × (run_user G ok_rc env.routes detach path c t ≡ done rc t)
  unfolding run_user
  run_detach path c t ce h a =
      let (rc, r) = outcome_done ce (env.routes detach path) t a in (rc, ground (arith, r))

  -- The inode's last reference is gone.
  abbrev pub last_gone : Inode G → Bool
  last_gone ce = is_nonpos (drop_link G ce).link_count && is_nonpos ce.open_count

  -- The code, the directory's names, the inode and the other inodes, behind an unlink.
  pub record Unlinked (s : Store G) (p c : Ptr) (name : Str) (e ce : Inode G) (rc : ℤ) (t : Store G)
      : Type 0 where
    pub code : rc ≡ ok_rc
    pub valid : StoreOk G t
    pub parent :
        (d : Inode G) × (t p ≡ some d)
        × ((k : Str)
            → names.find d.children k ≡ (if str_eq name k then none else names.find e.children k))
    pub child : t c ≡ (if last_gone ce then none else some (drop_link G ce))
    pub others : (q : Ptr) → (p == q) ≡ false → (c == q) ≡ false → t q ≡ s q

  module _ (path : Str) (s : Store G) (p c : Ptr) (name : Str) (e ce : Inode G) (hp : s p ≡ some e)
      (hc : s c ≡ some ce) (ne : (p == c) ≡ false) (h : names.find e.children name ≡ some c)
      (f : looks_full G env.clock.now ce ≡ false) (n : is_special name ≡ false)
      (nonneg : is_neg ce.open_count ≡ false) (b : answers (env.routes destroy path) ≡ true) where
    abbrev behind : Store G
    behind = detached G env.clock.now s p c name e ce

    abbrev pub unlinked : Store G
    unlinked = if last_gone ce then put behind c none else behind

    drop_open_same : (drop_link G ce).open_count ≡ ce.open_count
    unfolding drop_link
    drop_open_same = refl

    drop_nonneg : is_neg (drop_link G ce).link_count ≡ false
    unfolding drop_link
    drop_nonneg = ground arith

    at_child : behind c ≡ some (drop_link G ce)
    at_child = put_self (put s p (some (without G env.clock.now name e))) c (drop_link G ce)

    pub finish_run : finish G env path c behind ≡ done ok_rc unlinked
    unfolding finish drop_link
    finish_run = elim (Bool-cases (last_gone ce)) [
      | inr t ↦
          rw (destroy_busy G env.routes path behind c (drop_link G ce) at_child (ground arith), t)
            refl
      | inl t ↦
          rw
            (
              destroy_idle G env.routes path behind c (drop_link G ce) at_child
                  (nonpos-zero (drop_link G ce).link_count (ground arith) drop_nonneg)
                  (nonpos-zero ce.open_count (ground arith) nonneg) b,
              t,
            )
            refl
    ]

    unlink_entry_run :
        answers (env.routes detach path) ≡ true
        → unlink_entry G env path p name c s ≡ done ok_rc unlinked
    unfolding unlink_entry
    unlink_entry_run a =
        let (rc, r) = run_detach path c behind (drop_link G ce) at_child a in
        rw (detach_run G env.clock.now s p name e hp c ce h ne hc f n) (rw r finish_run)

    at_parent :
        (q : Ptr) (d : Inode G)
        → (p == q) ≡ true
        → (c == q) ≡ false
        → behind q ≡ some d
        → without G env.clock.now name e ≡ d
    at_parent q d t m hq = ground arith

    name_gone :
        DirOk G e
        → (k : Str) → (names.find e.children k ≡ some c → k ≡ name)
        → names.find (without G env.clock.now name e).children k ≢ some c
    name_gone ok k only r =
        let same : k ≡ name = only (without-find G env.clock.now name e k c ok r) in
        ground (arith, without_names G env.clock.now name e ok k, str_eq_refl name)

    no_more_names :
        StoreOk G s
        → is_dir e.kind ≡ true
        → ((q : Ptr) (d : Inode G) (k : Str)
            → s q ≡ some d
            → names.find d.children k ≡ some c
            → (c == q) ≡ false
            → (q ≡ p) × (k ≡ name))
        → (q : Ptr) (d : Inode G) (k : Str) → behind q ≡ some d
        → (c == q) ≡ false
        → names.find d.children k ≢ some c
    no_more_names ok hd only q d k hq m found_it = elim (Bool-cases (p == q)) [
      | inl t ↦
          let same : without G env.clock.now name e ≡ d = at_parent q d t m hq in
          name_gone (ok.dirs p e hp hd) k (λ r. (only p e k hp r (ground (arith, eq_sym c p))).1)
            (subst (λ (u : Inode G). names.find u.children k ≡ some c) (sym same) found_it)
      | inr t ↦
          let there : s q ≡ some d = ground arith in
          let (same, _) = only q d k there found_it m in ground (arith, eq_refl p)
    ]

    pub unlinked-Unlinked :
        StoreOk G s
        → is_dir e.kind ≡ true
        → ((q : Ptr) (d : Inode G) (k : Str)
            → last_gone ce ≡ true
            → s q ≡ some d
            → names.find d.children k ≡ some c
            → (c == q) ≡ false
            → (q ≡ p) × (k ≡ name))
        → Unlinked s p c name e ce ok_rc unlinked
    unlinked-Unlinked ok hd only = record {
      code = refl;
      valid = elim (Bool-cases (last_gone ce)) [
        | inr t ↦ rw t (detached-StoreOk G env.clock.now s p name e hp c ce h ne hc ok hd n)
        | inl t ↦ rw t (
            free-StoreOk G env.routes path behind c (drop_link G ce) at_child
              (detached-StoreOk G env.clock.now s p name e hp c ce h ne hc ok hd n)
              (λ q d k hq m. no_more_names ok hd (λ x y z i j l. only x y z t i j l) q d k hq m))
      ];
      parent = (
        without G env.clock.now name e,
        ground (arith, eq_sym c p, eq_refl p),
        without_names G env.clock.now name e (ok.dirs p e hp hd),
      );
      child = ground (arith, eq_refl c);
      others = λ q x y. ground (arith, x, y);
    }

    unlink_from_run :
        is_dir e.kind ≡ true
        → answers (env.routes detach path) ≡ true
        → unlink_from G env path p name s ≡ done ok_rc unlinked
    unfolding unlink_from
    unlink_from_run hd a = ground (arith, unlink_entry_run)

  unlink_found :
      (path : Str) (user gid : ℕ) (s : Store G) (p : Ptr)
      → env.mem ≡ true
      → ltb name_max (length (basename path)) ≡ false
      → resolve_path G env.mem user gid s (dirname path) ≡ found p tt
      → unlink G env path user gid s ≡ unlink_from G env path p (basename path) s
  unfolding unlink
  unlink_found path user gid s p m len r = ground (arith, m, len, r)

  -- Unlinking a name in a directory that the caller can reach succeeds, unless the name leads to a
  -- directory that looks full or is "." or "..". The name is gone, the store stays well formed, and
  -- the inode is freed if that was its last link and it is not open; otherwise it has one link less.
  -- The premises: no other name leads to an inode whose last link goes, counts of open handles are
  -- not negative, and no route for detach and destroy has been removed.
  pub unlink-Unlinked :
      (path : Str) (user gid : ℕ) (s : Store G) (p c : Ptr) (e ce : Inode G)
      → StoreOk G s
      → ltb name_max (length (basename path)) ≡ false
      → resolve_path G env.mem user gid s (dirname path) ≡ found p tt
      → s p ≡ some e
      → is_dir e.kind ≡ true
      → s c ≡ some ce
      → (p == c) ≡ false
      → names.find e.children (basename path) ≡ some c
      → looks_full G env.clock.now ce ≡ false
      → is_special (basename path) ≡ false
      → is_neg ce.open_count ≡ false
      → answers (env.routes detach path) ≡ true
      → answers (env.routes destroy path) ≡ true
      → ((q : Ptr) (d : Inode G) (k : Str)
          → last_gone ce ≡ true
          → s q ≡ some d
          → names.find d.children k ≡ some c
          → (c == q) ≡ false
          → (q ≡ p) × (k ≡ basename path))
      → Ends (Unlinked s p c (basename path) e ce) (unlink G env path user gid s)
  unfolding unlink
  unlink-Unlinked path user gid s p c e ce ok len r hp hd hc ne h f n nonneg a b only =
      let go : unlink_from G env path p (basename path) s
          ≡ done ok_rc (unlinked path s p c (basename path) e ce hp hc ne h f n nonneg b) =
        unlink_from_run path s p c (basename path) e ce hp hc ne h f n nonneg b hd a in
      let mem = resolve_path_mem G user gid s env.mem (dirname path) p r in
      subst (Ends (Unlinked s p c (basename path) e ce))
        (sym (unlink_found path user gid s p mem len r ∙ go))
        ((ends
          (unlinked-Unlinked path s p c (basename path) e ce hp hc ne h f n nonneg b ok hd only)))
