-- ===== src/Ops/Remove/Rmdir.antt =====
-- What fskit_rmdir does to the store.
use fskit.Base.{not}
use fskit.Base.{Option}
use fskit.Base.{
  ℕ, ◌≡◌, true, false, ◌&&◌, ◌||◌, none, some, arith, ◌==◌, ltb, leb, if◌then◌else◌, length,
}
use fskit.Base.Int.{ℤ, pos, negsuc, ltb_ℤ, inc, is_neg}
use fskit.Base.Bytes.{Str}
use fskit.Calls.{destroy}
use fskit.Entry.Collect.{answers}
use fskit.Entry.Inv.{DirOk, StoreOk}
use fskit.Entry.Unlinks.{looks_full, is_special, detach_run}
use fskit.Errno.{ok_rc, enoent, enotdir, enotempty, name_max, path_max}
use fskit.Ops.{Env}
use fskit.Ops.Remove.Outcome.{last_gone, unlinked, Unlinked, unlinked-Unlinked, finish_run}
use fskit.Ops.Remove.{rmdir_entry, rmdir_from, rmdir}
use fskit.Path.{dirname, basename, basename_len, sanitize_path}
use fskit.Resolve.{found, resolve_path}
use fskit.Store.{Sglib, Inode, Store, Ptr, done, Ends, ends, is_dir}

module _ (G : Sglib) (env : Env) where
  open G use {names}

  module _ (path : Str) (s : Store G) (p c : Ptr) (name : Str) (e ce : Inode G) (hp : s p ≡ some e)
      (hc : s c ≡ some ce) (ne : (p == c) ≡ false) (h : names.find e.children name ≡ some c)
      (f : looks_full G env.clock.now ce ≡ false) (n : is_special name ≡ false)
      (nonneg : is_neg ce.open_count ≡ false) (b : answers (env.routes destroy path) ≡ true) where
    abbrev rmdir_store : Store G
    rmdir_store = unlinked G env path s p c name e ce hp hc ne h f n nonneg b

    rmdir_steps :
        is_dir ce.kind ≡ true
        → ltb 2 (names.len ce.children) ≡ false
        → rmdir_entry G env path p name c s ≡ done ok_rc rmdir_store
    unfolding rmdir_entry
    rmdir_steps hk hl = ground (
      arith,
      detach_run G env.clock.now s p name e hp c ce h ne hc f n,
      finish_run G env path s p c name e ce hp hc ne h f n nonneg b,
    )

    rmdir_from_run :
        is_dir e.kind ≡ true
        → is_dir ce.kind ≡ true
        → ltb 2 (names.len ce.children) ≡ false
        → rmdir_from G env path p name s ≡ done ok_rc rmdir_store
    unfolding rmdir_from
    rmdir_from_run hd hk hl = ground (arith, rmdir_steps)

  few_not_full :
      (ce : Inode G)
      → DirOk G ce
      → ltb 2 (names.len ce.children) ≡ false
      → looks_full G env.clock.now ce ≡ false
  few_not_full ce ok h = small (names.len ce.children) ce.num_children ok.counted h
    where
      small :
          (m : ℕ) (k : ℤ)
          → inc (inc k) ≡ pos m
          → ltb 2 m ≡ false
          → (is_dir ce.kind && ltb_ℤ (pos 2) (if m == 0 then negsuc 0 else k)) ≡ false
      small m k w l = ground arith

  -- Why a name in the directory `e` cannot be removed as a directory.
  abbrev pub refusal : Store G → Inode G → Str → Option ℤ
  refusal s e name =
      if not (is_dir e.kind) then some enotdir else elim (names.find e.children name) [
        | none ↦ some enoent
        | some c ↦ elim (s c) [
          | none ↦ none
          | some ce ↦
              if not (is_dir ce.kind)
              then some enotdir
              else if ltb 2 (names.len ce.children)
              then some enotempty
              else none
        ]
      ]

  -- Removing a directory with no names but "." and ".." succeeds, in a directory that the caller can
  -- reach: the name is gone, the store stays well formed, and the inode is freed if that was its
  -- last link and it is not open; otherwise it has one link less. The premises: no other name leads
  -- to an inode whose last link goes, counts of open handles are not negative, and no route for
  -- destroy has been removed.
  pub rmdir-Unlinked :
      (path : Str) (user gid : ℕ) (s : Store G) (p c : Ptr) (e ce : Inode G)
      → StoreOk G s
      → (leb path_max (length path) || ltb name_max (basename_len path)) ≡ false
      → resolve_path G env.mem user gid s (dirname (sanitize_path path)) ≡ found p tt
      → s p ≡ some e
      → is_dir e.kind ≡ true
      → s c ≡ some ce
      → (p == c) ≡ false
      → names.find e.children (basename (sanitize_path path)) ≡ some c
      → is_dir ce.kind ≡ true
      → ltb 2 (names.len ce.children) ≡ false
      → is_special (basename (sanitize_path path)) ≡ false
      → is_neg ce.open_count ≡ false
      → answers (env.routes destroy (sanitize_path path)) ≡ true
      → ((q : Ptr) (d : Inode G) (k : Str)
          → last_gone G env ce ≡ true
          → s q ≡ some d
          → names.find d.children k ≡ some c
          → (c == q) ≡ false
          → (q ≡ p) × (k ≡ basename (sanitize_path path)))
      → Ends
          (Unlinked G env s p c (basename (sanitize_path path)) e ce)
          (rmdir G env path user gid s)
  unfolding rmdir
  rmdir-Unlinked path user gid s p c e ce ok len r hp hd hc ne h hk hl n nonneg b only =
      let f : looks_full G env.clock.now ce ≡ false = few_not_full ce (ok.dirs c ce hc hk) hl in
      rw (len, r)
        (rw
          (rmdir_from_run (sanitize_path path) s p c (basename (sanitize_path path)) e ce hp hc ne h
            f n nonneg b hd hk hl)
          (ends (
            unlinked-Unlinked G env (sanitize_path path) s p c (basename (sanitize_path path)) e ce
              hp hc ne h f n nonneg b ok hd only)))
