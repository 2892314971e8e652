-- ===== src/Entry/Unlinks.antt =====
-- What fskit_entry_detach_lowlevel does, branch by branch.
use fskit.Base.{
  ℕ, suc, ◌≡◌, ◌≢◌, refl, sym, ap, ◌∙◌, Bool, true, false, ◌&&◌, ◌||◌, none, some, arith, ◌==◌,
  if◌then◌else◌, eq_refl,
}
use fskit.Base.Int.{ℤ, pos, inc, dec, is_neg, ltb_ℤ, dec-inc, inc-dec}
use fskit.Base.Bytes.{Str, str_eq, dot, dotdot}
use fskit.Errno.{ok_rc, enoent, enotempty}
use fskit.Store.{Sglib, Inode, Store, Ptr, Time, done, Ends, ends, is_dir, put}
use fskit.Entry.{get_num_children, drop_link, detach_lowlevel, uncount_child}
use fskit.Entry.Inv.{DirOk, StoreOk, put-StoreOk, put-live, put_self}

counted-dec : (n : ℤ) (m : ℕ) → inc (inc n) ≡ pos (suc m) → inc (inc (dec n)) ≡ pos m
counted-dec n m h = ap inc (inc-dec n) ∙ sym (dec-inc (inc n)) ∙ ap dec h

pub eq_sym : (a b : ℕ) → (a == b) ≡ (b == a)
eq_sym a b = ground arith

-- "." and ".."
abbrev pub is_special : Str → Bool
is_special name = str_eq name dot || str_eq name dotdot

module _ (G : Sglib) (now : Time) where
  open G use {names}

  -- A directory that fskit_entry_detach_lowlevel takes for one with entries.
  abbrev pub looks_full : Inode G → Bool
  looks_full c = is_dir c.kind && ltb_ℤ (pos 2) (get_num_children G c)

  abbrev pub without : Str → Inode G → Inode G
  without name e = uncount_child G now (names.delete e.children name) e

  -- The store behind a detach.
  abbrev pub detached : Store G → Ptr → Ptr → Str → Inode G → Inode G → Store G
  detached s p c name e ce = put (put s p (some (without name e))) c (some (drop_link G ce))

  -- The outcome of a detach: its code, the store, the directory's names, the child's links.
  pub record Detached (s : Store G) (p c : Ptr) (name : Str) (e ce : Inode G) (rc : ℤ) (t : Store G)
      : Type 0 where
    pub code : rc ≡ ok_rc
    pub valid : StoreOk G t
    pub parent :
        (d : Inode G) × (t p ≡ some d)
        × ((k : Str)
            → names.find d.children k ≡ (if str_eq name k then none else names.find e.children k))
        × (d.num_children ≡ dec e.num_children)
    pub child :
        (d : Inode G) × (t c ≡ some d)
        × (d.link_count ≡ (if is_neg (dec ce.link_count) then pos 0 else dec ce.link_count))
    pub others : (q : Ptr) → (p == q) ≡ false → (c == q) ≡ false → t q ≡ s q

  module _ (name : Str) (e : Inode G) where
    pub without_names :
        DirOk G e
        → (k : Str)
        → names.find (without name e).children k
          ≡ (if str_eq name k then none else names.find e.children k)
    unfolding uncount_child
    without_names ok k = names.find-delete e.children name k ok.distinct

    pub without-find :
        (k : Str) (q : Ptr)
        → DirOk G e
        → names.find (without name e).children k ≡ some q
        → names.find e.children k ≡ some q
    without-find k q ok f = ground (arith, without_names ok k)

    without_count : (without name e).num_children ≡ dec e.num_children
    unfolding uncount_child
    without_count = refl

    delete-keeps :
        (k : Str)
        → DirOk G e
        → str_eq name k ≡ false
        → names.find e.children k ≢ none
        → names.find (names.delete e.children name) k ≢ none
    delete-keeps k ok n h = ground (arith, names.find-delete e.children name k ok.distinct)

  without-DirOk :
      (name : Str) (c : Ptr) (e : Inode G)
      → names.find e.children name ≡ some c
      → is_special name ≡ false
      → DirOk G e
      → DirOk G (without name e)
  unfolding uncount_child
  without-DirOk name c e h n ok = record {
    distinct = names.delete-Distinct e.children name ok.distinct;
    self = delete-keeps name e dot ok (ground arith) ok.self;
    up = delete-keeps name e dotdot ok (ground arith) ok.up;
    counted =
        counted-dec e.num_children (names.len (names.delete e.children name))
          (ok.counted ∙ ap pos (sym (names.len-delete e.children name c h)));
  }

  module _ (ce : Inode G) where
    drop_link_kind : is_dir (drop_link G ce).kind ≡ true → is_dir ce.kind ≡ true
    unfolding drop_link
    drop_link_kind h = h

    drop_link-DirOk : DirOk G ce → DirOk G (drop_link G ce)
    unfolding drop_link
    drop_link-DirOk ok = record {
      distinct = ok.distinct;
      self = ok.self;
      up = ok.up;
      counted = ok.counted;
    }

    drop_link-find :
        (k : Str) (q : Ptr)
        → names.find (drop_link G ce).children k ≡ some q
        → names.find ce.children k ≡ some q
    unfolding drop_link
    drop_link-find k q h = h

    drop_links :
        (drop_link G ce).link_count
        ≡ (if is_neg (dec ce.link_count) then pos 0 else dec ce.link_count)
    unfolding drop_link
    drop_links = refl

  pub without_at :
      (s : Store G) (p c : Ptr) (name : Str) (e ce : Inode G)
      → (p == c) ≡ false
      → detached s p c name e ce p ≡ some (without name e)
  without_at s p c name e ce ne = ground (arith, eq_refl p, eq_sym p c)

  module _ (s : Store G) (p : Ptr) (name : Str) (e : Inode G) (hp : s p ≡ some e) where
    pub detach_missing :
        names.find e.children name ≡ none → detach_lowlevel G now p name s ≡ done enoent s
    unfolding detach_lowlevel
    detach_missing h = ground arith

    pub detach_self :
        names.find e.children name ≡ some p → detach_lowlevel G now p name s ≡ done enotempty s
    unfolding detach_lowlevel
    detach_self h = ground (arith, eq_refl p)

    module _ (c : Ptr) (ce : Inode G) (h : names.find e.children name ≡ some c)
        (ne : (p == c) ≡ false) (hc : s c ≡ some ce) where
      pub detach_full : looks_full ce ≡ true → detach_lowlevel G now p name s ≡ done enotempty s
      unfolding detach_lowlevel
      detach_full f = ground arith

      pub detach_special :
          looks_full ce ≡ false
          → is_special name ≡ true
          → detach_lowlevel G now p name s ≡ done enoent s
      unfolding detach_lowlevel
      detach_special f n = ground arith

      pub detach_run :
          looks_full ce ≡ false
          → is_special name ≡ false
          → detach_lowlevel G now p name s ≡ done ok_rc (detached s p c name e ce)
      unfolding detach_lowlevel
      detach_run f n = ground arith

      pub detached-StoreOk :
          StoreOk G s
          → is_dir e.kind ≡ true
          → is_special name ≡ false
          → StoreOk G (detached s p c name e ce)
      detached-StoreOk ok d n =
          put-StoreOk G (put s p (some (without name e))) c (drop_link G ce)
            (put-StoreOk G s p (without name e) ok
              (λ _. without-DirOk name c e h n (ok.dirs p e hp d))
              λ k q f.
                put-live s p q (without name e)
                  (ok.closed p e k q hp (without-find name e k q (ok.dirs p e hp d) f)))
            (λ i. drop_link-DirOk ce (ok.dirs c ce hc (drop_link_kind ce i)))
            λ k q f.
              put-live (put s p (some (without name e))) c q (drop_link G ce)
                (put-live s p q (without name e) (ok.closed c ce k q hc (drop_link-find ce k q f)))

      -- In a well-formed store, detaching another inode from a directory by a name but "." and ".."
      -- succeeds unless the inode looks like a directory with entries, and leaves a well-formed
      -- store in which the name is gone, the others are as before, and the inode has one link less,
      -- but not less than none.
      pub detach-StoreOk :
          StoreOk G s
          → is_dir e.kind ≡ true
          → looks_full ce ≡ false
          → is_special name ≡ false
          → Ends (Detached s p c name e ce) (detach_lowlevel G now p name s)
      detach-StoreOk ok d f n = rw (detach_run f n) (
          ends (record {
            code = refl;
            valid = detached-StoreOk ok d n;
            parent = (
              without name e,
              without_at s p c name e ce ne,
              without_names name e (ok.dirs p e hp d),
              without_count name e,
            );
            child = (
              drop_link G ce,
              put_self (put s p (some (without name e))) c (drop_link G ce),
              drop_links ce,
            );
            others = λ q a b. ground (arith, a, b);
          }))
