-- ===== src/Entry/Links.antt =====
-- What attaching and detaching do to the inodes, and that they keep a store well formed.
use mathlib.Core.Path.{fun_ext}
use fskit.Base.{
  ◌≡◌, ◌≢◌, refl, sym, ap, ◌∙◌, ◌⊎◌, inl, inr, true, false, none, some, arith, ◌==◌, if◌then◌else◌,
  Bool-cases, Option-cases, eq_refl,
}
use fskit.Base.Int.{ℤ, pos, inc}
use fskit.Base.Bytes.{Str, str_eq, dot, dotdot}
use fskit.Errno.{ok_rc}
use fskit.Store.{Sglib, Inode, Store, Ptr, Time, done, Ends, ends, is_dir, put}
use fskit.Entry.{set_replace, add_link, count_child, point_up, attach_lowlevel}
use fskit.Entry.Inv.{DirOk, StoreOk, put-StoreOk, put-live, put_self}

module _ (G : Sglib) where
  open G use {names}

  add-keeps :
      (t : names.Tree) (name : Str) (c : Ptr) (k : Str)
      → names.find t name ≡ none
      → names.find t k ≢ none
      → names.find (names.add t name c) k ≢ none
  add-keeps t name c k free h = ground (arith, names.find-add t name c k free)

  update-keeps :
      (t : names.Tree) (name : Str) (c d : Ptr) (k : Str)
      → names.find t name ≡ some d
      → names.find t k ≢ none
      → names.find (names.update t name c) k ≢ none
  update-keeps t name c d k at h = ground (arith, names.find-update t name c d k at)

  find-update_cases :
      (t : names.Tree) (p d : Ptr) (k : Str) (q : Ptr)
      → names.find t dotdot ≡ some d
      → names.find (names.update t dotdot p) k ≡ some q
      → (q ≡ p) ⊎ (names.find t k ≡ some q)
  find-update_cases t p d k q u h = elim (Bool-cases (str_eq dotdot k)) [
    | inl r ↦ inl (ground (arith, names.find-update t dotdot p d k u))
    | inr r ↦ inr (ground (arith, names.find-update t dotdot p d k u))
  ]

  add_link-DirOk : (e : Inode G) → DirOk G e → DirOk G (add_link G e)
  unfolding add_link
  add_link-DirOk e ok = record {
    distinct = ok.distinct;
    self = ok.self;
    up = ok.up;
    counted = ok.counted;
  }

  point_up_kind :
      (p : Ptr) (e : Inode G)
      → is_dir (point_up G p (add_link G e)).kind ≡ true
      → is_dir e.kind ≡ true
  unfolding point_up add_link
  point_up_kind p e h = ground arith

  point_up-DirOk : (p : Ptr) (e : Inode G) → DirOk G e → DirOk G (point_up G p e)
  unfolding point_up
  point_up-DirOk p e ok = elim (Bool-cases (is_dir e.kind)) [
    | inr h ↦ rw h ok
    | inl h ↦ elim (Option-cases (names.find e.children dotdot)) [
      | inl t ↦ absurd (ok.up t)
      | inr (u, t) ↦
          rw (h, t, set_replace)
            (record {
              distinct = names.update-Distinct e.children dotdot p ok.distinct;
              self = update-keeps e.children dotdot p u dot t ok.self;
              up = update-keeps e.children dotdot p u dotdot t ok.up;
              counted = rw (names.len-update e.children dotdot p) ok.counted;
            })
    ]
  ]

module _ (G : Sglib) (now : Time) where
  open G use {names}

  -- The parent behind an attach.
  abbrev pub with_child : Str → Ptr → Inode G → Inode G
  with_child name c e = record (count_child G now e) {
    children = names.add (count_child G now e).children name c;
  }

  -- The child behind an attach.
  abbrev pub under : Ptr → Inode G → Inode G
  under p c = point_up G p (add_link G c)

  -- The outcome of an attach: its code, the store, the directory's names, the child's links.
  pub record Attached (s : Store G) (p c : Ptr) (name : Str) (e ce : Inode G) (rc : ℤ) (t : Store G)
      : Type 0 where
    pub code : rc ≡ ok_rc
    pub valid : StoreOk G t
    pub parent :
        (d : Inode G) × (t p ≡ some d)
        × ((k : Str)
            → names.find d.children k ≡ (if str_eq name k then some c else names.find e.children k))
    pub child :
        (d : Inode G) × (t c ≡ some d) × ((d.link_count ≡ inc ce.link_count) × (d.kind ≡ ce.kind))
    pub others : (q : Ptr) → (p == q) ≡ false → (c == q) ≡ false → t q ≡ s q

  abbrev pub attached : Store G → Ptr → Ptr → Str → Inode G → Inode G → Store G
  attached s p c name e ce = put (put s c (some (under p ce))) p (some (with_child name c e))

  four_puts : Store G → Ptr → Ptr → Str → Inode G → Inode G → Store G
  four_puts s p c name e ce =
      put
        (put (put (put s c (some (add_link G ce))) p (some (count_child G now e))) c
          (some (under p ce)))
        p (some (with_child name c e))

  attach_steps :
      (s : Store G) (p c : Ptr) (name : Str) (e ce : Inode G)
      → (p == c) ≡ false
      → s p ≡ some e
      → s c ≡ some ce
      → attach_lowlevel G true now p c name s ≡ done ok_rc (four_puts s p c name e ce)
  unfolding attach_lowlevel four_puts
  attach_steps s p c name e ce ne hp hc = ground (arith, eq_refl p, eq_refl c)

  attach_run :
      (s : Store G) (p c : Ptr) (name : Str) (e ce : Inode G)
      → (p == c) ≡ false
      → s p ≡ some e
      → s c ≡ some ce
      → attach_lowlevel G true now p c name s ≡ done ok_rc (attached s p c name e ce)
  unfolding four_puts
  attach_run s p c name e ce ne hp hc =
      let same : four_puts s p c name e ce ≡ attached s p c name e ce = fun_ext λ q. ground arith in
      attach_steps s p c name e ce ne hp hc ∙ ap (λ u. done ok_rc u) same

  module _ (p c : Ptr) (name : Str) (e ce : Inode G)
      (free : names.find e.children name ≡ none) where
    with_child-DirOk : DirOk G e → DirOk G (with_child name c e)
    unfolding count_child
    with_child-DirOk ok = record {
      distinct = names.add-Distinct e.children name c ok.distinct free;
      self = add-keeps G e.children name c dot free ok.self;
      up = add-keeps G e.children name c dotdot free ok.up;
      counted = ap inc ok.counted ∙ ap pos (sym (names.len-add e.children name c free));
    }

    under-DirOk :
        (is_dir ce.kind ≡ true → DirOk G ce)
        → is_dir (under p ce).kind ≡ true
        → DirOk G (under p ce)
    under-DirOk ok h =
        point_up-DirOk G p (add_link G ce) (add_link-DirOk G ce (ok (point_up_kind G p ce h)))

    -- The names behind an attach.
    with_child-find :
        (k : Str)
        → names.find (with_child name c e).children k
          ≡ (if str_eq name k then some c else names.find e.children k)
    unfolding count_child
    with_child-find k = names.find-add e.children name c k free

  -- Where a name of the child leads to.
  under-find :
      (p : Ptr) (ce : Inode G) (k : Str) (q : Ptr)
      → names.find (under p ce).children k ≡ some q
      → (q ≡ p) ⊎ (names.find ce.children k ≡ some q)
  unfolding point_up add_link
  under-find p ce k q h = elim (Bool-cases (is_dir ce.kind)) [
    | inr t ↦ inr (rw t at h)
    | inl t ↦ elim (Option-cases (names.find ce.children dotdot)) [
      | inl u ↦ inr (rw (t, u, set_replace) at h)
      | inr (d, u) ↦ find-update_cases G ce.children p d k q u (rw (t, u, set_replace) at h)
    ]
  ]

  attached-StoreOk :
      (s : Store G) (p c : Ptr) (name : Str) (e ce : Inode G)
      → StoreOk G s
      → s p ≡ some e
      → is_dir e.kind ≡ true
      → s c ≡ some ce
      → names.find e.children name ≡ none
      → StoreOk G (attached s p c name e ce)
  attached-StoreOk s p c name e ce ok hp hd hc free =
      put-StoreOk G (put s c (some (under p ce))) p (with_child name c e)
        (put-StoreOk G s c (under p ce) ok (under-DirOk p c name e ce free (ok.dirs c ce hc))
          λ k q h. elim (under-find p ce k q h) [
            | inl t ↦ put-live s c q (under p ce) (ground (arith, hp, t))
            | inr t ↦ put-live s c q (under p ce) (ok.closed c ce k q hc t)
          ])
        (λ _. with_child-DirOk p c name e ce free (ok.dirs p e hp hd))
        λ k q h.
          put-live (put s c (some (under p ce))) p q (with_child name c e)
            (elim (Bool-cases (str_eq name k)) [
              | inl t ↦ ground (arith, with_child-find p c name e ce free k, t, eq_refl c)
              | inr t ↦
                  put-live s c q (under p ce)
                    (ok.closed p e k q hp (ground (arith, with_child-find p c name e ce free k)))
            ])

  under_at :
      (s : Store G) (p c : Ptr) (name : Str) (e ce : Inode G)
      → (p == c) ≡ false
      → attached s p c name e ce c ≡ some (under p ce)
  under_at s p c name e ce ne = ground (arith, eq_refl c)

  under_links :
      (p : Ptr) (ce : Inode G)
      → ((under p ce).link_count ≡ inc ce.link_count) × ((under p ce).kind ≡ ce.kind)
  unfolding point_up add_link
  under_links p ce = ground arith

  -- Where memory is there, attaching an inode to another one, a directory of a well-formed store,
  -- under a name that is free there succeeds and
  -- leaves a well-formed store, in which the directory has that name and those that it had, and the
  -- inode one link more.
  pub attach-StoreOk :
      (s : Store G) (p c : Ptr) (name : Str) (e ce : Inode G)
      → StoreOk G s
      → (p == c) ≡ false
      → s p ≡ some e
      → is_dir e.kind ≡ true
      → s c ≡ some ce
      → names.find e.children name ≡ none
      → Ends (Attached s p c name e ce) (attach_lowlevel G true now p c name s)
  attach-StoreOk s p c name e ce ok ne hp hd hc free = rw (attach_run s p c name e ce ne hp hc) (
      ends (record {
        code = refl;
        valid = attached-StoreOk s p c name e ce ok hp hd hc free;
        parent = (
          with_child name c e,
          put_self (put s c (some (under p ce))) p (with_child name c e),
          with_child-find p c name e ce free,
        );
        child = (under p ce, under_at s p c name e ce ne, under_links p ce);
        others = λ q a b. ground (arith, a, b);
      }))
