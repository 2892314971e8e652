-- ===== src/Ops/Detach/Rounds.antt =====
-- One round of the loop over the queue takes an entry off the queue and the names still to come.
use fskit.Base.{
  ℕ, ◌+◌, ◌-◌, ◌≤◌, ◌≡◌, refl, sym, ap, ◌∙◌, subst, inl, inr, true, ◌&&◌, not, Option, none, some,
  List, [], ◌∷◌, arith, if◌then◌else◌, Bool-cases, length,
}
use fskit.Base.Int.{ℤ, is_neg, is_zero}
use fskit.Base.Bytes.{Str}
use fskit.Entry.{tagged, tag_garbage}
use fskit.Entry.Destroy.{try_destroy_and_free_ex}
use fskit.Errno.{ok_rc}
use fskit.Ops.{Env}
use fskit.Ops.Detach.{
  DetachCtx, queue_children, gather, release, consumed, detach_one, Round, stop, go, dropped_link,
  efault,
}
use fskit.Ops.Detach.Weight.{
  count_names, weight, Lighter, Lighter-refl, Lighter-trans, is_used, bind_inv, done_inv,
  put-Lighter, modify-Lightens,
}
use fskit.Ops.Detach.Light.{try_destroy_and_free_ex-Lightens}
use fskit.Ops.Detach.Queued.{Queues, pure-Queues, bind-Queues, queue_children-Queues}
use fskit.Ops.Detach.Fresh.{IsTagged, tag_garbage-IsTagged}
use fskit.Ops.Detach.Total.{has, total, Covers, total-Lighter, total-put}
use fskit.Store.{Sglib, Inode, Store, Ptr, Run, done, pure, load, modify, ◌>>=◌, is_dir}

module _ (G : Sglib) where
  open G use {names}

  abbrev pub new_work : Option names.Tree → ℕ
  new_work none = 0
  new_work (some set) = count_names (names.members set)

  gather-Queues :
      (env : Env) (ctx : DetachCtx) (path : Str) (a : ℤ × Option names.Tree) (u : Store G)
      → Queues G u
          (length ctx.queue + new_work a.1)
          (λ (r : ℤ × DetachCtx). r.1)
          ((if not (is_zero a.0) then pure (a.0, ctx) else elim a.1 [
            | none ↦ pure (ok_rc, ctx)
            | some children ↦ (queue_children G env ctx path children >>= λ q. pure (q.0, q.1))
          ])
            u)
  gather-Queues env ctx path (rc, none) u = elim (Bool-cases (is_zero rc)) [
    | inl z ↦ rw z (pure-Queues G u _ (λ (r : ℤ × DetachCtx). r.1) (ok_rc, ctx) (omega arith))
    | inr z ↦ rw z (pure-Queues G u _ (λ (r : ℤ × DetachCtx). r.1) (rc, ctx) (omega arith))
  ]
  gather-Queues env ctx path (rc, some set) u = elim (Bool-cases (is_zero rc)) [
    | inl z ↦ rw z (
        bind-Queues G u _ _ (λ (r : ℤ × DetachCtx × names.Tree). r.1) (λ (r : ℤ × DetachCtx). r.1)
          (queue_children G env ctx path set u) _ (queue_children-Queues G env path set ctx u)
          (λ q le. pure-Queues G u _ (λ (r : ℤ × DetachCtx). r.1) (q.0, q.1) le))
    | inr z ↦ rw z (pure-Queues G u _ (λ (r : ℤ × DetachCtx). r.1) (rc, ctx) (omega arith))
  ]

  -- What is queued and what may still be found, together no more than before.
  abbrev pub NoMore : List Ptr → DetachCtx → Store G → DetachCtx → Store G → Type 0
  NoMore dom ctx' t ctx s =
      Lighter G t s × (length ctx'.queue + total G t dom ≤ length ctx.queue + total G s dom)

  tagged-NoMore :
      (dom : List Ptr) (p : Ptr) (s u : Store G) (e : Inode G) (children : Option names.Tree)
      → s p ≡ some e
      → is_dir e.kind ≡ true
      → has p dom ≡ true
      → IsTagged G p e s children u
      → Lighter G u s × (new_work children + total G u dom ≤ total G s dom)
  tagged-NoMore dom p s u e children h dir inside (inl (x, y)) =
      (subst (λ v. Lighter G v s) (sym y) (Lighter-refl G s), rw (x, y) (omega arith))
  tagged-NoMore dom p s u e children h dir inside (inr (x, (set, empty, y))) =
      let gone : weight G (some (tagged G set e)) ≡ 0 = rw (dir, empty) refl in
      let l = put-Lighter G s p e (some (tagged G set e)) h (omega (arith, gone)) in
      let less = total-put G dom s p (some (tagged G set e)) inside gone l in
      let was : weight G (s p) ≡ count_names (names.members e.children) =
        ap (weight G) h ∙ (rw dir refl) in
      (subst (λ v. Lighter G v s) (sym y) l, rw (x, y) (omega (arith, less, was)))

  gather-NoMore :
      (dom : List Ptr) (env : Env) (ctx : DetachCtx) (path : Str) (p : Ptr) (s : Store G)
      (e : Inode G)
      → s p ≡ some e
      → is_dir e.kind ≡ true
      → has p dom ≡ true
      → (r : ℤ × DetachCtx) (t : Store G) → gather G env ctx path p s ≡ done r t
      → NoMore dom r.1 t ctx s
  unfolding gather
  gather-NoMore dom env ctx path p s e h dir inside r t k =
      let (a, u, x, y) = bind_inv (tag_garbage G env.mem p s) _ r t k in
      let (same, le) = gather-Queues env ctx path a u r t y in
      let (l, less) =
        tagged-NoMore dom p s u e a.1 h dir inside
          (tag_garbage-IsTagged G env.mem p s e h dir a u x) in
      (subst (λ v. Lighter G v s) (sym same) l, rw same (omega (arith, le, less)))

  weight-dropped_link : (e : Inode G) → weight G (some (dropped_link G e)) ≤ weight G (some e)
  weight-dropped_link e = omega arith

  abbrev goes_on : DetachCtx → ℤ × ℤ → List (Str × Ptr) → Round
  goes_on ctx r rest =
      if ctx.cb_fail && is_neg r.1
      then stop efault (record ctx { cbrc = r.1 })
      else if is_neg r.0
      then stop r.0 ctx
      else go (record ctx { queue = rest }) r.1

  goes_on-go :
      (ctx : DetachCtx) (r : ℤ × ℤ) (rest : List (Str × Ptr)) (c : DetachCtx) (cb : ℤ)
      → goes_on ctx r rest ≡ go c cb
      → c.queue ≡ rest
  goes_on-go ctx r rest c cb h = elim (Bool-cases (ctx.cb_fail && is_neg r.1)) [
    | inl x ↦ absurd (ground (arith, h, x))
    | inr x ↦ elim (Bool-cases (is_neg r.0)) [
      | inl y ↦ absurd (ground (arith, h, x, y))
      | inr y ↦ ground (arith, h, x, y)
    ]
  ]

  release_lem :
      (env : Env) (ctx : DetachCtx) (rest : List (Str × Ptr)) (path : Str) (p : Ptr) (cbrc : ℤ)
      (s t : Store G) (c : DetachCtx) (cb : ℤ)
      → release G env ctx rest path p cbrc s ≡ done (go c cb) t
      → Lighter G t s × (c.queue ≡ rest)
  unfolding release
  release_lem env ctx rest path p cbrc s t c cb h =
      let (a, u, x, y) = bind_inv (modify p (dropped_link G) s) _ (go c cb) t h in
      let (r, v, x', y') =
        bind_inv (try_destroy_and_free_ex G env.routes path p cbrc u) _ (go c cb) t y in
      let (same, at) = done_inv (goes_on ctx r rest) (go c cb) v t y' in
      let l =
        Lighter-trans G v u s (try_destroy_and_free_ex-Lightens G env.routes path p cbrc u r v x')
          (modify-Lightens G s p (dropped_link G) weight-dropped_link a u x) in
      (subst (λ w. Lighter G w s) at l, goes_on-go ctx r rest c cb same)

  is_inside :
      (dom : List Ptr) (s : Store G) (p : Ptr) (e : Inode G)
      → Covers G dom s
      → s p ≡ some e
      → has p dom ≡ true
  is_inside dom s p e covers h = elim (Bool-cases (has p dom)) [
    | inl x ↦ x
    | inr x ↦ absurd (cc (covers p x, ap (is_used G) h))
  ]

  gathered-NoMore :
      (dom : List Ptr) (env : Env) (ctx : DetachCtx) (path : Str) (p : Ptr) (s : Store G)
      (e : Inode G)
      → s p ≡ some e
      → Covers G dom s
      → (r : ℤ × DetachCtx) (t : Store G)
      → (if is_dir e.kind then gather G env ctx path p else pure (ok_rc, ctx)) s ≡ done r t
      → NoMore dom r.1 t ctx s
  gathered-NoMore dom env ctx path p s e h covers r t k = elim (Bool-cases (is_dir e.kind)) [
    | inl d ↦
        gather-NoMore dom env ctx path p s e h d (is_inside dom s p e covers h) r t
          (subst (λ w. (if w then gather G env ctx path p else pure (ok_rc, ctx)) s ≡ done r t) d k)
    | inr d ↦
        let (x, y) =
          done_inv (ok_rc, ctx) r s t
            (subst (λ w. (if w then gather G env ctx path p else pure (ok_rc, ctx)) s ≡ done r t) d
              k) in
        (subst (λ v. Lighter G v s) y (Lighter-refl G s), rw (sym x, sym y) (omega arith))
  ]

  length-consumed :
      (q : List (Str × Ptr)) (n : ℕ) → length q ≤ n → 1 ≤ n → length (consumed G q) + 1 ≤ n
  length-consumed [] n le one = omega (arith, one)
  length-consumed (x ∷ q) n le one = omega (arith, le)

  stop_no_go :
      (rc : ℤ) (d c : DetachCtx) (cb : ℤ) (s t : Store G)
      → ◌≡◌ {A = Run (Store G) Round} (done (stop rc d) s) (done (go c cb) t)
      → ⊥
  stop_no_go rc d c cb s t h = cc

  -- A round that goes on has taken its entry off.
  pub detach_one_less :
      (dom : List Ptr) (env : Env) (ctx : DetachCtx) (path : Str) (p : Ptr) (cbrc : ℤ) (s : Store G)
      → Covers G dom s
      → 1 ≤ length ctx.queue
      → (c : DetachCtx) (cb : ℤ) (t : Store G)
      → detach_one G env ctx path p cbrc s ≡ done (go c cb) t
      → Lighter G t s × (length c.queue + total G t dom + 1 ≤ length ctx.queue + total G s dom)
  unfolding detach_one
  detach_one_less dom env ctx path p cbrc s covers one c cb t k =
      let (e, u, x, y) = bind_inv (load p s) _ (go c cb) t k in
      let (h, same) = load_inv s u p e x in
      let (g, v, x', y') =
        bind_inv ((if is_dir e.kind then gather G env ctx path p else pure (ok_rc, ctx)) s) _
          (go c cb) t
          (subst
            (λ w.
              ◌≡◌ {A = Run (Store G) Round}
                (((if is_dir e.kind then gather G env ctx path p else pure (ok_rc, ctx)) >>= λ g.
                    if is_zero g.0
                    then release G env g.1 (consumed G (g.1).queue) path p cbrc
                    else pure (stop g.0 g.1))
                  w)
                (done (go c cb) t))
            same y) in
      let (l, less) = gathered-NoMore dom env ctx path p s e h covers g v x' in
      elim (Bool-cases (is_zero g.0)) [
        | inl z ↦
            let (l', same') = release_lem env g.1 (consumed G (g.1).queue) path p cbrc v t c cb (
              subst
                (λ w.
                  ◌≡◌ {A = Run (Store G) Round}
                    ((if w
                        then release G env g.1 (consumed G (g.1).queue) path p cbrc
                        else pure (stop g.0 g.1))
                      v)
                    (done (go c cb) t))
                z y') in
            let shorter =
              length-consumed (g.1).queue (length ctx.queue + total G s dom - total G t dom) in
            let fewer = total-Lighter G dom v t l' in
            let few = total-Lighter G dom s v l in
            (Lighter-trans G t v s l' l, rw same' (omega (arith, shorter, fewer, few, less, one)))
        | inr z ↦ absurd (
            stop_no_go g.0 g.1 c cb v t (
              subst
                (λ w.
                  ◌≡◌ {A = Run (Store G) Round}
                    ((if w
                        then release G env g.1 (consumed G (g.1).queue) path p cbrc
                        else pure (stop g.0 g.1))
                      v)
                    (done (go c cb) t))
                z y'))
      ]
    where
      load_inv :
          (s u : Store G) (p : Ptr) (e : Inode G) → load p s ≡ done e u → (s p ≡ some e) × (u ≡ s)
      load_inv s u p e x = ground (arith, x)
