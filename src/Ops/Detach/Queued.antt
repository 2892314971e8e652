-- ===== src/Ops/Detach/Queued.antt =====
-- What queueing does to the queue: it grows by the names that it takes, and the store stays.
use fskit.Base.{
  ℕ, ◌+◌, ◌≤◌, ◌≡◌, sym, subst, inl, inr, Bool, List, [], ◌∷◌, arith, Bool-cases, Option-cases,
  length, length-append,
}
use fskit.Base.Int.{ℤ, is_zero}
use fskit.Base.Bytes.{Str}
use fskit.Errno.{ok_rc}
use fskit.Ops.{Env}
use fskit.Ops.Detach.{
  is_dots, DetachCtx, queue_child, queue_list, queue_children, erase_queued, from_old_tail,
}
use fskit.Ops.Detach.Weight.{bind_inv, done_inv, count_names}
use fskit.Path.{fullpath}
use fskit.Store.{Sglib, Inode, Store, Ptr, Run, done, fault, and_then, load, is_dead}

length-queue_child :
    (mem : Bool) (ctx : DetachCtx) (path name : Str) (p : Ptr)
    → length ((queue_child mem ctx path name p).1).queue ≤ length ctx.queue + 1
unfolding queue_child
length-queue_child mem ctx path name p = elim (Bool-cases mem) [
  | inl h ↦ rw (h, length-append ctx.queue ((fullpath path name, p) ∷ [])) (omega arith)
  | inr h ↦ rw h (omega arith)
]

module _ (G : Sglib) where
  open G use {names}

  load_same : (s t : Store G) (p : Ptr) (e : Inode G) → load p s ≡ done e t → t ≡ s
  load_same s t p e h = ground (arith, h)

  -- A run that leaves the store alone and makes the queue at most `n` longer.
  abbrev pub Queues : {A : Type 0} → Store G → ℕ → (A → DetachCtx) → Run (Store G) A → Type 0
  Queues {A} s n queued r =
      (a : A) (t : Store G) → r ≡ done a t → (t ≡ s) × (length (queued a).queue ≤ n)

  pub pure-Queues :
      {A : Type 0} (s : Store G) (n : ℕ) (queued : A → DetachCtx) (a : A)
      → length (queued a).queue ≤ n
      → Queues s n queued (done a s)
  pure-Queues s n queued a h b t k =
      let (x, y) = done_inv a b s t k in (sym y, subst (λ c. length (queued c).queue ≤ n) x h)

  load-Queues :
      {A : Type 0} (s : Store G) (n : ℕ) (queued : A → DetachCtx) (p : Ptr)
      (k : Inode G → Store G → Run (Store G) A)
      → ((e : Inode G) → Queues s n queued (k e s))
      → Queues s n queued (and_then (load p s) k)
  load-Queues s n queued p k rest b t h =
      let (e, u, x, y) = bind_inv (load p s) k b t h in
      let same : u ≡ s = load_same s u p e x in rest e b t (subst (λ v. k e v ≡ done b t) same y)

  Queues-more :
      {A : Type 0} (s : Store G) (n m : ℕ) (queued : A → DetachCtx) (r : Run (Store G) A)
      → n ≤ m
      → Queues s n queued r
      → Queues s m queued r
  Queues-more s n m queued r le q a t h = let (x, y) = q a t h in (x, omega (arith, le, y))

  pub queue_list-Queues :
      (mem : Bool) (path : Str) (l : List (Str × Ptr)) (ctx : DetachCtx) (s : Store G)
      → Queues s
          (length ctx.queue + count_names l)
          (λ (r : ℤ × DetachCtx). r.1)
          (queue_list G mem ctx path l s)
  unfolding queue_list
  queue_list-Queues mem path [] ctx s =
      pure-Queues s (length ctx.queue + 0) (λ (r : ℤ × DetachCtx). r.1) (ok_rc, ctx) (omega arith)
  queue_list-Queues mem path ((name, p) ∷ rest) ctx s =
      let queued = queue_child mem ctx path name p in
      let longer = length-queue_child mem ctx path name p in
      elim (Bool-cases (is_dots name)) [
        | inl h ↦ rw h (
            Queues-more s _ _ (λ (r : ℤ × DetachCtx). r.1) _ (omega arith)
              (queue_list-Queues mem path rest ctx s))
        | inr h ↦ rw h (
            load-Queues s _ (λ (r : ℤ × DetachCtx). r.1) p _
              (λ e. elim (Bool-cases (is_dead e.kind)) [
                | inl d ↦ rw d (
                    Queues-more s _ _ (λ (r : ℤ × DetachCtx). r.1) _ (omega arith)
                      (queue_list-Queues mem path rest ctx s))
                | inr d ↦ elim (Bool-cases (is_zero queued.0)) [
                  | inl z ↦
                      rw (d, z)
                        (Queues-more s _ _ (λ (r : ℤ × DetachCtx). r.1) _ (omega (arith, longer))
                          (queue_list-Queues mem path rest queued.1 s))
                  | inr z ↦
                      rw (d, z)
                        (pure-Queues s _ (λ (r : ℤ × DetachCtx). r.1) queued
                          (omega (arith, longer)))
                ]
              ]))
      ]

  pub bind-Queues :
      {A B : Type 0} (s : Store G) (n m : ℕ) (one : A → DetachCtx) (two : B → DetachCtx)
      (r : Run (Store G) A) (k : A → Store G → Run (Store G) B)
      → Queues s n one r
      → ((a : A) → length (one a).queue ≤ n → Queues s m two (k a s))
      → Queues s m two (and_then r k)
  bind-Queues s n m one two r k q rest b t h =
      let (a, u, x, y) = bind_inv r k b t h in
      let (same, le) = q a u x in rest a le b t (subst (λ v. k a v ≡ done b t) same y)

  pub fault-Queues :
      {A : Type 0} (s : Store G) (n : ℕ) (queued : A → DetachCtx) → Queues s n queued fault
  fault-Queues s n queued a t h = cc

  pub queue_children-Queues :
      (env : Env) (path : Str) (set : names.Tree) (ctx : DetachCtx) (s : Store G)
      → Queues s
          (length ctx.queue + count_names (names.members set))
          (λ (r : ℤ × DetachCtx × names.Tree). r.1)
          (queue_children G env ctx path set s)
  unfolding queue_children
  queue_children-Queues env path set ctx s =
      let bound = length ctx.queue + count_names (names.members set) in
      bind-Queues s bound bound (λ (r : ℤ × DetachCtx). r.1)
        (λ (r : ℤ × DetachCtx × names.Tree). r.1)
        (queue_list G env.mem ctx path (names.members set) s) _
        (queue_list-Queues env.mem path (names.members set) ctx s)
        (λ r le. elim (Bool-cases (is_zero r.0)) [
          | inr z ↦
              rw z
                (pure-Queues s bound (λ (r : ℤ × DetachCtx × names.Tree). r.1) (r.0, r.1, set) le)
          | inl z ↦
              elim (Option-cases (erase_queued G env set (from_old_tail ctx.queue (r.1).queue))) [
                | inl o ↦ rw (z, o) (fault-Queues s bound (λ (r : ℤ × DetachCtx × names.Tree). r.1))
                | inr (kept, o) ↦
                    rw (z, o)
                      (pure-Queues s bound (λ (r : ℤ × DetachCtx × names.Tree). r.1)
                        (r.0, r.1, kept) le)
              ]
        ])
