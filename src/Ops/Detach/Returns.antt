-- ===== src/Ops/Detach/Returns.antt =====
-- The loop over the queue of fskit_detach_all_ex comes to its end.
use fskit.Base.{
  ℕ, zero, suc, ◌+◌, ◌<◌, ◌≤◌, ◌≡◌, refl, sym, ap, ◌∙◌, subst, inl, inr, not, Option, none, some,
  List, [], ◌∷◌, arith, if◌then◌else◌, Bool-cases, length,
}
use fskit.Base.Int.{ℤ, is_zero}
use fskit.Base.Bytes.{Str}
use fskit.Errno.{ok_rc}
use fskit.Ops.{Env}
use fskit.Ops.Detach.{
  DetachCtx, Queue, queue_children, detach_one, detach_loop, detach_all_ex, queue_given, with_set,
  Round, stop, go,
}
use fskit.Ops.Detach.Weight.{bind_inv, done_inv}
use fskit.Ops.Detach.Queued.{Queues, pure-Queues, bind-Queues, queue_children-Queues}
use fskit.Ops.Detach.Total.{total, Covers, Covers-Lighter}
use fskit.Ops.Detach.Rounds.{detach_one_less, new_work}
use fskit.Store.{Sglib, Store, Cmd, Ptr, Run, done, and_then, pure, ◌>>=◌}

module _ (G : Sglib) where
  open G use {names}

  abbrev next_round : ℕ → Env → Round → Cmd G (Option (ℤ × DetachCtx))
  next_round fuel env (stop rc c) = pure (some (rc, c))
  next_round fuel env (go c cb) = detach_loop G fuel env c cb

  loop_done :
      (fuel : ℕ) (env : Env) (ctx : DetachCtx) (cbrc : ℤ) (s : Store G)
      → ctx.queue ≡ []
      → detach_loop G (suc fuel) env ctx cbrc s ≡ done (some (ok_rc, ctx)) s
  unfolding detach_loop
  loop_done fuel env ctx cbrc s h = rw h refl

  loop_round :
      (fuel : ℕ) (env : Env) (ctx : DetachCtx) (cbrc : ℤ) (s : Store G) (path : Str) (p : Ptr)
      (rest : Queue)
      → ctx.queue ≡ (path, p) ∷ rest
      → detach_loop G (suc fuel) env ctx cbrc s
        ≡ and_then (detach_one G env ctx path p cbrc s) (next_round fuel env)
  unfolding detach_loop
  loop_round fuel env ctx cbrc s path p rest h = rw h refl

  returned :
      {A : Type 0} (a : A) (s t : Store G)
      → ¬ (◌≡◌ {A = Run (Store G) (Option A)} (done (some a) s) (done none t))
  returned a s t h = cc

  -- With this fuel, the loop does not run out of it.
  abbrev pub IsEnough : List Ptr → ℕ → Env → Type 0
  IsEnough dom fuel env =
      (ctx : DetachCtx) (cbrc : ℤ) (s t : Store G)
      → Covers G dom s
      → length ctx.queue + total G s dom < fuel
      → ¬ (detach_loop G fuel env ctx cbrc s ≡ done none t)

  by_round :
      (dom : List Ptr) (fuel : ℕ) (env : Env)
      → IsEnough dom fuel env
      → (ctx : DetachCtx) (path : Str) (p : Ptr) (cbrc : ℤ) (s t : Store G) → Covers G dom s
      → length ctx.queue + total G s dom < suc fuel
      → 1 ≤ length ctx.queue
      → (r : Round) (u : Store G) → detach_one G env ctx path p cbrc s ≡ done r u
      → ¬ (next_round fuel env r u ≡ done none t)
  by_round dom fuel env again ctx path p cbrc s t covers enough one (stop rc c) u x y =
      returned (rc, c) u t y
  by_round dom fuel env again ctx path p cbrc s t covers enough one (go c cb) u x y =
      let (l, less) = detach_one_less G dom env ctx path p cbrc s covers one c cb u x in
      again c cb u t (Covers-Lighter G dom s u l covers) (omega (arith, less, enough)) y

  by_queue :
      (dom : List Ptr) (fuel : ℕ) (env : Env)
      → IsEnough dom fuel env
      → (ctx : DetachCtx) (cbrc : ℤ) (s t : Store G) → Covers G dom s
      → length ctx.queue + total G s dom < suc fuel
      → (q : Queue) → ctx.queue ≡ q
      → ¬ (detach_loop G (suc fuel) env ctx cbrc s ≡ done none t)
  by_queue dom fuel env again ctx cbrc s t covers enough [] h k =
      returned (ok_rc, ctx) s t (sym (loop_done fuel env ctx cbrc s h) ∙ k)
  by_queue dom fuel env again ctx cbrc s t covers enough ((path, p) ∷ rest) h k =
      let one : 1 ≤ length ctx.queue = rw h (omega arith) in
      let (r, u, x, y) =
        bind_inv (detach_one G env ctx path p cbrc s) (next_round fuel env) none t
          (sym (loop_round fuel env ctx cbrc s path p rest h) ∙ k) in
      by_round dom fuel env again ctx path p cbrc s t covers enough one r u x y

  detach_loop-IsEnough : (dom : List Ptr) (fuel : ℕ) (env : Env) → IsEnough dom fuel env
  detach_loop-IsEnough dom zero env ctx cbrc s t covers enough k = omega (arith, enough)
  detach_loop-IsEnough dom (suc fuel) env ctx cbrc s t covers enough k =
      by_queue dom fuel env (detach_loop-IsEnough dom fuel env) ctx cbrc s t covers enough ctx.queue
        refl k

  queue_given-Queues :
      (env : Env) (path : Str) (set : Option names.Tree) (ctx : DetachCtx) (s : Store G)
      → Queues G s
          (length ctx.queue + new_work G set)
          (λ (r : ℤ × DetachCtx × Option names.Tree). r.1)
          (queue_given G env ctx path set s)
  unfolding queue_given
  queue_given-Queues env path none ctx s =
      pure-Queues G s _ (λ (r : ℤ × DetachCtx × Option names.Tree). r.1) (ok_rc, ctx, none)
        (omega arith)
  queue_given-Queues env path (some set) ctx s =
      bind-Queues G s _ _ (λ (r : ℤ × DetachCtx × names.Tree). r.1)
        (λ (r : ℤ × DetachCtx × Option names.Tree). r.1) (queue_children G env ctx path set s) _
        (queue_children-Queues G env path set ctx s)
        (λ r le.
          pure-Queues G s _ (λ (r : ℤ × DetachCtx × Option names.Tree). r.1) (r.0, r.1, some r.2)
            le)

  -- fskit_detach_all_ex never runs out of rounds: one for each entry that is queued already, for each
  -- child that it is given, and for each name besides "." and ".." in a directory of the store, and
  -- one more, are enough. The list of addresses holds all that are in use; callbacks change no inode.
  pub detach_all_ex-returns :
      (dom : List Ptr) (fuel : ℕ) (env : Env) (path : Str) (set : Option names.Tree)
      (ctx : DetachCtx) (s t : Store G)
      → Covers G dom s
      → length ctx.queue + new_work G set + total G s dom < fuel
      → ¬ (detach_all_ex G fuel env path set ctx s ≡ done none t)
  unfolding detach_all_ex
  detach_all_ex-returns dom fuel env path set ctx s t covers enough k =
      let (q, u, x, y) = bind_inv (queue_given G env ctx path set s) _ none t k in
      let (same, le) = queue_given-Queues env path set ctx s q u x in by_code q u same le y
    where
      with_none :
          (left : Option names.Tree) (r : Option (ℤ × DetachCtx))
          → with_set G left r ≡ none
          → r ≡ none
      with_none left none h = refl
      with_none left (some r) h = cc

      by_code :
          (q : ℤ × DetachCtx × Option names.Tree) (u : Store G)
          → u ≡ s
          → length (q.1).queue ≤ length ctx.queue + new_work G set
          → (if not (is_zero q.0)
                then pure (some (q.0, q.1, q.2))
                else (detach_loop G fuel env q.1 ok_rc >>= λ r. pure (with_set G q.2 r)))
              u
            ≡ done none t
          → ⊥
      by_code q u same le y = elim (Bool-cases (is_zero q.0)) [
        | inl z ↦
            let (r, v, x, w) =
              bind_inv (detach_loop G fuel env q.1 ok_rc u) (λ r. pure (with_set G q.2 r)) none t
                (subst
                  (λ w.
                    (if not w
                        then pure (some (q.0, q.1, q.2))
                        else (detach_loop G fuel env q.1 ok_rc >>= λ r. pure (with_set G q.2 r)))
                      u
                    ≡ done none t)
                  z y) in
            let ran_out = with_none q.2 r (done_inv (with_set G q.2 r) none v t w).0 in
            detach_loop-IsEnough dom fuel env q.1 ok_rc u v (subst (Covers G dom) (sym same) covers)
              (subst (λ m. length (q.1).queue + total G m dom < fuel) (sym same)
                (omega (arith, le, enough)))
              (x ∙ ap (λ m. done m v) ran_out)
        | inr z ↦
            returned (q.0, q.1, q.2) u t
              (subst
                (λ w.
                  (if not w
                      then pure (some (q.0, q.1, q.2))
                      else (detach_loop G fuel env q.1 ok_rc >>= λ r. pure (with_set G q.2 r)))
                    u
                  ≡ done none t)
                z y)
      ]
