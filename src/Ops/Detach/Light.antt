-- ===== src/Ops/Detach/Light.antt =====
-- Giving up an inode makes no store heavier, and queueing children makes none lighter by more than it
-- queues.
use fskit.Base.{◌≤◌, inl, inr, ◌&&◌, some, arith, if◌then◌else◌, Bool-cases}
use fskit.Base.Int.{ℤ, pos, is_neg, is_nonpos}
use fskit.Base.Bytes.{Str}
use fskit.Calls.{Routes, destroy, run_user}
use fskit.Entry.Destroy.{try_destroy_and_free_ex, try_destroy, destroy_entry, open_once}
use fskit.Errno.{ok_rc}
use fskit.Ops.Detach.Weight.{
  weight, Lightens, bind-Lightens, pure-Lightens, exits-Lightens, load-Lightens, modify-Lightens,
  free-Lightens, run_user-Lightens,
}
use fskit.Store.{Sglib, Inode, Store, Ptr, pure, load, modify, free, ◌>>=◌, ◌>>◌}

module _ (G : Sglib) where
  open G use {names}

  weight-destroy_entry : (e : Inode G) → weight G (some (destroy_entry G e)) ≤ weight G (some e)
  unfolding destroy_entry
  weight-destroy_entry e = ground arith

  weight-open_once : (e : Inode G) → weight G (some (open_once G e)) ≤ weight G (some e)
  unfolding open_once
  weight-open_once e = omega arith

  destroyed-Lightens :
      (routes : Routes) (path : Str) (p : Ptr) (s : Store G)
      → Lightens G {A = ℤ × ℤ} s (
          (modify p (open_once G)
              >> (run_user G ok_rc routes destroy path p >>= λ rc.
                  modify p (destroy_entry G) >> pure (pos 1, rc)))
            s)
  destroyed-Lightens routes path p s =
      bind-Lightens G s (modify p (open_once G) s)
        (λ _. run_user G ok_rc routes destroy path p >>= λ rc.
          modify p (destroy_entry G) >> pure (pos 1, rc))
        (modify-Lightens G s p (open_once G) weight-open_once)
        (λ _ u.
          bind-Lightens G u (run_user G ok_rc routes destroy path p u)
            (λ rc. modify p (destroy_entry G) >> pure (pos 1, rc))
            (run_user-Lightens G u ok_rc routes destroy path p)
            (λ rc v.
              bind-Lightens G v (modify p (destroy_entry G) v) (λ _. pure (pos 1, rc))
                (modify-Lightens G v p (destroy_entry G) weight-destroy_entry)
                (λ _ w. pure-Lightens G {A = ℤ × ℤ} w (pos 1, rc))))

  try_destroy-Lightens :
      (routes : Routes) (path : Str) (p : Ptr) (cbrc : ℤ) (s : Store G)
      → Lightens G s (try_destroy G routes path p cbrc s)
  unfolding try_destroy
  try_destroy-Lightens routes path p cbrc s =
      bind-Lightens G s (load p s) _ (load-Lightens G s p) (λ e u.
        elim (Bool-cases (is_nonpos e.link_count && is_nonpos e.open_count)) [
          | inr h ↦ rw h (pure-Lightens G u (ok_rc, cbrc))
          | inl h ↦ elim (Bool-cases (is_neg e.link_count)) [
            | inl k ↦ rw (h, k) (exits-Lightens G u)
            | inr k ↦ elim (Bool-cases (is_neg e.open_count)) [
              | inl l ↦ rw (h, k, l) (exits-Lightens G u)
              | inr l ↦ rw (h, k, l) (destroyed-Lightens routes path p u)
            ]
          ]
        ])

  pub try_destroy_and_free_ex-Lightens :
      (routes : Routes) (path : Str) (p : Ptr) (cbrc : ℤ) (s : Store G)
      → Lightens G s (try_destroy_and_free_ex G routes path p cbrc s)
  unfolding try_destroy_and_free_ex
  try_destroy_and_free_ex-Lightens routes path p cbrc s =
      bind-Lightens G s (try_destroy G routes path p cbrc s) _
        (try_destroy-Lightens routes path p cbrc s)
        (λ r u.
          bind-Lightens G u ((if is_nonpos r.0 then pure tt else free p) u) _
            (elim (Bool-cases (is_nonpos r.0)) [
              | inl h ↦ rw h (pure-Lightens G u tt)
              | inr h ↦ rw h (free-Lightens G u p)
            ])
            (λ _ v. pure-Lightens G v r))
