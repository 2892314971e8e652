-- ===== src/Entry/Collect.antt =====
-- When an inode is destroyed and freed.
use mathlib.Core.Path.{fun_ext}
use fskit.Calls.{ran}
use fskit.Base.Int.{ℤ}
use fskit.Base.{
  ◌≡◌, ◌≢◌, ap, ◌∙◌, inl, inr, Bool, true, false, ◌&&◌, Option, none, some, arith, ◌==◌, Bool-cases,
  eq_refl,
}
use fskit.Base.Int.{pos, is_nonpos}
use fskit.Base.Bytes.{Str}
use fskit.Errno.{ok_rc}
use fskit.Calls.{Routes, Call, null_route, destroy}
use fskit.Store.{Sglib, Inode, Store, Ptr, done, put}
use fskit.Entry.Destroy.{destroy_entry, open_once, try_destroy_and_free}
use fskit.Entry.Inv.{StoreOk}

-- A callback is there or not; the route is none that has been removed.
abbrev pub answers : Call → Bool
answers null_route = false
answers _ = true

-- The code that comes back from a call, 0 where there is no route.
abbrev pub reply : Call → ℤ
reply (ran rc) = rc
reply _ = ok_rc

-- A store that is written to at one address and then freed there.
pub put-put :
    {E : Type 0} (s : Ptr → Option E) (p : Ptr) (a b : Option E) → put (put s p a) p b ≡ put s p b
put-put s p a b = fun_ext λ q. ground arith

module _ (G : Sglib) (routes : Routes) (path : Str) (s : Store G) (p : Ptr) (e : Inode G)
    (hp : s p ≡ some e) where
  open G use {names}

  pub destroy_busy :
      (is_nonpos e.link_count && is_nonpos e.open_count) ≡ false
      → try_destroy_and_free G routes path p s ≡ done ok_rc s
  unfolding try_destroy_and_free
  destroy_busy h = ground arith

  destroy_steps :
      e.link_count ≡ pos 0
      → e.open_count ≡ pos 0
      → answers (routes destroy path) ≡ true
      → try_destroy_and_free G routes path p s
        ≡ done (pos 1) (
            put
              (put (put s p (some (open_once G e))) p (some (destroy_entry G (open_once G e))))
              p
              none)
  unfolding try_destroy_and_free
  destroy_steps l o a = ground (arith, eq_refl p)

  pub destroy_idle :
      e.link_count ≡ pos 0
      → e.open_count ≡ pos 0
      → answers (routes destroy path) ≡ true
      → try_destroy_and_free G routes path p s ≡ done (pos 1) (put s p none)
  destroy_idle l o a =
      destroy_steps l o a
      ∙ ap (λ u. done (pos 1) u)
          (put-put (put s p (some (open_once G e))) p (some (destroy_entry G (open_once G e))) none
            ∙ put-put s p (some (open_once G e)) none)

  free_other : (q : Ptr) → (p == q) ≡ false → s q ≢ none → put s p none q ≢ none
  free_other q h live = ground arith

  -- Freeing an inode that no name leads to keeps a store well formed.
  pub free-StoreOk :
      StoreOk G s
      → ((q : Ptr) (d : Inode G) (k : Str)
          → s q ≡ some d
          → (p == q) ≡ false
          → names.find d.children k ≢ some p)
      → StoreOk G (put s p none)
  free-StoreOk ok only = record {
    dirs = λ q d h i. elim (Bool-cases (p == q)) [
      | inl t ↦ absurd (ground arith)
      | inr t ↦ ok.dirs q d (ground arith) i
    ];
    closed = λ q d k r h f. elim (Bool-cases (p == q)) [
      | inl t ↦ absurd (ground arith)
      | inr t ↦ elim (Bool-cases (p == r)) [
        | inl u ↦ absurd (only q d k (ground arith) t (ground arith))
        | inr u ↦ free_other r u (ok.closed q d k r (ground arith) f)
      ]
    ];
  }
