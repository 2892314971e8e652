-- ===== src/Ops/Open/Counts.antt =====
-- Opening an inode and the count of its open handles.
use mathlib.Core.Path.{fun_ext}
use fskit.Base.{refl}
use fskit.Base.{not}
use fskit.Base.{if◌then◌else◌}
use fskit.Calls.{Call}
use fskit.Base.{ℕ, ◌≡◌, ap, inl, inr, true, false, none, some, arith, ◌==◌, Bool-cases, eq_refl}
use fskit.Base.Int.{pos, is_zero, is_nonpos, dec-inc}
use fskit.Base.Bytes.{Str}
use fskit.Calls.{null_route, no_route, ran, open_file, close as close_route, destroy}
use fskit.Entry.Collect.{reply, answers}
use fskit.Errno.{ok_rc}
use fskit.Ops.{Env}
use fskit.Ops.File.{Handle}
use fskit.Ops.Make.{add_open, drop_open}
use fskit.Ops.Open.{given, open_check, do_open, close}
use fskit.Store.{Sglib, Inode, Store, Ptr, done, put}

module _ (G : Sglib) (env : Env) where
  open_drop : (e : Inode G) → drop_open G (add_open G e) ≡ e
  unfolding add_open drop_open
  open_drop e = ap (λ n. record e { open_count = n }) (dec-inc e.open_count)

  module _ (path : Str) (child : Ptr) (flags user gid : ℕ) (s : Store G) (c : Inode G)
      (h : s child ≡ some c) where
    undone : put (put s child (some (add_open G c))) child (some (drop_open G (add_open G c))) ≡ s
    undone = fun_ext λ q. elim (Bool-cases (child == q)) [
      | inl t ↦ ground (arith, open_drop c)
      | inr t ↦ ground arith
    ]

    open_steps :
        (k : Call)
        → is_nonpos c.link_count ≡ false
        → env.routes open_file path ≡ k
        → answers k ≡ true
        → do_open G env path child flags user gid s ≡ (
            if not (is_zero (open_check G flags user gid c))
            then done (open_check G flags user gid c, 0) s
            else if is_zero (reply k)
            then done
                (ok_rc, given G env open_file path env.handle_data)
                (put s child (some (add_open G c)))
            else done (reply k, 0) s)
    unfolding do_open add_open
    open_steps no_route l q a = ground (arith, eq_refl child)
    open_steps (ran rc) l q a = ground (arith, eq_refl child, undone)
    open_steps null_route l q a = cc

    -- Opening a linked inode: if a check fails, the code is its and the store as before. Otherwise,
    -- if the callback returns 0 or there is none, the inode has one open handle more and nothing else
    -- has changed; if it fails, the code is its and the store as before. The route has not been
    -- removed.
    pub do_open_counts :
        is_nonpos c.link_count ≡ false
        → answers (env.routes open_file path) ≡ true
        → do_open G env path child flags user gid s ≡ (
            if not (is_zero (open_check G flags user gid c))
            then done (open_check G flags user gid c, 0) s
            else if is_zero (reply (env.routes open_file path))
            then done
                (ok_rc, given G env open_file path env.handle_data)
                (put s child (some (add_open G c)))
            else done (reply (env.routes open_file path), 0) s)
    do_open_counts l a = open_steps (env.routes open_file path) l refl a

  close_steps :
      (fh : Handle) (s : Store G) (e : Inode G) (k : Call)
      → s fh.fent ≡ some e
      → e.open_count ≡ pos 1
      → e.link_count ≡ pos 0
      → env.routes close_route fh.path ≡ k
      → answers k ≡ true
      → answers (env.routes destroy fh.path) ≡ true
      → close G env fh s
        ≡ (if is_zero (reply k) then done ok_rc (put s fh.fent none) else done (reply k) s)
  unfolding close
  close_steps fh s e no_route h o l r a b = ground (arith, eq_refl fh.fent)
  close_steps fh s e (ran rc) h o l r a b = ground (arith, eq_refl fh.fent)
  close_steps fh s e null_route h o l r a b = cc

  -- Closing the last handle of an inode with no links: if the callback for closing fails, its code is
  -- returned and nothing changes; if it returns 0, or there is none, the inode is freed and no other
  -- one changes. No route for closing or destroying has been removed.
  pub close-last :
      (fh : Handle) (s : Store G) (e : Inode G)
      → s fh.fent ≡ some e
      → e.open_count ≡ pos 1
      → e.link_count ≡ pos 0
      → answers (env.routes close_route fh.path) ≡ true
      → answers (env.routes destroy fh.path) ≡ true
      → close G env fh s ≡ (
          if is_zero (reply (env.routes close_route fh.path))
          then done ok_rc (put s fh.fent none)
          else done (reply (env.routes close_route fh.path)) s)
  close-last fh s e h o l a b = close_steps fh s e (env.routes close_route fh.path) h o l refl a b
