-- ===== src/Ops/Attr/Owner.antt =====
-- Who may change a mode, and what fskit_access answers.
use fskit.Calls.{Call}
use fskit.Base.{
  ◌∙◌, ap, ℕ, ◌+◌, ◌*◌, ◌/◌, ◌%◌, ◌^◌, ◌≡◌, refl, true, false, ◌&&◌, ◌||◌, not, some, arith, ◌==◌,
  if◌then◌else◌,
}
use fskit.Base.Int.{is_zero, is_nonpos}
use fskit.Base.Bytes.{Str}
use fskit.Entry.Collect.{answers, reply}
use fskit.Calls.{null_route, no_route, ran, setmetadata}
use fskit.Errno.{ok_rc, eperm, eacces}
use fskit.Ops.{Env}
use fskit.Ops.Attr.{access, or_nibble, or_type, fullmode, entry_fstat, chmod, access_check}
use fskit.Perm.{bit, is_readable, is_writeable, is_searchable}
use fskit.Resolve.{found, resolve_path}
use fskit.Store.{
  Sglib, Inode, Store, Ptr, Kind, dead, file, dir, fifo, sock, chr, blk, lnk, is_dead, done, put,
}

mix : (a n m : ℕ) → (a * 2 ^ 16 + n * 2 ^ 12 + m % 2 ^ 12) % 2 ^ 12 ≡ m % 2 ^ 12
mix a n m = omega arith

or_type_low : (t m : ℕ) → or_type t m % 2 ^ 12 ≡ m % 2 ^ 12
unfolding or_type
or_type_low t m = mix (m / 2 ^ 16) (or_nibble t (m / 2 ^ 12 % 16)) m

fullmode_low : (k : Kind) (m : ℕ) → is_dead k ≡ false → fullmode k m % 2 ^ 12 ≡ m % 2 ^ 12
unfolding fullmode
fullmode_low dead m h = cc
fullmode_low file m h = or_type_low 8 m
fullmode_low dir m h = or_type_low 4 m
fullmode_low fifo m h = or_type_low 1 m
fullmode_low sock m h = or_type_low 12 m
fullmode_low chr m h = or_type_low 2 m
fullmode_low blk m h = or_type_low 6 m
fullmode_low lnk m h = or_type_low 10 m

-- The tests read the low bits only.
module _ (a b o g user gid : ℕ) (h : a % 2 ^ 12 ≡ b % 2 ^ 12) where
  bit_0 : a / 2 ^ 0 % 2 ≡ b / 2 ^ 0 % 2
  bit_0 = omega arith

  bit_1 : a / 2 ^ 1 % 2 ≡ b / 2 ^ 1 % 2
  bit_1 = omega arith

  bit_2 : a / 2 ^ 2 % 2 ≡ b / 2 ^ 2 % 2
  bit_2 = omega arith

  bit_3 : a / 2 ^ 3 % 2 ≡ b / 2 ^ 3 % 2
  bit_3 = omega arith

  bit_4 : a / 2 ^ 4 % 2 ≡ b / 2 ^ 4 % 2
  bit_4 = omega arith

  bit_5 : a / 2 ^ 5 % 2 ≡ b / 2 ^ 5 % 2
  bit_5 = omega arith

  bit_6 : a / 2 ^ 6 % 2 ≡ b / 2 ^ 6 % 2
  bit_6 = omega arith

  bit_7 : a / 2 ^ 7 % 2 ≡ b / 2 ^ 7 % 2
  bit_7 = omega arith

  bit_8 : a / 2 ^ 8 % 2 ≡ b / 2 ^ 8 % 2
  bit_8 = omega arith

  same_readable : is_readable a o g user gid ≡ is_readable b o g user gid
  same_readable = rw (bit_2, bit_5, bit_8) refl

  same_writeable : is_writeable a o g user gid ≡ is_writeable b o g user gid
  same_writeable = rw (bit_1, bit_4, bit_7) refl

  same_searchable : is_searchable a o g user gid ≡ is_searchable b o g user gid
  same_searchable = rw (bit_0, bit_3, bit_6) refl

access_check-allowed :
    (G : Sglib) (user gid mode : ℕ) (e : Inode G)
    → is_dead e.kind ≡ false
    → access_check user gid mode (entry_fstat G e) ≡ (
        if (not (bit 2 mode) || is_readable e.mode e.owner e.group user gid)
          && (not (bit 1 mode) || is_writeable e.mode e.owner e.group user gid)
          && (not (bit 0 mode) || is_searchable e.mode e.owner e.group user gid)
        then ok_rc
        else eacces)
unfolding access_check entry_fstat
access_check-allowed G user gid mode e h =
    let low : fullmode e.kind e.mode % 2 ^ 12 ≡ e.mode % 2 ^ 12 = fullmode_low e.kind e.mode h in
    rw
      (
        same_readable (fullmode e.kind e.mode) e.mode e.owner e.group user gid low,
        same_writeable (fullmode e.kind e.mode) e.mode e.owner e.group user gid low,
        same_searchable (fullmode e.kind e.mode) e.mode e.owner e.group user gid low,
      )
      (ground arith)

module _ (G : Sglib) (env : Env) where
  access_steps :
      (path : Str) (user gid mode : ℕ) (s : Store G) (fent : Ptr) (e : Inode G)
      → resolve_path G env.mem user gid s path ≡ found fent tt
      → s fent ≡ some e
      → access G env path user gid mode s ≡ done (access_check user gid mode (entry_fstat G e)) s
  unfolding access
  access_steps path user gid mode s fent e r h = ground (arith, r, h)

  -- fskit_access of a path that resolves to an inode that is not dead grants exactly what the mode,
  -- owner and group of the inode allow, of what is asked for, and changes nothing. It calls no
  -- callback, and the type in the bits of st_mode does not matter.
  pub access_outcome :
      (path : Str) (user gid mode : ℕ) (s : Store G) (fent : Ptr) (e : Inode G)
      → resolve_path G env.mem user gid s path ≡ found fent tt
      → s fent ≡ some e
      → is_dead e.kind ≡ false
      → access G env path user gid mode s
        ≡ done
            (if (not (bit 2 mode) || is_readable e.mode e.owner e.group user gid)
                && (not (bit 1 mode) || is_writeable e.mode e.owner e.group user gid)
                && (not (bit 0 mode) || is_searchable e.mode e.owner e.group user gid)
              then ok_rc
              else eacces)
            s
  access_outcome path user gid mode s fent e r h k =
      access_steps path user gid mode s fent e r h
      ∙ (ap (λ rc. done rc s) (access_check-allowed G user gid mode e k))

  chmod_steps :
      (path : Str) (user gid mode : ℕ) (s : Store G) (fent : Ptr) (e : Inode G) (k : Call)
      → env.mem ≡ true
      → resolve_path G env.mem user gid s path ≡ found fent tt
      → s fent ≡ some e
      → (is_nonpos e.open_count && is_nonpos e.link_count) ≡ false
      → env.routes setmetadata path ≡ k
      → answers k ≡ true
      → chmod G env path user gid mode s ≡ (
          if not (e.owner == user)
          then done eperm s
          else if is_zero (reply k)
          then done (reply k) (put s fent (some (record e { mode = mode })))
          else done (reply k) s)
  unfolding chmod
  chmod_steps path user gid mode s fent e no_route m r h live q a = ground arith
  chmod_steps path user gid mode s fent e (ran rc) m r h live q a = ground arith
  chmod_steps path user gid mode s fent e null_route m r h live q a = cc

  -- Where memory is there, only the owner of an inode changes its mode: for another user, user 0
  -- too, the code is -EPERM and the store as before. For the owner the code is the callback's, 0
  -- without one; if it is 0 the inode has the new mode and nothing else has changed, and otherwise
  -- the store is as before. The inode is open or linked, and the route has not been removed.
  pub chmod_outcome :
      (path : Str) (user gid mode : ℕ) (s : Store G) (fent : Ptr) (e : Inode G)
      → env.mem ≡ true
      → resolve_path G env.mem user gid s path ≡ found fent tt
      → s fent ≡ some e
      → (is_nonpos e.open_count && is_nonpos e.link_count) ≡ false
      → answers (env.routes setmetadata path) ≡ true
      → chmod G env path user gid mode s ≡ (
          if not (e.owner == user)
          then done eperm s
          else if is_zero (reply (env.routes setmetadata path))
          then done
              (reply (env.routes setmetadata path))
              (put s fent (some (record e { mode = mode })))
          else done (reply (env.routes setmetadata path)) s)
  chmod_outcome path user gid mode s fent e m r h live a =
      chmod_steps path user gid mode s fent e (env.routes setmetadata path) m r h live refl a
