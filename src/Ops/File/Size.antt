-- ===== src/Ops/File/Size.antt =====
-- How writing and truncating change the size of a file.
use fskit.Base.{
  ℕ, ◌+◌, ◌%◌, ◌^◌, ◌≡◌, refl, ap, ◌∙◌, true, false, ◌&&◌, ◌||◌, some, arith, ltb, leb,
  if◌then◌else◌, eq_refl,
}
use fskit.Base.Int.{ℤ, pos, ◌+ℤ◌, is_zero, is_nonpos}
use fskit.Base.Bytes.{Str}
use fskit.Calls.{ran, trunc as trunc_route, write as write_route}
use fskit.Entry.Collect.{destroy_busy}
use fskit.Entry.Init.{Clock}
use fskit.Entry.Inv.{put_self}
use fskit.Errno.{ok_rc, name_max}
use fskit.Ops.{Env}
use fskit.Ops.Make.{add_open, drop_open}
use fskit.Ops.File.{
  Handle, wronly, rdwr, set_atime, set_mtime, set_size, trunc_cont, grown, write_cont, size_behind,
  written, trunc_at, trunc, write,
}
use fskit.Path.{basename_len}
use fskit.Resolve.{found, resolve_path}
use fskit.Store.{Sglib, Inode, Store, Ptr, done, Ends, ends, put}

abbrev pub max : ℕ → ℕ → ℕ
max a b = if ltb a b then b else a

max-max :
    (n offset k buflen : ℕ)
    → leb k buflen ≡ true
    → max (max n (offset + k)) (offset + buflen) ≡ max n (offset + buflen)
max-max n offset k buflen h = ground arith

-- Up to 4 GiB the size is the greater of what it was and the end of the buffer.
size_behind-max :
    (G : Sglib) (clock : Clock) (offset buflen n : ℕ)
    → ltb (offset + buflen) (2 ^ 32) ≡ true
    → size_behind G clock offset buflen (pos n) ≡ pos (max n (offset + buflen))
unfolding size_behind
size_behind-max G clock offset buflen n h = ground arith

-- At a multiple of 4 GiB the size does not grow.
pub size_behind_wraps :
    (G : Sglib) (clock : Clock) (offset buflen n : ℕ)
    → ((offset + buflen) % 2 ^ 32) ≡ 0
    → size_behind G clock offset buflen (pos n) ≡ pos n
unfolding size_behind
size_behind_wraps G clock offset buflen n h = ground arith

module _ (G : Sglib) (env : Env) where
  written_size :
      (offset buflen n : ℕ) (e : Inode G)
      → e.size ≡ pos n
      → ltb (offset + buflen) (2 ^ 32) ≡ true
      → (written G env.clock offset buflen e).size ≡ pos (max n (offset + buflen))
  unfolding written set_atime set_mtime set_size
  written_size offset buflen n e z h = rw z (size_behind-max G env.clock offset buflen n h)

  cont_size :
      (offset k n : ℕ) (e : Inode G)
      → e.size ≡ pos n
      → (write_cont G env.clock offset (pos k) e).size ≡ pos (max n (offset + k))
  unfolding write_cont set_atime set_mtime set_size grown ◌+ℤ◌
  cont_size offset k n e z = rw z (ground arith)

  abbrev cont_at : Handle → ℕ → ℕ → Inode G → Inode G
  cont_at fh offset k e = write_cont G env.clock offset (pos k) e

  abbrev wrote : Handle → (buflen offset k : ℕ) → Inode G → Inode G
  wrote fh buflen offset k e = written G env.clock offset buflen (cont_at fh offset k e)

  write_steps :
      (fh : Handle) (buflen offset k : ℕ) (s : Store G) (e : Inode G)
      → (rdwr fh.flags || wronly fh.flags) ≡ true
      → s fh.fent ≡ some e
      → (is_nonpos e.open_count && is_nonpos e.link_count) ≡ false
      → env.routes write_route fh.path ≡ ran (pos k)
      → write G env fh buflen offset s
        ≡ done (pos k) (
            put
              (put s fh.fent (some (cont_at fh offset k e)))
              fh.fent
              (some (wrote fh buflen offset k e)))
  unfolding write
  write_steps fh buflen offset k s e w h live r = ground (arith, eq_refl fh.fent)

  wrote_size :
      (fh : Handle) (buflen offset k n : ℕ) (e : Inode G)
      → e.size ≡ pos n
      → leb k buflen ≡ true
      → ltb (offset + buflen) (2 ^ 32) ≡ true
      → (wrote fh buflen offset k e).size ≡ pos (max n (offset + buflen))
  wrote_size fh buflen offset k n e z le small =
      written_size offset buflen (max n (offset + k)) (cont_at fh offset k e)
        (cont_size offset k n e z) small
      ∙ ap pos (max-max n offset k buflen le)

  -- Writing `buflen` bytes through a handle that allows it returns the number that the callback
  -- took, and leaves a size that reaches to the end of the buffer, however few it took, and all of
  -- what was there before; below 4 GiB, on a referenced inode.
  pub write-size :
      (fh : Handle) (buflen offset k n : ℕ) (s : Store G) (e : Inode G)
      → (rdwr fh.flags || wronly fh.flags) ≡ true
      → s fh.fent ≡ some e
      → (is_nonpos e.open_count && is_nonpos e.link_count) ≡ false
      → env.routes write_route fh.path ≡ ran (pos k)
      → e.size ≡ pos n
      → leb k buflen ≡ true
      → ltb (offset + buflen) (2 ^ 32) ≡ true
      → Ends
          (λ rc t.
            (rc ≡ pos k)
            × ((d : Inode G) × (t fh.fent ≡ some d) × (d.size ≡ pos (max n (offset + buflen)))))
          (write G env fh buflen offset s)
  write-size fh buflen offset k n s e w h live r z le small =
      let t : Store G = put s fh.fent (some (cont_at fh offset k e)) in
      rw (write_steps fh buflen offset k s e w h live r) (
        ends (
          refl,
          (
            wrote fh buflen offset k e,
            put_self t fh.fent (wrote fh buflen offset k e),
            wrote_size fh buflen offset k n e z le small,
          ),
        ))

  abbrev held : ℤ → ℤ → Inode G → Inode G
  held new_size cb e = trunc_cont G env.clock new_size cb (add_open G e)

  abbrev truncated : Store G → Ptr → ℤ → ℤ → Inode G → Store G
  truncated s fent new_size cb e =
      put (put (put s fent (some (add_open G e))) fent (some (held new_size cb e))) fent
        (some (drop_open G (held new_size cb e)))

  held_links :
      (new_size cb : ℤ) (e : Inode G) → (drop_open G (held new_size cb e)).link_count ≡ e.link_count
  unfolding trunc_cont add_open drop_open set_atime set_mtime set_size
  held_links new_size cb e = ground arith

  held_size :
      (new_size cb : ℤ) (e : Inode G)
      → (drop_open G (held new_size cb e)).size ≡ (if is_zero cb then new_size else e.size)
  unfolding trunc_cont add_open drop_open set_atime set_mtime set_size
  held_size new_size cb e = ground arith

  trunc_steps :
      (path : Str) (new_size cb : ℤ) (s : Store G) (fent : Ptr) (e : Inode G)
      → s fent ≡ some e
      → is_nonpos e.link_count ≡ false
      → env.routes trunc_route path ≡ ran cb
      → trunc_at G env path fent new_size s ≡ done ok_rc (truncated s fent new_size cb e)
  unfolding trunc_at
  trunc_steps path new_size cb s fent e h linked route = ground (
    arith,
    eq_refl fent,
    destroy_busy G env.routes path (truncated s fent new_size cb e) fent
        (drop_open G (held new_size cb e))
        (put_self (put (put s fent (some (add_open G e))) fent (some (held new_size cb e))) fent
          (drop_open G (held new_size cb e)))
        (ground (arith, held_links new_size cb e)),
  )

  -- Where there is a callback, truncating a linked inode by a path that resolves to it, with a last
  -- name of at most 255 bytes, returns 0, also where the callback has failed. The size is
  -- then as before, and otherwise the new one.
  pub trunc-size :
      (path : Str) (user gid : ℕ) (new_size cb : ℤ) (s : Store G) (fent : Ptr) (e : Inode G)
      → ltb name_max (basename_len path) ≡ false
      → resolve_path G env.mem user gid s path ≡ found fent tt
      → s fent ≡ some e
      → is_nonpos e.link_count ≡ false
      → env.routes trunc_route path ≡ ran cb
      → Ends
          (λ rc t.
            (rc ≡ ok_rc)
            × ((d : Inode G) × (t fent ≡ some d)
                × (d.size ≡ (if is_zero cb then new_size else e.size))))
          (trunc G env path user gid new_size s)
  unfolding trunc
  trunc-size path user gid new_size cb s fent e len r h linked route =
      let t : Store G = put (put s fent (some (add_open G e))) fent (some (held new_size cb e)) in
      rw (len, r)
        (rw (trunc_steps path new_size cb s fent e h linked route) (
          ends (
            refl,
            (
              drop_open G (held new_size cb e),
              put_self t fent (drop_open G (held new_size cb e)),
              held_size new_size cb e,
            ),
          )))
