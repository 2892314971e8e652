-- ===== src/Ops/Make/Outcome.antt =====
-- What fskit_mkdir_lowlevel does to the store where the name is free.
use mathlib.Core.Path.{fun_ext}
use fskit.Base.{
  ℕ, ◌≡◌, refl, sym, ap, ◌∙◌, subst, true, false, Option, none, some, arith, ◌==◌, ltb, eq_refl,
}
use fskit.Base.Int.{ℤ, is_zero, is_nonpos}
use fskit.Base.Bytes.{Str}
use fskit.Calls.{no_route, mkdir as mkdir_route}
use fskit.Entry.{attach_lowlevel}
use fskit.Entry.Init.{init_dir, init_common, init_lowlevel}
use fskit.Entry.Inv.{StoreOk, put_self}
use fskit.Entry.Links.{Attached, attach-StoreOk}
use fskit.Errno.{ok_rc, name_max}
use fskit.Ops.{Env}
use fskit.Ops.Make.NewDir.{new_dir, made-StoreOk, unchanged}
use fskit.Ops.Make.{
  mkdir_in, mkdir, writeable, add_open, drop_open, set_user_data, enter_dir, make_dir,
  mkdir_lowlevel,
}
use fskit.Path.{dirname, basename, basename_len, sanitize_path}
use fskit.Resolve.{found, resolve_path}
use fskit.Store.{
  Sglib, Inode, Store, Ptr, Run, done, Ends, ends, bind-Ends, is_dir, pure, put, ◌>>=◌,
}

module _ (G : Sglib) (env : Env) (parent : Ptr) (mode user gid : ℕ) where
  open G use {names}

  make_steps :
      (path name : Str) (s : Store G)
      → env.mem ≡ true
      → (env.inode == 0) ≡ false
      → is_zero env.clock.rc ≡ true
      → env.routes mkdir_route path ≡ no_route
      → make_dir G env path parent name mode user gid s
        ≡ enter_dir G env path parent name
            (put s env.fresh (some (new_dir G env parent mode user gid)))
  unfolding make_dir init_dir init_common init_lowlevel
  make_steps path name s m i c r = ground arith

  collapse :
      (s : Store G) (f : Ptr) (a b c d : Option (Inode G))
      → put (put (put (put s f a) f b) f c) f d ≡ put s f d
  collapse s f a b c d = fun_ext λ q. ground arith

  abbrev four : Store G → Store G
  four s =
      put
        (put
          (put (put s env.fresh (some (new_dir G env parent mode user gid))) env.fresh
            (some (add_open G (new_dir G env parent mode user gid))))
          env.fresh (some (drop_open G (add_open G (new_dir G env parent mode user gid)))))
        env.fresh
        (some (set_user_data G 0 (drop_open G (add_open G (new_dir G env parent mode user gid)))))

  abbrev attaching : Str → Store G → Run (Store G) ℤ
  attaching name t =
      (attach_lowlevel G env.mem env.clock.now parent env.fresh name >>= λ _. pure ok_rc) t

  referenced : is_nonpos (add_open G (new_dir G env parent mode user gid)).open_count ≡ false
  unfolding add_open
  referenced = refl

  enter_steps :
      (path name : Str) (s : Store G)
      → env.routes mkdir_route path ≡ no_route
      → enter_dir G env path parent name
          (put s env.fresh (some (new_dir G env parent mode user gid)))
        ≡ attaching name (four s)
  unfolding enter_dir
  enter_steps path name s r = ground (arith, eq_refl env.fresh, referenced)

  four_is : (s : Store G) → four s ≡ put s env.fresh (some (new_dir G env parent mode user gid))
  four_is s =
      collapse s env.fresh (some (new_dir G env parent mode user gid))
        (some (add_open G (new_dir G env parent mode user gid)))
        (some (drop_open G (add_open G (new_dir G env parent mode user gid))))
        (some (set_user_data G 0 (drop_open G (add_open G (new_dir G env parent mode user gid)))))
      ∙ ap (λ e. put s env.fresh (some e)) (unchanged G env parent mode user gid)

  make_run :
      (path name : Str) (s : Store G)
      → env.mem ≡ true
      → (env.inode == 0) ≡ false
      → is_zero env.clock.rc ≡ true
      → env.routes mkdir_route path ≡ no_route
      → make_dir G env path parent name mode user gid s
        ≡ attaching name (put s env.fresh (some (new_dir G env parent mode user gid)))
  make_run path name s m i c r =
      make_steps path name s m i c r
      ∙ enter_steps path name s r
      ∙ ap (λ t. attaching name t) (four_is s)

  apart_ptr :
      (s : Store G) (e : Inode G)
      → s env.fresh ≡ none
      → s parent ≡ some e
      → (parent == env.fresh) ≡ false
  apart_ptr s e fresh hp = ground arith

  attach_new :
      (name : Str) (s : Store G) (e : Inode G)
      → env.mem ≡ true
      → StoreOk G s
      → s env.fresh ≡ none
      → s parent ≡ some e
      → is_dir e.kind ≡ true
      → names.find e.children name ≡ none
      → Ends
          (Attached G env.clock.now
            (put s env.fresh (some (new_dir G env parent mode user gid)))
            parent
            env.fresh
            name
            e
            (new_dir G env parent mode user gid))
          (attach_lowlevel G env.mem env.clock.now parent env.fresh name
            (put s env.fresh (some (new_dir G env parent mode user gid))))
  attach_new name s e m ok fresh hp hd free =
      subst
        (λ b.
          Ends
            (Attached G env.clock.now (put s env.fresh (some (new_dir G env parent mode user gid)))
              parent env.fresh name e (new_dir G env parent mode user gid))
            (attach_lowlevel G b env.clock.now parent env.fresh name
              (put s env.fresh (some (new_dir G env parent mode user gid)))))
        (sym m)
        (attach-StoreOk G env.clock.now
          (put s env.fresh (some (new_dir G env parent mode user gid))) parent env.fresh name e
          (new_dir G env parent mode user gid)
          (made-StoreOk G env parent mode user gid s ok (ground arith)) (apart_ptr s e fresh hp)
          (ground (arith, apart_ptr s e fresh hp)) hd
          (put_self s env.fresh (new_dir G env parent mode user gid)) free)

module _ (G : Sglib) (env : Env) where
  open G use {names}

  low_steps :
      (path name : Str) (mode user gid : ℕ) (s : Store G) (parent : Ptr) (e : Inode G)
      → s parent ≡ some e
      → names.find e.children name ≡ none
      → mkdir_lowlevel G env path parent name mode user gid s
        ≡ make_dir G env path parent name mode user gid s
  unfolding mkdir_lowlevel
  low_steps path name mode user gid s parent e hp free = ground arith

  in_steps :
      (path name : Str) (mode user gid : ℕ) (s : Store G) (parent : Ptr) (e : Inode G)
      → s parent ≡ some e
      → is_dir e.kind ≡ true
      → writeable G user gid e ≡ true
      → mkdir_in G env path name mode user gid parent s
        ≡ mkdir_lowlevel G env path parent name mode user gid s
  unfolding mkdir_in
  in_steps path name mode user gid s parent e hp hd w = ground arith

  -- Making a directory under a free name, in a directory that the caller can reach and may write,
  -- succeeds where memory, an inode number and the clock are there and there is no route: the store
  -- stays well formed, and the parent has the new name besides those it had, which leads to a
  -- directory with one link, and no other inode changes. The address of the new inode was free.
  pub mkdir-Attached :
      (path : Str) (mode user gid : ℕ) (s : Store G) (p : Ptr) (e : Inode G)
      → StoreOk G s
      → env.mem ≡ true
      → (env.inode == 0) ≡ false
      → is_zero env.clock.rc ≡ true
      → s env.fresh ≡ none
      → env.routes mkdir_route path ≡ no_route
      → ltb name_max (basename_len path) ≡ false
      → resolve_path G env.mem user gid s (sanitize_path (dirname (sanitize_path path)))
        ≡ found p tt
      → s p ≡ some e
      → is_dir e.kind ≡ true
      → writeable G user gid e ≡ true
      → names.find e.children (basename (sanitize_path path)) ≡ none
      → Ends
          (Attached G env.clock.now
            (put s env.fresh (some (new_dir G env p mode user gid)))
            p
            env.fresh
            (basename (sanitize_path path))
            e
            (new_dir G env p mode user gid))
          (mkdir G env path mode user gid s)
  unfolding mkdir
  mkdir-Attached path mode user gid s p e ok m i c fresh r len look hp hd w free =
      rw (len, look)
        (rw
          (in_steps path (basename (sanitize_path path)) mode user gid s p e hp hd w
            ∙ low_steps path (basename (sanitize_path path)) mode user gid s p e hp free
            ∙ make_run G env p mode user gid path (basename (sanitize_path path)) s m i c r)
          (bind-Ends
            (attach_new G env p mode user gid (basename (sanitize_path path)) s e m ok fresh hp hd
              free)
            (λ rc t a.
              subst
                (λ u.
                  Ends
                    (Attached G env.clock.now
                      (put s env.fresh (some (new_dir G env p mode user gid))) p env.fresh
                      (basename (sanitize_path path)) e (new_dir G env p mode user gid))
                    (done u t))
                a.code (ends a))))
