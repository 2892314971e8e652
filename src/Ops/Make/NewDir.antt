-- ===== src/Ops/Make/NewDir.antt =====
-- The inode that fskit_mkdir_lowlevel makes, before it is attached.
use fskit.Base.{
  ℕ, ◌≡◌, ◌≢◌, refl, sym, ap, ◌∙◌, subst, inl, inr, Bool, true, false, ◌&&◌, ◌||◌, not, Option,
  none, some, arith, ◌==◌, ltb, if◌then◌else◌, Bool-cases, Option-cases, eq_refl,
}
use fskit.Base.Int.{pos}
use fskit.Base.Bytes.{Str, str_eq, dot, dotdot}
use fskit.Entry.Inv.{DirOk, StoreOk, put-StoreOk, put-live}
use fskit.Ops.{Env}
use fskit.Ops.Make.{add_open, drop_open, set_user_data}
use fskit.Store.{Sglib, Inode, Store, Ptr, Kind, put}

module _ (G : Sglib) (env : Env) (parent : Ptr) (mode user gid : ℕ) where
  open G use {names, attrs}

  -- The new directory, before it is attached.
  abbrev pub new_dir : Inode G
  new_dir = record {
    file_id = env.inode;
    kind = Kind.dir;
    owner = user;
    group = gid;
    mode = mode;
    ctime = env.clock.now;
    mtime = env.clock.now;
    atime = env.clock.now;
    open_count = pos 0;
    link_count = pos 0;
    size = pos 0;
    deletion_in_progress = false;
    deletion_through_rename = false;
    num_children = pos 0;
    children = names.add (names.add names.null dot env.fresh) dotdot parent;
    app_data = 0;
    dev = 0;
    xattrs = attrs.null;
    symlink_target = fskit.Base.[];
  }

  no_dotdot : names.find (names.add names.null dot env.fresh) dotdot ≡ none
  no_dotdot = ground (
    arith,
    names.find-add names.null dot env.fresh dotdot (names.find-null dot),
    names.find-null dotdot,
  )

  two-find :
      (k : Str)
      → names.find new_dir.children k
        ≡ (if str_eq dotdot k then some parent else if str_eq dot k then some env.fresh else none)
  two-find k = ground (
    arith,
    names.find-add (names.add names.null dot env.fresh) dotdot parent k no_dotdot,
    names.find-add names.null dot env.fresh k (names.find-null dot),
    names.find-null k,
  )

  new_dir-DirOk : DirOk G new_dir
  new_dir-DirOk = record {
    distinct =
        names.add-Distinct (names.add names.null dot env.fresh) dotdot parent
          (names.add-Distinct names.null dot env.fresh names.null-Distinct (names.find-null dot))
          no_dotdot;
    self = λ h. ground (arith, two-find dot);
    up = λ h. ground (arith, two-find dotdot);
    counted = ground (
      arith,
      names.len-add (names.add names.null dot env.fresh) dotdot parent no_dotdot,
      names.len-add names.null dot env.fresh (names.find-null dot),
      names.len-null,
    );
  }

  pub made-StoreOk :
      (s : Store G) → StoreOk G s → s parent ≢ none → StoreOk G (put s env.fresh (some new_dir))
  made-StoreOk s ok live =
      put-StoreOk G s env.fresh new_dir ok (λ _. new_dir-DirOk)
        λ k q h. elim (Bool-cases (str_eq dotdot k)) [
          | inl t ↦
              let same : parent ≡ q = ground (arith, two-find k) in
              subst (λ u. put s env.fresh (some new_dir) u ≢ none) same
                (put-live s env.fresh parent new_dir live)
          | inr t ↦
              let same : env.fresh ≡ q = ground (arith, two-find k) in
              subst (λ u. put s env.fresh (some new_dir) u ≢ none) same
                (λ gone. ground (arith, eq_refl env.fresh))
        ]

  pub unchanged : set_user_data G 0 (drop_open G (add_open G new_dir)) ≡ new_dir
  unfolding set_user_data drop_open add_open
  unchanged = refl
