-- ===== src/Ops/Rename/Replace.antt =====
-- Renaming onto a name that is taken, in another directory.
use fskit.Base.{ℕ, ◌≡◌, true, false, ◌&&◌, ◌||◌, not, Option, some, arith, ◌==◌, ltb}
use fskit.Base.Int.{is_nonpos}
use fskit.Base.Bytes.{Str}
use fskit.Errno.{einval, name_max}
use fskit.Ops.{Env}
use fskit.Path.{basename, basename_len}
use fskit.Store.{Sglib, Inode, Store, Ptr, done, is_dir, kind_code}
use fskit.Ops.Rename.{
  IdSet, apart, parents, replace_check, may_change, rename_onto, rename_in, rename,
}
use fskit.Ops.Rename.Loops.{parents-HasZero}

module _ (G : Sglib) (ids : IdSet) (env : Env) where
  open G use {names}

  replace_einval :
      (t : ids.Set) (fe ge : Inode G)
      → ids.has t 0 ≡ true
      → (is_dir ge.kind && not (is_nonpos ge.num_children)) ≡ false
      → (kind_code ge.kind == kind_code fe.kind) ≡ true
      → replace_check G ids env (some t) fe ge ≡ einval
  unfolding replace_check
  replace_einval t fe ge z d k = ground arith

  onto_einval :
      (old_path new_path : Str) (o n : Ptr) (t : ids.Set) (fo fn : Ptr) (s : Store G)
      (fe ge : Inode G)
      → ids.has t 0 ≡ true
      → (fo == fn) ≡ false
      → s fo ≡ some fe
      → s fn ≡ some ge
      → (is_dir ge.kind && not (is_nonpos ge.num_children)) ≡ false
      → (kind_code ge.kind == kind_code fe.kind) ≡ true
      → rename_onto G ids env old_path new_path o n (some t) fo fn s ≡ done einval s
  unfolding rename_onto
  onto_einval old_path new_path o n t fo fn s fe ge z ne a b d k =
      ground (arith, replace_einval t fe ge z d k)

  in_einval :
      (old_path new_path : Str) (user gid : ℕ) (s : Store G) (o n : Ptr) (t : ids.Set)
      (oe ne : Inode G) (fo fn : Ptr) (fe ge : Inode G)
      → ids.has t 0 ≡ true
      → s o ≡ some oe
      → s n ≡ some ne
      → may_change G ids env user gid oe ≡ true
      → may_change G ids env user gid ne ≡ true
      → names.find oe.children (basename old_path) ≡ some fo
      → names.find ne.children (basename new_path) ≡ some fn
      → (fo == fn) ≡ false
      → s fo ≡ some fe
      → s fn ≡ some ge
      → (is_dir ge.kind && not (is_nonpos ge.num_children)) ≡ false
      → (kind_code ge.kind == kind_code fe.kind) ≡ true
      → rename_in G ids env old_path new_path user gid o n (some t) s ≡ done einval s
  unfolding rename_in
  in_einval old_path new_path user gid s o n t oe ne fo fn fe ge z ho hn mo mn fo_at fn_at differ
        hfo hfn d k =
      ground (arith, onto_einval old_path new_path o n t fo fn s fe ge z differ hfo hfn d k)

  -- A file or an empty directory is never renamed onto one of its kind in another directory: the code
  -- is -EINVAL, and the store as it was, though the caller may change both directories.
  pub rename_across :
      (old_path new_path : Str) (user gid : ℕ) (s : Store G) (o n : Ptr) (set : Option ids.Set)
      (oe ne : Inode G) (fo fn : Ptr) (fe ge : Inode G)
      → env.mem ≡ true
      → (ltb name_max (basename_len old_path) || ltb name_max (basename_len new_path)) ≡ false
      → parents G ids env.mem user gid s old_path new_path ≡ apart o n set
      → s o ≡ some oe
      → s n ≡ some ne
      → may_change G ids env user gid oe ≡ true
      → may_change G ids env user gid ne ≡ true
      → names.find oe.children (basename old_path) ≡ some fo
      → names.find ne.children (basename new_path) ≡ some fn
      → (fo == fn) ≡ false
      → s fo ≡ some fe
      → s fn ≡ some ge
      → (is_dir ge.kind && not (is_nonpos ge.num_children)) ≡ false
      → (kind_code ge.kind == kind_code fe.kind) ≡ true
      → rename G ids env old_path new_path user gid s ≡ done einval s
  unfolding rename
  rename_across old_path new_path user gid s o n set oe ne fo fn fe ge mem len par ho hn mo mn fo_at
        fn_at differ hfo hfn d k =
      let (t, u, z) = parents-HasZero G ids env.mem user gid s old_path new_path o n set par in
      ground (
        arith,
        in_einval old_path new_path user gid s o n t oe ne fo fn fe ge z ho hn mo mn fo_at fn_at
            differ hfo hfn d k,
      )
