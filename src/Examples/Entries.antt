-- ===== src/Examples/Entries.antt =====
-- The theorems on directories, and those on removing names, at concrete entries.
use fskit.Base.{◌≡◌, refl, true, false, some, ◌==◌, arith, sym}
use fskit.Base.Bytes.{Str, codes, str_eq_sound}
use fskit.Entry.{attach_lowlevel, detach_lowlevel}
use fskit.Entry.Links.{Attached, attach-StoreOk}
use fskit.Entry.Unlinks.{Detached, detach-StoreOk}
use fskit.Ops.Make.{mkdir, writeable}
use fskit.Ops.Make.NewDir.{new_dir}
use fskit.Ops.Make.Outcome.{mkdir-Attached}
use fskit.Ops.Remove.{unlink, rmdir}
use fskit.Ops.Remove.Outcome.{Unlinked, unlink-Unlinked}
use fskit.Ops.Remove.Rmdir.{rmdir-Unlinked}
use fskit.Path.{
  dirname, basename, basename_len, sanitize_path, fullpath, names_of, skip_dots, path_split,
}
use fskit.Resolve.{found, resolve_path}
use fskit.Store.{Inode, Ptr, put, Ends}
use fskit.Tree.{lookup}
use fskit.Examples.World.{
  sgl, quiet, noon, world, root_dir, f_file, d_dir, e_dir, g_file, world_cases, world-StoreOk,
}

attach-StoreOk_example :
    Ends
      (Attached sgl noon world 2 1 (codes "x") d_dir f_file)
      (attach_lowlevel sgl true noon 2 1 (codes "x") world)
attach-StoreOk_example =
    attach-StoreOk sgl noon world 2 1 (codes "x") d_dir f_file world-StoreOk refl refl refl refl
      refl

detach-StoreOk_example :
    Ends
      (Detached sgl noon world 3 4 (codes "g") e_dir g_file)
      (detach_lowlevel sgl noon 3 (codes "g") world)
detach-StoreOk_example =
    detach-StoreOk sgl noon world 3 (codes "g") e_dir refl 4 g_file refl refl refl world-StoreOk
      refl refl refl

-- Only "/e/g" leads to its inode, and only "/d", with the names in the directory itself, to its.
leads_to_g :
    (q : Ptr) (d : Inode sgl) (k : Str)
    → world q ≡ some d
    → lookup k d.children ≡ some 4
    → (q ≡ 3) × (k ≡ codes "g")
leads_to_g q d k h =
    world_cases (λ p u. lookup k u.children ≡ some 4 → (p ≡ 3) × (k ≡ codes "g")) q d
      (λ f. absurd (ground arith)) (λ f. absurd (ground arith)) (λ f. absurd (ground arith))
      (λ f. (refl, sym (str_eq_sound (codes "g") k (ground arith)))) (λ f. absurd (ground arith)) h

leads_to_d :
    (q : Ptr) (d : Inode sgl) (k : Str)
    → world q ≡ some d
    → lookup k d.children ≡ some 2
    → (2 == q) ≡ false
    → (q ≡ 0) × (k ≡ codes "d")
leads_to_d q d k h =
    world_cases (λ p u. lookup k u.children ≡ some 2 → (2 == p) ≡ false → (p ≡ 0) × (k ≡ codes "d"))
      q d (λ f n. (refl, sym (str_eq_sound (codes "d") k (ground arith))))
      (λ f n. absurd (ground arith)) (λ f n. absurd (ground arith)) (λ f n. absurd (ground arith))
      (λ f n. absurd (ground arith)) h

abbrev g_path : Str
g_path = codes "/e/g"

abbrev d_path : Str
d_path = codes "/d/"

g_base : basename g_path ≡ codes "g"
unfolding basename
g_base = refl

d_base : basename (sanitize_path d_path) ≡ codes "d"
unfolding basename sanitize_path
d_base = refl

e_found : resolve_path sgl true 7 7 world (dirname g_path) ≡ found 3 tt
unfolding resolve_path names_of skip_dots path_split dirname
e_found = refl

root_found : resolve_path sgl true 7 7 world (dirname (sanitize_path d_path)) ≡ found 0 tt
unfolding resolve_path names_of skip_dots path_split dirname sanitize_path fullpath
root_found = refl

unlink-Unlinked_example :
    Ends
      (Unlinked sgl quiet world 3 4 (basename g_path) e_dir g_file)
      (unlink sgl quiet g_path 7 7 world)
unlink-Unlinked_example =
    unlink-Unlinked sgl quiet g_path 7 7 world 3 4 e_dir g_file world-StoreOk (rw g_base refl)
      e_found refl refl refl refl (rw g_base refl) refl (rw g_base refl) refl refl refl
      (λ q d k _ h f _. rw g_base (leads_to_g q d k h f))

rmdir-Unlinked_example :
    Ends
      (Unlinked sgl quiet world 0 2 (basename (sanitize_path d_path)) root_dir d_dir)
      (rmdir sgl quiet d_path 7 7 world)
unfolding basename_len
rmdir-Unlinked_example =
    rmdir-Unlinked sgl quiet d_path 7 7 world 0 2 root_dir d_dir world-StoreOk refl root_found refl
      refl refl refl (rw d_base refl) refl refl (rw d_base refl) refl refl
      (λ q d k _ h f n. rw d_base (leads_to_d q d k h f n))

abbrev f_slash : Str
f_slash = codes "/f/"

abbrev new_path : Str
new_path = codes "/d/new/"

new_base : basename (sanitize_path new_path) ≡ codes "new"
unfolding basename sanitize_path
new_base = refl

d_found :
    resolve_path sgl true 7 7 world (sanitize_path (dirname (sanitize_path new_path))) ≡ found 2 tt
unfolding resolve_path names_of skip_dots path_split dirname sanitize_path fullpath
d_found = refl

mkdir-Attached_example :
    Ends
      (Attached sgl noon
        (put world 9 (some (new_dir sgl quiet 2 0o700 7 7)))
        2
        9
        (basename (sanitize_path new_path))
        d_dir
        (new_dir sgl quiet 2 0o700 7 7))
      (mkdir sgl quiet new_path 0o700 7 7 world)
unfolding basename_len writeable
mkdir-Attached_example =
    mkdir-Attached sgl quiet new_path 0o700 7 7 world 2 d_dir world-StoreOk refl refl refl refl refl
      refl d_found refl refl refl (rw new_base refl)
