-- ===== src/Examples/Dirs.antt =====
-- The theorems on reading directories, at the open root of the small file system.
use fskit.Base.{
  ℕ, suc, ◌==◌, if◌then◌else◌, Bool-cases, inl, inr, ◌≡◌, refl, true, false, Option, none, some,
  List, [], ◌∷◌, arith, ◌==◌, if◌then◌else◌, take, drop, map,
}
use fskit.Base.Int.{ℤ, pos}
use fskit.Base.Bytes.{Str, codes, dot, dotdot}
use fskit.Errno.{ok_rc, enotdir, einval}
use fskit.Calls.{ran}
use fskit.Ops.Dir.{
  how_many, DirHandle, DirEntry, listdir, listdir_locked, opendir, closedir, readdir,
  readdir_lowlevel, read_from, run_and_compactify, telldir, seekdir, rewinddir, tail,
}
use fskit.Ops.Dir.Listing.{listing}
use fskit.Ops.Dir.Chunks.{remaining, Reads}
use fskit.Ops.Dir.Whole.{Listable, ReadsChunk}
use fskit.Ops.Dir.Reads.{read_all, Quiet, readdir_reads, read_all_lists, readdir_skips}
use fskit.Ops.Dir.Rewind.{rewinddir-remaining}
use fskit.Path.{names_of, path_split, skip_dots}
use fskit.Store.{Inode, Store, Run, done, fault, exits}
use fskit.Examples.World.{sgl, quiet, root_dir, world}
use fskit.Examples.Runs.{code_of, result}

abbrev open_root : Inode sgl
open_root = record root_dir { open_count = pos 1 }

abbrev open_world : Store sgl
open_world p = if p == 0 then some open_root else world p

abbrev all_kept : List DirEntry → List (Option DirEntry)
all_kept = map some

abbrev root_handle : DirHandle
root_handle = record {
  dent = some 0;
  path = codes "/";
  file_id = 1;
  curr_name = [];
  telldir_list = [];
  app_data = 0;
  eof = false;
}

root-Listable : Listable sgl open_world open_root 0
root-Listable = record {
  here = refl;
  names_ok = (
    refl,
    refl,
    refl,
    (refl, refl, refl, (refl, refl, refl, (refl, refl, refl, (refl, refl, refl, tt)))),
  );
  all_live = ((λ h. cc), ((λ h. cc), ((λ h. cc), ((λ h. cc), ((λ h. cc), tt)))));
  not_empty = λ h. cc;
}

root-Quiet : Quiet sgl quiet all_kept open_world open_root 0 (codes "/")
root-Quiet = record { memory = refl; no_callback = refl; held = refl }

readdir_reads_example :
    ReadsChunk sgl open_world open_root 0 root_handle 2
      (readdir sgl quiet all_kept root_handle 2 open_world)
readdir_reads_example =
    readdir_reads sgl quiet all_kept open_world open_root 0 root_handle 2 1 root-Listable root-Quiet
      refl refl

-- One entry in the first round, two in the others.
abbrev asked : ℕ → ℕ
asked i = if i == 5 then 1 else 2

abbrev given_less : ℕ → ℕ
given_less i = if i == 5 then 0 else 1

asked_some : (i : ℕ) → how_many sgl open_root (asked i) ≡ suc (given_less i)
asked_some i = elim (Bool-cases (i == 5)) [ inl h ↦ rw h refl | inr h ↦ rw h refl ]

read_all_lists_example :
    read_all sgl quiet all_kept 6 asked root_handle open_world
    ≡ done
        (some (listing sgl open_world open_root (remaining sgl root_handle open_root.children)))
        open_world
read_all_lists_example =
    read_all_lists sgl quiet all_kept open_world open_root 0 6 root_handle asked given_less
      root-Listable root-Quiet refl asked_some (omega arith)

-- a handle whose last name is gone
abbrev stale_handle : DirHandle
stale_handle = record root_handle { curr_name = codes "c" }

readdir_skips_example :
    Reads sgl open_world open_root stale_handle
      (take 2 (listing sgl open_world open_root ((codes "d", 2) ∷ (codes "e", 3) ∷ [])))
      (drop 2 (listing sgl open_world open_root ((codes "d", 2) ∷ (codes "e", 3) ∷ [])))
      (readdir sgl quiet all_kept stale_handle 2 open_world)
readdir_skips_example =
    readdir_skips sgl quiet all_kept open_world open_root 0 stale_handle 2 1 (codes "f") 1
      ((codes "d", 2) ∷ (codes "e", 3) ∷ []) root-Listable root-Quiet refl refl refl refl refl refl

rewinddir-remaining_example :
    (h : DirHandle) × (rewinddir sgl root_handle 0 open_world ≡ done h open_world)
    × (remaining sgl h open_root.children
        ≡ (if root_handle.eof then [] else tail open_root.children))
rewinddir-remaining_example =
    rewinddir-remaining sgl open_world open_root 0 root_handle root-Listable

abbrev names_in : Run (Store sgl) (ℤ × Option (List DirEntry) × DirHandle) → List Str
names_in (done (rc, none, h) s) = []
names_in (done (rc, some es, h) s) = map (λ (e : DirEntry). e.name) es
names_in fault = []
names_in exits = []

listdir_run :
    names_in (listdir sgl quiet all_kept root_handle open_world)
    ≡ dot ∷ dotdot ∷ codes "f" ∷ codes "d" ∷ codes "e" ∷ []
unfolding listdir readdir_lowlevel run_and_compactify read_from
listdir_run = refl

-- a callback that leaves out the first entry
abbrev omit_first : List DirEntry → List (Option DirEntry)
omit_first [] = []
omit_first (e ∷ es) = none ∷ map some es

omit_run :
    names_in (
      readdir sgl
        (record quiet { routes = λ t path. ran (pos 0) })
        omit_first
        root_handle
        3
        open_world)
    ≡ dotdot ∷ codes "f" ∷ []
unfolding readdir readdir_lowlevel run_and_compactify read_from
omit_run = refl

opendir_run : code_of (opendir sgl quiet (codes "/f") 7 7 world) ≡ some enotdir
unfolding opendir names_of skip_dots path_split
opendir_run = refl

closedir_run : result (closedir sgl quiet root_handle open_world) ≡ some ok_rc
unfolding closedir
closedir_run = refl

listdir_locked_run : code_of (listdir_locked sgl true 1 world) ≡ some einval
unfolding listdir_locked
listdir_locked_run = refl

-- A position that was saved is not what seekdir goes to.
seekdir_run :
    result (seekdir sgl (record stale_handle { telldir_list = (8, codes "d") ∷ [] }) 0 8 open_world)
    ≡ some (record stale_handle { curr_name = codes "f"; telldir_list = (8, codes "d") ∷ [] })
unfolding seekdir
seekdir_run = refl

telldir_run :
    telldir true 8 stale_handle
    ≡ (pos 8, record stale_handle { telldir_list = (8, codes "c") ∷ [] })
unfolding telldir
telldir_run = refl
