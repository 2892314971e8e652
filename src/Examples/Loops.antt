-- ===== src/Examples/Loops.antt =====
-- The theorems on loops over a path, at "/e/./g" of the small file system, and on the loop that empties
-- "/e" there.
use fskit.Base.{◌+◌, ◌≡◌, refl, true, none, some, Option, List, [], ◌∷◌, length, arith}
use fskit.Base.Bytes.{Str, codes}
use fskit.Errno.{ok_rc}
use fskit.Path.{names_of, path_split, skip_dots, fullpath, dirname}
use fskit.Entry.Destroy.{try_destroy_and_free_ex}
use fskit.Resolve.{resolve_path, found, walk}
use fskit.Resolve.Iterator.{
  first_iterator, path_begin, path_next, path_end, path_iterator_path, scan, enter_name,
}
use fskit.Resolve.Iterator.Visits.{iterate, chain, AllShort}
use fskit.Resolve.Iterator.Visits.Loop.{iterate-path_begin}
use fskit.Resolve.Iterator.Visits.Resolved.{last_visited, iterate-resolve_path}
use fskit.Store.{Ptr, done, root_ptr}
use fskit.Ops.Detach.Total.{Covers}
use fskit.Ops.Detach.Returns.{detach_all_ex-returns}
use fskit.Ops.Detach.{
  detach_all_ex, new_ctx, detach_all, detach_one, gather, release, queue_children,
}
use fskit.Examples.Runs.{result}
use fskit.Examples.World.{sgl, quiet, world, root_dir, world-StoreOk}

abbrev dotted : Str
dotted = codes "/e/./g"

dotted-AllShort : AllShort sgl world (names_of dotted)
unfolding names_of path_split skip_dots
dotted-AllShort = (refl, (refl, tt))

iterate-path_begin_example :
    (path_begin sgl true dotted world ≡ done (some (first_iterator sgl dotted)) world)
    × (iterate sgl (length dotted + 2) (first_iterator sgl dotted) world
        ≡ done (some (chain sgl world (names_of dotted) root_ptr)) world)
iterate-path_begin_example =
    iterate-path_begin sgl world dotted root_dir refl refl refl refl world-StoreOk.closed
      dotted-AllShort

dotted_resolves : resolve_path sgl true 7 7 world dotted ≡ found 4 tt
unfolding resolve_path walk names_of path_split skip_dots
dotted_resolves = refl

iterate-resolve_path_example :
    (ps : List Ptr) × (iterate sgl (length dotted + 2) (first_iterator sgl dotted) world
      ≡ done (some (ps, ok_rc)) world)
    × (last_visited ps ≡ some 4)
iterate-resolve_path_example =
    iterate-resolve_path sgl 7 7 world true dotted 4 dotted_resolves world-StoreOk.closed
      dotted-AllShort

iterate_run :
    iterate sgl 9 (first_iterator sgl dotted) world ≡ done (some (0 ∷ 3 ∷ 4 ∷ [], ok_rc)) world
unfolding iterate path_end path_next scan enter_name
iterate_run = refl

path_run : path_iterator_path (record (first_iterator sgl dotted) { name_i = 3 }) ≡ codes "/e/"
unfolding path_iterator_path
path_run = refl

-- "/e" with the file below it is emptied.
detach_run : result (detach_all sgl 1 4 quiet (codes "/e") world) ≡ some (some ok_rc)
unfolding detach_all names_of skip_dots path_split detach_one gather queue_children release fullpath
    dirname try_destroy_and_free_ex
detach_run = refl

abbrev e_children : Option sgl.names.Tree
e_children = some ((codes "g", 4) ∷ [])

abbrev all_inodes : List Ptr
all_inodes = 0 ∷ 1 ∷ 2 ∷ 3 ∷ 4 ∷ []

world-Covers : Covers sgl all_inodes world
world-Covers p h = ground (arith, h)

detach_all_ex-returns_example :
    ¬ (detach_all_ex sgl 6 quiet (codes "/e") e_children (new_ctx sgl) world ≡ done none world)
detach_all_ex-returns_example =
    detach_all_ex-returns sgl all_inodes 6 quiet (codes "/e") e_children (new_ctx sgl) world world
      world-Covers (omega arith)
