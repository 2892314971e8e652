-- ===== src/Examples/Renames.antt =====
-- The theorems on renaming at concrete paths.
use fskit.Base.{◌≡◌, refl, true, some, [], ◌∷◌}
use fskit.Base.Bytes.{Str, codes}
use fskit.Errno.{einval}
use fskit.Ops.Make.{writeable}
use fskit.Ops.Rename.{id_list, parents, common, apart, rename}
use fskit.Ops.Rename.Moves.{Moved, rename-Moved}
use fskit.Ops.Rename.Replace.{rename_across}
use fskit.Path.{dirname, basename, basename_len, depth, fullpath, names_of, skip_dots, path_split}
use fskit.Store.{done, Ends}
use fskit.Examples.World.{sgl, quiet, world, root_dir, f_file, e_dir, g_file, world-StoreOk}

abbrev old_path : Str
old_path = codes "/f"

abbrev free_path : Str
free_path = codes "/h"

abbrev taken_path : Str
taken_path = codes "/e/g"

one_parent : parents sgl id_list true 7 7 world old_path free_path ≡ common 0
unfolding parents depth dirname names_of skip_dots path_split fullpath
one_parent = refl

two_parents :
    parents sgl id_list true 7 7 world old_path taken_path ≡ apart 0 3 (some (0 ∷ 0 ∷ 0 ∷ []))
unfolding parents depth dirname names_of skip_dots path_split fullpath
two_parents = refl

rename-Moved_example :
    Ends
      (Moved sgl world 0 1 (basename old_path) (basename free_path) root_dir f_file)
      (rename sgl id_list quiet old_path free_path 7 7 world)
unfolding basename_len basename writeable
rename-Moved_example =
    rename-Moved sgl id_list quiet old_path free_path 7 7 world 0 1 root_dir f_file world-StoreOk
      refl refl one_parent refl refl refl refl refl refl refl refl refl refl refl

rename_across_example : rename sgl id_list quiet old_path taken_path 7 7 world ≡ done einval world
unfolding basename_len basename writeable
rename_across_example =
    rename_across sgl id_list quiet old_path taken_path 7 7 world 0 3 (some (0 ∷ 0 ∷ 0 ∷ []))
      root_dir e_dir 1 4 f_file g_file refl refl two_parents refl refl refl refl refl refl refl refl
      refl refl refl
