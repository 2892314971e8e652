-- ===== src/Examples/Paths.antt =====
-- The theorems on paths and on the resolver at concrete paths.
use fskit.Base.{◌≡◌, refl, ◌↔◌, [], ◌∷◌, ◌+◌, length, true}
use fskit.Base.Bytes.{codes}
use fskit.Path.{fullpath, dirname, basename, path_split, split_slots, names_of, skip_dots}
use fskit.Path.Join.{fullpath-split, fullpath-dirname-basename}
use fskit.Path.Split.{spell, length-path_split, path_split-spell, names_of-path_split}
use fskit.Resolve.{found, resolve_path}
use fskit.Resolve.Walk.{Resolves, IsLookupError, resolve_path_iff, resolve_path_codes}
use fskit.Examples.World.{sgl, world, root_dir, world-StoreOk}

fullpath-split_example :
    (dirname (fullpath (codes "/e") (codes "g")) ≡ codes "/e")
    × (basename (fullpath (codes "/e") (codes "g")) ≡ codes "g")
fullpath-split_example = fullpath-split (codes "/e") b'g' [] (refl, refl) refl

fullpath-dirname-basename_example :
    fullpath (dirname (codes "/e/g")) (basename (codes "/e/g")) ≡ codes "/e/g"
fullpath-dirname-basename_example = fullpath-dirname-basename (codes "/e") b'g' [] refl refl

length-path_split_example : length (path_split (codes "//e/g/")) + 1 ≡ split_slots (codes "//e/g/")
length-path_split_example = length-path_split (codes "//e/g/")

path_split-spell_example :
    path_split (spell (codes "e" ∷ codes "g" ∷ [])) ≡ codes "e" ∷ codes "g" ∷ []
path_split-spell_example =
    path_split-spell (codes "e" ∷ codes "g" ∷ []) ((refl, refl), ((refl, refl), tt))

names_of-path_split_example : names_of (codes "/e/./g/") ≡ skip_dots (path_split (codes "/e/./g/"))
names_of-path_split_example = names_of-path_split (codes "/e/./g/")

resolve_path_iff_example :
    (resolve_path sgl true 8 8 world (codes "/e/g") ≡ found 4 tt)
    ↔ Resolves sgl 8 8 world true (codes "/e/g") 4
resolve_path_iff_example = resolve_path_iff sgl 8 8 world true (codes "/e/g") 4

resolve_path_codes_example :
    IsLookupError sgl 8 8 world true (resolve_path sgl true 8 8 world (codes "/e/x"))
resolve_path_codes_example =
    resolve_path_codes sgl 8 8 world true (codes "/e/x") root_dir refl world-StoreOk refl refl refl

-- The look-up at work.
finds_g : resolve_path sgl true 8 8 world (codes "/e/g") ≡ found 4 tt
unfolding resolve_path names_of skip_dots path_split
finds_g = refl
