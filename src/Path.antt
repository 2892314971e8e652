-- ===== src/Path.antt =====
-- libfskit/path.c, the functions on path strings, with `dest == NULL` (each returns a new buffer,
-- and allocations succeed), and the tokens that fskit_path_split and strtok_r cut a path into.
pub mod Join
pub mod Split
pub mod Depth
use fskit.Base.{
  ℕ, zero, suc, ◌+◌, ◌-◌, Bool, true, false, ◌&&◌, ◌||◌, not, Option, none, some, List, [], ◌∷◌,
  ◌++◌, ◌==◌, leb, if◌then◌else◌, length, take, drop,
}
use fskit.Base.Bytes.{Str, slash, at, codes, str_eq, is_empty, dot}

abbrev root : Str
root = codes "/"

-- The index of the last slash at or below `i`: `for( ; i >= 0; i-- ) if( path[i] == '/' ) break;`
find_slash : Str → ℕ → Option ℕ
find_slash s zero = if at s 0 == slash then some 0 else none
find_slash s (suc i) = if at s (suc i) == slash then some (suc i) else find_slash s i

or_zero : Option ℕ → ℕ
or_zero none = 0
or_zero (some i) = i

-- The delimiter between the two parts of fskit_fullpath, and the offset into its second part.
full_delim : Str → Str → Bool
full_delim r path =
    not (is_empty r) && not (at r (length r - 1) == slash) && not (at path 0 == slash)

full_offset : Str → Str → ℕ
full_offset r path =
    if not (is_empty r) && (at r (length r - 1) == slash) && (at path 0 == slash) then 1 else 0

-- The bytes that fskit_fullpath allocates, and the string that it writes there.
pub full_size : Str → Str → ℕ
unfolding full_delim
full_size r path = length path + length r + 2 + (if full_delim r path then 1 else 0)

unfoldable pub fullpath : Str → Str → Str
unfolding full_delim full_offset
fullpath r path =
    r ++ ((if full_delim r path then slash ∷ [] else []) ++ drop (full_offset r path) path)

-- `path[strlen(path)]` is the NUL, so the test for a final slash in front of the loop never holds,
-- and the scan begins at the NUL.
dir_len : Str → ℕ
unfolding find_slash or_zero
dir_len path =
    let d = or_zero (find_slash path (length path)) in
    if (d == 0) && (at path 0 == slash) then 1 else d

unfoldable pub dirname : Str → Str
unfolding dir_len
dirname path = if is_empty path || str_eq path root then root else take (dir_len path) path

-- The index behind the last slash at or below `i`.
base_start : Option ℕ → ℕ
base_start none = 0
base_start (some i) = suc i

-- Where the scan of fskit_basename_len begins: a final slash is skipped.
base_scan : Str → ℕ
base_scan path = if at path (length path - 1) == slash then length path - 2 else length path - 1

unfoldable pub basename_len : Str → ℕ
unfolding find_slash base_start base_scan
basename_len path =
    if str_eq path root
    then 1
    else if leb (length path) 1
    then 0
    else length path - base_start (find_slash path (base_scan path))

unfoldable pub basename : Str → Str
unfolding basename_len
basename path = drop (length path - basename_len path) path

-- The slashes at or below index `i`.
count_slashes : Str → ℕ → ℕ
count_slashes s zero = if at s 0 == slash then 1 else 0
count_slashes s (suc i) = (if at s (suc i) == slash then 1 else 0) + count_slashes s i

unfoldable pub depth : Str → ℕ
unfolding count_slashes base_scan
depth path = if leb (length path) 1 then 0 else count_slashes path (base_scan path)

unfoldable pub sanitize_path : Str → Str
sanitize_path path =
    if not (str_eq path root) && not (is_empty path) && (at path (length path - 1) == slash)
    then take (length path - 1) path
    else path

-- The first pass of fskit_path_split counts the names; the flag says that a name is being skipped.
pub count_names : Bool → Str → ℕ
count_names inside [] = 0
count_names inside (c ∷ s) =
    if c == slash then count_names false s else (if inside then 0 else 1) + count_names true s

-- The second pass collects them. `name` is the part of the present name in front of the rest.
add_name : Str → List Str → List Str
add_name [] names = names
add_name (c ∷ name) names = (c ∷ name) ∷ names

split_from : Str → Str → List Str
split_from name [] = add_name name []
split_from name (c ∷ s) = elim (c == slash) [
  | true ↦ add_name name (split_from [] s)
  | false ↦ split_from (name ++ c ∷ []) s
]

unfoldable pub path_split : Str → List Str
unfolding split_from add_name
path_split path = split_from [] path

-- The slots that fskit_path_split allocates: one for each name counted and a NULL.
pub split_slots : Str → ℕ
unfolding count_names
split_slots path = count_names false path + 1

-- Names that are not "."
unfoldable pub skip_dots : List Str → List Str
skip_dots [] = []
skip_dots (n ∷ ns) = if str_eq n dot then skip_dots ns else n ∷ skip_dots ns

-- The names that fskit_entry_resolve_path_cls walks: it appends "." to a path that ends in a slash,
-- cuts the copy at slashes by strtok_r, and skips each ".".
unfoldable pub names_of : Str → List Str
names_of path =
    skip_dots (path_split (if at path (length path - 1) == slash then fullpath path dot else path))
