-- ===== src/Examples/Files.antt =====
-- The theorems on open files, attributes and modes at concrete inodes.
use fskit.Base.{
  ◌≡◌, refl, true, false, ◌&&◌, ◌||◌, not, none, some, List, [], ◌∷◌, ◌==◌, leb, ltb, ◌+◌,
  if◌then◌else◌, length,
}
use fskit.Base.Int.{ℤ, pos, neg, is_zero}
use fskit.Base.Bytes.{Str, codes}
use fskit.Calls.{Call, ran, RouteType}
use fskit.Entry.Collect.{reply}
use fskit.Errno.{erange, ok_rc, eperm, eacces, enomem}
use fskit.Ops.{Env}
use fskit.Ops.Attr.{access, chmod}
use fskit.Ops.Attr.Owner.{access_outcome, chmod_outcome}
use fskit.Ops.File.{Handle, write, trunc}
use fskit.Ops.File.Size.{max, write-size, trunc-size}
use fskit.Ops.Make.{add_open}
use fskit.Ops.Open.{given, open_check, do_open, close}
use fskit.Ops.Open.Counts.{do_open_counts, close-last}
use fskit.Ops.Xattr.{copy_names, xattr_flistxattr, xattr_set_insert, fgetxattr, fsetxattr}
use fskit.Ops.Xattr.Lookup.{xattr_set_insert-find, xattr_set_insert_lost, fsetxattr-fgetxattr}
use fskit.Ops.Xattr.Names.{keys, read_names, read_names-copy_names, xattr_flistxattr_fits}
use fskit.Path.{names_of, skip_dots, path_split, basename_len}
use fskit.Perm.{bit, is_readable, is_writeable, is_searchable}
use fskit.Resolve.{found, resolve_path}
use fskit.Store.{Inode, done, Ends, put}
use fskit.Examples.World.{sgl, quiet, world, f_file}

abbrev failing : ℤ
failing = neg 5

-- An application whose write takes two bytes, and whose other callbacks fail.
abbrev callbacks : RouteType → Str → Call
callbacks RouteType.write path = ran (pos 2)
callbacks t path = ran failing

abbrev busy_env : Env
busy_env = record quiet { routes = callbacks }

f_found : resolve_path sgl true 7 7 world (codes "/f") ≡ found 1 tt
unfolding resolve_path names_of skip_dots path_split
f_found = refl

abbrev f_handle : Handle
f_handle = record { fent = 1; file_id = 2; path = codes "/f"; flags = 1; app_data = 0 }

write-size_example :
    Ends
      (λ rc t. (rc ≡ pos 2) × ((d : Inode sgl) × (t 1 ≡ some d) × (d.size ≡ pos (max 5 (4 + 8)))))
      (write sgl busy_env f_handle 8 4 world)
write-size_example =
    write-size sgl busy_env f_handle 8 4 2 5 world f_file refl refl refl refl refl refl refl

short_name : ltb 255 (basename_len (codes "/f")) ≡ false
unfolding basename_len
short_name = refl

trunc-size_example :
    Ends
      (λ rc t.
        (rc ≡ ok_rc)
        × ((d : Inode sgl) × (t 1 ≡ some d)
            × (d.size ≡ (if is_zero failing then pos 0 else f_file.size))))
      (trunc sgl busy_env (codes "/f") 7 7 (pos 0) world)
trunc-size_example =
    trunc-size sgl busy_env (codes "/f") 7 7 (pos 0) failing world 1 f_file short_name f_found refl
      refl refl

abbrev held_file : Inode sgl
held_file = record f_file { open_count = pos 1; link_count = pos 0 }

close-last_example : close sgl quiet f_handle (put world 1 (some held_file)) ≡ (
    if is_zero (reply (quiet.routes RouteType.close f_handle.path))
    then done ok_rc (put (put world 1 (some held_file)) 1 none)
    else done (reply (quiet.routes RouteType.close f_handle.path)) (put world 1 (some held_file)))
close-last_example =
    close-last sgl quiet f_handle (put world 1 (some held_file)) held_file refl refl refl refl refl

do_open_counts_example : do_open sgl quiet (codes "/f") 1 0 8 8 world ≡ (
    if not (is_zero (open_check sgl 0 8 8 f_file))
    then done (open_check sgl 0 8 8 f_file, 0) world
    else if is_zero (reply (quiet.routes RouteType.open_file (codes "/f")))
    then done
        (ok_rc, given sgl quiet RouteType.open_file (codes "/f") 0)
        (put world 1 (some (add_open sgl f_file)))
    else done (reply (quiet.routes RouteType.open_file (codes "/f")), 0) world)
do_open_counts_example = do_open_counts sgl quiet (codes "/f") 1 0 8 8 world f_file refl refl refl

-- The check passes for the reader of that example.
reader_passes : open_check sgl 0 8 8 f_file ≡ ok_rc
unfolding open_check
reader_passes = refl

fsetxattr-fgetxattr_example :
    Ends
      (λ rc t.
        (rc ≡ ok_rc)
        × (fgetxattr sgl quiet (codes "/f") 1 (codes "user.a") 5 t ≡ done (pos 3, codes "abc") t))
      (fsetxattr sgl quiet (codes "/f") 1 (codes "user.a") (codes "abc") 0 world)
fsetxattr-fgetxattr_example =
    fsetxattr-fgetxattr sgl quiet (codes "/f") 1 (codes "user.a") (codes "abc") 5 world f_file refl
      refl refl refl refl tt refl refl refl

abbrev attr_list : List (Str × Str)
attr_list = (codes "user.a", codes "abc") ∷ (codes "user.b", codes "x") ∷ []

two_Distinct : sgl.attrs.Distinct attr_list
two_Distinct = (refl, (refl, tt))

insert_ok : (xattr_set_insert sgl true attr_list (codes "user.b") (codes "new") 2).0 ≡ ok_rc
unfolding xattr_set_insert
insert_ok = refl

xattr_set_insert-find_example :
    sgl.attrs.find
      (xattr_set_insert sgl true attr_list (codes "user.b") (codes "new") 2).1
      (codes "user.a")
    ≡ some (codes "abc")
xattr_set_insert-find_example =
    xattr_set_insert-find sgl true attr_list (codes "user.b") (codes "new") 2 two_Distinct insert_ok
      (codes "user.a")

xattr_set_insert_lost_example :
    ((xattr_set_insert sgl false attr_list (codes "user.b") (codes "new") 0).0 ≡ enomem)
    × (sgl.attrs.find
          (xattr_set_insert sgl false attr_list (codes "user.b") (codes "new") 0).1
          (codes "user.b")
        ≡ none)
xattr_set_insert_lost_example =
    xattr_set_insert_lost sgl attr_list (codes "user.b") (codes "new") (codes "x") two_Distinct refl

read_names-copy_names_example : read_names [] (copy_names attr_list) ≡ keys attr_list
read_names-copy_names_example = read_names-copy_names attr_list refl

abbrev tagged_file : Inode sgl
tagged_file = record f_file { xattrs = attr_list }

xattr_flistxattr_fits_example :
    (leb (length (xattr_flistxattr sgl tagged_file 20).1) 20 ≡ true)
    × ((xattr_flistxattr sgl tagged_file 20).0 ≡ (
        if 20 == 0
        then pos (length (copy_names attr_list))
        else if ltb 20 (length (copy_names attr_list))
        then erange
        else pos (length (xattr_flistxattr sgl tagged_file 20).1)))
xattr_flistxattr_fits_example = xattr_flistxattr_fits sgl tagged_file 20 refl

access_outcome_example :
    access sgl quiet (codes "/f") 7 7 2 world
    ≡ done
        (if (not (bit 2 2) || is_readable f_file.mode f_file.owner f_file.group 7 7)
            && (not (bit 1 2) || is_writeable f_file.mode f_file.owner f_file.group 7 7)
            && (not (bit 0 2) || is_searchable f_file.mode f_file.owner f_file.group 7 7)
          then ok_rc
          else eacces)
        world
access_outcome_example =
    access_outcome sgl quiet (codes "/f") 7 7 2 world 1 f_file f_found refl refl

chmod_outcome_example : chmod sgl quiet (codes "/f") 7 7 0o600 world ≡ (
    if not (f_file.owner == 7)
    then done eperm world
    else if is_zero (reply (quiet.routes RouteType.setmetadata (codes "/f")))
    then done
        (reply (quiet.routes RouteType.setmetadata (codes "/f")))
        (put world 1 (some (record f_file { mode = 0o600 })))
    else done (reply (quiet.routes RouteType.setmetadata (codes "/f"))) world)
chmod_outcome_example =
    chmod_outcome sgl quiet (codes "/f") 7 7 0o600 world 1 f_file refl f_found refl refl refl
