-- ===== src/Examples/Runs.antt =====
-- The operations run on the small file system.
use fskit.Path.{
  basename, basename_len, dirname, fullpath, names_of, path_split, sanitize_path, skip_dots,
}
use fskit.Base.{◌≡◌, refl, true, Option, none, some}
use fskit.Base.Int.{to_unsigned, to_int, ℤ, pos}
use fskit.Base.Bytes.{codes}
use fskit.Entry.{tag_garbage, attach_lowlevel}
use fskit.Errno.{ok_rc, eacces, einval}
use fskit.Ops.Attr.{chown, utime, access, stat, symlink, fullmode}
use fskit.Ops.File.{Handle, read, ftrunc}
use fskit.Ops.Hardlink.{link, ref_entry}
use fskit.Ops.Make.{mkdir, enter_dir, make_dir, mkdir_in, mkdir_lowlevel}
use fskit.Ops.Node.{mknod}
use fskit.Ops.Open.{open_ex, create, open_check}
use fskit.Ops.Rename.{rename_in_directory}
use fskit.Ops.Xattr.{getxattr, setxattr, listxattr, removexattr}
use fskit.Store.{Store, Run, done, fault, exits}
use fskit.Examples.World.{sgl, quiet, world}

-- The value that a finished run returns.
abbrev pub result : {A : Type 0} → Run (Store sgl) A → Option A
result (done a s) = some a
result fault = none
result exits = none

abbrev pub code_of : {A : Type 0} → Run (Store sgl) (ℤ × A) → Option ℤ
code_of (done (rc, a) s) = some rc
code_of fault = none
code_of exits = none

abbrev handle : Handle
handle = record { fent = 1; file_id = 2; path = codes "/f"; flags = 0; app_data = 0 }

mkdir_run : result (mkdir sgl quiet (codes "/d/new/") 0o700 7 7 world) ≡ some ok_rc
unfolding mkdir mkdir_in mkdir_lowlevel make_dir enter_dir attach_lowlevel basename_len
    sanitize_path dirname names_of skip_dots path_split basename
mkdir_run = refl

mknod_run : result (mknod sgl quiet (codes "/d/new") 0o010644 0 7 7 world) ≡ some ok_rc
unfolding mknod basename_len dirname sanitize_path names_of skip_dots path_split basename
mknod_run = refl

link_run : result (link sgl quiet (codes "/f") (codes "/d/new") 7 7 world) ≡ some ok_rc
unfolding link basename names_of skip_dots path_split dirname
link_run = refl

symlink_run : result (symlink sgl quiet (codes "/f") (codes "/d/new") 8 8 world) ≡ some eacces
unfolding symlink dirname basename names_of skip_dots path_split
symlink_run = refl

create_run : code_of (create sgl quiet (codes "/d/new") 7 7 0o644 world) ≡ some ok_rc
unfolding create basename_len sanitize_path dirname names_of skip_dots path_split basename
create_run = refl

open_run : code_of (open_ex sgl quiet (codes "/f") 8 8 2 0 world) ≡ some eacces
unfolding open_ex basename_len sanitize_path dirname names_of skip_dots path_split fullpath basename
    open_check
open_run = refl

read_run : result (read sgl quiet handle world) ≡ some ok_rc
unfolding read
read_run = refl

ftrunc_run : result (ftrunc sgl quiet handle (pos 0) world) ≡ some (ℤ.negsuc 8)
unfolding ftrunc
ftrunc_run = refl

stat_run : code_of (stat sgl quiet (codes "/e/g") world) ≡ some ok_rc
unfolding stat basename_len names_of skip_dots path_split
stat_run = refl

access_run : result (access sgl quiet (codes "/e/g") 8 8 2 world) ≡ some eacces
unfolding access names_of skip_dots path_split
access_run = refl

chown_run : result (chown sgl quiet (codes "/f") 7 7 8 8 world) ≡ some ok_rc
unfolding chown names_of skip_dots path_split
chown_run = refl

utime_run : result (utime sgl quiet (codes "/f") 7 7 100 200 world) ≡ some ok_rc
unfolding utime names_of skip_dots path_split
utime_run = refl

-- A symbolic link's type and mode, S_IFLNK | 0777.
fullmode_run : fullmode fskit.Store.Kind.lnk 0o777 ≡ 0o120777
unfolding fullmode
fullmode_run = refl

getxattr_run :
    code_of (getxattr sgl quiet (codes "/f") 7 7 (codes "user.a") 9 world) ≡ some (ℤ.negsuc 60)
unfolding getxattr names_of skip_dots path_split
getxattr_run = refl

setxattr_run :
    result (setxattr sgl quiet (codes "/f") 7 7 (codes "user.a") (codes "x") 3 world) ≡ some einval
unfolding setxattr names_of skip_dots path_split
setxattr_run = refl

listxattr_run : code_of (listxattr sgl quiet (codes "/f") 7 7 9 world) ≡ some (pos 0)
unfolding listxattr names_of skip_dots path_split to_unsigned to_int
listxattr_run = refl

-- Without a callback a missing attribute counts as removed.
removexattr_run :
    result (removexattr sgl quiet (codes "/f") 7 7 (codes "user.a") world) ≡ some ok_rc
unfolding removexattr names_of skip_dots path_split
removexattr_run = refl

tag_garbage_run : code_of (tag_garbage sgl true 2 world) ≡ some ok_rc
unfolding tag_garbage
tag_garbage_run = refl

ref_entry_run : result (ref_entry sgl quiet 1 world) ≡ some ok_rc
unfolding ref_entry
ref_entry_run = refl

rename_in_directory_run :
    result
      (rename_in_directory sgl fskit.Ops.Rename.id_list quiet 0 1 (codes "f") (codes "h") world)
    ≡ some ok_rc
unfolding rename_in_directory
rename_in_directory_run = refl
