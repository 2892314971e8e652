-- ===== src/Errno.antt =====
-- Return codes: 0, or an errno of the C library (its numbers on Linux) with its sign turned.
use fskit.Base.{ℕ}
use fskit.Base.Int.{ℤ, pos, neg}

abbrev pub ok_rc : ℤ
ok_rc = pos 0

abbrev pub eperm : ℤ
eperm = neg 1

abbrev pub enoent : ℤ
enoent = neg 2

abbrev pub eio : ℤ
eio = neg 5

abbrev pub ebadf : ℤ
ebadf = neg 9

abbrev pub enomem : ℤ
enomem = neg 12

abbrev pub eacces : ℤ
eacces = neg 13

abbrev pub eexist : ℤ
eexist = neg 17

abbrev pub enotdir : ℤ
enotdir = neg 20

abbrev pub eisdir : ℤ
eisdir = neg 21

abbrev pub einval : ℤ
einval = neg 22

abbrev pub enospc : ℤ
enospc = neg 28

abbrev pub erange : ℤ
erange = neg 34

abbrev pub enametoolong : ℤ
enametoolong = neg 36

abbrev pub enosys : ℤ
enosys = neg 38

abbrev pub enotempty : ℤ
enotempty = neg 39

-- ENOATTR is ENODATA.
abbrev pub enoattr : ℤ
enoattr = neg 61

-- FSKIT_FILESYSTEM_NAMEMAX of include/fskit/entry.h, and PATH_MAX of the C library.
abbrev pub name_max : ℕ
name_max = 255

abbrev pub path_max : ℕ
path_max = 4096
