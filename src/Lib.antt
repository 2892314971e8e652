-- ===== src/Lib.antt =====
-- fskit: a model of libfskit/, a library for filesystems in memory whose inodes an application
-- fills in by callbacks, and theorems on it.
--
-- The parts and their files. Path: the functions on path strings of libfskit/path.c. Resolve:
-- fskit_entry_resolve_path_cls and fskit_entry_resolve_path there, and in its child Iterator the
-- path iterator, from fskit_path_begin to fskit_path_end, which tests no permissions. Perm: the
-- permission tests of include/fskit/entry.h. Store: struct fskit_entry of
-- include/fskit_private/private.h as the record Entry, and a store of such records at addresses,
-- with the root at address 0. Tree: the red-black trees of include/fskit/sglib.h as an interface of
-- operations and laws, with association lists as one that meets it. Entry: libfskit/entry.c, with
-- its children Init (the initializers) and Destroy (freeing and garbage collection). Calls: what a
-- call of an application's route comes to (libfskit/route.c). Route: the table of routes of
-- libfskit/route.c, its search, dispatch and changes, with the trees of its rows as an interface
-- (Rows) and the C library's regular expressions as a parameter (Posix). Ops: one module per
-- operation on paths or handles: Remove (unlink.c, rmdir.c), Make (mkdir.c), Node (mknod.c),
-- Hardlink (link.c), Rename (rename.c), Open (open.c, create.c, close.c), File (trunc.c, read.c,
-- write.c), Attr (chmod.c, chown.c, utime.c, stat.c, access.c, symlink.c), Xattr (getxattr.c,
-- setxattr.c, removexattr.c, listxattr.c), Dir (opendir.c, readdir.c, closedir.c), Detach
-- (fskit_detach_all_ex and fskit_detach_all of entry.c). A definition has the name of its C
-- function without the prefix fskit_ or fskit_entry_; one with a suffix such as _in, _at or _from
-- is the part of that function behind a look-up. Examples: the theorems and the operations on a
-- small file system.
--
-- An operation takes a store to a run: a value and the next store, a fault (a read of NULL or of a
-- freed inode, a write outside a buffer), or a call of exit(1). It composes the look-up, the
-- permission tests, the changes to directories and the callbacks in the order of the code. The
-- record Env of Ops holds what comes from outside: whether allocations succeed, the address and the
-- number of a new inode, the clock, the routes and their data. A callback does not change an inode.
-- Of the copies of a path, that of the resolver may fail; the others are taken to be made, but in
-- unlink.
--
-- Numbers: names are at most 255 bytes (name_max), paths less than 4096 (path_max). Counts of
-- links, handles and children are integers without a bound; the casts to 32 bits of write.c,
-- getxattr.c and listxattr.c are written out. Recursion is on the structure of a path or of a list
-- where it can be. The search for the next name in path_next runs on the length of the text and one
-- more; a client's loop over a path, or over a directory in chunks, takes the fuel that its theorem
-- names. The loop over the queue of fskit_detach_all_ex takes the fuel of its theorem; the retries
-- of detach_all are bounded by another, and detach_all returns none if that was too little.
--
-- Not modelled: other threads and the locks that keep them out, so each operation is one step; only
-- the lock that a route's dispatch takes and gives back is (Route.Locks); readlink, statvfs and
-- sync; the command interpreter repl.c; logging; the FUSE binding.
pub mod Base
pub mod Path
pub mod Errno
pub mod Tree
pub mod Store
pub mod Calls
pub mod Route
pub mod Entry
pub mod Perm
pub mod Resolve
pub mod Ops
pub mod Examples
