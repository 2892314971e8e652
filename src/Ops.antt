-- ===== src/Ops.antt =====
-- The operations of libfskit/ on paths, each as one command on the store: what other threads do
-- between its steps, and the locks that keep them out, are left out.
pub mod Remove
pub mod Make
pub mod Node
pub mod Hardlink
pub mod File
pub mod Open
pub mod Attr
pub mod Xattr
pub mod Rename
pub mod Dir
pub mod Detach
use fskit.Base.{ℕ, Bool, true, false, ◌<◌, ltb, if◌then◌else◌, length}
use fskit.Base.Int.{ℤ}
use fskit.Base.Bytes.{Str}
use fskit.Calls.{Routes}
use fskit.Entry.Init.{Clock}
use fskit.Errno.{name_max}
use fskit.Resolve.{Look, found, failed, crashed}
use fskit.Store.{Sglib, Cmd, Ptr, fault, pure}

-- What one call meets outside the library: whether allocations succeed, the address that calloc
-- returns for a new inode, the number that the application's inode allocator returns (0 on error),
-- the clock, the application's routes, and the data that its callbacks give back for an inode and
-- for a handle, and the byte that a buffer on the stack happens to hold where the directory's part of
-- a path, copied to it, ends.
pub record Env : Type 0 where
  pub mem : Bool
  pub fresh : Ptr
  pub inode : ℕ
  pub clock : Clock
  pub routes : Routes
  pub user_data : ℕ
  pub handle_data : ℕ
  pub stale : Str → ℕ

module _ (G : Sglib) where
  -- A path that was looked up, where the caller returns the resolver's error.
  abbrev pub on_found : {C A : Type 0} → Look C → (ℤ → A) → (Ptr → C → Cmd G A) → Cmd G A
  on_found (found p c) err next = next p c
  on_found (failed rc c) err next = pure (err rc)
  on_found crashed err next = λ _. fault

  -- The same where the caller unlocks the NULL that the resolver returned.
  abbrev pub on_found_unlock : {C A : Type 0} → Look C → (Ptr → Cmd G A) → Cmd G A
  on_found_unlock (found p c) next = next p
  on_found_unlock (failed rc c) next = λ _. fault
  on_found_unlock crashed next = λ _. fault
