-- ===== src/Perm.antt =====
-- The permission tests of include/fskit/entry.h on a mode, an inode's owner and group, and a
-- caller's user and group.
use fskit.Base.{ℕ, ◌/◌, ◌%◌, ◌^◌, Bool, ◌&&◌, ◌||◌, ◌==◌}

-- Bit `k` of a mode: S_IXOTH is bit 0, S_IWOTH 1, S_IROTH 2, and so on up to S_IRUSR, bit 8.
abbrev pub bit : ℕ → ℕ → Bool
bit k mode = mode / 2 ^ k % 2 == 1

-- A test by the bits for others, for the group and for the owner; user 0 passes every test.
abbrev pub allowed : (other_bit group_bit owner_bit mode node_user node_group user gid : ℕ) → Bool
allowed o g u mode node_user node_group user gid =
    user == 0
    || bit o mode
    || (node_group == gid && bit g mode)
    || (node_user == user && bit u mode)

abbrev pub is_readable : (mode node_user node_group user gid : ℕ) → Bool
is_readable = allowed 2 5 8

abbrev pub is_writeable : (mode node_user node_group user gid : ℕ) → Bool
is_writeable = allowed 1 4 7

abbrev pub is_searchable : (mode node_user node_group user gid : ℕ) → Bool
is_searchable = allowed 0 3 6
