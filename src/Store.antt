-- ===== src/Store.antt =====
-- The inodes of include/fskit_private/private.h at their addresses, and commands that read and
-- write them. Reading a freed inode is a fault; `exits` is a call of exit(1).
use fskit.Base.{ℕ, Bool, Option, none, some, ◌==◌, if◌then◌else◌}
use fskit.Base.Int.{ℤ}
use fskit.Base.Bytes.{Str}
use fskit.Tree.{RbTree}

-- FSKIT_ENTRY_TYPE_*
pub data Kind : Type 0 where
  dead file dir fifo sock chr blk lnk : Kind

abbrev pub kind_code : Kind → ℕ
kind_code dead = 0
kind_code file = 1
kind_code dir = 2
kind_code fifo = 3
kind_code sock = 4
kind_code chr = 5
kind_code blk = 6
kind_code lnk = 7

abbrev pub is_dir : Kind → Bool
is_dir k = kind_code k == 2

abbrev pub is_dead : Kind → Bool
is_dead k = kind_code k == 0

-- struct timespec
pub record Time : Type 0 where
  pub sec : ℕ
  pub nsec : ℕ

abbrev pub Ptr : Type 0
Ptr = ℕ

-- The instances of the trees: children are addresses of inodes, attributes are byte strings.
pub record Sglib : Type 1 where
  pub names : RbTree Ptr
  pub attrs : RbTree Str

-- struct fskit_entry, less its lock. `S` is the type of the children's trees, `X` of the
-- attributes'. NULL as symlink_target is the empty text.
pub record Entry (S X : Type 0) : Type 0 where
  pub file_id : ℕ
  pub kind : Kind
  pub owner : ℕ
  pub group : ℕ
  pub mode : ℕ
  pub ctime : Time
  pub mtime : Time
  pub atime : Time
  pub open_count : ℤ
  pub link_count : ℤ
  pub size : ℤ
  pub deletion_in_progress : Bool
  pub deletion_through_rename : Bool
  pub num_children : ℤ
  pub children : S
  pub app_data : ℕ
  pub dev : ℕ
  pub xattrs : X
  pub symlink_target : Str

pub data Run (S A : Type 0) : Type 0 where
  done : A → S → Run S A
  fault : Run S A
  exits : Run S A

-- What a finished run has returned, and where it has left the store.
pub data Ends {S A : Type 0} (P : A → S → Type 0) : Run S A → Type 0 where
  ends : {a : A} {s : S} → P a s → Ends P (done a s)

-- The address of core->root.
abbrev pub root_ptr : Ptr
root_ptr = 0

module _ (G : Sglib) where
  abbrev pub Inode : Type 0
  Inode = Entry G.names.Tree G.attrs.Tree

  abbrev pub Store : Type 0
  Store = Ptr → Option Inode

  abbrev pub Cmd : Type 0 → Type 0
  Cmd A = Store → Run Store A

module _ {S A B : Type 0} where
  abbrev pub and_then : Run S A → (A → S → Run S B) → Run S B
  and_then (done a s) k = k a s
  and_then fault k = fault
  and_then exits k = exits

  infixl 5 ◌>>=◌ ◌>>◌
  abbrev pub ◌>>=◌ : (S → Run S A) → (A → S → Run S B) → S → Run S B
  m >>= k = λ s. and_then (m s) k

  abbrev pub ◌>>◌ : (S → Run S A) → (S → Run S B) → S → Run S B
  m >> n = m >>= λ _. n

  pub bind-Ends :
      {P : A → S → Type 0} {Q : B → S → Type 0} {r : Run S A} {k : A → S → Run S B}
      → Ends P r
      → ((a : A) (s : S) → P a s → Ends Q (k a s))
      → Ends Q (and_then r k)
  bind-Ends (ends p) next = next _ _ p

abbrev pub pure : {S A : Type 0} → A → S → Run S A
pure a s = done a s

module _ {E : Type 0} where
  -- the store with `p` set to `c`; `none` frees the address
  abbrev pub put : (Ptr → Option E) → Ptr → Option E → Ptr → Option E
  put s p c q = if p == q then c else s q

  abbrev pub load : Ptr → (Ptr → Option E) → Run (Ptr → Option E) E
  load p s = elim (s p) [ none ↦ fault | some e ↦ done e s ]

  abbrev pub store : Ptr → E → (Ptr → Option E) → Run (Ptr → Option E) (Unit {0})
  store p e s = done tt (put s p (some e))

  abbrev pub modify : Ptr → (E → E) → (Ptr → Option E) → Run (Ptr → Option E) (Unit {0})
  modify p f s = elim (s p) [ none ↦ fault | some e ↦ done tt (put s p (some (f e))) ]

  abbrev pub free : Ptr → (Ptr → Option E) → Run (Ptr → Option E) (Unit {0})
  free p s = done tt (put s p none)
