-- ===== src/Tree.antt =====
-- The red-black trees of include/fskit/sglib.h, in which the code keeps a directory's children and
-- an inode's extended attributes, as an interface: the calls that the code makes and what they
-- promise. Members are found by name, compared by strcmp. `add` promises nothing for a name that
-- the tree has already.
pub mod Assoc
use fskit.Base.{ℕ, suc, ◌≡◌, Option, none, some, List, [], ◌∷◌, if◌then◌else◌, length}
use fskit.Base.Bytes.{Str, str_eq}

-- The value of the first pair with that name.
abbrev pub lookup {ℓ} : {V : Type ℓ} → Str → List (Str × V) → Option V
lookup k [] = none
lookup k ((j, v) ∷ xs) = if str_eq j k then some v else lookup k xs

pub record RbTree (V : Type 0) : Type 1 where
  -- a pointer to the root of a tree, NULL included
  pub Tree : Type 0
  pub null : Tree
  -- find_member, and the value of what it found
  pub find : Tree → Str → Option V
  pub add : Tree → Str → V → Tree
  -- delete_if_member
  pub delete : Tree → Str → Tree
  -- a write through the pointer that find_member returned
  pub update : Tree → Str → V → Tree
  -- it_init_inorder and it_next until NULL
  pub members : Tree → List (Str × V)
  pub len : Tree → ℕ
  -- no two members have one name
  pub Distinct : Tree → Type 0
  pub null-Distinct : Distinct null
  pub add-Distinct :
      (t : Tree) (k : Str) (v : V) → Distinct t → find t k ≡ none → Distinct (add t k v)
  pub delete-Distinct : (t : Tree) (k : Str) → Distinct t → Distinct (delete t k)
  pub update-Distinct : (t : Tree) (k : Str) (v : V) → Distinct t → Distinct (update t k v)
  pub find-null : (k : Str) → find null k ≡ none
  pub find-add :
      (t : Tree) (k : Str) (v : V) (j : Str)
      → find t k ≡ none
      → find (add t k v) j ≡ (if str_eq k j then some v else find t j)
  pub find-delete :
      (t : Tree) (k j : Str)
      → Distinct t
      → find (delete t k) j ≡ (if str_eq k j then none else find t j)
  pub find-update :
      (t : Tree) (k : Str) (v w : V) (j : Str)
      → find t k ≡ some w
      → find (update t k v) j ≡ (if str_eq k j then some v else find t j)
  pub len-null : len null ≡ 0
  pub len-add : (t : Tree) (k : Str) (v : V) → find t k ≡ none → len (add t k v) ≡ suc (len t)
  pub len-delete : (t : Tree) (k : Str) (v : V) → find t k ≡ some v → suc (len (delete t k)) ≡ len t
  pub delete_absent : (t : Tree) (k : Str) → find t k ≡ none → delete t k ≡ t
  pub len-update : (t : Tree) (k : Str) (v : V) → len (update t k v) ≡ len t
  pub len-members : (t : Tree) → len t ≡ length (members t)
  pub lookup-members : (t : Tree) (k : Str) → lookup k (members t) ≡ find t k
