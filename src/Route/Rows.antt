-- ===== src/Route/Rows.antt =====
-- The red-black trees of include/fskit/sglib.h, in which libfskit/route.c keeps the rows of its table
-- of routes, as an interface: the calls that the code makes and what they promise. Members are found
-- by route type, compared by the numbers of include/fskit/route.h.
use fskit.Base.{ℕ, ◌≡◌, Bool, Option, none, some, ◌==◌, if◌then◌else◌}
use fskit.Calls.{
  RouteType, create, mkdir, mknod, open_file, readdir, read, write, trunc, close, detach, stat,
  sync, rename, link, destroy, getxattr, listxattr, setxattr, removexattr, setmetadata,
}

abbrev pub type_code : RouteType → ℕ
type_code create = 0
type_code mkdir = 1
type_code mknod = 2
type_code open_file = 3
type_code readdir = 4
type_code read = 5
type_code write = 6
type_code trunc = 7
type_code close = 8
type_code detach = 9
type_code stat = 10
type_code sync = 11
type_code rename = 12
type_code link = 13
type_code destroy = 14
type_code getxattr = 15
type_code listxattr = 16
type_code setxattr = 17
type_code removexattr = 18
type_code setmetadata = 19

-- FSKIT_ROUTE_TABLE_ROW_CMP( r1, r2 ) == 0
abbrev pub same_type : RouteType → RouteType → Bool
same_type t u = type_code t == type_code u

pub record RowTree (V : Type 0) : Type 1 where
  pub Tree : Type 0
  pub null : Tree
  -- find_member, and what it found
  pub find : Tree → RouteType → Option V
  pub add : Tree → RouteType → V → Tree
  pub delete : Tree → RouteType → Tree
  -- a write through the pointer that find_member returned
  pub update : Tree → RouteType → V → Tree
  -- no two rows have one type
  pub Distinct : Tree → Type 0
  pub null-Distinct : Distinct null
  pub add-Distinct :
      (t : Tree) (k : RouteType) (v : V) → Distinct t → find t k ≡ none → Distinct (add t k v)
  pub delete-Distinct : (t : Tree) (k : RouteType) → Distinct t → Distinct (delete t k)
  pub update-Distinct : (t : Tree) (k : RouteType) (v : V) → Distinct t → Distinct (update t k v)
  pub find-null : (k : RouteType) → find null k ≡ none
  pub find-add :
      (t : Tree) (k : RouteType) (v : V) (j : RouteType)
      → find t k ≡ none
      → find (add t k v) j ≡ (if same_type k j then some v else find t j)
  pub find-delete :
      (t : Tree) (k j : RouteType)
      → Distinct t
      → find (delete t k) j ≡ (if same_type k j then none else find t j)
  pub find-update :
      (t : Tree) (k : RouteType) (v w : V) (j : RouteType)
      → find t k ≡ some w
      → find (update t k v) j ≡ (if same_type k j then some v else find t j)
