-- ===== src/Examples/World.antt =====
-- A small file system: the directories "/", "/d" and "/e", and the files "/f" and "/e/g".
use fskit.Base.{
  ℕ, ◌≡◌, ◌≢◌, refl, subst, inl, inr, true, false, none, some, List, [], ◌∷◌, arith, ◌==◌,
  if◌then◌else◌, Bool-cases,
}
use fskit.Base.Int.{ℤ, pos}
use fskit.Base.Bytes.{Str, codes, dot, dotdot, str_eq}
use fskit.Calls.{no_route}
use fskit.Entry.Inv.{DirOk, StoreOk}
use fskit.Ops.{Env}
use fskit.Store.{Sglib, Inode, Store, Ptr, Kind, dir, file, is_dir, Time}
use fskit.Tree.{lookup}
use fskit.Tree.Assoc.{assoc}

abbrev pub sgl : Sglib
sgl = record { names = assoc Ptr; attrs = assoc Str }

abbrev pub noon : Time
noon = record { sec = 43200; nsec = 0 }

abbrev pub quiet : Env
quiet = record {
  mem = true;
  fresh = 9;
  inode = 9;
  clock = record { rc = pos 0; now = noon };
  routes = λ t path. no_route;
  user_data = 0;
  handle_data = 0;
  stale = λ _. 0;
}

abbrev pub node : Kind → ℕ → List (Str × Ptr) → ℤ → Inode sgl
node kind file_id children num_children = record {
  file_id = file_id;
  kind = kind;
  owner = 7;
  group = 7;
  mode = 0o755;
  ctime = noon;
  mtime = noon;
  atime = noon;
  open_count = pos 0;
  link_count = pos 1;
  size = pos 5;
  deletion_in_progress = false;
  deletion_through_rename = false;
  num_children = num_children;
  children = children;
  app_data = 0;
  dev = 0;
  xattrs = [];
  symlink_target = [];
}

abbrev pub root_dir : Inode sgl
root_dir =
    node dir 1 ((dot, 0) ∷ (dotdot, 0) ∷ (codes "f", 1) ∷ (codes "d", 2) ∷ (codes "e", 3) ∷ [])
      (pos 3)

abbrev pub f_file : Inode sgl
f_file = node file 2 [] (pos 0)

abbrev pub d_dir : Inode sgl
d_dir = node dir 3 ((dot, 2) ∷ (dotdot, 0) ∷ []) (pos 0)

abbrev pub e_dir : Inode sgl
e_dir = node dir 4 ((dot, 3) ∷ (dotdot, 0) ∷ (codes "g", 4) ∷ []) (pos 1)

abbrev pub g_file : Inode sgl
g_file = node file 5 [] (pos 0)

abbrev pub world : Store sgl
world p =
    if p == 0
    then some root_dir
    else if p == 1
    then some f_file
    else if p == 2
    then some d_dir
    else if p == 3
    then some e_dir
    else if p == 4
    then some g_file
    else none

abbrev AllLive : List (Str × Ptr) → Type 0
AllLive [] = Unit
AllLive ((k, q) ∷ xs) = (world q ≢ none) × AllLive xs

lookup-live :
    (xs : List (Str × Ptr)) (k : Str) (q : Ptr) → AllLive xs → lookup k xs ≡ some q → world q ≢ none
lookup-live [] k q a h = ground arith
lookup-live ((j, r) ∷ xs) k q (a, rest) h = elim (Bool-cases (str_eq j k)) [
  | inl t ↦ let same : r ≡ q = ground arith in subst (λ u. world u ≢ none) same a
  | inr t ↦ lookup-live xs k q rest (rw t at h)
]

pub root_dir-DirOk : DirOk sgl root_dir
root_dir-DirOk = record {
  distinct = ground arith;
  self = λ h. ground arith;
  up = λ h. ground arith;
  counted = refl;
}

pub d_dir-DirOk : DirOk sgl d_dir
d_dir-DirOk = record {
  distinct = ground arith;
  self = λ h. ground arith;
  up = λ h. ground arith;
  counted = refl;
}

pub e_dir-DirOk : DirOk sgl e_dir
e_dir-DirOk = record {
  distinct = ground arith;
  self = λ h. ground arith;
  up = λ h. ground arith;
  counted = refl;
}

-- An inode of the store is one of the five.
pub world_cases :
    (P : Ptr → Inode sgl → Type 0) (p : Ptr) (e : Inode sgl)
    → P 0 root_dir
    → P 1 f_file
    → P 2 d_dir
    → P 3 e_dir
    → P 4 g_file
    → world p ≡ some e
    → P p e
world_cases P p e a b c d g h = elim (Bool-cases (p == 0)) [
  | inl t ↦
      let same : root_dir ≡ e = ground arith in
      let here : 0 ≡ p = ground arith in subst (λ w. P w e) here (subst (P 0) same a)
  | inr t ↦ elim (Bool-cases (p == 1)) [
    | inl u ↦
        let same : f_file ≡ e = ground arith in
        let here : 1 ≡ p = ground arith in subst (λ w. P w e) here (subst (P 1) same b)
    | inr u ↦ elim (Bool-cases (p == 2)) [
      | inl v ↦
          let same : d_dir ≡ e = ground arith in
          let here : 2 ≡ p = ground arith in subst (λ w. P w e) here (subst (P 2) same c)
      | inr v ↦ elim (Bool-cases (p == 3)) [
        | inl w ↦
            let same : e_dir ≡ e = ground arith in
            let here : 3 ≡ p = ground arith in subst (λ w. P w e) here (subst (P 3) same d)
        | inr w ↦ elim (Bool-cases (p == 4)) [
          | inl x ↦
              let same : g_file ≡ e = ground arith in
              let here : 4 ≡ p = ground arith in subst (λ w. P w e) here (subst (P 4) same g)
          | inr x ↦ absurd (ground arith)
        ]
      ]
    ]
  ]
]

abbrev LiveEntry : Inode sgl → Type 0
LiveEntry e = AllLive e.children

pub world-StoreOk : StoreOk sgl world
world-StoreOk = record {
  dirs = λ p e h.
      world_cases (λ _ u. is_dir u.kind ≡ true → DirOk sgl u) p e (λ _. root_dir-DirOk)
        (λ k. absurd (ground arith)) (λ _. d_dir-DirOk) (λ _. e_dir-DirOk)
        (λ k. absurd (ground arith)) h;
  closed = λ p e k q h f.
      lookup-live e.children k q
        (world_cases (λ _ u. LiveEntry u) p e
          (
            (λ x. ground arith),
            (
              (λ x. ground arith),
              ((λ x. ground arith), ((λ x. ground arith), ((λ x. ground arith), tt))),
            ),
          )
          tt ((λ x. ground arith), ((λ x. ground arith), tt))
          ((λ x. ground arith), ((λ x. ground arith), ((λ x. ground arith), tt))) tt h)
        f;
}
