-- ===== src/Ops/Detach/Fresh.antt =====
-- A new set of children, and the store in which a directory has been given one.
use fskit.Base.{
  suc, ◌≡◌, sym, ap, ◌⊎◌, ◌∙◌, subst, inl, inr, Bool, true, false, Option, none, some, List, [],
  ◌∷◌, arith, if◌then◌else◌, Bool-cases, Option-cases, length,
}
use fskit.Base.Int.{ℤ}
use fskit.Base.Bytes.{Str, dot, dotdot, str_eq, str_eq_sound}
use fskit.Entry.{tagged, tag_garbage}
use fskit.Errno.{ok_rc, enomem, eio}
use fskit.Ops.Detach.Weight.{done_inv, count_names}
use fskit.Tree.{lookup}
use fskit.Store.{Sglib, Inode, Store, Ptr, done, put, is_dir}

abbrev is_here : Option Ptr → Bool
is_here none = false
is_here (some _) = true

here_test : (t : Bool) (q : Ptr) → is_here (if t then some q else none) ≡ true → t ≡ true
here_test t q h = ground (arith, h)

-- two names, among them "." and ".."
count_names_dots :
    (l : List (Str × Ptr))
    → length l ≡ 2
    → is_here (lookup dot l) ≡ true
    → is_here (lookup dotdot l) ≡ true
    → count_names l ≡ 0
count_names_dots [] h d dd = omega (arith, h)
count_names_dots ((a, p) ∷ []) h d dd = omega (arith, h)
count_names_dots ((a, p) ∷ (b, q) ∷ []) h d dd = elim (Bool-cases (str_eq a dot)) [
  | inl x ↦
      let same : a ≡ dot = str_eq_sound a dot x in
      let y : is_here (if str_eq b dotdot then some q else none) ≡ true =
        subst (λ c. is_here (lookup dotdot ((c, p) ∷ (b, q) ∷ [])) ≡ true) same dd in
      ground (arith, x, here_test (str_eq b dotdot) q y)
  | inr x ↦
      let y : str_eq b dot ≡ true = here_test (str_eq b dot) q (
        subst (λ t. is_here (if t then some p else if str_eq b dot then some q else none) ≡ true) x
          d) in
      let z : str_eq a dotdot ≡ true = here_test (str_eq a dotdot) p (
        subst (λ c. is_here (lookup dotdot ((a, p) ∷ (c, q) ∷ [])) ≡ true) (str_eq_sound b dot y)
          dd) in
      ground (arith, x, y, z)
]
count_names_dots ((a, p) ∷ (b, q) ∷ x ∷ l) h d dd = omega (arith, h)

module _ (G : Sglib) where
  open G use {names}

  abbrev new_names : Ptr → Ptr → names.Tree
  new_names node parent = names.add (names.add names.null dot node) dotdot parent

  find_dots : (node parent : Ptr) → names.find (names.add names.null dot node) dotdot ≡ none
  find_dots node parent =
      names.find-add names.null dot node dotdot (names.find-null dot) ∙ names.find-null dotdot

  count-new_names : (node parent : Ptr) → count_names (names.members (new_names node parent)) ≡ 0
  count-new_names node parent =
      let one = names.add names.null dot node in
      let size : names.len (new_names node parent) ≡ 2 =
        names.len-add one dotdot parent (find_dots node parent)
        ∙ ap suc
            (names.len-add names.null dot node (names.find-null dot) ∙ ap suc names.len-null) in
      let found : (k : Str)
          → names.find (new_names node parent) k
            ≡ (if str_eq dotdot k then some parent else names.find one k) =
        λ k. names.find-add one dotdot parent k (find_dots node parent) in
      count_names_dots (names.members (new_names node parent))
        (sym (names.len-members (new_names node parent)) ∙ size)
        (ap is_here (
          names.lookup-members (new_names node parent) dot
          ∙ found dot
          ∙ names.find-add names.null dot node dot (names.find-null dot)))
        (ap is_here (names.lookup-members (new_names node parent) dotdot ∙ found dotdot))

  abbrev pub IsTagged : Ptr → Inode G → Store G → (r : Option names.Tree) → Store G → Type 0
  IsTagged p e s r t =
      ((r ≡ none) × (t ≡ s))
      ⊎ ((r ≡ some e.children)
          × ((set : names.Tree) × (count_names (names.members set) ≡ 0)
              × (t ≡ put s p (some (tagged G set e)))))

  tag_orphan :
      (mem : Bool) (p : Ptr) (s : Store G) (e : Inode G)
      → s p ≡ some e
      → is_dir e.kind ≡ true
      → names.find e.children dotdot ≡ none
      → tag_garbage G mem p s ≡ done (eio, none) s
  unfolding tag_garbage
  tag_orphan mem p s e h dir f = ground (arith, h, dir, f)

  tag_enomem :
      (p : Ptr) (s : Store G) (e : Inode G) (parent : Ptr)
      → s p ≡ some e
      → is_dir e.kind ≡ true
      → names.find e.children dotdot ≡ some parent
      → tag_garbage G false p s ≡ done (enomem, none) s
  unfolding tag_garbage
  tag_enomem p s e parent h dir f = ground (arith, h, dir, f)

  tag_new :
      (p : Ptr) (s : Store G) (e : Inode G) (parent : Ptr)
      → s p ≡ some e
      → is_dir e.kind ≡ true
      → names.find e.children dotdot ≡ some parent
      → tag_garbage G true p s
        ≡ done (ok_rc, some e.children) (put s p (some (tagged G (new_names p parent) e)))
  unfolding tag_garbage
  tag_new p s e parent h dir f = ground (arith, h, dir, f)

  pub tag_garbage-IsTagged :
      (mem : Bool) (p : Ptr) (s : Store G) (e : Inode G)
      → s p ≡ some e
      → is_dir e.kind ≡ true
      → (r : ℤ × Option names.Tree) (t : Store G) → tag_garbage G mem p s ≡ done r t
      → IsTagged p e s r.1 t
  tag_garbage-IsTagged mem p s e h dir r t k = elim (Option-cases (names.find e.children dotdot)) [
    | inl f ↦
        let (x, y) = done_inv (eio, none) r s t (sym (tag_orphan mem p s e h dir f) ∙ k) in
        inl (ap (λ (w : ℤ × Option names.Tree). w.1) (sym x), sym y)
    | inr (parent, f) ↦ elim (Bool-cases mem) [
      | inr m ↦
          let k' = subst (λ w. tag_garbage G w p s ≡ done r t) m k in
          let (x, y) = done_inv (enomem, none) r s t (sym (tag_enomem p s e parent h dir f) ∙ k') in
          inl (ap (λ (w : ℤ × Option names.Tree). w.1) (sym x), sym y)
      | inl m ↦
          let k' = subst (λ w. tag_garbage G w p s ≡ done r t) m k in
          let (x, y) =
            done_inv (ok_rc, some e.children) r (put s p (some (tagged G (new_names p parent) e))) t
              (sym (tag_new p s e parent h dir f) ∙ k') in
          inr (
            ap (λ (w : ℤ × Option names.Tree). w.1) (sym x),
            (new_names p parent, count-new_names p parent, sym y),
          )
    ]
  ]
