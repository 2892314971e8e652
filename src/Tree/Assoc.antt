-- ===== src/Tree/Assoc.antt =====
-- Association lists meet the interface of the trees.
use fskit.Base.{
  suc, ◌≡◌, refl, sym, ap, ◌∙◌, inl, inr, true, false, none, some, List, [], ◌∷◌, arith,
  if◌then◌else◌, length, Bool-cases, subst,
}
use fskit.Base.Bytes.{Str, str_eq, str_eq_sound}
use fskit.Tree.{lookup, RbTree}

differ : (i k j : Str) → str_eq i k ≡ false → str_eq k j ≡ true → str_eq i j ≡ false
differ i k j h e = subst (λ u. str_eq i u ≡ false) (str_eq_sound k j e) h

module _ {V : Type 0} where
  abbrev pub insert : List (Str × V) → Str → V → List (Str × V)
  insert xs k v = (k, v) ∷ xs

  abbrev pub erase : List (Str × V) → Str → List (Str × V)
  erase [] k = []
  erase ((j, v) ∷ xs) k = if str_eq j k then xs else (j, v) ∷ erase xs k

  abbrev pub set : List (Str × V) → Str → V → List (Str × V)
  set [] k v = []
  set ((j, w) ∷ xs) k v = if str_eq j k then (j, v) ∷ xs else (j, w) ∷ set xs k v

  abbrev pub AllDistinct : List (Str × V) → Type 0
  AllDistinct [] = Unit
  AllDistinct ((j, v) ∷ xs) = (lookup j xs ≡ none) × AllDistinct xs

  lookup_eq : (xs : List (Str × V)) (j k : Str) → str_eq j k ≡ true → lookup j xs ≡ lookup k xs
  lookup_eq xs j k e = ap (λ u. lookup u xs) (str_eq_sound j k e)

  lookup-erase_other :
      (xs : List (Str × V)) (k j : Str) → str_eq k j ≡ false → lookup j (erase xs k) ≡ lookup j xs
  lookup-erase_other [] k j h = refl
  lookup-erase_other ((i, v) ∷ xs) k j h = elim (Bool-cases (str_eq i k)) [
    | inl e ↦
        let other : str_eq i j ≡ false =
          subst (λ u. str_eq u j ≡ false) (sym (str_eq_sound i k e)) h in
        rw (e, other)
    | inr e ↦ rw e (ap (λ u. if str_eq i j then some v else u) (lookup-erase_other xs k j h))
  ]

  lookup-erase_self :
      (xs : List (Str × V)) (k : Str) → AllDistinct xs → lookup k (erase xs k) ≡ none
  lookup-erase_self [] k d = refl
  lookup-erase_self ((i, v) ∷ xs) k (d, ds) = elim (Bool-cases (str_eq i k)) [
    | inl e ↦ rw e (sym (lookup_eq xs i k e) ∙ d)
    | inr e ↦ rw (e, e) (lookup-erase_self xs k ds)
  ]

  pub lookup-erase :
      (xs : List (Str × V)) (k j : Str)
      → AllDistinct xs
      → lookup j (erase xs k) ≡ (if str_eq k j then none else lookup j xs)
  lookup-erase xs k j d = elim (Bool-cases (str_eq k j)) [
    | inl e ↦
        rw e (
          subst (λ u. lookup u (erase xs k) ≡ none) (str_eq_sound k j e) (lookup-erase_self xs k d))
    | inr e ↦ rw e (lookup-erase_other xs k j e)
  ]

  pub lookup-set :
      (xs : List (Str × V)) (k : Str) (v w : V) (j : Str)
      → lookup k xs ≡ some w
      → lookup j (set xs k v) ≡ (if str_eq k j then some v else lookup j xs)
  lookup-set [] k v w j h = cc
  lookup-set ((i, x) ∷ xs) k v w j h = elim (Bool-cases (str_eq i k)) [
    | inl e ↦
        let same : str_eq k j ≡ str_eq i j = ap (λ u. str_eq u j) (sym (str_eq_sound i k e)) in
        rw (e, same) (ground arith)
    | inr e ↦ ground (arith, lookup-set xs k v w j, differ i k j e)
  ]

  lookup-set_absent :
      (xs : List (Str × V)) (k : Str) (v : V) (j : Str)
      → lookup j xs ≡ none
      → lookup j (set xs k v) ≡ none
  lookup-set_absent [] k v j h = refl
  lookup-set_absent ((i, x) ∷ xs) k v j h = ground (arith, lookup-set_absent xs k v j)

  lookup-erase_absent :
      (xs : List (Str × V)) (k : Str) (j : Str) → lookup j xs ≡ none → lookup j (erase xs k) ≡ none
  lookup-erase_absent [] k j h = refl
  lookup-erase_absent ((i, x) ∷ xs) k j h = ground (arith, lookup-erase_absent xs k j)

  pub erase-AllDistinct :
      (xs : List (Str × V)) (k : Str) → AllDistinct xs → AllDistinct (erase xs k)
  erase-AllDistinct [] k d = tt
  erase-AllDistinct ((i, x) ∷ xs) k d =
      ground (arith, lookup-erase_absent xs k i, erase-AllDistinct xs k)

  pub set-AllDistinct :
      (xs : List (Str × V)) (k : Str) (v : V) → AllDistinct xs → AllDistinct (set xs k v)
  set-AllDistinct [] k v d = tt
  set-AllDistinct ((i, x) ∷ xs) k v d =
      ground (arith, lookup-set_absent xs k v i, set-AllDistinct xs k v)

  pub length-erase :
      (xs : List (Str × V)) (k : Str) (v : V)
      → lookup k xs ≡ some v
      → suc (length (erase xs k)) ≡ length xs
  length-erase [] k v h = cc
  length-erase ((i, x) ∷ xs) k v h = ground (arith, length-erase xs k v)

  pub erase_absent : (xs : List (Str × V)) (k : Str) → lookup k xs ≡ none → erase xs k ≡ xs
  erase_absent [] k h = refl
  erase_absent ((i, x) ∷ xs) k h = ground (arith, erase_absent xs k)

  pub length-set : (xs : List (Str × V)) (k : Str) (v : V) → length (set xs k v) ≡ length xs
  length-set [] k v = refl
  length-set ((i, x) ∷ xs) k v = ground (arith, length-set xs k v)

-- The trees of the tests.
abbrev pub assoc : (V : Type 0) → RbTree V
assoc V = record {
  Tree = List (Str × V);
  null = [];
  find = λ t k. lookup k t;
  add = insert;
  delete = erase;
  update = set;
  members = λ t. t;
  len = length;
  Distinct = AllDistinct;
  null-Distinct = tt;
  add-Distinct = λ t k v d h. (h, d);
  delete-Distinct = erase-AllDistinct;
  update-Distinct = set-AllDistinct;
  find-null = λ k. refl;
  find-add = λ t k v j h. refl;
  find-delete = lookup-erase;
  find-update = lookup-set;
  len-null = refl;
  len-add = λ t k v h. refl;
  len-delete = length-erase;
  delete_absent = erase_absent;
  len-update = length-set;
  len-members = λ t. refl;
  lookup-members = λ t k. refl;
}
