-- ===== src/Ops/Detach/Total.antt =====
-- The names besides "." and ".." at a list of addresses.
use fskit.Base.{
  ℕ, ◌+◌, ◌≤◌, ◌≡◌, ap, subst, inl, inr, Bool, true, false, ◌||◌, Option, List, [], ◌∷◌, arith,
  ◌==◌, Bool-cases,
}
use fskit.Ops.Detach.Weight.{weight, Lighter, is_used}
use fskit.Store.{Sglib, Inode, Store, Ptr, put}

abbrev pub has : Ptr → List Ptr → Bool
has p [] = false
has p (q ∷ dom) = (p == q) || has p dom

module _ (G : Sglib) where
  abbrev pub total : Store G → List Ptr → ℕ
  total s [] = 0
  total s (p ∷ dom) = weight G (s p) + total s dom

  -- Every address in use is in the list.
  abbrev pub Covers : List Ptr → Store G → Type 0
  Covers dom s = (p : Ptr) → has p dom ≡ false → is_used G (s p) ≡ false

  pub Covers-Lighter :
      (dom : List Ptr) (s t : Store G) → Lighter G t s → Covers dom s → Covers dom t
  Covers-Lighter dom s t l c p h = l.unused p (c p h)

  pub total-Lighter : (dom : List Ptr) (s t : Store G) → Lighter G t s → total t dom ≤ total s dom
  total-Lighter [] s t l = omega arith
  total-Lighter (p ∷ dom) s t l = omega (arith, l.less p, total-Lighter dom s t l)

  -- A write that leaves no name at an address of the list takes the names there off the total.
  pub total-put :
      (dom : List Ptr) (s : Store G) (p : Ptr) (o : Option (Inode G))
      → has p dom ≡ true
      → weight G o ≡ 0
      → Lighter G (put s p o) s
      → weight G (s p) + total (put s p o) dom ≤ total s dom
  total-put [] s p o h w l = absurd (cc h)
  total-put (q ∷ dom) s p o h w l = elim (Bool-cases (p == q)) [
    | inl t ↦
        let same : p ≡ q = ground arith in
        let rest = total-Lighter dom s (put s p o) l in
        let here : weight G (put s p o q) ≡ 0 = rw t w in
        let there : weight G (s p) ≡ weight G (s q) = ap (λ x. weight G (s x)) same in
        omega (arith, rest, here, there)
    | inr t ↦
        let more : has p dom ≡ true = subst (λ x. (x || has p dom) ≡ true) t h in
        omega (arith, l.less q, total-put dom s p o more w l)
  ]
