-- ===== src/Ops/Detach/Weight.antt =====
-- How many names besides "." and ".." a store holds, and commands that do not raise their number.
use fskit.Base.{
  ℕ, ◌+◌, ◌≤◌, ◌≡◌, refl, sym, subst, inl, inr, Bool, true, false, Option, none, some, List, [],
  ◌∷◌, arith, ◌==◌, if◌then◌else◌, Bool-cases, Option-cases,
}
use fskit.Base.Int.{ℤ}
use fskit.Base.Bytes.{Str}
use fskit.Calls.{
  Routes, RouteType, Call, no_route, ran, null_route, run_user, unreferenced, outcome,
}
use fskit.Ops.Detach.{is_dots}
use fskit.Store.{
  Sglib, Inode, Store, Ptr, Run, done, fault, exits, and_then, load, modify, free, put, is_dir,
}

-- A command that has come to its end has run its first part to its end.
pub bind_inv :
    {S A B : Type 0} (r : Run S A) (k : A → S → Run S B) (b : B) (s : S)
    → and_then r k ≡ done b s
    → (a : A) × (t : S) × (r ≡ done a t) × (k a t ≡ done b s)
bind_inv (done a t) k b s h = (a, t, refl, h)
bind_inv fault k b s h = cc
bind_inv exits k b s h = cc

pub done_inv :
    {S A : Type 0} (a b : A) (s t : S) → ◌≡◌ {A = Run S A} (done a s) (done b t) → (a ≡ b) × (s ≡ t)
done_inv a b s t h = (cc, cc)

abbrev pub count_names : List (Str × Ptr) → ℕ
count_names [] = 0
count_names ((name, p) ∷ rest) = (if is_dots name then 0 else 1) + count_names rest

module _ (G : Sglib) where
  open G use {names}

  abbrev pub weight : Option (Inode G) → ℕ
  weight none = 0
  weight (some e) = if is_dir e.kind then count_names (names.members e.children) else 0

  abbrev pub is_used : Option (Inode G) → Bool
  is_used none = false
  is_used (some _) = true

  -- No inode has more names, and no address is in use that was not.
  pub record Lighter (t s : Store G) : Type 0 where
    pub less : (q : Ptr) → weight (t q) ≤ weight (s q)
    pub unused : (q : Ptr) → is_used (s q) ≡ false → is_used (t q) ≡ false

  pub Lighter-refl : (s : Store G) → Lighter s s
  Lighter-refl s = record { less = λ q. omega arith; unused = λ q h. h }

  pub Lighter-trans : (t u s : Store G) → Lighter t u → Lighter u s → Lighter t s
  Lighter-trans t u s a b = record {
    less = λ q. omega (arith, a.less q, b.less q);
    unused = λ q h. a.unused q (b.unused q h);
  }

  -- a write at one address
  pub put-Lighter :
      (s : Store G) (p : Ptr) (e : Inode G) (o : Option (Inode G))
      → s p ≡ some e
      → weight o ≤ weight (some e)
      → Lighter (put s p o) s
  put-Lighter s p e o h w = record {
    less = λ q. elim (Bool-cases (p == q)) [
      | inl t ↦
          let same : p ≡ q = ground arith in
          rw t
            (subst (λ x. weight o ≤ weight (s x)) same (subst (λ x. weight o ≤ weight x) (sym h) w))
      | inr t ↦ rw t (omega arith)
    ];
    unused = λ q k. elim (Bool-cases (p == q)) [
      | inl t ↦ let same : p ≡ q = ground arith in absurd (cc (h, same, k))
      | inr t ↦ rw t k
    ];
  }

  -- A command that makes nothing heavier, whatever it returns.
  abbrev pub Lightens : {A : Type 0} → Store G → Run (Store G) A → Type 0
  Lightens {A} s r = (a : A) (t : Store G) → r ≡ done a t → Lighter t s

  pub bind-Lightens :
      {A B : Type 0} (s : Store G) (r : Run (Store G) A) (k : A → Store G → Run (Store G) B)
      → Lightens s r
      → ((a : A) (t : Store G) → Lightens t (k a t))
      → Lightens s (and_then r k)
  bind-Lightens s r k one rest b t h =
      let (a, u, e, f) = bind_inv r k b t h in Lighter-trans t u s (rest a u b t f) (one a u e)

  pub pure-Lightens : {A : Type 0} (s : Store G) (a : A) → Lightens s (done a s)
  pure-Lightens s a b t h = subst (λ u. Lighter u s) (done_inv a b s t h).1 (Lighter-refl s)

  pub fault-Lightens : {A : Type 0} (s : Store G) → Lightens {A = A} s fault
  fault-Lightens s a t h = cc

  pub exits-Lightens : {A : Type 0} (s : Store G) → Lightens {A = A} s exits
  exits-Lightens s a t h = cc

  load-none : (s : Store G) (p : Ptr) → s p ≡ none → load p s ≡ fault
  load-none s p e = ground (arith, e)

  pub load-some : (s : Store G) (p : Ptr) (i : Inode G) → s p ≡ some i → load p s ≡ done i s
  load-some s p i e = ground (arith, e)

  pub load-Lightens : (s : Store G) (p : Ptr) → Lightens s (load p s)
  load-Lightens s p = elim (Option-cases (s p)) [
    | inl e ↦ subst (Lightens s) (sym (load-none s p e)) (fault-Lightens s)
    | inr (i, e) ↦ subst (Lightens s) (sym (load-some s p i e)) (pure-Lightens s i)
  ]

  modify-none : (s : Store G) (p : Ptr) (f : Inode G → Inode G) → s p ≡ none → modify p f s ≡ fault
  modify-none s p f e = ground (arith, e)

  modify-some :
      (s : Store G) (p : Ptr) (f : Inode G → Inode G) (i : Inode G)
      → s p ≡ some i
      → modify p f s ≡ done tt (put s p (some (f i)))
  modify-some s p f i e = ground (arith, e)

  put-Lightens :
      (s : Store G) (p : Ptr) (e : Inode G) (o : Option (Inode G))
      → s p ≡ some e
      → weight o ≤ weight (some e)
      → Lightens {A = Unit {0}} s (done tt (put s p o))
  put-Lightens s p e o h w a t k =
      subst (λ u. Lighter u s) (done_inv tt a (put s p o) t k).1 (put-Lighter s p e o h w)

  pub modify-Lightens :
      (s : Store G) (p : Ptr) (f : Inode G → Inode G)
      → ((e : Inode G) → weight (some (f e)) ≤ weight (some e))
      → Lightens s (modify p f s)
  modify-Lightens s p f w = elim (Option-cases (s p)) [
    | inl e ↦ subst (Lightens s) (sym (modify-none s p f e)) (fault-Lightens s)
    | inr (i, e) ↦
        subst (Lightens s) (sym (modify-some s p f i e)) (put-Lightens s p i (some (f i)) e (w i))
  ]

  pub free-Lightens : (s : Store G) (p : Ptr) → Lightens s (free p s)
  free-Lightens s p a t h =
      subst (λ u. Lighter u s) (done_inv tt a (put s p none) t h).1 (freed s p)
    where
      freed : (u : Store G) (q : Ptr) → Lighter (put u q none) u
      freed u q = record { less = λ x. ground arith; unused = λ x k. ground arith }

  -- A callback changes no inode.
  outcome-Lightens :
      (s : Store G) (t : RouteType) (e : Inode G) (k : Call) (d : ℤ)
      → Lightens s (outcome G t e k d s)
  outcome-Lightens s t e no_route d = pure-Lightens s d
  outcome-Lightens s t e (ran rc) d = elim (Bool-cases (unreferenced G t e)) [
    | inl h ↦ rw h (exits-Lightens s)
    | inr h ↦ rw h (pure-Lightens s rc)
  ]
  outcome-Lightens s t e null_route d = fault-Lightens s

  pub run_user-Lightens :
      (s : Store G) (d : ℤ) (routes : Routes) (t : RouteType) (path : Str) (p : Ptr)
      → Lightens s (run_user G d routes t path p s)
  unfolding run_user
  run_user-Lightens s d routes t path p =
      bind-Lightens s (load p s) (λ e. outcome G t e (routes t path) d) (load-Lightens s p)
        (λ e u. outcome-Lightens u t e (routes t path) d)
