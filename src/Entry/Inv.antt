-- ===== src/Entry/Inv.antt =====
-- Well-formed directories and stores.
use fskit.Base.{
  ◌≡◌, ◌≢◌, sym, subst, Bool-cases, inl, inr, true, false, none, some, ◌==◌, eq_refl, arith, Option,
}
use fskit.Base.Int.{pos, inc}
use fskit.Base.Bytes.{Str, dot, dotdot}
use fskit.Store.{Sglib, Inode, Store, Ptr, is_dir, put}

module _ {E : Type 0} (s : Ptr → Option E) where
  put-hit : (p q : Ptr) (e d : E) → (p == q) ≡ true → put s p (some e) q ≡ some d → e ≡ d
  put-hit p q e d t h = ground arith

  put-miss : (p q : Ptr) (e d : E) → (p == q) ≡ false → put s p (some e) q ≡ some d → s q ≡ some d
  put-miss p q e d t h = ground arith

  pub put-live : (p q : Ptr) (e : E) → s q ≢ none → put s p (some e) q ≢ none
  put-live p q e h = ground arith

  pub put_self : (p : Ptr) (e : E) → put s p (some e) p ≡ some e
  put_self p e = ground (arith, eq_refl p)

  pub put-other : (p q : Ptr) (e : Option E) → (p == q) ≡ false → put s p e q ≡ s q
  put-other p q e h = rw h

module _ (G : Sglib) where
  open G use {names}

  -- A directory has "." and "..", no name twice, and counts its other children.
  pub record DirOk (e : Inode G) : Type 0 where
    pub distinct : names.Distinct e.children
    pub self : names.find e.children dot ≢ none
    pub up : names.find e.children dotdot ≢ none
    pub counted : inc (inc e.num_children) ≡ pos (names.len e.children)

  -- Every directory is well formed, and no name leads to a freed inode.
  pub record StoreOk (s : Store G) : Type 0 where
    pub dirs : (p : Ptr) (e : Inode G) → s p ≡ some e → is_dir e.kind ≡ true → DirOk e
    pub closed :
        (p : Ptr) (e : Inode G) (k : Str) (q : Ptr)
        → s p ≡ some e
        → names.find e.children k ≡ some q
        → s q ≢ none

  -- A live inode is exchanged for one with well-formed children.
  pub put-StoreOk :
      (s : Store G) (p : Ptr) (e : Inode G)
      → StoreOk s
      → (is_dir e.kind ≡ true → DirOk e)
      → ((k : Str) (q : Ptr) → names.find e.children k ≡ some q → put s p (some e) q ≢ none)
      → StoreOk (put s p (some e))
  put-StoreOk s p e ok good reach = record {
    dirs = λ q d h i. elim (Bool-cases (p == q)) [
      | inl t ↦
          subst (λ (u : Inode G). is_dir u.kind ≡ true → DirOk u) (put-hit s p q e d t h) good i
      | inr t ↦ ok.dirs q d (put-miss s p q e d t h) i
    ];
    closed = λ q d k r h f. elim (Bool-cases (p == q)) [
      | inl t ↦ reach k r (
          subst (λ (u : Inode G). names.find u.children k ≡ some r) (sym (put-hit s p q e d t h)) f)
      | inr t ↦ put-live s p r e (ok.closed q d k r (put-miss s p q e d t h) f)
    ];
  }
