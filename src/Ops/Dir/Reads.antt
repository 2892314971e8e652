-- ===== src/Ops/Dir/Reads.antt =====
-- fskit_readdir, and a client that calls it until it returns NULL.
use fskit.Base.{
  ℕ, zero, suc, ◌<◌, ◌≡◌, refl, sym, ap, ◌∙◌, subst, true, false, Option, none, some, List, [], ◌∷◌,
  ◌++◌, arith, length, length-drop, take, drop,
}
use fskit.Base.Int.{is_nonpos}
use fskit.Base.Bytes.{Str, is_empty}
use fskit.Calls.{no_route, readdir as readdir_route}
use fskit.Errno.{ok_rc}
use fskit.Ops.{Env}
use fskit.Ops.Dir.{
  DirHandle, DirEntry, Members, tail, read_to, readdir_lowlevel, how_many, readdir,
  run_and_compactify, from_greater,
}
use fskit.Ops.Dir.Listing.{listing}
use fskit.Ops.Dir.Chunks.{compactify_full, remaining, find_start-none, Reads}
use fskit.Ops.Dir.Whole.{Listable, ReadsChunk, lowlevel_reads}
use fskit.Store.{Sglib, Inode, Store, Cmd, Ptr, done, pure, ◌>>=◌}

-- The client's loop: it reads until there is no list. `none` means that the fuel ran out.
module _ (G : Sglib) (env : Env) (omit : List DirEntry → List (Option DirEntry)) where
  append_read : List DirEntry → Option (List DirEntry) → Option (List DirEntry)
  append_read es none = none
  append_read es (some rest) = some (es ++ rest)

  unfoldable pub read_all : ℕ → (num_children : ℕ → ℕ) → DirHandle → Cmd G (Option (List DirEntry))
  unfolding append_read
  read_all zero num_children dirh = pure none
  read_all (suc fuel) num_children dirh = do
    r ← readdir G env omit dirh (num_children fuel)
    elim r.1 [
      | none ↦ pure (some [])
      | some es ↦ do rest ← read_all fuel num_children r.2; pure (append_read es rest)
    ]

module _ (G : Sglib) (env : Env) (omit : List DirEntry → List (Option DirEntry)) (s : Store G)
    (d : Inode G) (p : Ptr) where
  open G use {names}

  -- Memory is there, no callback for listing, and the directory is held open.
  pub record Quiet (path : Str) : Type 0 where
    pub memory : env.mem ≡ true
    pub no_callback : env.routes readdir_route path ≡ no_route
    pub held : is_nonpos d.open_count ≡ false

  compactified :
      (path : Str) (es : List DirEntry)
      → s p ≡ some d
      → Quiet path
      → run_and_compactify G env omit path p es s ≡ done (ok_rc, some es) s
  unfolding run_and_compactify
  compactified path es h q = ground (arith, h, q.no_callback, q.held, compactify_full env.mem es)

  readdir-none :
      (dirh h : DirHandle) (n : ℕ)
      → dirh.dent ≡ some p
      → readdir_lowlevel G env.mem dirh p n s ≡ done (ok_rc, none, h) s
      → readdir G env omit dirh n s ≡ done (ok_rc, none, h) s
  unfolding readdir
  readdir-none dirh h n k e = ground (arith, k, e)

  readdir-some :
      (dirh h : DirHandle) (n : ℕ) (es : List DirEntry)
      → s p ≡ some d
      → Quiet dirh.path
      → dirh.dent ≡ some p
      → readdir_lowlevel G env.mem dirh p n s ≡ done (ok_rc, some es, h) s
      → readdir G env omit dirh n s ≡ done (ok_rc, some es, h) s
  unfolding readdir
  readdir-some dirh h n es l q k e = ground (arith, k, e, compactified dirh.path es l q)

  readdir_list :
      (dirh h : DirHandle) (n : ℕ) (o : Option (List DirEntry))
      → s p ≡ some d
      → Quiet dirh.path
      → dirh.dent ≡ some p
      → readdir_lowlevel G env.mem dirh p n s ≡ done (ok_rc, o, h) s
      → readdir G env omit dirh n s ≡ done (ok_rc, o, h) s
  readdir_list dirh h n none l q k e = readdir-none dirh h n k e
  readdir_list dirh h n (some es) l q k e = readdir-some dirh h n es l q k e

  -- A read through an open handle returns the next entries of the directory's live members, as many
  -- as were asked for or as there are, and NULL if there are none; behind it the entries that follow
  -- remain, for a handle of the same directory. Nothing else changes. The members lead to inodes, and
  -- their names are different, not empty and at most 255 bytes long; at least one entry is asked for,
  -- memory is there, the directory is open, and there is no callback for listing.
  pub readdir_reads :
      (dirh : DirHandle) (n m : ℕ)
      → Listable G s d p
      → Quiet dirh.path
      → dirh.dent ≡ some p
      → how_many G d n ≡ suc m
      → ReadsChunk G s d p dirh (suc m) (readdir G env omit dirh n s)
  readdir_reads dirh n m ok q k h =
      let low = lowlevel_reads G s d p dirh n m ok h in
      let list = (read_to dirh (take (suc m) (listing G s d (remaining G dirh d.children)))).0 in
      (
        low.0,
        readdir_list dirh low.0 n list ok.here q k
            (ap (λ w. readdir_lowlevel G w dirh p n s) q.memory ∙ low.1),
        low.2,
        low.3,
        low.4,
      )

  -- the list of a chunk
  read_to-cons :
      (dirh : DirHandle) (e : DirEntry) (es : List DirEntry)
      → (read_to dirh (e ∷ es)).0 ≡ some (e ∷ es)
  unfolding read_to
  read_to-cons dirh e es = refl

  read_to-nil : (dirh : DirHandle) → (read_to dirh []).0 ≡ none
  unfolding read_to
  read_to-nil dirh = refl

  read_all_end :
      (dirh h : DirHandle) (f : ℕ) (n : ℕ → ℕ)
      → readdir G env omit dirh (n f) s ≡ done (ok_rc, none, h) s
      → read_all G env omit (suc f) n dirh s ≡ done (some []) s
  unfolding read_all
  read_all_end dirh h f n e = ground (arith, e)

  read_all_more :
      (dirh h : DirHandle) (f : ℕ) (n : ℕ → ℕ) (es rest : List DirEntry)
      → readdir G env omit dirh (n f) s ≡ done (ok_rc, some es, h) s
      → read_all G env omit f n h s ≡ done (some rest) s
      → read_all G env omit (suc f) n dirh s ≡ done (some (es ++ rest)) s
  unfolding read_all
  read_all_more dirh h f n es rest e k = ground (arith, e, k)

  take_none : (k : ℕ) (l : List DirEntry) → take (suc k) l ≡ [] → l ≡ []
  take_none k [] h = refl
  take_none k (x ∷ l) h = cc

  take-drop : (k : ℕ) (l : List DirEntry) → take k l ++ drop k l ≡ l
  take-drop zero l = refl
  take-drop (suc k) [] = refl
  take-drop (suc k) (x ∷ l) = ap (λ w. x ∷ w) (take-drop k l)

  shorter :
      (k : ℕ) (l : List DirEntry) (e : DirEntry) (es : List DirEntry)
      → take (suc k) l ≡ e ∷ es
      → length (drop (suc k) l) < length l
  shorter k [] e es h = cc
  shorter k (x ∷ l) e es h = omega (arith, length-drop k l)

  -- One round of the loop, by the chunk that it reads.
  all_round :
      (dirh : DirHandle) (f : ℕ) (n : ℕ → ℕ) (m : ℕ) (l chunk : List DirEntry)
      → take (suc m) l ≡ chunk
      → Reads G s d dirh chunk (drop (suc m) l) (readdir G env omit dirh (n f) s)
      → ((h : DirHandle)
          → listing G s d (remaining G h d.children) ≡ drop (suc m) l
          → h.dent ≡ dirh.dent
          → h.path ≡ dirh.path
          → length (drop (suc m) l) < f
          → read_all G env omit f n h s ≡ done (some (drop (suc m) l)) s)
      → length l < suc f
      → read_all G env omit (suc f) n dirh s ≡ done (some l) s
  all_round dirh f n m l [] t (h, e, left, a, b) ih short =
      read_all_end dirh h f n (e ∙ ap (λ w. done (ok_rc, w, h) s) (read_to-nil dirh))
      ∙ ap (λ w. done (some w) s) (sym (take_none m l t))
  all_round dirh f n m l (x ∷ xs) t (h, e, left, a, b) ih short =
      read_all_more dirh h f n (x ∷ xs) (drop (suc m) l)
        (e ∙ ap (λ w. done (ok_rc, w, h) s) (read_to-cons dirh x xs))
        (ih h left a b (omega (arith, shorter m l x xs t)))
      ∙ ap (λ w. done (some w) s) (ap (λ w. w ++ drop (suc m) l) (sym t) ∙ take-drop (suc m) l)

  -- Reading on through an open handle, each time with any number of entries asked for, but at least
  -- one, comes to an end, and has then returned the entry of each live member that remained, once and
  -- in order: with rounds for one more than these. The other conditions are those of a single read.
  pub read_all_lists :
      (fuel : ℕ) (dirh : DirHandle) (n m : ℕ → ℕ)
      → Listable G s d p
      → Quiet dirh.path
      → dirh.dent ≡ some p
      → ((i : ℕ) → how_many G d (n i) ≡ suc (m i))
      → length (listing G s d (remaining G dirh d.children)) < fuel
      → read_all G env omit fuel n dirh s
        ≡ done (some (listing G s d (remaining G dirh d.children))) s
  read_all_lists zero dirh n m ok q k h short = absurd (omega arith)
  read_all_lists (suc f) dirh n m ok q k h short =
      let l = listing G s d (remaining G dirh d.children) in
      all_round dirh f n (m f) l (take (suc (m f)) l) refl
        (readdir_reads dirh (n f) (m f) ok q k (h f))
        (λ g left a b less.
          read_all_lists f g n m ok (subst Quiet (sym b) q) (a ∙ k) h
            (subst (λ w. length w < f) (sym left) less)
          ∙ ap (λ w. done (some w) s) left)
        short

  -- If the name at which a handle stands has been deleted since, the next read leaves out the first
  -- name that follows, though it has not been read: it starts at what stands behind it. The other
  -- conditions are those of a single read.
  pub readdir_skips :
      (dirh : DirHandle) (n m : ℕ) (k : Str) (q : Ptr) (rest : Members)
      → Listable G s d p
      → Quiet dirh.path
      → dirh.dent ≡ some p
      → how_many G d n ≡ suc m
      → dirh.eof ≡ false
      → is_empty dirh.curr_name ≡ false
      → names.find d.children dirh.curr_name ≡ none
      → from_greater dirh.curr_name (names.members d.children) ≡ (k, q) ∷ rest
      → Reads G s d dirh
          (take (suc m) (listing G s d rest))
          (drop (suc m) (listing G s d rest))
          (readdir G env omit dirh n s)
  readdir_skips dirh n m k q rest ok quiet held h e begun gone greater =
      let behind : remaining G dirh d.children ≡ rest =
        rw (e, begun) (ap tail (find_start-none G dirh.curr_name d.children gone ∙ greater)) in
      subst
        (λ w.
          Reads G s d dirh (take (suc m) (listing G s d w)) (drop (suc m) (listing G s d w))
            (readdir G env omit dirh n s))
        behind (readdir_reads dirh n m ok quiet held h)
