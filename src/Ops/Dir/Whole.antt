-- ===== src/Ops/Dir/Whole.antt =====
-- Reading a directory to its end through one handle.
use fskit.Base.{
  ℕ, suc, ◌≡◌, ◌≢◌, refl, sym, ap, ◌∙◌, subst, ◌⊎◌, inl, inr, true, false, Option, none, some, List,
  [], ◌∷◌, arith, take, drop, Bool-cases,
}
use fskit.Base.Int.{ℤ}
use fskit.Base.Bytes.{is_empty}
use fskit.Errno.{ok_rc, name_max}
use fskit.Ops.Dir.{
  DirHandle, DirEntry, Members, tail, find_start, read_to, read_from, readdir_lowlevel, how_many,
}
use fskit.Ops.Dir.Listing.{NamesOk, AllLive, listing, take-Cut}
use fskit.Ops.Dir.Chunks.{
  Suffix, NamesOk-append, AllLive-append, remaining, remaining-Suffix, Reads, read_from_lem,
  remaining-read_to,
}
use fskit.Store.{Sglib, Inode, Store, Ptr, Run, done}

read_to-dent : (h : DirHandle) (es : List DirEntry) → (read_to h es).1.dent ≡ h.dent
unfolding read_to
read_to-dent h [] = refl
read_to-dent h (e ∷ es) = refl

read_to-path : (h : DirHandle) (es : List DirEntry) → (read_to h es).1.path ≡ h.path
unfolding read_to
read_to-path h [] = refl
read_to-path h (e ∷ es) = refl

-- The list that is returned does not depend on the handle.
read_to-list : (h g : DirHandle) (es : List DirEntry) → (read_to h es).0 ≡ (read_to g es).0
unfolding read_to
read_to-list h g [] = refl
read_to-list h g (e ∷ es) = refl

module _ (G : Sglib) (s : Store G) (d : Inode G) (p : Ptr) where
  open G use {names}

  -- A directory with members that can be listed.
  pub record Listable : Type 0 where
    pub here : s p ≡ some d
    pub names_ok : NamesOk (names.members d.children)
    pub all_live : AllLive G s d (names.members d.children)
    pub not_empty : names.members d.children ≢ []

  -- From a handle that is not at the end, with what remains at hand.
  read_chunk :
      (dirh start : DirHandle) (m : ℕ) (rest : Members)
      → Listable
      → start.eof ≡ false
      → start.dent ≡ dirh.dent
      → start.path ≡ dirh.path
      → Suffix (names.members d.children) rest
      → Reads G s d dirh
          (take (suc m) (listing G s d rest))
          (drop (suc m) (listing G s d rest))
          (read_from G true start d (suc m) rest s)
  read_chunk dirh start m rest ok h same_dent same_path (pre, e) =
      let chunk = take (suc m) (listing G s d rest) in
      let live_rest = AllLive-append G s d pre rest (subst (AllLive G s d) e ok.all_live) in
      let names_rest = NamesOk-append pre rest (subst NamesOk e ok.names_ok) in
      let end = (read_to start chunk).1 in
      (
        end,
        read_from_lem G s d start (suc m) rest live_rest
            ∙ ap (λ w. done (ok_rc, w, end) s) (read_to-list start dirh chunk),
        remaining-read_to G s d start (suc m) pre rest chunk h ok.names_ok e
            (take-Cut G s d m rest names_rest live_rest),
        read_to-dent start chunk ∙ same_dent,
        read_to-path start chunk ∙ same_path,
      )

  -- Nothing remains, and nothing is read.
  read_nothing :
      (dirh : DirHandle) (m : ℕ) (r : Run (Store G) (ℤ × Option (List DirEntry) × DirHandle))
      → r ≡ done (ok_rc, none, dirh) s
      → remaining G dirh d.children ≡ []
      → Reads G s d dirh
          (take (suc m) (listing G s d (remaining G dirh d.children)))
          (drop (suc m) (listing G s d (remaining G dirh d.children)))
          r
  unfolding read_to
  read_nothing dirh m r e h =
      subst
        (λ w. Reads G s d dirh (take (suc m) (listing G s d w)) (drop (suc m) (listing G s d w)) r)
        (sym h) (dirh, e, ap (listing G s d) h, refl, refl)

  lowlevel_eof :
      (dirh : DirHandle) (n : ℕ)
      → dirh.eof ≡ true
      → readdir_lowlevel G true dirh p n s ≡ done (ok_rc, none, dirh) s
  unfolding readdir_lowlevel
  lowlevel_eof dirh n h = rw (h, readdir_lowlevel) refl

  -- the handle with its first position
  abbrev started : DirHandle → Members → DirHandle
  started dirh [] = dirh
  started dirh ((name, q) ∷ rest) = record dirh { curr_name = take name_max name }

  lowlevel_first :
      (dirh : DirHandle) (n : ℕ) (ms : Members)
      → dirh.eof ≡ false
      → is_empty dirh.curr_name ≡ true
      → s p ≡ some d
      → names.members d.children ≡ ms
      → ms ≢ []
      → readdir_lowlevel G true dirh p n s
        ≡ read_from G true (started dirh ms) d (how_many G d n) ms s
  unfolding readdir_lowlevel
  lowlevel_first dirh n [] h k l e ne = absurd (ne refl)
  lowlevel_first dirh n ((name, q) ∷ rest) h k l e ne = ground (arith, h, k, l, e)

  lowlevel_end :
      (dirh : DirHandle) (n : ℕ)
      → dirh.eof ≡ false
      → is_empty dirh.curr_name ≡ false
      → s p ≡ some d
      → tail (find_start G dirh.curr_name d.children) ≡ []
      → readdir_lowlevel G true dirh p n s ≡ done (ok_rc, none, dirh) s
  unfolding readdir_lowlevel
  lowlevel_end dirh n h k l e = ground (arith, h, k, l, e)

  lowlevel_next :
      (dirh : DirHandle) (n : ℕ) (ms : Members)
      → dirh.eof ≡ false
      → is_empty dirh.curr_name ≡ false
      → s p ≡ some d
      → tail (find_start G dirh.curr_name d.children) ≡ ms
      → ms ≢ []
      → readdir_lowlevel G true dirh p n s ≡ read_from G true dirh d (how_many G d n) ms s
  unfolding readdir_lowlevel
  lowlevel_next dirh n [] h k l e ne = absurd (ne refl)
  lowlevel_next dirh n (x ∷ rest) h k l e ne = ground (arith, h, k, l, e)

  Members-cases : (ms : Members) → (ms ≡ []) ⊎ (ms ≢ [])
  Members-cases [] = inl refl
  Members-cases (x ∷ ms) = inr (λ e. cc)

  -- The chunk of a read: that many of the entries that remain, and the others remain.
  abbrev pub ReadsChunk :
      DirHandle → ℕ → Run (Store G) (ℤ × Option (List DirEntry) × DirHandle) → Type 0
  ReadsChunk dirh n r =
      Reads G s d dirh (take n (listing G s d (remaining G dirh d.children)))
        (drop n (listing G s d (remaining G dirh d.children))) r

  remaining_is :
      (dirh : DirHandle) (m : ℕ) (ms : Members)
      (r : Run (Store G) (ℤ × Option (List DirEntry) × DirHandle))
      → remaining G dirh d.children ≡ ms
      → Reads G s d dirh (take (suc m) (listing G s d ms)) (drop (suc m) (listing G s d ms)) r
      → ReadsChunk dirh (suc m) r
  remaining_is dirh m ms r e h =
      subst
        (λ w. Reads G s d dirh (take (suc m) (listing G s d w)) (drop (suc m) (listing G s d w)) r)
        (sym e) h

  started-eof : (dirh : DirHandle) (ms : Members) → (started dirh ms).eof ≡ dirh.eof
  started-eof dirh [] = refl
  started-eof dirh (x ∷ ms) = refl

  started-dent : (dirh : DirHandle) (ms : Members) → (started dirh ms).dent ≡ dirh.dent
  started-dent dirh [] = refl
  started-dent dirh (x ∷ ms) = refl

  started-path : (dirh : DirHandle) (ms : Members) → (started dirh ms).path ≡ dirh.path
  started-path dirh [] = refl
  started-path dirh (x ∷ ms) = refl

  pub lowlevel_reads :
      (dirh : DirHandle) (n m : ℕ)
      → Listable
      → how_many G d n ≡ suc m
      → ReadsChunk dirh (suc m) (readdir_lowlevel G true dirh p n s)
  lowlevel_reads dirh n m ok h = elim (Bool-cases dirh.eof) [
    | inl e ↦ read_nothing dirh m _ (lowlevel_eof dirh n e) (rw e refl)
    | inr e ↦ elim (Bool-cases (is_empty dirh.curr_name)) [
      | inl k ↦
          let ms = names.members d.children in
          let start = started dirh ms in
          subst (ReadsChunk dirh (suc m))
            (sym (
              lowlevel_first dirh n ms e k ok.here refl ok.not_empty
              ∙ ap (λ w. read_from G true start d w ms s) h))
            (remaining_is dirh m ms _ (rw (e, k) refl) (
              read_chunk dirh start m ms ok (started-eof dirh ms ∙ e) (started-dent dirh ms)
                (started-path dirh ms) ([], refl)))
      | inr k ↦
          let ms = tail (find_start G dirh.curr_name d.children) in
          let rest : remaining G dirh d.children ≡ ms = rw (e, k) refl in
          elim (Members-cases ms) [
            | inl none_left ↦
                read_nothing dirh m _ (lowlevel_end dirh n e k ok.here none_left) (rest ∙ none_left)
            | inr more ↦
                subst (ReadsChunk dirh (suc m))
                  (sym (
                    lowlevel_next dirh n ms e k ok.here refl more
                    ∙ ap (λ w. read_from G true dirh d w ms s) h))
                  (remaining_is dirh m ms _ rest (
                    read_chunk dirh dirh m ms ok e refl refl (
                      subst (Suffix (names.members d.children)) rest
                        (remaining-Suffix G dirh d.children e))))
          ]
    ]
  ]
