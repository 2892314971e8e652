-- ===== src/Ops/Dir/Rewind.antt =====
-- fskit_rewinddir.
use fskit.Base.{◌≡◌, refl, ap, subst, some, [], ◌∷◌, arith, if◌then◌else◌, take}
use fskit.Base.Bytes.{Str}
use fskit.Errno.{name_max}
use fskit.Ops.Dir.{DirHandle, Members, tail, rewinddir}
use fskit.Ops.Dir.Listing.{NamesOk}
use fskit.Ops.Dir.Chunks.{remaining, find_start_member}
use fskit.Ops.Dir.Whole.{Listable}
use fskit.Store.{Sglib, Inode, Store, Ptr, done}

module _ (G : Sglib) (s : Store G) (d : Inode G) (p : Ptr) where
  open G use {names}

  rewinddir_first :
      (dirh : DirHandle) (k : Str) (q : Ptr) (rest : Members)
      → s p ≡ some d
      → names.members d.children ≡ (k, q) ∷ rest
      → rewinddir G dirh p s ≡ done (record dirh { curr_name = take name_max k }) s
  unfolding rewinddir
  rewinddir_first dirh k q rest h e = ground (arith, h, e)

  rewound :
      (dirh : DirHandle) (ms : Members)
      → Listable G s d p
      → names.members d.children ≡ ms
      → (h : DirHandle) × (rewinddir G dirh p s ≡ done h s)
        × (remaining G h d.children ≡ (if dirh.eof then [] else tail ms))
  rewound dirh [] ok e = absurd (ok.not_empty e)
  rewound dirh ((k, q) ∷ rest) ok e =
      let good : NamesOk ((k, q) ∷ rest) = subst NamesOk e ok.names_ok in
      let start = find_start_member G d.children [] rest k q e ok.names_ok in
      (
        record dirh { curr_name = take name_max k },
        rewinddir_first dirh k q rest ok.here e,
        rw (good.1, good.0) (ap (λ w. if dirh.eof then [] else tail w) start),
      )

  -- Rewinding does not bring a handle back to its beginning: a handle whose eof is set stays at the
  -- end, and any other goes on behind the first member, which is not read again. The directory has
  -- members, with names that are different, not empty and at most 255 bytes long.
  pub rewinddir-remaining :
      (dirh : DirHandle)
      → Listable G s d p
      → (h : DirHandle) × (rewinddir G dirh p s ≡ done h s)
        × (remaining G h d.children ≡ (if dirh.eof then [] else tail (names.members d.children)))
  rewinddir-remaining dirh ok = rewound dirh (names.members d.children) ok refl
