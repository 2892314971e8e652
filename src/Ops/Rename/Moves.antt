-- ===== src/Ops/Rename/Moves.antt =====
-- Renaming to a free name in one directory.
use fskit.Base.{
  ℕ, zero, suc, ◌≡◌, refl, sym, ap, ◌∙◌, subst, true, false, ◌||◌, none, some, arith, ◌==◌, ltb,
  if◌then◌else◌,
}
use fskit.Base.Int.{ℤ, pos, inc, dec, is_neg, is_nonpos}
use fskit.Base.Bytes.{Str, str_eq}
use fskit.Calls.{no_route, rename as rename_route}
use fskit.Errno.{ok_rc, name_max}
use fskit.Ops.{Env}
use fskit.Path.{basename, basename_len}
use fskit.Store.{Sglib, Inode, Store, Ptr, Run, Ends, ends, bind-Ends, is_dir, pure, put, ◌>>=◌}
use fskit.Entry.{drop_link, uncount_child, attach_lowlevel}
use fskit.Entry.Inv.{StoreOk, put_self}
use fskit.Entry.Links.{attach-StoreOk, Attached}
use fskit.Entry.Unlinks.{
  looks_full, is_special, detach_run, detached, detached-StoreOk, without, without_at,
  without_names,
}
use fskit.Ops.Rename.{
  IdSet, common, parents, may_change, move_entry, rename_entry, rename_in, rename,
}

back_again : (z : ℤ) → is_nonpos z ≡ false → inc (if is_neg (dec z) then pos 0 else dec z) ≡ z
back_again (pos zero) h = ground arith
back_again (pos (suc k)) h = refl
back_again (ℤ.negsuc k) h = ground arith

module _ (G : Sglib) where
  open G use {names}

  -- The code, the directory's names, the inode's links, and the other inodes behind a rename.
  pub record Moved (s : Store G) (p c : Ptr) (old new : Str) (e ce : Inode G) (rc : ℤ) (t : Store G)
      : Type 0 where
    pub code : rc ≡ ok_rc
    pub valid : StoreOk G t
    pub parent :
        (d : Inode G) × (t p ≡ some d)
        × ((k : Str)
            → names.find d.children k ≡ (
                if str_eq new k
                then some c
                else if str_eq old k
                then none
                else names.find e.children k))
    pub child :
        (d : Inode G) × (t c ≡ some d) × ((d.link_count ≡ ce.link_count) × (d.kind ≡ ce.kind))
    pub others : (q : Ptr) → (p == q) ≡ false → (c == q) ≡ false → t q ≡ s q

module _ (G : Sglib) (ids : IdSet) (env : Env) where
  open G use {names}

  module _ (s : Store G) (p c : Ptr) (old new : Str) (e ce : Inode G) (ok : StoreOk G s)
      (hp : s p ≡ some e) (hd : is_dir e.kind ≡ true) (hc : s c ≡ some ce) (ne : (p == c) ≡ false)
      (h : names.find e.children old ≡ some c) (free : names.find e.children new ≡ none)
      (f : looks_full G env.clock.now ce ≡ false) (n : is_special old ≡ false)
      (linked : is_nonpos ce.link_count ≡ false) where
    abbrev gone : Store G
    gone = detached G env.clock.now s p c old e ce

    abbrev parent_then : Inode G
    parent_then = without G env.clock.now old e

    relinked : inc (drop_link G ce).link_count ≡ ce.link_count
    unfolding drop_link
    relinked = back_again ce.link_count linked

    drop_kind : (drop_link G ce).kind ≡ ce.kind
    unfolding drop_link
    drop_kind = refl

    parent_kind : is_dir parent_then.kind ≡ true
    unfolding uncount_child
    parent_kind = hd

    still_free : names.find parent_then.children new ≡ none
    still_free = ground (arith, without_names G env.clock.now old e (ok.dirs p e hp hd) new)

    of_Attached :
        (rc : ℤ) (t : Store G)
        → Attached G env.clock.now gone p c new parent_then (drop_link G ce) rc t
        → Moved G s p c old new e ce ok_rc t
    of_Attached rc t a =
        let (d, u, names_then) = a.parent in
        let (b, v, (links, kind)) = a.child in
        record {
          code = refl;
          valid = a.valid;
          parent = (
            d,
            u,
            λ k.
                names_then k
                ∙ ap (λ u. if str_eq new k then some c else u)
                    (without_names G env.clock.now old e (ok.dirs p e hp hd) k),
          );
          child = (b, v, (links ∙ relinked, kind ∙ drop_kind));
          others = λ q x y. a.others q x y ∙ ground (arith, x, y);
        }

    attach_again :
        env.mem ≡ true
        → Ends
            (Attached G env.clock.now gone p c new parent_then (drop_link G ce))
            (attach_lowlevel G env.mem env.clock.now p c new gone)
    attach_again m =
        subst
          (λ b.
            Ends (Attached G env.clock.now gone p c new parent_then (drop_link G ce))
              (attach_lowlevel G b env.clock.now p c new gone))
          (sym m)
          (attach-StoreOk G env.clock.now gone p c new parent_then (drop_link G ce)
            (detached-StoreOk G env.clock.now s p old e hp c ce h ne hc ok hd n) ne
            (without_at G env.clock.now s p c old e ce ne) parent_kind
            (put_self (put s p (some parent_then)) c (drop_link G ce)) still_free)

    move_run :
        env.mem ≡ true
        → Ends
            (λ _ t. Moved G s p c old new e ce ok_rc t)
            (move_entry G ids env p p c none old new s)
    unfolding move_entry
    move_run m =
        rw (detach_run G env.clock.now s p old e hp c ce h ne hc f n)
          (bind-Ends (attach_again m) (λ rc t a. ends (of_Attached rc t a)))

  abbrev moving : Str → Str → Ptr → Ptr → Store G → Run (Store G) ℤ
  moving old_path new_path p c =
      move_entry G ids env p p c none (basename old_path) (basename new_path) >>= λ _. pure ok_rc

  entry_steps :
      (old_path new_path : Str) (s : Store G) (p c : Ptr) (ce : Inode G)
      → s c ≡ some ce
      → is_nonpos ce.link_count ≡ false
      → env.routes rename_route old_path ≡ no_route
      → rename_entry G ids env old_path new_path p p c none s ≡ moving old_path new_path p c s
  unfolding rename_entry
  entry_steps old_path new_path s p c ce hc linked r = ground arith

  in_steps :
      (old_path new_path : Str) (user gid : ℕ) (s : Store G) (p c : Ptr) (e ce : Inode G)
      → s p ≡ some e
      → may_change G ids env user gid e ≡ true
      → s c ≡ some ce
      → names.find e.children (basename old_path) ≡ some c
      → names.find e.children (basename new_path) ≡ none
      → rename_in G ids env old_path new_path user gid p p none s
        ≡ rename_entry G ids env old_path new_path p p c none s
  unfolding rename_in
  in_steps old_path new_path user gid s p c e ce hp may hc h free = ground arith

  to_entry :
      (old_path new_path : Str) (user gid : ℕ) (s : Store G) (p c : Ptr) (e ce : Inode G)
      → env.mem ≡ true
      → (ltb name_max (basename_len old_path) || ltb name_max (basename_len new_path)) ≡ false
      → parents G ids env.mem user gid s old_path new_path ≡ common p
      → s p ≡ some e
      → may_change G ids env user gid e ≡ true
      → s c ≡ some ce
      → names.find e.children (basename old_path) ≡ some c
      → names.find e.children (basename new_path) ≡ none
      → is_nonpos ce.link_count ≡ false
      → env.routes rename_route old_path ≡ no_route
      → rename G ids env old_path new_path user gid s ≡ moving old_path new_path p c s
  unfolding rename
  to_entry old_path new_path user gid s p c e ce m len par hp may hc h free linked r = ground (
    arith,
    in_steps old_path new_path user gid s p c e ce hp may hc h free,
    entry_steps old_path new_path s p c ce hc linked r,
  )

  -- Renaming a name to one that is free in the same directory, which the caller may change,
  -- succeeds where there is no route and memory is there: the inode has the new name and not the
  -- old one, the other names lead where they did, its count of links is the same, no other inode
  -- changes, and the store stays well formed. The inode is linked and does not look like a
  -- directory with entries.
  pub rename-Moved :
      (old_path new_path : Str) (user gid : ℕ) (s : Store G) (p c : Ptr) (e ce : Inode G)
      → StoreOk G s
      → env.mem ≡ true
      → (ltb name_max (basename_len old_path) || ltb name_max (basename_len new_path)) ≡ false
      → parents G ids env.mem user gid s old_path new_path ≡ common p
      → s p ≡ some e
      → is_dir e.kind ≡ true
      → may_change G ids env user gid e ≡ true
      → s c ≡ some ce
      → (p == c) ≡ false
      → names.find e.children (basename old_path) ≡ some c
      → names.find e.children (basename new_path) ≡ none
      → looks_full G env.clock.now ce ≡ false
      → is_special (basename old_path) ≡ false
      → is_nonpos ce.link_count ≡ false
      → env.routes rename_route old_path ≡ no_route
      → Ends
          (Moved G s p c (basename old_path) (basename new_path) e ce)
          (rename G ids env old_path new_path user gid s)
  rename-Moved old_path new_path user gid s p c e ce ok m len par hp hd may hc ne h free f n linked
        r =
      rw (to_entry old_path new_path user gid s p c e ce m len par hp may hc h free linked r) (
        bind-Ends
          (move_run s p c (basename old_path) (basename new_path) e ce ok hp hd hc ne h free f n
            linked m)
          (λ _ t a. ends a))
