-- ===== src/Ops/Detach.antt =====
-- fskit_detach_all_ex and fskit_detach_all of libfskit/entry.c: a directory's old children, and what
-- stands below them, are detached in breadth-first order through a queue.
pub mod Weight
pub mod Light
pub mod Queued
pub mod Fresh
pub mod Total
pub mod Returns
pub mod Rounds
use fskit.Base.{
  ℕ, zero, suc, Bool, false, ◌&&◌, ◌||◌, not, Option, none, some, List, [], ◌∷◌, ◌++◌, ltb, leb,
  ◌==◌, if◌then◌else◌, length, drop,
}
use fskit.Base.Int.{ℤ, dec, is_neg, is_zero, eq_ℤ, neg}
use fskit.Base.Bytes.{codes, is_empty, Str, str_eq, dot, dotdot}
use fskit.Entry.{set_remove, tag_garbage}
use fskit.Entry.Destroy.{try_destroy_and_free_ex}
use fskit.Errno.{ok_rc, enomem, name_max}
use fskit.Ops.{Env, on_found}
use fskit.Path.{fullpath, dirname}
use fskit.Resolve.{resolve_path}
use fskit.Store.{Sglib, Inode, Cmd, Ptr, fault, pure, load, modify, ◌>>=◌, ◌>>◌, is_dir, is_dead}

-- EFAULT
abbrev pub efault : ℤ
efault = neg 14

-- struct fskit_detach_entry
abbrev pub Queue : Type 0
Queue = List (Str × Ptr)

-- struct fskit_detach_ctx: its list from head to tail, whose length is ctx->size, the flag
-- FSKIT_DETACH_CTX_CB_FAIL, and the last code of a callback.
pub record DetachCtx : Type 0 where
  pub queue : Queue
  pub cb_fail : Bool
  pub cbrc : ℤ

unfoldable pub queue_child : Bool → DetachCtx → Str → Str → Ptr → ℤ × DetachCtx
queue_child mem ctx dir_path name child =
    if mem
    then (ok_rc, record ctx { queue = ctx.queue ++ (fullpath dir_path name, child) ∷ [] })
    else (enomem, ctx)

abbrev pub is_dots : Str → Bool
is_dots name = str_eq name dot || str_eq name dotdot

-- The entries from the old tail on, which the code takes for the new ones; none if there was no
-- tail. A queue that has been emptied leaves a dangling pointer as its tail; it is not queued to again,
-- since its loop has ended, unless an application reuses its context.
abbrev pub from_old_tail : Queue → Queue → Queue
from_old_tail [] queue = []
from_old_tail (x ∷ old) queue = drop (length old) queue

-- How a round of the loop ends: with a return code, or with the code of the last destroy callback.
pub data Round : Type 0 where
  stop : ℤ → DetachCtx → Round
  go : DetachCtx → ℤ → Round

module _ (G : Sglib) where
  open G use {names}

  -- fskit_dirname copies the directory's part of a path to a buffer that is not clear, and sets the
  -- byte behind the next one to zero.
  unfoldable pub erased_name : Env → Str → Str
  erased_name env path =
      if is_empty path || str_eq path (codes "/") || (env.stale path == 0)
      then dirname path
      else dirname path ++ env.stale path ∷ []

  -- The names that are removed from the set are the directories' parts of the queued paths, copied to
  -- a buffer of 256 bytes; `none` is a write behind its end.
  unfoldable pub erase_queued : Env → names.Tree → Queue → Option names.Tree
  unfolding erased_name
  erase_queued env set [] = some set
  erase_queued env set ((path, child) ∷ rest) =
      let others = erase_queued env (set_remove G set (erased_name env path)).1 rest in
      if leb name_max (length (dirname path)) then none else others

  -- The loop over the set.
  unfoldable pub queue_list : Bool → DetachCtx → Str → List (Str × Ptr) → Cmd G (ℤ × DetachCtx)
  unfolding queue_child
  queue_list mem ctx dir_path [] = pure (ok_rc, ctx)
  queue_list mem ctx dir_path ((name, child) ∷ rest) =
      let queued = queue_child mem ctx dir_path name child in
      let skip = queue_list mem ctx dir_path rest in
      let more = queue_list mem queued.1 dir_path rest in
      if is_dots name then skip else (do
        e ← load child
        if is_dead e.kind then skip else if is_zero queued.0 then more else pure queued)

  -- The code, the context, and what is left of the set.
  unfoldable pub queue_children :
      Env → DetachCtx → Str → names.Tree → Cmd G (ℤ × DetachCtx × names.Tree)
  unfolding queue_list erase_queued
  queue_children env ctx dir_path dir_children = do
    r ← queue_list env.mem ctx dir_path (names.members dir_children)
    if not (is_zero r.0)
        then pure (r.0, r.1, dir_children)
        else elim (erase_queued env dir_children (from_old_tail ctx.queue (r.1).queue)) [
          | none ↦ (λ _. fault)
          | some set ↦ pure (r.0, r.1, set)
        ]

  -- A directory gives its children to the queue; the set that is left of them is freed.
  unfoldable pub gather : Env → DetachCtx → Str → Ptr → Cmd G (ℤ × DetachCtx)
  gather env ctx path fent = do
    t ← tag_garbage G env.mem fent
    if not (is_zero t.0) then pure (t.0, ctx) else elim t.1 [
      | none ↦ pure (ok_rc, ctx)
      | some children ↦ do q ← queue_children env ctx path children; pure (q.0, q.1)
    ]

  -- link_count--, and the mark of a directory
  abbrev pub dropped_link : Inode G → Inode G
  dropped_link e = record e {
    link_count = dec e.link_count;
    deletion_in_progress = is_dir e.kind || e.deletion_in_progress;
  }

  -- Behind the gathering: `rest` is the queue without its head.
  unfoldable pub release : Env → DetachCtx → Queue → Str → Ptr → ℤ → Cmd G Round
  release env ctx rest path fent cbrc = do
    modify fent dropped_link
    r ← try_destroy_and_free_ex G env.routes path fent cbrc
    pure (
        if ctx.cb_fail && is_neg r.1
        then stop efault (record ctx { cbrc = r.1 })
        else if is_neg r.0
        then stop r.0 ctx
        else go (record ctx { queue = rest }) r.1)

  abbrev pub consumed : Queue → Queue
  consumed [] = []
  consumed (x ∷ queue) = queue

  -- One round, at the head of the queue.
  unfoldable pub detach_one : Env → DetachCtx → Str → Ptr → ℤ → Cmd G Round
  detach_one env ctx path fent cbrc = do
    e ← load fent
    g ← (if is_dir e.kind then gather env ctx path fent else pure (ok_rc, ctx))
    if is_zero g.0
        then release env g.1 (consumed (g.1).queue) path fent cbrc
        else pure (stop g.0 g.1)

  -- `none` means that the fuel ran out.
  unfoldable pub detach_loop : ℕ → Env → DetachCtx → ℤ → Cmd G (Option (ℤ × DetachCtx))
  detach_loop zero env ctx cbrc = pure none
  detach_loop (suc fuel) env ctx cbrc = elim ctx.queue [
    | [] ↦ pure (some (ok_rc, ctx))
    | (path, fent) ∷ rest ↦ do
      r ← detach_one env ctx path fent cbrc
      elim r [ stop rc c ↦ pure (some (rc, c)) | go c cb ↦ detach_loop fuel env c cb ]
  ]

  -- The immediate children, if the pointer to their set is not NULL.
  unfoldable pub queue_given :
      Env → DetachCtx → Str → Option names.Tree → Cmd G (ℤ × DetachCtx × Option names.Tree)
  unfolding queue_children
  queue_given env ctx dir_path none = pure (ok_rc, ctx, none)
  queue_given env ctx dir_path (some set) = do
    r ← queue_children env ctx dir_path set
    pure (r.0, r.1, some r.2)

  abbrev pub with_set :
      Option names.Tree → Option (ℤ × DetachCtx) → Option (ℤ × DetachCtx × Option names.Tree)
  with_set set none = none
  with_set set (some (rc, c)) = some (rc, c, set)

  -- What is left of the set is given back.
  unfoldable pub detach_all_ex :
      ℕ
      → Env
      → Str
      → Option names.Tree
      → DetachCtx
      → Cmd G (Option (ℤ × DetachCtx × Option names.Tree))
  unfolding queue_given detach_loop
  detach_all_ex fuel env dir_path dir_children ctx = do
    q ← queue_given env ctx dir_path dir_children
    if not (is_zero q.0)
        then pure (some (q.0, q.1, q.2))
        else (do r ← detach_loop fuel env q.1 ok_rc; pure (with_set q.2 r))

  -- The caller's loop, which passes the set again after -ENOMEM; `tries` is its fuel.
  unfoldable pub detach_retry :
      (tries fuel : ℕ) → Env → Str → Option names.Tree → DetachCtx → Cmd G (Option ℤ)
  unfolding detach_all_ex
  detach_retry zero fuel env root_path dir_children ctx = pure none
  detach_retry (suc tries) fuel env root_path dir_children ctx = do
    r ← detach_all_ex fuel env root_path dir_children ctx
    elim r [
      | none ↦ pure none
      | some (rc, c, set) ↦
          let again = detach_retry tries fuel env root_path set c in
          if eq_ℤ rc enomem then again else pure (some rc)
    ]

  abbrev pub new_ctx : DetachCtx
  new_ctx = record { queue = []; cb_fail = false; cbrc = ok_rc }

  -- Behind the look-up. Children that are NULL are queued as an empty set.
  unfoldable pub detach_all_at : (tries fuel : ℕ) → Env → Str → Ptr → Cmd G (Option ℤ)
  unfolding tag_garbage detach_retry
  detach_all_at tries fuel env root_path dent = do
    t ← tag_garbage G env.mem dent
    if is_zero t.0
        then detach_retry tries fuel env root_path
            (some (elim t.1 [ none ↦ names.null | some set ↦ set ])) new_ctx
        else pure (some t.0)

  unfoldable pub detach_all : (tries fuel : ℕ) → Env → Str → Cmd G (Option ℤ)
  unfolding detach_all_at resolve_path
  detach_all tries fuel env root_path s =
      on_found G (resolve_path G env.mem 0 0 s root_path) (λ rc. some rc)
        (λ dent _. detach_all_at tries fuel env root_path dent) s
