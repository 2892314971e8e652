-- ===== src/Route.antt =====
-- libfskit/route.c: the table of routes. An application declares a callback for a route type and a
-- regular expression; an operation looks for the first route of its type that matches the path.
pub mod Rows
pub mod Locks
pub mod View
pub mod Registry
pub mod First
pub mod Holes
pub mod Declare
pub mod Groups
use fskit.Base.{
  ℕ, zero, suc, ◌+◌, ◌-◌, Bool, true, false, ◌&&◌, not, Option, none, some, List, [], ◌∷◌, ◌++◌,
  ◌==◌, ltb, if◌then◌else◌, length, take, drop,
}
use fskit.Base.Int.{ℤ, pos, negsuc, pos_part, is_neg}
use fskit.Base.Bytes.{Str}
use fskit.Calls.{RouteType, Call, no_route, ran, null_route, Routes}
use fskit.Errno.{ok_rc, enoent, enomem, einval, enosys}
use fskit.Route.Rows.{RowTree}

-- regmatch_t
pub record Span : Type 0 where
  pub so : ℤ
  pub eo : ℤ

-- The regular expressions of the C library: regcomp with REG_EXTENDED | REG_NEWLINE (`none` if its
-- code is not 0), and regexec with a number of groups, which fills in that many spans.
pub record Posix : Type 1 where
  pub Regex : Type 0
  pub regcomp : Str → Option Regex
  pub regexec : Regex → Str → ℕ → Option (ℕ → Span)

-- struct fskit_route_metadata, less what is copied from the arguments of the call
pub record Metadata : Type 0 where
  pub path : Str
  pub argc : ℕ
  pub argv : List Str

-- A callback's return code. What else it is given is of the operation.
abbrev pub Method : Type 0
Method = Metadata → ℤ

-- struct fskit_path_route, less its lock
pub record PathRoute (Regex : Type 0) : Type 0 where
  pub path_regex_str : Option Str
  pub num_expected_matches : ℕ
  pub path_regex : Regex
  pub route_type : RouteType
  pub method : Option Method
  pub consistency_discipline : ℕ

-- A row's vector: a removed route leaves NULL.
abbrev pub Slots : Type 0 → Type 0
Slots Regex = List (Option (PathRoute Regex))

-- The unescaped opening parentheses, and one.
unfoldable pub count_groups : ℕ → ℕ → Str → ℕ
count_groups prev num_groups [] = num_groups
count_groups prev num_groups (c ∷ s) =
    count_groups c (if (c == b'(') && not (prev == b'\\') then suc num_groups else num_groups) s

unfoldable pub num_expected_matches : Str → ℕ
unfolding count_groups
num_expected_matches path = count_groups 0 0 path + 1

-- Both ends are not negative.
abbrev pub is_set : Span → Bool
is_set m = not (is_neg m.so) && not (is_neg m.eo)

-- strncpy( next_match, path + rm_so, rm_eo - rm_so )
abbrev pub substring : Str → Span → Str
substring path m = take (pos_part m.eo - pos_part m.so) (drop (pos_part m.so) path)

-- The array has one element more than regexec fills in; calloc has zeroed it.
unfoldable pub group_at : ℕ → (ℕ → Span) → ℕ → Span
group_at n m i = if ltb i n then m i else record { so = pos 0; eo = pos 0 }

-- The loop from group `i`, with `left` rounds at most.
unfoldable pub collect : (ℕ → Span) → Str → (left i : ℕ) → List Str
collect m path zero i = []
collect m path (suc left) i = elim (is_set (m i)) [
  | true ↦ substring path (m i) ∷ collect m path left (suc i)
  | false ↦ []
]

-- `argc` is the value of `i` behind the loop.
unfoldable pub matched_metadata : (ℕ → Span) → Str → ℕ → Metadata
unfolding collect
matched_metadata m path n = record {
  path = path;
  argc = suc (length (collect m path n 1));
  argv = collect m path n 1;
}

-- What fskit_route_match comes to: no route, a NULL route that is dereferenced, or the first match.
pub data Match (Regex : Type 0) : Type 0 where
  unmatched : Match Regex
  null_slot : Match Regex
  matched : PathRoute Regex → Metadata → Match Regex

-- What the table has under an id: no such id, a read out of bounds, or a slot.
pub data SlotRead (Regex : Type 0) : Type 0 where
  missing : SlotRead Regex
  out_of_bounds : SlotRead Regex
  slot : Option (PathRoute Regex) → SlotRead Regex

-- The code of fskit_match_regex, or what it fills in with code 0.
pub data RegexResult : Type 0 where
  mismatch : ℤ → RegexResult
  groups : Metadata → RegexResult

module _ (P : Posix) where
  open P use {Regex, regcomp, regexec}

  -- The whole path has to match.
  unfoldable pub whole : Str → Span → Bool
  whole path m = is_set m && (length path + pos_part m.so == pos_part m.eo)

  -- `mem` says whether the allocations of the call succeed.
  unfoldable pub match_regex : Bool → PathRoute Regex → Str → RegexResult
  unfolding whole group_at matched_metadata
  match_regex mem route path =
      let n = route.num_expected_matches in
      if not mem then mismatch enomem else elim (regexec route.path_regex path n) [
        | none ↦ mismatch enoent
        | some m ↦
            if whole path (group_at n m 0)
            then groups (matched_metadata (group_at n m) path n)
            else mismatch enoent
      ]

  abbrev pub is_defined : PathRoute Regex → Bool
  is_defined route = elim route.path_regex_str [ none ↦ false | some _ ↦ true ]

  -- The loop over the row. What is read from a NULL slot is a fault.
  unfoldable pub first_match : Bool → Slots Regex → Str → Match Regex
  first_match mem [] path = unmatched
  first_match mem (none ∷ rest) path = null_slot
  first_match mem (some route ∷ rest) path =
      let further = first_match mem rest path in
      if is_defined route
      then elim (match_regex mem route path) [
        | mismatch _ ↦ further
        | groups metadata ↦ matched route metadata
      ]
      else further

  -- fskit_safe_dispatch. The rest of fskit_route_dispatch stands in Locks, and run_user of Calls tests
  -- what fskit_route_enter tests of the inode.
  unfoldable pub safe_dispatch : PathRoute Regex → Metadata → ℤ
  safe_dispatch route metadata = elim route.method [ none ↦ enosys | some cb ↦ cb metadata ]

  -- fskit_route_call, from the match on
  unfoldable pub finish_call : Match Regex → Call
  unfolding safe_dispatch
  finish_call unmatched = no_route
  finish_call null_slot = null_route
  finish_call (matched route metadata) = ran (safe_dispatch route metadata)

  -- The route and the code of fskit_path_route_init.
  unfoldable pub path_route_init :
      Bool → Str → ℕ → RouteType → Option Method → ℤ × Option (PathRoute Regex)
  unfolding num_expected_matches
  path_route_init mem regex_str consistency_discipline route_type method =
      elim (regcomp regex_str) [
        | none ↦ (einval, none)
        | some path_regex ↦
            if mem
            then (
              ok_rc,
              some (record {
                path_regex_str = some regex_str;
                num_expected_matches = num_expected_matches regex_str;
                path_regex = path_regex;
                route_type = route_type;
                method = method;
                consistency_discipline = consistency_discipline;
              }),
            )
            else (enomem, none)
      ]

-- Rows as vectors.
module _ {Regex : Type 0} where
  -- the first NULL slot
  unfoldable pub find_empty : Slots Regex → Option ℕ
  find_empty [] = none
  find_empty (none ∷ rest) = some 0
  find_empty (some _ ∷ rest) = elim (find_empty rest) [ none ↦ none | some i ↦ some (suc i) ]

  -- fskit_route_table_row_at_ref; `none` is a read out of bounds
  abbrev pub row_at_ref : Slots Regex → ℕ → Option (Option (PathRoute Regex))
  row_at_ref [] i = none
  row_at_ref (r ∷ rest) zero = some r
  row_at_ref (r ∷ rest) (suc i) = row_at_ref rest i

  -- A write out of bounds is refused.
  abbrev pub row_emplace : Slots Regex → Option (PathRoute Regex) → ℕ → Slots Regex
  row_emplace [] route i = []
  row_emplace (r ∷ rest) route zero = route ∷ rest
  row_emplace (r ∷ rest) route (suc i) = r ∷ row_emplace rest route i

  -- can the row be freed?
  unfoldable pub all_null : Slots Regex → Bool
  all_null [] = true
  all_null (none ∷ rest) = all_null rest
  all_null (some _ ∷ rest) = false

  -- The id of the new route and the row, from fskit_route_table_insert.
  unfoldable pub row_insert : Slots Regex → PathRoute Regex → ℕ × Slots Regex
  unfolding find_empty
  row_insert row route = elim (find_empty row) [
    | some i ↦ (i, row_emplace row (some route) i)
    | none ↦ (length row, row ++ some route ∷ [])
  ]

module _ (P : Posix) (T : RowTree (Slots P.Regex)) where
  open P use {Regex}

  -- `mem`: a new row and a longer row need memory.
  unfoldable pub table_insert : Bool → T.Tree → RouteType → PathRoute Regex → ℤ × T.Tree
  unfolding row_insert
  table_insert mem table route_type route = elim (T.find table route_type) [
    | none ↦
        if mem
        then (pos (row_insert [] route).0, T.add table route_type (row_insert [] route).1)
        else (enomem, table)
    | some row ↦ elim (find_empty row) [
      | none ↦
          if mem
          then (pos (row_insert row route).0, T.update table route_type (row_insert row route).1)
          else (enomem, table)
      | some _ ↦ (pos (row_insert row route).0, T.update table route_type (row_insert row route).1)
    ]
  ]

  -- fskit_route_table_find. A negative id is not refused.
  unfoldable pub table_find : T.Tree → RouteType → ℤ → SlotRead Regex
  table_find table route_type (negsuc _) = elim (T.find table route_type) [
    | none ↦ missing
    | some _ ↦ out_of_bounds
  ]
  table_find table route_type (pos i) = elim (T.find table route_type) [
    | none ↦ missing
    | some row ↦ elim (row_at_ref row i) [ none ↦ missing | some route ↦ slot route ]
  ]

  -- The table behind the slot's reset: the row goes with its last route.
  unfoldable pub clear_slot : T.Tree → RouteType → Slots Regex → ℕ → T.Tree
  unfolding all_null
  clear_slot table route_type row i =
      let cleared = row_emplace row none i in
      if all_null cleared then T.delete table route_type else T.update table route_type cleared

  unfoldable pub table_remove : T.Tree → RouteType → ℤ → SlotRead Regex × T.Tree
  unfolding clear_slot
  table_remove table route_type (negsuc _) = elim (T.find table route_type) [
    | none ↦ (missing, table)
    | some _ ↦ (out_of_bounds, table)
  ]
  table_remove table route_type (pos i) = elim (T.find table route_type) [
    | none ↦ (missing, table)
    | some row ↦ elim (row_at_ref row i) [
      | none ↦ (missing, table)
      | some route ↦ (slot route, clear_slot table route_type row i)
    ]
  ]

  unfoldable pub route_match : Bool → T.Tree → RouteType → Str → Match Regex
  unfolding first_match
  route_match mem table route_type path = elim (T.find table route_type) [
    | none ↦ unmatched
    | some row ↦ first_match P mem row path
  ]

  unfoldable pub route_call : Bool → T.Tree → Routes
  unfolding route_match finish_call
  route_call mem table route_type path = finish_call P (route_match mem table route_type path)

  -- fskit_path_route_decl
  unfoldable pub route_decl : Bool → T.Tree → Str → RouteType → Option Method → ℕ → ℤ × T.Tree
  unfolding path_route_init table_insert
  route_decl mem table regex_str route_type method consistency_discipline =
      if not mem
      then (enomem, table)
      else (let made = path_route_init P mem regex_str consistency_discipline route_type method in
          elim made.1 [
            | none ↦ (made.0, table)
            | some route ↦ table_insert mem table route_type route
          ])

  -- fskit_path_route_undecl: a NULL slot counts as a bad handle. `none` is a read out of bounds.
  unfoldable pub undecl_code : SlotRead Regex → Option ℤ
  undecl_code missing = some einval
  undecl_code out_of_bounds = none
  undecl_code (slot none) = some einval
  undecl_code (slot (some _)) = some ok_rc

  unfoldable pub route_undecl : T.Tree → RouteType → ℤ → Option ℤ × T.Tree
  unfolding table_remove undecl_code
  route_undecl table route_type route_handle =
      let gone = table_remove table route_type route_handle in (undecl_code gone.0, gone.1)

  -- fskit_path_route_erase_all
  unfoldable pub erase_all : T.Tree → RouteType → ℤ × T.Tree
  erase_all table route_type = elim (T.find table route_type) [
    | none ↦ (einval, table)
    | some _ ↦ (ok_rc, T.delete table route_type)
  ]
