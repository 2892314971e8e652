-- ===== src/Examples/Routes.antt =====
-- The theorems on the table of routes, at a table with two routes for opening.
use fskit.Base.{
  false, ◌⊎◌, ltb, if◌then◌else◌, suc, ℕ, zero, suc, ◌≤◌, ◌≡◌, ◌↔◌, refl, true, ◌||◌, Option, none,
  some, List, [], ◌∷◌, ◌==◌, if◌then◌else◌, length, get_or,
}
use fskit.Base.Int.{ℤ, pos, negsuc, neg}
use fskit.Base.Bytes.{Str, codes, str_eq, is_empty}
use fskit.Calls.{RouteType, open_file, stat, ran, null_route}
use fskit.Errno.{einval}
use fskit.Ops.Open.{open_ex, open_check}
use fskit.Path.{
  names_of, path_split, skip_dots, basename, basename_len, dirname, fullpath, sanitize_path,
}
use fskit.Examples.World.{sgl, quiet, world}
use fskit.Examples.Runs.{code_of}
use fskit.Route.{
  Posix, Span, Metadata, Method, PathRoute, Slots, match_regex, substring, group_at, is_set,
  num_expected_matches, route_call, route_decl, route_undecl, safe_dispatch,
}
use fskit.Route.Rows.{RowTree, same_type}
use fskit.Route.Locks.{
  Entering, Event, no_lock, lock_for, is_locked_out, replay, route_dispatch, route_dispatch-replay,
}
use fskit.Route.Registry.{
  Act, declare, undeclare, view, new_route, TableOk, PromisedRun, perform, perform_all,
}
use fskit.Route.Registry.Refines.{perform_all_refines, null-TableOk}
use fskit.Route.First.{CalledAt, route_call-ran_iff}
use fskit.Route.Holes.{route_undecl_crashes}
use fskit.Route.Declare.{route_call-route_decl}
use fskit.Route.Groups.{match_regex_argv}

-- Rows as a function.
abbrev pub rows : (V : Type 0) → RowTree V
rows V = record {
  Tree = RouteType → Option V;
  null = λ _. none;
  find = λ t k. t k;
  add = λ t k v j. if same_type k j then some v else t j;
  delete = λ t k j. if same_type k j then none else t j;
  update = λ t k v j. if same_type k j then some v else t j;
  Distinct = λ _. Unit {0};
  null-Distinct = tt;
  add-Distinct = λ t k v d h. tt;
  delete-Distinct = λ t k d. tt;
  update-Distinct = λ t k v d. tt;
  find-null = λ k. refl;
  find-add = λ t k v j h. refl;
  find-delete = λ t k j d. refl;
  find-update = λ t k v w j h. refl;
}

abbrev strip : Str → Str
strip [] = []
strip (c ∷ s) = if (c == b'(') || (c == b')') then strip s else c ∷ strip s

-- Expressions of letters and groups. Group 1 starts behind the first byte.
abbrev pub spans : ℕ → ℕ → Span
spans n zero = record { so = pos 0; eo = pos n }
spans n (suc zero) = record { so = pos 1; eo = pos n }
spans n (suc (suc i)) = record { so = negsuc 0; eo = negsuc 0 }

abbrev pub plain : Posix
plain = record {
  Regex = Str;
  regcomp = λ s. if is_empty s then none else some s;
  regexec = λ re path n. if str_eq (strip re) path then some (spans (length path)) else none;
}

abbrev answers_7 : Option Method
answers_7 = some (λ _. pos 7)

abbrev counts_args : Option Method
counts_args = some (λ metadata. pos metadata.argc)

abbrev tables : RowTree (Slots Str)
tables = rows (Slots Str)

abbrev acts : List Act
acts =
    declare (codes "/f") open_file answers_7 1
    ∷ declare (codes "/(g)") open_file counts_args 2
    ∷ declare [] open_file none 1
    ∷ undeclare stat (pos 0)
    ∷ undeclare open_file (negsuc 0)
    ∷ []

unfoldable two_routes : tables.Tree
unfolding perform_all perform route_decl route_undecl
two_routes = (perform_all plain tables tables.null acts).1

codes_run :
    (perform_all plain tables tables.null acts).0
    ≡ some (pos 0) ∷ some (pos 1) ∷ some einval ∷ some einval ∷ none ∷ []
unfolding perform_all perform route_decl route_undecl
codes_run = refl

call_first : route_call plain tables true two_routes open_file (codes "/f") ≡ ran (pos 7)
unfolding two_routes route_call match_regex
call_first = refl

call_second : route_call plain tables true two_routes open_file (codes "/g") ≡ ran (pos 3)
unfolding two_routes route_call match_regex
call_second = refl

-- The operations on the table's routes: a callback's code is that of the open.
open_dispatched :
    code_of (
      open_ex sgl
        (record quiet { routes = route_call plain tables true two_routes })
        (codes "/f")
        7
        7
        0
        0
        world)
    ≡ some (pos 7)
unfolding open_ex two_routes route_call match_regex basename_len sanitize_path dirname names_of
    skip_dots path_split fullpath basename open_check
open_dispatched = refl

perform_all_refines_example :
    TableOk plain tables (perform_all plain tables tables.null acts).1
    × PromisedRun plain
        (view plain tables tables.null)
        acts
        (perform_all plain tables tables.null acts).0
        (view plain tables (perform_all plain tables tables.null acts).1)
perform_all_refines_example =
    perform_all_refines plain tables acts tables.null (null-TableOk plain tables)

two_routes-TableOk : TableOk plain tables two_routes
unfolding two_routes
two_routes-TableOk = perform_all_refines_example.0

route_call-ran_iff_example :
    (route_call plain tables true two_routes open_file (codes "/g") ≡ ran (pos 3))
    ↔ ((i : ℕ) × CalledAt plain tables two_routes open_file (codes "/g") (pos 3) i)
route_call-ran_iff_example =
    route_call-ran_iff plain tables two_routes open_file (codes "/g") (pos 3)

abbrev route_f : PathRoute Str
route_f = new_route plain (codes "/f") (codes "/f") open_file answers_7 1

abbrev route_g : PathRoute Str
route_g = new_route plain (codes "/(g)") (codes "/(g)") open_file counts_args 2

route_undecl_crashes_example :
    route_call plain tables true
      (route_undecl plain tables two_routes open_file (pos 0)).1
      open_file
      (codes "/g")
    ≡ null_route
unfolding two_routes
route_undecl_crashes_example =
    route_undecl_crashes plain tables two_routes open_file (codes "/g") 0 1 route_f route_g refl
      refl refl refl

abbrev metadata_g : Metadata
metadata_g = record { path = codes "/g"; argc = 3; argv = codes "g" ∷ [] ∷ [] }

route_call-route_decl_example :
    route_call plain tables true
      (route_decl plain tables true tables.null (codes "/(g)") stat counts_args 1).1
      stat
      (codes "/g")
    ≡ ran (
        safe_dispatch plain
          (new_route plain (codes "/(g)") (codes "/(g)") stat counts_args 1)
          metadata_g)
unfolding match_regex num_expected_matches
route_call-route_decl_example =
    route_call-route_decl plain tables tables.null (codes "/g") (codes "/(g)") (codes "/(g)") stat
      counts_args 1 metadata_g (null-TableOk plain tables) refl refl (λ i r h. cc)

abbrev busy : Entering
busy = record { fent = some (pos 1, pos 1); fent_absent = false; lock_rc = pos 0; errno = 0 }

route_dispatch-replay_example :
    (rc : ℤ) × (events : List Event) × (route_dispatch plain route_g metadata_g busy
      ≡ some (rc, events))
    × (rc ≡ (
        if is_locked_out plain route_g busy then neg 0 else safe_dispatch plain route_g metadata_g))
    × (replay no_lock none events
        ≡ some (
          no_lock,
          if is_locked_out plain route_g busy
              then none
              else some (lock_for route_g.route_type route_g.consistency_discipline true),
        ))
route_dispatch-replay_example = route_dispatch-replay plain route_g metadata_g busy refl refl

match_regex_argv_example :
    (metadata_g.path ≡ codes "/g")
    × (metadata_g.argc ≡ suc (length metadata_g.argv))
    × ((length metadata_g.argv ≡ 2)
        ⊎ (is_set (group_at 2 (spans 2) (suc (length metadata_g.argv))) ≡ false))
    × (length metadata_g.argv ≤ 2)
    × (get_or metadata_g.argv 0 [] ≡ (
        if ltb 0 (length metadata_g.argv)
        then substring (codes "/g") (group_at 2 (spans 2) 1)
        else []))
unfolding match_regex num_expected_matches
match_regex_argv_example =
    match_regex_argv plain route_g (codes "/g") (spans 2) metadata_g 0 refl refl
