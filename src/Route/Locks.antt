-- ===== src/Route/Locks.antt =====
-- fskit_route_dispatch, fskit_route_enter and fskit_route_leave: which lock a callback runs under.
use fskit.Base.{
  ℕ, ◌≡◌, refl, inl, inr, true, false, Option, none, some, List, [], ◌∷◌, not, Bool, ◌&&◌, ◌||◌,
  ◌==◌, if◌then◌else◌, arith, Bool-cases,
}
use fskit.Base.Int.{ℤ, neg, is_nonpos, is_zero}
use fskit.Calls.{RouteType, is_teardown}
use fskit.Route.{Posix, PathRoute, Metadata, safe_dispatch}
use fskit.Route.Rows.{same_type}

-- FSKIT_SEQUENTIAL, FSKIT_CONCURRENT, FSKIT_INODE_SEQUENTIAL, FSKIT_INODE_CONCURRENT
abbrev pub sequential : ℕ
sequential = 1

abbrev pub concurrent : ℕ
concurrent = 2

abbrev pub inode_sequential : ℕ
inode_sequential = 3

abbrev pub inode_concurrent : ℕ
inode_concurrent = 4

pub data Lock : Type 0 where
  no_lock route_write route_read inode_write inode_read : Lock

pub data Unlock : Type 0 where
  no_unlock route_unlock inode_unlock : Unlock

-- What the caller passes on: `fent` as its open_count and link_count, or NULL; dargs->fent_absent; and
-- what the lock function returns, with the errno that it leaves.
pub record Entering : Type 0 where
  pub fent : Option (ℤ × ℤ)
  pub fent_absent : Bool
  pub lock_rc : ℤ
  pub errno : ℕ

-- exit(1), the code of the lock function, or the lock that is taken.
pub data Entered : Type 0 where
  quits : Entered
  locked_out : ℤ → Entered
  entered : Lock → Entered

abbrev is_present : Option (ℤ × ℤ) → Bool
is_present none = false
is_present (some _) = true

-- Nothing references the inode.
abbrev is_loose : Option (ℤ × ℤ) → Bool
is_loose none = false
is_loose (some (open_count, link_count)) = is_nonpos open_count && is_nonpos link_count

-- The lock that the route's type and discipline ask for.
unfoldable pub lock_for : RouteType → (discipline : ℕ) → (present : Bool) → Lock
lock_for t discipline present =
    if same_type t RouteType.setmetadata
    then no_lock
    else if discipline == sequential
    then route_write
    else if discipline == concurrent
    then route_read
    else if present && (discipline == inode_sequential)
    then inode_write
    else if present && (discipline == inode_concurrent)
    then inode_read
    else no_lock

abbrev is_lock : Lock → Bool
is_lock no_lock = false
is_lock _ = true

unfoldable pub route_enter : {R : Type 0} → PathRoute R → Entering → Entered
unfolding lock_for
route_enter route a =
    let lock = lock_for route.route_type route.consistency_discipline (is_present a.fent) in
    if not (is_present a.fent) && not a.fent_absent
    then quits
    else if not (is_teardown route.route_type) && is_loose a.fent
    then quits
    else if is_lock lock && not (is_zero a.lock_rc)
    then locked_out a.lock_rc
    else entered lock

unfoldable pub route_leave : {R : Type 0} → PathRoute R → Entering → Unlock
route_leave route a =
    let d = route.consistency_discipline in
    if same_type route.route_type RouteType.setmetadata
    then no_unlock
    else if is_present a.fent && ((d == inode_sequential) || (d == inode_concurrent))
    then inode_unlock
    else if (d == sequential) || (d == concurrent)
    then route_unlock
    else no_unlock

-- What fskit_route_dispatch does to locks, and its call of the callback.
pub data Event : Type 0 where
  takes : Lock → Event
  runs : Event
  gives : Unlock → Event

-- The code and the events; `none` is exit(1).
unfoldable pub route_dispatch :
    (P : Posix) → PathRoute P.Regex → Metadata → Entering → Option (ℤ × List Event)
unfolding route_enter route_leave
route_dispatch P route metadata a = elim (route_enter route a) [
  | quits ↦ none
  | locked_out rc ↦ some (neg a.errno, [])
  | entered lock ↦
      some (safe_dispatch P route metadata, takes lock ∷ runs ∷ gives (route_leave route a) ∷ [])
]

-- The lock that is to be given back
abbrev pub unlock_of : Lock → Unlock
unlock_of no_lock = no_unlock
unlock_of route_write = route_unlock
unlock_of route_read = route_unlock
unlock_of inode_write = inode_unlock
unlock_of inode_read = inode_unlock

abbrev same_unlock : Unlock → Unlock → Bool
same_unlock no_unlock no_unlock = true
same_unlock route_unlock route_unlock = true
same_unlock inode_unlock inode_unlock = true
same_unlock _ _ = false

-- The lock that is held behind a sequence of events, and the one under which the callback ran last.
-- `none`: a lock is taken while another is held, or one is given back that is not held.
unfoldable pub replay : Lock → Option Lock → List Event → Option (Lock × Option Lock)
replay held under [] = some (held, under)
replay held under (takes lock ∷ rest) =
    let others = replay lock under rest in if is_lock held then none else others
replay held under (runs ∷ rest) = replay held (some held) rest
replay held under (gives u ∷ rest) =
    let others = replay no_lock under rest in
    if same_unlock u (unlock_of held) then others else none

same_unlock_refl : (u : Unlock) → same_unlock u u ≡ true
same_unlock_refl no_unlock = refl
same_unlock_refl route_unlock = refl
same_unlock_refl inode_unlock = refl

leave-lock_for :
    {R : Type 0} (route : PathRoute R) (a : Entering)
    → route_leave route a
      ≡ unlock_of (lock_for route.route_type route.consistency_discipline (is_present a.fent))
unfolding lock_for route_leave
leave-lock_for route a = ground arith

replay_run :
    (lock : Lock) (u : Unlock)
    → u ≡ unlock_of lock
    → replay no_lock none (takes lock ∷ runs ∷ gives u ∷ []) ≡ some (no_lock, some lock)
unfolding replay
replay_run lock u h = rw (h, same_unlock_refl (unlock_of lock)) refl

module _ (P : Posix) where
  -- The discipline asks for a lock, and the lock function fails.
  abbrev pub is_locked_out : PathRoute P.Regex → Entering → Bool
  is_locked_out route a =
      is_lock (lock_for route.route_type route.consistency_discipline (is_present a.fent))
      && not (is_zero a.lock_rc)

  dispatch_locked_out :
      (route : PathRoute P.Regex) (metadata : Metadata) (a : Entering)
      → (is_present a.fent || a.fent_absent) ≡ true
      → (is_teardown route.route_type || not (is_loose a.fent)) ≡ true
      → is_locked_out route a ≡ true
      → route_dispatch P route metadata a ≡ some (neg a.errno, [])
  unfolding route_dispatch
  dispatch_locked_out route metadata a here held l = ground (arith, here, held, l)

  dispatch_entered :
      (route : PathRoute P.Regex) (metadata : Metadata) (a : Entering)
      → (is_present a.fent || a.fent_absent) ≡ true
      → (is_teardown route.route_type || not (is_loose a.fent)) ≡ true
      → is_locked_out route a ≡ false
      → route_dispatch P route metadata a
        ≡ some (
          safe_dispatch P route metadata,
          takes (lock_for route.route_type route.consistency_discipline (is_present a.fent))
              ∷ runs
              ∷ gives (route_leave route a)
              ∷ [],
        )
  unfolding route_dispatch
  dispatch_entered route metadata a here held l = ground (arith, here, held, l)

  -- Dispatching a route, with an inode that is open or linked or whose type is for detaching or
  -- destroying, or without one where the caller says so, does not exit. If the lock function fails,
  -- the callback does not run and the code is -errno. Otherwise the callback runs under the lock that
  -- the route's type and discipline ask for, and its code is returned. In both cases no lock is
  -- taken twice, none is given back that is not held, and none is held at the end.
  pub route_dispatch-replay :
      (route : PathRoute P.Regex) (metadata : Metadata) (a : Entering)
      → (is_present a.fent || a.fent_absent) ≡ true
      → (is_teardown route.route_type || not (is_loose a.fent)) ≡ true
      → (rc : ℤ) × (events : List Event) × (route_dispatch P route metadata a ≡ some (rc, events))
        × (rc ≡ (if is_locked_out route a then neg a.errno else safe_dispatch P route metadata))
        × (replay no_lock none events
            ≡ some (
              no_lock,
              if is_locked_out route a
                  then none
                  else some
                      (lock_for route.route_type route.consistency_discipline (is_present a.fent)),
            ))
  unfolding replay
  route_dispatch-replay route metadata a here held = elim (Bool-cases (is_locked_out route a)) [
    | inl l ↦
        (neg a.errno, [], dispatch_locked_out route metadata a here held l, rw l refl, rw l refl)
    | inr l ↦
        let lock = lock_for route.route_type route.consistency_discipline (is_present a.fent) in
        (
          safe_dispatch P route metadata,
          takes lock ∷ runs ∷ gives (route_leave route a) ∷ [],
          dispatch_entered route metadata a here held l,
          rw l refl,
          rw l (replay_run lock (route_leave route a) (leave-lock_for route a)),
        )
  ]
