-- ===== src/Route/View.antt =====
-- The table of routes as a function from types and ids, and one row of it.
use fskit.Base.{
  ℕ, zero, suc, ◌<◌, ◌≤◌, ◌≡◌, ◌≢◌, refl, sym, ap, ◌∙◌, subst, inl, inr, true, false, Option, none,
  some, [], ◌∷◌, ◌++◌, arith, ◌==◌, if◌then◌else◌, length, Bool-cases, Option-cases,
}
use fskit.Calls.{
  RouteType, create, mkdir, mknod, open_file, readdir, read, write, trunc, close, detach, stat,
  sync, rename, link, destroy, getxattr, listxattr, setxattr, removexattr, setmetadata,
}
use fskit.Route.{PathRoute, Slots, find_empty, row_at_ref, row_emplace, row_insert, all_null}
use fskit.Route.Rows.{type_code, same_type}

type_of : ℕ → RouteType
type_of n =
    if n == 0
    then create
    else if n == 1
    then mkdir
    else if n == 2
    then mknod
    else if n == 3
    then open_file
    else if n == 4
    then readdir
    else if n == 5
    then read
    else if n == 6
    then write
    else if n == 7
    then trunc
    else if n == 8
    then close
    else if n == 9
    then detach
    else if n == 10
    then stat
    else if n == 11
    then sync
    else if n == 12
    then rename
    else if n == 13
    then link
    else if n == 14
    then destroy
    else if n == 15
    then getxattr
    else if n == 16
    then listxattr
    else if n == 17
    then setxattr
    else if n == 18
    then removexattr
    else setmetadata

type_of-type_code : (t : RouteType) → type_of (type_code t) ≡ t
unfolding type_of
type_of-type_code create = refl
type_of-type_code mkdir = refl
type_of-type_code mknod = refl
type_of-type_code open_file = refl
type_of-type_code readdir = refl
type_of-type_code read = refl
type_of-type_code write = refl
type_of-type_code trunc = refl
type_of-type_code close = refl
type_of-type_code detach = refl
type_of-type_code stat = refl
type_of-type_code sync = refl
type_of-type_code rename = refl
type_of-type_code link = refl
type_of-type_code destroy = refl
type_of-type_code getxattr = refl
type_of-type_code listxattr = refl
type_of-type_code setxattr = refl
type_of-type_code removexattr = refl
type_of-type_code setmetadata = refl

pub same_type_sound : (t u : RouteType) → same_type t u ≡ true → t ≡ u
same_type_sound t u h =
    let codes : type_code t ≡ type_code u = ground arith in
    sym (type_of-type_code t) ∙ ap type_of codes ∙ type_of-type_code u

pub same_type_refl : (t : RouteType) → same_type t t ≡ true
same_type_refl t = ground arith

module _ {Regex : Type 0} where
  abbrev pub join : Option (Option (PathRoute Regex)) → Option (PathRoute Regex)
  join none = none
  join (some r) = r

  -- the route in a slot, if there is one
  abbrev pub slot_at : Slots Regex → ℕ → Option (PathRoute Regex)
  slot_at row i = join (row_at_ref row i)

  pub slot_at-emplace :
      (row : Slots Regex) (r : Option (PathRoute Regex)) (i j : ℕ)
      → i < length row
      → slot_at (row_emplace row r i) j ≡ (if i == j then r else slot_at row j)
  slot_at-emplace [] r i j h = absurd (omega arith)
  slot_at-emplace (s ∷ row) r zero zero h = refl
  slot_at-emplace (s ∷ row) r zero (suc j) h = ground arith
  slot_at-emplace (s ∷ row) r (suc i) zero h = ground arith
  slot_at-emplace (s ∷ row) r (suc i) (suc j) h = ground (arith, slot_at-emplace row r i j)

  pub slot_at-append :
      (row : Slots Regex) (r : Option (PathRoute Regex)) (j : ℕ)
      → slot_at (row ++ r ∷ []) j ≡ (if length row == j then r else slot_at row j)
  slot_at-append [] r zero = refl
  slot_at-append [] r (suc j) = ground arith
  slot_at-append (s ∷ row) r zero = ground arith
  slot_at-append (s ∷ row) r (suc j) = ground (arith, slot_at-append row r j)

  pub slot_at_beyond : (row : Slots Regex) (j : ℕ) → length row ≤ j → slot_at row j ≡ none
  slot_at_beyond [] j h = refl
  slot_at_beyond (s ∷ row) zero h = absurd (omega arith)
  slot_at_beyond (s ∷ row) (suc j) h = slot_at_beyond row j (omega arith)

  pub all_null-slot_at : (row : Slots Regex) (j : ℕ) → all_null row ≡ true → slot_at row j ≡ none
  unfolding all_null
  all_null-slot_at [] j h = refl
  all_null-slot_at (none ∷ row) zero h = refl
  all_null-slot_at (none ∷ row) (suc j) h = all_null-slot_at row j h
  all_null-slot_at (some r ∷ row) j h = cc

  pub find_empty-some :
      (row : Slots Regex) (i : ℕ)
      → find_empty row ≡ some i
      → (i < length row) × (slot_at row i ≡ none)
  unfolding find_empty
  find_empty-some [] i h = cc
  find_empty-some (none ∷ row) zero h = (omega arith, refl)
  find_empty-some (none ∷ row) (suc i) h = ground arith
  find_empty-some (some r ∷ row) zero h = ground arith
  find_empty-some (some r ∷ row) (suc i) h = ground (arith, find_empty-some row i)

  -- an id below the first NULL slot, or in the row if there is none
  abbrev pub Below : Slots Regex → Option ℕ → ℕ → Type 0
  Below row none j = j < length row
  Below row (some i) j = j < i

  Below-suc :
      (r : Option (PathRoute Regex)) (row : Slots Regex) (o : Option ℕ) (j : ℕ)
      → Below (r ∷ row) (elim o [ none ↦ none | some i ↦ some (suc i) ]) (suc j)
      → Below row o j
  Below-suc r row none j h = omega arith
  Below-suc r row (some i) j h = omega arith

  pub find_empty-Below :
      (row : Slots Regex) (j : ℕ) → Below row (find_empty row) j → slot_at row j ≢ none
  unfolding find_empty
  find_empty-Below [] j h = absurd (omega arith)
  find_empty-Below (none ∷ row) j h = absurd (omega arith)
  find_empty-Below (some r ∷ row) zero h = ground arith
  find_empty-Below (some r ∷ row) (suc j) h =
      find_empty-Below row j (Below-suc (some r) row (find_empty row) j h)

  row_insert_append :
      (row : Slots Regex) (route : PathRoute Regex)
      → find_empty row ≡ none
      → row_insert row route ≡ (length row, row ++ some route ∷ [])
  unfolding row_insert
  row_insert_append row route e = rw (e, row_insert)

  row_insert_emplace :
      (row : Slots Regex) (route : PathRoute Regex) (i : ℕ)
      → find_empty row ≡ some i
      → row_insert row route ≡ (i, row_emplace row (some route) i)
  unfolding row_insert
  row_insert_emplace row route i e = rw (e, row_insert)

  -- The route has the least id that was free, and no other slot has changed.
  abbrev pub Inserted : Slots Regex → PathRoute Regex → ℕ × Slots Regex → Type 0
  Inserted row route (i, row') =
      (slot_at row i ≡ none)
      × ((j : ℕ) → j < i → slot_at row j ≢ none)
      × ((j : ℕ) → slot_at row' j ≡ (if i == j then some route else slot_at row j))

  pub row_insert-Inserted :
      (row : Slots Regex) (route : PathRoute Regex) → Inserted row route (row_insert row route)
  row_insert-Inserted row route = elim (Option-cases (find_empty row)) [
    | inl e ↦
        let out : row_insert row route ≡ (length row, row ++ some route ∷ []) =
          row_insert_append row route e in
        let below : (j : ℕ) → j < length row → slot_at row j ≢ none =
          λ j h. find_empty-Below row j (subst (λ o. Below row o j) (sym e) h) in
        subst (Inserted row route) (sym out)
          (slot_at_beyond row (length row) (omega arith), below, slot_at-append row (some route))
    | inr (i, e) ↦
        let out : row_insert row route ≡ (i, row_emplace row (some route) i) =
          row_insert_emplace row route i e in
        let here = find_empty-some row i e in
        let below : (j : ℕ) → j < i → slot_at row j ≢ none =
          λ j h. find_empty-Below row j (subst (λ o. Below row o j) (sym e) h) in
        subst (Inserted row route) (sym out)
          (here.1, below, λ j. slot_at-emplace row (some route) i j here.0)
  ]

  -- A row with a route in it is kept.
  pub all_null_route :
      (row : Slots Regex) (i : ℕ) (r : PathRoute Regex)
      → slot_at row i ≡ some r
      → all_null row ≡ false
  all_null_route row i r h = elim (Bool-cases (all_null row)) [
    | inl e ↦ cc (h, all_null-slot_at row i e)
    | inr e ↦ e
  ]
