-- ===== src/Pool/Store/Tables.antt =====
-- Laws of the tables: what an update shows to a later lookup and to a count.
use openmate.Base.{
  ℕ, GoString, ◌=?◌, Option, none, some, List, [], ◌∷◌, ◌++◌, true, false, if◌then◌else◌, ◌&&◌, ◌≡◌,
  refl, inl, inr, count, In, arith, ◌+◌, ◌≤◌, ap, Bool-cases, any,
}
use openmate.Pool.Store.{
  ApiRow, InvocationRow, AttemptRow, find_api, find_invocation, update_api, update_invocation,
  update_attempt, is_running,
}

abbrev pub map_row : (ApiRow → ApiRow) → Option ApiRow → Option ApiRow
map_row f none = none
map_row f (some row) = some (f row)

pub find_api-update_api :
    (id k : GoString) (f : ApiRow → ApiRow) (rows : List ApiRow)
    → ((row : ApiRow) → (f row).api_id ≡ row.api_id)
    → find_api id (update_api k f rows)
      ≡ (if k =? id then map_row f (find_api id rows) else find_api id rows)
unfolding find_api update_api
find_api-update_api id k f [] h = ground arith
find_api-update_api id k f (row ∷ rows) h = ground (arith, h row, find_api-update_api id k f rows h)

abbrev pub map_invocation :
    (InvocationRow → InvocationRow) → Option InvocationRow → Option InvocationRow
map_invocation f none = none
map_invocation f (some row) = some (f row)

pub find_invocation-update_invocation :
    (id k : GoString) (f : InvocationRow → InvocationRow) (rows : List InvocationRow)
    → ((row : InvocationRow) → (f row).invocation_id ≡ row.invocation_id)
    → find_invocation id (update_invocation k f rows)
      ≡ (if k =? id then map_invocation f (find_invocation id rows) else find_invocation id rows)
unfolding find_invocation update_invocation
find_invocation-update_invocation id k f [] h = ground arith
find_invocation-update_invocation id k f (row ∷ rows) h =
    ground (arith, h row, find_invocation-update_invocation id k f rows h)

pub find_invocation-append :
    (id : GoString) (rows : List InvocationRow) (row : InvocationRow)
    → find_invocation id rows ≡ none
    → row.invocation_id ≡ id
    → find_invocation id (rows ++ row ∷ []) ≡ some row
unfolding find_invocation
find_invocation-append id [] row h e = ground arith
find_invocation-append id (other ∷ rows) row h e =
    ground (arith, find_invocation-append id rows row)

unfoldable pub find_attempt : GoString → List AttemptRow → Option AttemptRow
find_attempt id [] = none
find_attempt id (row ∷ rows) = if row.attempt_id =? id then some row else find_attempt id rows

pub find_attempt-append :
    (id : GoString) (rows : List AttemptRow) (row : AttemptRow)
    → any (λ a. a.attempt_id =? id) rows ≡ false
    → row.attempt_id ≡ id
    → find_attempt id (rows ++ row ∷ []) ≡ some row
unfolding find_attempt
find_attempt-append id [] row h e = ground arith
find_attempt-append id (other ∷ rows) row h e = ground (arith, find_attempt-append id rows row)

-- A row of a table with distinct keys is the one that its key finds.
pub find_api_of_In :
    (row : ApiRow) (rows : List ApiRow)
    → ((id : GoString) → count (λ r. r.api_id =? id) rows ≤ 1)
    → In row rows
    → find_api row.api_id rows ≡ some row
unfolding find_api
find_api_of_In row [] u h = absurd h
find_api_of_In row (other ∷ rows) u (inl e) = ground (arith, ap (λ (r : ApiRow). r.api_id) e)
find_api_of_In row (other ∷ rows) u (inr i) =
    let below : (id : GoString) → count (λ r. r.api_id =? id) rows ≤ 1 =
      λ id. ground (arith, u id) in
    ground (arith, find_api_of_In row rows below i, u row.api_id, found_counts row rows i)
  where
    found_counts : (r : ApiRow) (l : List ApiRow) → In r l → 1 ≤ count (λ q. q.api_id =? r.api_id) l
    found_counts r [] h = absurd h
    found_counts r (q ∷ l) (inl e) = ground (arith, ap (λ (k : ApiRow). k.api_id) e)
    found_counts r (q ∷ l) (inr i') = ground (arith, found_counts r l i')

-- How many running attempts an API serves.
unfoldable pub running_on : GoString → List AttemptRow → ℕ
running_on id = count (λ a. is_running a.status && (a.api_id =? id))

pub running_on-update_attempt :
    (id k : GoString) (f : AttemptRow → AttemptRow) (rows : List AttemptRow) (a : AttemptRow)
    → ((row : AttemptRow) → is_running (f row).status ≡ false)
    → count (λ r. r.attempt_id =? k) rows ≤ 1
    → find_attempt k rows ≡ some a
    → is_running a.status ≡ true
    → running_on id (update_attempt k f rows) + (if a.api_id =? id then 1 else 0)
      ≡ running_on id rows
unfolding running_on update_attempt find_attempt
running_on-update_attempt id k f [] a stops u h r = cc
running_on-update_attempt id k f (row ∷ rows) a stops u h r =
    elim (Bool-cases (row.attempt_id =? k)) [
      | inl e ↦ ground (
        arith,
        stops row,
        untouched k f rows (ground arith),
        ap (λ (q : AttemptRow). is_running q.status) (here e),
        ap (λ (q : AttemptRow). q.api_id =? id) (here e),
      )
      | inr e ↦
          ground
            (arith, running_on-update_attempt id k f rows a stops (ground arith) (ground arith) r)
    ]
  where
    here : (row.attempt_id =? k) ≡ true → row ≡ a
    here e = ground arith

    untouched :
        (key : GoString) (g : AttemptRow → AttemptRow) (l : List AttemptRow)
        → count (λ q. q.attempt_id =? key) l ≤ 0
        → update_attempt key g l ≡ l
    untouched key g [] z = refl
    untouched key g (q ∷ l) z = ground (arith, untouched key g l)

-- A running attempt counts for its API.
pub running_on-pos :
    (k : GoString) (rows : List AttemptRow) (a : AttemptRow)
    → find_attempt k rows ≡ some a
    → is_running a.status ≡ true
    → 1 ≤ running_on a.api_id rows
unfolding find_attempt running_on
running_on-pos k [] a h r = cc
running_on-pos k (row ∷ rows) a h r = elim (Bool-cases (row.attempt_id =? k)) [
  | inl e ↦ ground (
    arith,
    ap (λ (q : AttemptRow). is_running q.status) (here e),
    ap (λ (q : AttemptRow). q.api_id) (here e),
  )
  | inr e ↦ ground (arith, running_on-pos k rows a)
]
  where
    here : (row.attempt_id =? k) ≡ true → row ≡ a
    here e = ground arith
