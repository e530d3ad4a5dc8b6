-- ===== src/GroupSessions/Seats.antt =====
-- The registrations of group sessions as a table: how many seats are taken, and by whom.
use playslot.Prelude.{
  ℕ, ◌+◌, ◌<◌, ◌≤◌, ◌≡◌, refl, Bool, true, false, not, ◌&&◌, List, [], ◌∷◌, any, filter, All, arith,
  ◌==◌, if◌then◌else◌,
}
use playslot.Store.Tables.{Registration}
use playslot.GroupSessions.{seats_taken, is_registered, without_seat}

abbrev pub seat : ℕ → ℕ → Registration
seat id user_id = record { group_session_id = id; user_id = user_id }

-- `@@unique([groupSessionId, userId])`
unfoldable pub unique : List Registration → Bool
unique [] = true
unique (r ∷ rs) = not (is_registered r.group_session_id r.user_id rs) && unique rs

pub seats-seat :
    (id user_id j : ℕ) (rs : List Registration)
    → seats_taken j (seat id user_id ∷ rs)
      ≡ (if id == j then seats_taken j rs + 1 else seats_taken j rs)
unfolding seats_taken filter
seats-seat id user_id j rs = ground arith

pub registered-seat :
    (id user_id v : ℕ) (rs : List Registration)
    → is_registered id v (seat id user_id ∷ rs)
      ≡ (if user_id == v then true else is_registered id v rs)
unfolding is_registered any
registered-seat id user_id v rs = ground arith

pub registered-without :
    (id user_id v : ℕ) (rs : List Registration)
    → is_registered id v (without_seat id user_id rs)
      ≡ (not (user_id == v) && is_registered id v rs)
unfolding is_registered without_seat any filter
registered-without id user_id v [] = ground arith
registered-without id user_id v (r ∷ rs) = ground (arith, registered-without id user_id v rs)

without_absent :
    (id user_id : ℕ) (rs : List Registration)
    → is_registered id user_id rs ≡ false
    → seats_taken id (without_seat id user_id rs) ≡ seats_taken id rs
unfolding seats_taken without_seat is_registered any filter
without_absent id user_id [] h = refl
without_absent id user_id (r ∷ rs) h = ground (arith, without_absent id user_id rs)

-- At most one row holds a seat, so that one seat is given back.
pub seats-without :
    (id user_id : ℕ) (rs : List Registration)
    → unique rs ≡ true
    → (if is_registered id user_id rs
        then seats_taken id (without_seat id user_id rs) + 1
        else seats_taken id (without_seat id user_id rs))
      ≡ seats_taken id rs
unfolding unique seats_taken without_seat is_registered any filter
seats-without id user_id [] h = refl
seats-without id user_id (r ∷ rs) h =
    ground (arith, seats-without id user_id rs, without_absent id user_id rs)

absent-filter :
    (p : Registration → Bool) (id user_id : ℕ) (rs : List Registration)
    → is_registered id user_id rs ≡ false
    → is_registered id user_id (filter p rs) ≡ false
unfolding is_registered any filter
absent-filter p id user_id [] h = refl
absent-filter p id user_id (r ∷ rs) h = ground (arith, absent-filter p id user_id rs)

pub unique-filter :
    (p : Registration → Bool) (rs : List Registration)
    → unique rs ≡ true
    → unique (filter p rs) ≡ true
unfolding unique filter
unique-filter p [] h = refl
unique-filter p (r ∷ rs) h =
    ground (arith, unique-filter p rs, absent-filter p r.group_session_id r.user_id rs)

pub seats-filter_le :
    (p : Registration → Bool) (j : ℕ) (rs : List Registration)
    → seats_taken j (filter p rs) ≤ seats_taken j rs
unfolding seats_taken filter
seats-filter_le p j [] = omega arith
seats-filter_le p j (r ∷ rs) = ground (arith, seats-filter_le p j rs)

pub none_taken :
    (n : ℕ) (rs : List Registration) → All (λ r. r.group_session_id < n) rs → seats_taken n rs ≡ 0
unfolding seats_taken filter
none_taken n [] h = refl
none_taken n (r ∷ rs) h = ground (arith, none_taken n rs h.1)
