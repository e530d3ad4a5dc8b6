-- ===== src/Booking/Transaction/Outcome.antt =====
-- `runBookingTransaction`: it books exactly when no active row overlaps, and keeps the invariant.
use playslot.Prelude.{
  ℕ, ◌+◌, ◌<◌, ◌≡◌, refl, sym, ◌∙◌, ap, Bool, true, false, some, List, [], ◌∷◌, any, contains, All,
  All-imp, Bool-cases, inl, inr, arith, if◌then◌else◌, find,
}
use playslot.Prelude.Result.{ok, err}
use playslot.Domain.Time.{Interval}
use playslot.Domain.Status.{ReservationStatus, occupies_inventory}
use playslot.Store.Tables.{Store, Reservation, ResourceRow}
use playslot.Store.Action.{◌>>◌, audit, pure, >>=-ok, settle-ok, settle-err}
use playslot.Store.Rows.{
  exclusive, conflicts, insert_row, write_rows, set_status, update_reservation, find_reservation,
}
use playslot.Store.Rows.Exclusive.{conflicts-clash, conflicts-rest}
use playslot.Store.Rows.Inv.{Inv, IsSynced, KeepsPlace, set_status-keeps}
use playslot.Booking.Transaction.{
  BookingArgs, status_of, action_of, period_of, overlap, held, finish, row_for, insert_rows,
  finish_booking, booking_body, run_booking_transaction,
}

-- No resource is named twice.
abbrev pub IsDistinct : List ℕ → Type 0
IsDistinct [] = Unit
IsDistinct (x ∷ xs) = (contains xs x ≡ false) × IsDistinct xs

-- The table with a row for each resource.
abbrev pub with_rows : ℕ → Interval → Bool → List ℕ → List ResourceRow → List ResourceRow
with_rows id period active [] rows = rows
with_rows id period active (x ∷ xs) rows =
    with_rows id period active xs (row_for id period active x ∷ rows)

conflicts-with_row :
    (id x : ℕ) (xs : List ℕ) (period : Interval) (rows : List ResourceRow)
    → contains xs x ≡ false
    → conflicts (x ∷ xs) period rows ≡ false
    → conflicts xs period (row_for id period true x ∷ rows) ≡ false
unfolding conflicts any
conflicts-with_row id x xs period rows d h =
    let rest = conflicts-rest x xs period rows h in ground (arith, rest)

insert-exclusive :
    (id x : ℕ) (xs : List ℕ) (period : Interval) (rows : List ResourceRow)
    → conflicts (x ∷ xs) period rows ≡ false
    → exclusive rows ≡ true
    → exclusive (row_for id period true x ∷ rows) ≡ true
unfolding exclusive
insert-exclusive id x xs period rows h e = ground (arith, conflicts-clash id x xs period rows h)

insert_row_lem :
    (r : ResourceRow) (s : Store)
    → exclusive (r ∷ s.rows) ≡ true
    → insert_row r s ≡ (ok tt, record s { rows = r ∷ s.rows })
unfolding insert_row
insert_row_lem r s fine = rw (fine, write_rows)

-- Without a conflict all rows are inserted, and the constraint holds.
insert_rows_lem :
    (id : ℕ) (period : Interval) (xs : List ℕ) (s : Store)
    → IsDistinct xs
    → conflicts xs period s.rows ≡ false
    → exclusive s.rows ≡ true
    → (insert_rows id period true xs s
        ≡ (ok tt, record s { rows = with_rows id period true xs s.rows }))
      × (exclusive (with_rows id period true xs s.rows) ≡ true)
unfolding insert_rows
insert_rows_lem id period [] s d h e = (refl, e)
insert_rows_lem id period (x ∷ xs) s (fresh, d) h e =
    let fine = insert-exclusive id x xs period s.rows h e in
    let (rest, fine') =
      insert_rows_lem id period xs (record s { rows = row_for id period true x ∷ s.rows }) d
        (conflicts-with_row id x xs period s.rows fresh h) fine in
    (
      >>=-ok (insert_row (row_for id period true x)) (λ _. insert_rows id period true xs) s _ tt
            (insert_row_lem (row_for id period true x) s fine)
          ∙ rest,
      fine',
    )

update-absent :
    (n : ℕ) (f : Reservation → Reservation) (rs : List Reservation)
    → All (λ r. r.id < n) rs
    → update_reservation n f rs ≡ rs
unfolding update_reservation
update-absent n f [] h = refl
update-absent n f (r ∷ rs) h = ground (arith, update-absent n f rs h.1)

find-absent :
    (n : ℕ) (rs : List Reservation) (j : ℕ) (r : Reservation)
    → All (λ x. x.id < n) rs
    → find_reservation j rs ≡ some r
    → j < n
unfolding find_reservation find
find-absent n [] j r h e = absurd (cc)
find-absent n (x ∷ rs) j r h e = ground (arith, find-absent n rs j r h.1)

module _ (args : BookingArgs) where
  -- The store after the reservation and its rows are in.
  abbrev pub with_held : Store → Store
  with_held s = record s {
    reservations = held args s.next_id ∷ s.reservations;
    rows = with_rows s.next_id (period_of args.slot) true args.slot.resource_ids s.rows;
    next_id = s.next_id + 1;
  }

  -- The store after a booking.
  abbrev pub booked : Store → Store
  booked s = record s {
    reservations = finish args (held args s.next_id) ∷ s.reservations;
    rows = with_rows s.next_id (period_of args.slot) true args.slot.resource_ids s.rows;
    next_id = s.next_id + 1;
    audit_log =
        record {
          actor_user_id = args.actor_user_id;
          action = action_of args.final_status;
          object_id = s.next_id;
        }
        ∷ s.audit_log;
  }

  older-IsSynced :
      (s : Store) (r : Reservation)
      → r.id ≡ s.next_id
      → All (λ x. x.id < s.next_id) s.reservations
      → (rows : List ResourceRow) → All (IsSynced s.reservations) rows
      → All (IsSynced (r ∷ s.reservations)) rows
  unfolding find_reservation find
  older-IsSynced s r e fresh [] h = tt
  older-IsSynced s r e fresh (row ∷ rows) ((x, q, a, p), h) = (
    (x, ground (arith, find-absent s.next_id s.reservations row.reservation_id x fresh q), a, p),
    older-IsSynced s r e fresh rows h,
  )

  pub new-IsSynced :
      (r : Reservation) (rs : List Reservation) (period : Interval)
      → occupies_inventory r.status ≡ true
      → record { start = r.starts_at; end = r.ends_at } ≡ period
      → (xs : List ℕ) (rows : List ResourceRow) → All (IsSynced (r ∷ rs)) rows
      → All (IsSynced (r ∷ rs)) (with_rows r.id period true xs rows)
  unfolding find_reservation find
  new-IsSynced r rs period on same [] rows h = h
  new-IsSynced r rs period on same (x ∷ xs) rows h =
      new-IsSynced r rs period on same xs (row_for r.id period true x ∷ rows)
        ((r, ground arith, sym on, sym same), h)

  pub occupying : occupies_inventory (status_of args.final_status) ≡ true
  unfolding occupies_inventory
  occupying = ground arith

  pub hold_occupies : occupies_inventory ReservationStatus.hold ≡ true
  unfolding occupies_inventory
  hold_occupies = refl

  pub with_held-Inv :
      (s : Store)
      → Inv s
      → exclusive (with_rows s.next_id (period_of args.slot) true args.slot.resource_ids s.rows)
        ≡ true
      → Inv (with_held s)
  with_held-Inv s v fine = record {
    no_overlap = fine;
    synced =
        new-IsSynced (held args s.next_id) s.reservations (period_of args.slot) hold_occupies refl
          args.slot.resource_ids s.rows
          (older-IsSynced s (held args s.next_id) refl v.fresh s.rows v.synced);
    fresh = (omega arith, All-imp _ _ s.reservations (λ r h. omega arith) v.fresh);
  }

  pub find-held :
      (s : Store)
      → find_reservation s.next_id (with_held s).reservations ≡ some (held args s.next_id)
  unfolding find_reservation find
  find-held s = ground arith

  pub update-held :
      (s : Store)
      → All (λ r. r.id < s.next_id) s.reservations
      → update_reservation s.next_id (finish args) (with_held s).reservations
        ≡ finish args (held args s.next_id) ∷ s.reservations
  unfolding update_reservation
  update-held s fresh = ground (arith, update-absent s.next_id (finish args) s.reservations fresh)

  pub finish-KeepsPlace : KeepsPlace (finish args)
  finish-KeepsPlace = record { id = λ r. refl; starts_at = λ r. refl; ends_at = λ r. refl }

  pub booking_body-conflict :
      (s : Store)
      → conflicts args.slot.resource_ids (period_of args.slot) s.rows ≡ true
      → booking_body args s ≡ (err overlap, s)
  unfolding booking_body
  booking_body-conflict s found = rw (found, booking_body) refl

  pub finish_booking_lem :
      (s : Store)
      → set_status s.next_id (finish args) (with_held s) ≡ (
        ok tt,
        record (with_held s) {
          reservations = update_reservation s.next_id (finish args) (with_held s).reservations;
        },
      )
      → update_reservation s.next_id (finish args) (with_held s).reservations
        ≡ finish args (held args s.next_id) ∷ s.reservations
      → finish_booking args s.next_id (with_held s)
        ≡ (ok (finish args (held args s.next_id)), booked s)
  unfolding finish_booking
  finish_booking_lem s finished updated =
      >>=-ok (set_status s.next_id (finish args))
        (λ _.
          audit args.actor_user_id (action_of args.final_status) s.next_id
          >> pure (finish args (held args s.next_id)))
        (with_held s) _ tt finished
      ∙ ap (λ rs. (ok (finish args (held args s.next_id)), record (booked s) { reservations = rs }))
          updated

  booking_body-booked :
      (s : Store)
      → Inv s
      → IsDistinct args.slot.resource_ids
      → conflicts args.slot.resource_ids (period_of args.slot) s.rows ≡ false
      → booking_body args s ≡ (ok (finish args (held args s.next_id)), booked s)
  unfolding booking_body
  booking_body-booked s v d none_found =
      let (inserted, fine) =
        insert_rows_lem s.next_id (period_of args.slot) args.slot.resource_ids
          (record s {
            reservations = held args s.next_id ∷ s.reservations;
            next_id = s.next_id + 1;
          })
          d none_found v.no_overlap in
      let finished =
        set_status-keeps s.next_id (finish args) finish-KeepsPlace (with_held s)
          (held args s.next_id) (with_held-Inv s v fine) (find-held s)
          (hold_occupies ∙ sym occupying) in
      rw (none_found, booking_body)
        (>>=-ok (insert_rows s.next_id (period_of args.slot) true args.slot.resource_ids)
            (λ _. finish_booking args s.next_id) _ (with_held s) tt inserted
          ∙ finish_booking_lem s finished (update-held s v.fresh))

  -- Given distinct resources and the invariant, the transaction either finds an active row of one of
  -- the resources that overlaps the slot, throws `availability_changed`, and leaves the store as it
  -- was; or finds none, returns the reservation in its final status, and stores it with an active
  -- row for each resource. The constraint of the database is never what refuses.
  pub run_booking_transaction_lem :
      (s : Store)
      → Inv s
      → IsDistinct args.slot.resource_ids
      → run_booking_transaction args s ≡ (
          if conflicts args.slot.resource_ids (period_of args.slot) s.rows
          then (err overlap, s)
          else (ok (finish args (held args s.next_id)), booked s))
  unfolding run_booking_transaction
  run_booking_transaction_lem s v d =
      elim (Bool-cases (conflicts args.slot.resource_ids (period_of args.slot) s.rows)) [
        | inl found ↦
            rw found
              (settle-err (booking_body args) overlap overlap s s (booking_body-conflict s found))
        | inr none_found ↦
            rw none_found
              (settle-ok (booking_body args) overlap s _ _ (booking_body-booked s v d none_found))
      ]

  pub booked-Inv :
      (s : Store)
      → Inv s
      → exclusive (with_rows s.next_id (period_of args.slot) true args.slot.resource_ids s.rows)
        ≡ true
      → Inv (booked s)
  booked-Inv s v fine = record {
    no_overlap = fine;
    synced =
        new-IsSynced (finish args (held args s.next_id)) s.reservations (period_of args.slot)
          occupying refl args.slot.resource_ids s.rows
          (older-IsSynced s (finish args (held args s.next_id)) refl v.fresh s.rows v.synced);
    fresh = (omega arith, All-imp _ _ s.reservations (λ r h. omega arith) v.fresh);
  }
