-- ===== src/Booking/Transaction/Kept.antt =====
-- `runBookingTransaction` keeps the invariant for every request, the malformed ones too.
use playslot.Prelude.{ℕ, ◌+◌, ◌≡◌, refl, ◌⊎◌, Bool, true, List, [], ◌∷◌, Bool-cases, inl, inr}
use playslot.Prelude.Result.{ok, err}
use playslot.Domain.Time.{Interval}
use playslot.Store.Tables.{Store}
use playslot.Store.Action.{exclusion_violation, transaction, commit, ◌>>=◌}
use playslot.Store.Rows.{exclusive, conflicts, insert_row, write_rows}
use playslot.Store.Rows.Inv.{Inv}
use playslot.Store.Rows.Keeps.{
  Keeps, >>=-Keeps, pure-Keeps, audit-Keeps, set_status-Keeps, commit-Inv, on_exclusion-Keeps,
}
use playslot.Booking.Transaction.{
  BookingArgs, period_of, overlap, held, row_for, create_held, insert_rows, finish_booking,
  booking_body, run_booking_transaction,
}
use playslot.Booking.Transaction.Outcome.{with_rows, with_held, with_held-Inv, finish-KeepsPlace}

-- The rows go in one by one: either the constraint refuses one of them, or they are all in and the
-- constraint holds.
pub insert_rows_cases :
    (id : ℕ) (period : Interval) (active : Bool) (xs : List ℕ) (s : Store)
    → exclusive s.rows ≡ true
    → ((s' : Store) × (insert_rows id period active xs s ≡ (err exclusion_violation, s')))
      ⊎ ((insert_rows id period active xs s
            ≡ (ok tt, record s { rows = with_rows id period active xs s.rows }))
          × (exclusive (with_rows id period active xs s.rows) ≡ true))
unfolding insert_rows insert_row write_rows
insert_rows_cases id period active [] s e = inr (refl, e)
insert_rows_cases id period active (x ∷ xs) s e =
    elim (Bool-cases (exclusive (row_for id period active x ∷ s.rows))) [
      | inl fine ↦ rw fine (
          insert_rows_cases id period active xs
            (record s { rows = row_for id period active x ∷ s.rows }) fine)
      | inr refused ↦ rw refused (inl (s, refl))
    ]

module _ (args : BookingArgs) where
  abbrev created : Store → Store
  created s = record s {
    reservations = held args s.next_id ∷ s.reservations;
    next_id = s.next_id + 1;
  }

  finish_booking-Keeps : (id : ℕ) → Keeps (finish_booking args id)
  unfolding finish_booking
  finish_booking-Keeps id =
      search (>>=-Keeps, set_status-Keeps, audit-Keeps, pure-Keeps, finish-KeepsPlace)

  -- Whatever the body does to the store on its way, the transaction ends in one that has the
  -- invariant.
  rows_in :
      (s : Store)
      → Inv s
      → (o : Store) → Inv o
      → Inv
          (commit o (
            (insert_rows s.next_id (period_of args.slot) true args.slot.resource_ids >>= λ _.
            finish_booking args s.next_id)
              (created s))).1
  rows_in s v o w =
      elim (insert_rows_cases s.next_id (period_of args.slot) true args.slot.resource_ids
        (created s) v.no_overlap) [
          | inl (s', e) ↦ rw e w
          | inr (e, fine) ↦ rw e (
              commit-Inv Inv o (finish_booking args s.next_id (with_held args s)) w (
                (finish_booking-Keeps s.next_id).keeps (with_held args s)
                  (with_held-Inv args s v fine)))
        ]

  booking_body-commit : (s : Store) → Inv s → Inv (commit s (booking_body args s)).1
  unfolding booking_body create_held
  booking_body-commit s v =
      elim (Bool-cases (conflicts args.slot.resource_ids (period_of args.slot) s.rows)) [
        | inl found ↦ rw found v
        | inr none_found ↦ rw none_found (rows_in s v s v)
      ]

  -- A booking keeps the invariant, whether it succeeds or throws.
  pub run_booking_transaction-Inv : Keeps (run_booking_transaction args)
  unfolding run_booking_transaction
  run_booking_transaction-Inv =
      on_exclusion-Keeps (transaction (booking_body args)) overlap
        (record { keeps = booking_body-commit })
