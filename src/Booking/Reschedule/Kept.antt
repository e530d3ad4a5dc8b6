-- ===== src/Booking/Reschedule/Kept.antt =====
-- `reschedule` keeps the invariant.

use playslot.Prelude.{
  ℕ, ◌≡◌, refl, ◌∙◌, Bool, true, not, List, [], ◌∷◌, filter, Option, none, some, All, arith,
  Bool-cases, Option-cases, inl, inr, ◌==◌, if◌then◌else◌,
}
use playslot.Prelude.Int.{ℤ}
use playslot.Prelude.Result.{ok}
use playslot.Domain.Time.{Instant, Interval}
use playslot.Domain.Status.{includes, occupies_inventory, ReservationStatus, status_eq}
use playslot.Store.Tables.{Store, Effect, Reservation, ReservationType, ResourceRow}
use playslot.Store.Action.{commit, transaction, audit, emit, pure, on_exclusion, ◌>>◌, >>=-ok}
use playslot.Store.Rows.{exclusive, conflicts, find_reservation, update_reservation, set_status}
use playslot.Store.Rows.Exclusive.{delete-exclusive}
use playslot.Store.Rows.Inv.{Inv, IsSynced, find-update_self, find-update_ne, update-fresh}
use playslot.Store.Rows.Keeps.{
  Keeps, Holds, keeps_rules, audit-Keeps, commit-Inv, on_exclusion-Keeps, throw_if-Keeps, >>=-Keeps,
  >>=-Leads,
}
use playslot.Booking.Slot.{Env, ResolvedSlot}
use playslot.Booking.Notices.{send, reschedule_mails}
use playslot.Booking.Transaction.{period_of, overlap, row_for}
use playslot.Booking.Transaction.Outcome.{with_rows}
use playslot.Booking.Transaction.Kept.{insert_rows_cases}
use playslot.Booking.Lifecycle.{find_of_club, of_club}
use playslot.Booking.Stable.{Inv-Stable, stable_rules}
use playslot.Booking.Create.Kept.{resolve_slot-Keeps, price_for-Keeps}
use playslot.Booking.Reschedule.{
  RescheduleInput, active_statuses, moved, without, reschedule_body, new_price, move,
  reschedule_existing, reschedule, is_block,
}

-- Rows of a stored reservation that cover its time, active as its status says, are in step.
with_rows-IsSynced :
    (rs : List Reservation) (id : ℕ) (r : Reservation) (active : Bool) (period : Interval)
    → find_reservation id rs ≡ some r
    → active ≡ occupies_inventory r.status
    → period ≡ record { start = r.starts_at; end = r.ends_at }
    → (xs : List ℕ) (rows : List ResourceRow) → All (IsSynced rs) rows
    → All (IsSynced rs) (with_rows id period active xs rows)
with_rows-IsSynced rs id r active period e on same [] rows h = h
with_rows-IsSynced rs id r active period e on same (x ∷ xs) rows h =
    with_rows-IsSynced rs id r active period e on same xs (row_for id period active x ∷ rows)
      ((r, e, on, same), h)

-- The rows of the other reservations do not see the update.
without-IsSynced :
    (id : ℕ) (f : Reservation → Reservation)
    → ((r : Reservation) → (f r).id ≡ r.id)
    → (rs : List Reservation) (rows : List ResourceRow) → All (IsSynced rs) rows
    → All (IsSynced (update_reservation id f rs)) (without id rows)
unfolding without filter
without-IsSynced id f k rs [] h = tt
without-IsSynced id f k rs (row ∷ rows) ((r, e, a, p), h) =
    let rest = without-IsSynced id f k rs rows h in
    elim (Bool-cases (row.reservation_id == id)) [
      | inl same ↦ rw same rest
      | inr other ↦
          rw other ((r, find-update_ne id f k rs row.reservation_id (ground arith) ∙ e, a, p), rest)
    ]

active_occupies : (s : ReservationStatus) → includes active_statuses s ≡ occupies_inventory s
unfolding occupies_inventory
active_occupies s = refl

module _ (slot : ResolvedSlot) (price_cents : ℤ) (id : ℕ) where
  status_same : (r : Reservation) → status_eq r.status (moved slot price_cents r).status ≡ true
  status_same r = ground arith

  set_moved :
      (s : Store) (r : Reservation)
      → find_reservation id s.reservations ≡ some r
      → set_status id (moved slot price_cents) s ≡ (
        ok tt,
        record s { reservations = update_reservation id (moved slot price_cents) s.reservations },
      )
  unfolding set_status
  set_moved s r e = rw (e, set_status, status_same r) refl

  moved-Inv :
      (s : Store) (r : Reservation) (rows : List ResourceRow)
      → Inv s
      → find_reservation id s.reservations ≡ some r
      → rows
        ≡ with_rows id
            (period_of slot)
            (includes active_statuses r.status)
            slot.resource_ids
            (without id s.rows)
      → exclusive rows ≡ true
      → Inv (record s {
        rows = rows;
        reservations = update_reservation id (moved slot price_cents) s.reservations;
      })
  moved-Inv s r rows v e rows_eq fine = record {
    no_overlap = fine;
    synced = rw rows_eq (
        with_rows-IsSynced (update_reservation id (moved slot price_cents) s.reservations) id
          (moved slot price_cents r) (includes active_statuses r.status) (period_of slot)
          (find-update_self id (moved slot price_cents) (λ x. refl) s.reservations r e)
          (active_occupies r.status) refl slot.resource_ids (without id s.rows)
          (without-IsSynced id (moved slot price_cents) (λ x. refl) s.reservations s.rows
            v.synced));
    fresh = update-fresh id (moved slot price_cents) (λ x. refl) s.next_id s.reservations v.fresh;
  }

  abbrev dropped : Store → Store
  dropped s = record s { rows = without id s.rows }

  without-exclusive : (s : Store) → Inv s → exclusive (without id s.rows) ≡ true
  unfolding without
  without-exclusive s v =
      delete-exclusive (λ (r : ResourceRow). not (r.reservation_id == id)) s.rows v.no_overlap

  written-Inv :
      (s : Store) (r : Reservation) (staff : ℕ) (rows : List ResourceRow)
      → find_reservation id s.reservations ≡ some r
      → Inv (record s {
        rows = rows;
        reservations = update_reservation id (moved slot price_cents) s.reservations;
      })
      → Inv
          ((set_status id (moved slot price_cents) >> audit staff "reservation.rescheduled" id)
            (record s { rows = rows })).1
  written-Inv s r staff rows e v =
      rw
        (>>=-ok (set_status id (moved slot price_cents))
          (λ _. audit staff "reservation.rescheduled" id) (record s { rows = rows }) _ tt
          (set_moved (record s { rows = rows }) r e))
        ((audit-Keeps staff "reservation.rescheduled" id).keeps _ v)

  body-Inv :
      (s : Store) (r : Reservation) (staff : ℕ)
      → Inv s
      → find_reservation id s.reservations ≡ some r
      → Inv (commit s (reschedule_body slot r id price_cents staff s)).1
  unfolding reschedule_body
  body-Inv s r staff v e =
      elim (Bool-cases (conflicts slot.resource_ids (period_of slot) (without id s.rows))) [
        | inl found ↦ rw found v
        | inr none_found ↦
            rw none_found
              (elim (insert_rows_cases id (period_of slot) (includes active_statuses r.status)
                slot.resource_ids (dropped s) (without-exclusive s v)) [
                  | inl (s', refused) ↦ rw refused v
                  | inr (inserted, fine) ↦ rw inserted (
                      commit-Inv Inv s _ v
                        (written-Inv s r staff _ e (moved-Inv s r _ v e refl fine)))
                ])
      ]

new_price-Holds :
    {P : Store → Type 0} (env : Env) (club_id : ℕ) (type : ReservationType) (slot : ResolvedSlot)
    → Holds P (new_price env club_id type slot)
unfolding new_price
new_price-Holds env club_id type slot = search (keeps_rules, price_for-Keeps) depth 24

-- The reservation that was read is stored while the slot and the price are worked out.
abbrev Has : ℕ → Reservation → Store → Type 0
Has id r s = Inv s × (find_reservation id s.reservations ≡ some r)

of_club_eq :
    (club_id : ℕ) (o : Option Reservation) (r : Reservation)
    → of_club club_id o ≡ some r
    → o ≡ some r
of_club_eq club_id none r e = e
of_club_eq club_id (some x) r e = ground (arith, e)

announce-Keeps :
    (club_id id : ℕ) (r : Reservation) (slot : ResolvedSlot) (price_cents : ℤ)
    → Keeps {A = ℕ × Instant × ℤ} (
        emit (Effect.availability_changed club_id)
        >> ((if is_block r.type then pure tt else send (reschedule_mails id))
            >> pure (id, slot.start, price_cents)))
announce-Keeps club_id id r slot price_cents = search (stable_rules, Inv-Stable) depth 24

move-Inv :
    (club_id id : ℕ) (r : Reservation) (staff : ℕ) (slot : ResolvedSlot) (price_cents : ℤ)
    (s : Store)
    → Has id r s
    → Inv (move club_id id r staff slot price_cents s).1
unfolding move
move-Inv club_id id r staff slot price_cents s (v, e) =
    let body = transaction (reschedule_body slot r id price_cents staff) in
    let settled : Keeps (on_exclusion (λ _. body s) overlap) =
      on_exclusion-Keeps (λ _. body s) overlap
        (record { keeps = λ _ _. body-Inv slot price_cents id s r staff v e }) in
    (>>=-Keeps (on_exclusion (λ _. body s) overlap)
        (λ _.
          emit (Effect.availability_changed club_id)
          >> ((if is_block r.type then pure tt else send (reschedule_mails id))
              >> pure (id, slot.start, price_cents)))
        settled (λ _. announce-Keeps club_id id r slot price_cents)).keeps
      s v

existing-Inv :
    (env : Env) (now : Instant) (club_id id : ℕ) (input : RescheduleInput) (staff : ℕ)
    (r : Reservation) (s : Store)
    → Has id r s
    → Inv (reschedule_existing env now club_id id input staff r s).1
unfolding reschedule_existing
existing-Inv env now club_id id input staff r =
    >>=-Leads (Has id r) _ _ (λ s h. h.0) (throw_if-Keeps _ _)
      λ _.
        >>=-Leads (Has id r) _ _ (λ s h. h.0) (resolve_slot-Keeps _ _ _)
          λ slot.
            >>=-Leads (Has id r) _ _ (λ s h. h.0) (new_price-Holds _ _ _ _)
              λ price_cents. move-Inv club_id id r staff slot price_cents

-- A move keeps the invariant, whether it succeeds or throws.
pub reschedule-Inv :
    (env : Env) (now : Instant) (club_id id : ℕ) (input : RescheduleInput) (staff : ℕ)
    → Keeps (reschedule env now club_id id input staff)
unfolding reschedule find_of_club
reschedule-Inv env now club_id id input staff = record {
  keeps = λ s v. elim (Option-cases (of_club club_id (find_reservation id s.reservations))) [
    | inl missing ↦ rw missing v
    | inr (r, e) ↦ rw e (
        existing-Inv env now club_id id input staff r s
          (v, of_club_eq club_id (find_reservation id s.reservations) r e))
  ];
}
