-- ===== src/Store/Rows.antt =====
-- Reservations and the resource rows that hold inventory for them, with the database's guards:
-- packages/db/prisma/migrations/20260905190810_reservation_exclude_constraint (no two active rows of
-- a resource overlap) and 20261011120100_booking_approval (a trigger sets `isActive` by the status).
pub mod Exclusive
pub mod Inv
pub mod Keeps
use playslot.Prelude.{
  ℕ, Bool, true, false, ◌&&◌, ◌||◌, not, Option, none, some, List, [], ◌∷◌, ◌++◌, map, any, all,
  filter, find, contains, ltb, ◌==◌, if◌then◌else◌,
}
use playslot.Prelude.Result.{Result, ok, err}
use playslot.Domain.Time.{Instant, Interval, intervals_overlap}
use playslot.Domain.Status.{ReservationStatus, status_eq, occupies_inventory}
use playslot.Store.Tables.{Store, Reservation, ResourceRow}
use playslot.Store.Action.{Action, exclusion_violation, ◌>>=◌, ◌>>◌, throw}

-- `a && b` of two ranges of time, which share an instant; an empty range shares none.
unfoldable pub ranges_overlap : Interval → Interval → Bool
ranges_overlap a b = ltb a.start a.end && (ltb b.start b.end && intervals_overlap a b)

-- Two rows that the constraint forbids side by side.
unfoldable pub clash : ResourceRow → ResourceRow → Bool
clash a b =
    a.is_active
    && (b.is_active && (a.resource_id == b.resource_id && ranges_overlap a.period b.period))

-- The constraint `no_resource_overlap` on the whole table.
unfoldable pub exclusive : List ResourceRow → Bool
exclusive [] = true
exclusive (r ∷ rs) = all (λ x. not (clash r x)) rs && exclusive rs

-- A statement that would break the constraint fails.
unfoldable pub write_rows : List ResourceRow → Action (Unit {0})
write_rows rows s =
    if exclusive rows then (ok tt, record s { rows = rows }) else (err exclusion_violation, s)

-- `INSERT INTO "ReservationResource"`
unfoldable pub insert_row : ResourceRow → Action (Unit {0})
unfolding write_rows
insert_row r s = write_rows (r ∷ s.rows) s

unfoldable pub sync_row : ℕ → ReservationStatus → ResourceRow → ResourceRow
sync_row id status r =
    if r.reservation_id == id then record r { is_active = occupies_inventory status } else r

unfoldable pub update_reservation :
    ℕ → (Reservation → Reservation) → List Reservation → List Reservation
update_reservation id f [] = []
update_reservation id f (r ∷ rs) =
    let rest = update_reservation id f rs in if r.id == id then f r ∷ rest else r ∷ rest

unfoldable pub find_reservation : ℕ → List Reservation → Option Reservation
find_reservation id rs = find (λ r. r.id == id) rs

-- `reservation.update({ where: { id }, data })` where `data` sets the status, with the trigger
-- `trg_sync_rr_active`, which runs when the status changes.
unfoldable pub set_status : ℕ → (Reservation → Reservation) → Action (Unit {0})
set_status id f s = elim (find_reservation id s.reservations) [
  | none ↦ (ok tt, s)
  | some old ↦
      let s' = record s { reservations = update_reservation id f s.reservations } in
      let rows = map (sync_row id (f old).status) s.rows in
      if status_eq old.status (f old).status
      then (ok tt, s')
      else if exclusive rows
      then (ok tt, record s' { rows = rows })
      else (err exclusion_violation, s)
]

-- `SELECT 1 … WHERE "isActive" AND "resourceId" IN (…) AND period && [start, end)`
unfoldable pub conflicts : List ℕ → Interval → List ResourceRow → Bool
conflicts resource_ids period rows =
    any
      (λ r. r.is_active && (contains resource_ids r.resource_id && ranges_overlap r.period period))
      rows
