-- ===== src/Store/Rows/Exclusive.antt =====
-- The constraint `no_resource_overlap` under the statements that write resource rows.
use playslot.Prelude.{
  ℕ, ◌≡◌, refl, Bool, true, false, not, List, [], ◌∷◌, map, any, all, filter, All, Bool-cases, inl,
  inr, arith, ◌==◌,
}
use playslot.Domain.Time.{Interval, intervals_overlap}
use playslot.Domain.Time.Overlap.{overlap_comm}
use playslot.Domain.Status.{ReservationStatus, occupies_inventory}
use playslot.Store.Tables.{ResourceRow}
use playslot.Store.Rows.{ranges_overlap, clash, exclusive, conflicts, sync_row}

-- A row that takes its resource.
abbrev pub active_row : ℕ → ℕ → Interval → ResourceRow
active_row id resource_id period = record {
  reservation_id = id;
  resource_id = resource_id;
  period = period;
  is_active = true;
}

pub ranges_overlap_comm : (a b : Interval) → ranges_overlap a b ≡ ranges_overlap b a
unfolding ranges_overlap
ranges_overlap_comm a b = ground (arith, overlap_comm a b)

pub ranges-apart : (a b : Interval) → intervals_overlap a b ≡ false → ranges_overlap a b ≡ false
unfolding ranges_overlap
ranges-apart a b h = ground (arith, h)

-- Without a conflict a new row clashes with none.
pub conflicts-clash :
    (id x : ℕ) (xs : List ℕ) (period : Interval) (rows : List ResourceRow)
    → conflicts (x ∷ xs) period rows ≡ false
    → all (λ r. not (clash (active_row id x period) r)) rows ≡ true
unfolding conflicts clash any all
conflicts-clash id x xs period [] h = refl
conflicts-clash id x xs period (r ∷ rows) h =
    ground (arith, conflicts-clash id x xs period rows, ranges_overlap_comm period r.period)

-- A conflict of fewer resources is a conflict.
pub conflicts-rest :
    (x : ℕ) (xs : List ℕ) (period : Interval) (rows : List ResourceRow)
    → conflicts (x ∷ xs) period rows ≡ false
    → conflicts xs period rows ≡ false
unfolding conflicts any
conflicts-rest x xs period [] h = refl
conflicts-rest x xs period (r ∷ rows) h = ground (arith, conflicts-rest x xs period rows)

sync_row-clash :
    (id : ℕ) (status : ReservationStatus) (a b : ResourceRow)
    → occupies_inventory status ≡ false
    → clash a b ≡ false
    → clash (sync_row id status a) (sync_row id status b) ≡ false
unfolding sync_row clash
sync_row-clash id status a b off h = ground arith

sync-all :
    (id : ℕ) (status : ReservationStatus) (a : ResourceRow) (rows : List ResourceRow)
    → occupies_inventory status ≡ false
    → all (λ r. not (clash a r)) rows ≡ true
    → all (λ r. not (clash (sync_row id status a) r)) (map (sync_row id status) rows) ≡ true
unfolding all
sync-all id status a [] off h = refl
sync-all id status a (r ∷ rows) off h =
    ground (arith, sync-all id status a rows off, sync_row-clash id status a r off)

-- Releasing the rows of a reservation cannot break the constraint.
pub release-exclusive :
    (id : ℕ) (status : ReservationStatus) (rows : List ResourceRow)
    → occupies_inventory status ≡ false
    → exclusive rows ≡ true
    → exclusive (map (sync_row id status) rows) ≡ true
unfolding exclusive
release-exclusive id status [] off h = refl
release-exclusive id status (r ∷ rows) off h =
    ground (arith, sync-all id status r rows off, release-exclusive id status rows off)

-- The trigger changes nothing where the rows have the status's activity already.
pub sync-same :
    (id : ℕ) (status : ReservationStatus) (rows : List ResourceRow)
    → All (λ r. r.reservation_id ≡ id → r.is_active ≡ occupies_inventory status) rows
    → map (sync_row id status) rows ≡ rows
unfolding sync_row
sync-same id status [] h = refl
sync-same id status (r ∷ rows) (f, h) = elim (Bool-cases (r.reservation_id == id)) [
  | inl e ↦ let same = f (ground arith) in ground (arith, sync-same id status rows h)
  | inr e ↦ ground (arith, sync-same id status rows h)
]

all-sub :
    (a : ResourceRow) (keep : ResourceRow → Bool) (rows : List ResourceRow)
    → all (λ r. not (clash a r)) rows ≡ true
    → all (λ r. not (clash a r)) (filter keep rows) ≡ true
unfolding all filter
all-sub a keep [] h = refl
all-sub a keep (r ∷ rows) h = ground (arith, all-sub a keep rows)

-- Deleting rows cannot break the constraint.
pub delete-exclusive :
    (keep : ResourceRow → Bool) (rows : List ResourceRow)
    → exclusive rows ≡ true
    → exclusive (filter keep rows) ≡ true
unfolding exclusive filter all
delete-exclusive keep [] h = refl
delete-exclusive keep (r ∷ rows) h = ground (arith, all-sub r keep rows, delete-exclusive keep rows)
