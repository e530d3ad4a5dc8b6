-- ===== src/Tests/Reports.antt =====
-- The theorem on the CSV export at a concrete store.
use playslot.Prelude.{◌≡◌, refl, any}
use playslot.Prelude.Text.{codes}
use playslot.Domain.Status.{ReservationStatus}
use playslot.Store.Tables.{Store}
use playslot.Booking.Csv.{Text, csv_cell, doubled}
use playslot.Tests.Fixtures.{with_status}

-- A quote and a comma, in a quoted cell.
quoted_cell : csv_cell (codes "a\",b") ≡ codes "\"a\"\",b\""
unfolding csv_cell doubled any
quoted_cell = refl

abbrev booked_store : Store
booked_store = with_status ReservationStatus.confirmed
