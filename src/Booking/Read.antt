-- ===== src/Booking/Read.antt =====
-- reservations.service.ts, the reads of reservations: `toSummary`, `listMine`, `getOne`. Rows that
-- begin at the same instant come in the order of the table.
use playslot.Prelude.{ℕ, not, ◌&&◌, String, Option, none, some, List, map, filter, find, take, ◌==◌}
use playslot.Prelude.Int.{ℤ, sub_ℕ}
use playslot.Prelude.Sort.{sort}
use playslot.Domain.Time.{Instant}
use playslot.Domain.Status.{ReservationStatus}
use playslot.Store.Tables.{Store, Role, Club, Reservation, ReservationType, ResourceRow}
use playslot.Store.Action.{
  Action, app_exception, not_found, forbidden, ◌>>=◌, ◌>>◌, pure, gets, or_throw, throw_if,
}
use playslot.Store.Rows.{find_reservation}
use playslot.Booking.Cancel.{is_club_staff}

pub record ReservationSummary : Type 0 where
  pub id : ℕ
  pub club_id : ℕ
  pub club_name : Option String
  pub type : ReservationType
  pub status : ReservationStatus
  pub starts_at : Instant
  pub ends_at : Instant
  pub price_cents : ℤ
  pub currency : String
  pub payment_method : String
  pub resource_ids : List ℕ

abbrev name_of : Option Club → Option String
name_of none = none
name_of (some c) = some c.name

unfoldable pub to_summary : Store → Reservation → ReservationSummary
to_summary s r = record {
  id = r.id;
  club_id = r.club_id;
  club_name = name_of (find (λ (c : Club). c.id == r.club_id) s.clubs);
  type = r.type;
  status = r.status;
  starts_at = r.starts_at;
  ends_at = r.ends_at;
  price_cents = r.price_cents;
  currency = r.currency;
  payment_method = r.payment_method;
  resource_ids =
      map (λ (x : ResourceRow). x.resource_id)
        (filter (λ (x : ResourceRow). x.reservation_id == r.id) s.rows);
}

-- `orderBy: { startsAt: 'desc' }`
abbrev latest_first : Reservation → Reservation → ℤ
latest_first a b = sub_ℕ b.starts_at a.starts_at

unfoldable pub list_mine : ℕ → Store → List ReservationSummary
list_mine user_id s = map (to_summary s) (
    take 100
      (sort latest_first (filter (λ (r : Reservation). r.user_id == user_id) s.reservations)))

unfoldable pub get_one : ℕ → ℕ → List Role → Action ReservationSummary
get_one id user_id roles = do
  r ← or_throw (← gets (λ s. find_reservation id s.reservations)) (app_exception not_found "")
  is_staff ← gets (is_club_staff r.club_id user_id roles)
  throw_if (not (r.user_id == user_id) && not is_staff) (app_exception forbidden "")
  summary ← gets (λ s. to_summary s r)
  pure summary
