-- ===== src/Tests/Removals.antt =====
-- What removing an account leaves, at concrete stores.
use playslot.Prelude.{◌≡◌, refl, some, [], ◌∷◌, map, filter, find, any, all}
use playslot.Prelude.Result.{ok}
use playslot.Domain.Status.{ReservationStatus}
use playslot.Store.Tables.{Store, User}
use playslot.Store.Rows.{set_status, update_reservation, sync_row, find_reservation, exclusive}
use playslot.Moderation.{load_target, update_user, cancel_upcoming, cancel_all, drop_registrations}
use playslot.Moderation.Removal.{
  RemovalMode, is_referenced, cascade, delete_user, delete_body, anonymize_body, on_foreign_key,
  remove,
}
use playslot.Tests.Fixtures.{empty_store, with_status, at}
use playslot.Tests.Sessions.{user}

abbrev member : Store
member = record empty_store {
  users = user 3 ∷ [];
  memberships =
      record { id = 30; club_id = 1; user_id = 3; plan_id = 31; valid_until = at 12 } ∷ [];
}

-- An account without bookings goes, and its membership with it.
remove-member :
    let after = remove 3 (at 1) 4 member in
    (after.0 ≡ ok RemovalMode.deleted) × (after.1.users ≡ []) × (after.1.memberships ≡ [])
unfolding remove load_target find any on_foreign_key delete_body delete_user is_referenced cascade
    filter
remove-member = (refl, refl, refl)

abbrev customer : Store
customer = record (with_status ReservationStatus.confirmed) { users = user 3 ∷ [] }

-- An account with a booking stays, without its name, and the booking is kept, cancelled.
remove-customer :
    let after = remove 3 (at 1) 4 customer in
    (after.0 ≡ ok RemovalMode.anonymized)
    × (map (λ (u : User). u.deleted_at) after.1.users ≡ some (at 1) ∷ [])
    × (map (λ r. r.status) after.1.reservations ≡ ReservationStatus.cancelled ∷ [])
unfolding remove load_target find any on_foreign_key delete_body delete_user is_referenced cascade
    filter anonymize_body cancel_upcoming cancel_all drop_registrations update_user set_status
    update_reservation sync_row find_reservation exclusive all
remove-customer = (refl, refl, refl)
