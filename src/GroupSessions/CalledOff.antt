-- ===== src/GroupSessions/CalledOff.antt =====
-- A group session that its coach calls off.
use playslot.Prelude.{ℕ, ◌≡◌, refl, true, false, none, some, List, [], ◌∷◌, map, find, arith, ◌==◌}
use playslot.Prelude.Result.{ok}
use playslot.Domain.Time.{Instant}
use playslot.Domain.Status.{ReservationStatus, status_eq, occupies_inventory}
use playslot.Store.Tables.{Store, CoachProfile, GroupSession, Reservation}
use playslot.Store.Action.{for_some}
use playslot.Store.Rows.{find_reservation, sync_row, update_reservation}
use playslot.Store.Rows.Inv.{Inv}
use playslot.Booking.Lifecycle.{release_reservation, to_cancelled}
use playslot.Booking.Lifecycle.Freed.{set_status-freed}
use playslot.GroupSessions.{find_session, coach_of, update_session, to_called_off, cancel}

find-update :
    (id : ℕ) (f : GroupSession → GroupSession) (gs : List GroupSession) (g : GroupSession)
    → ((x : GroupSession) → (f x).id ≡ x.id)
    → find (λ (x : GroupSession). x.id == id) gs ≡ some g
    → find (λ (x : GroupSession). x.id == id) (update_session id f gs) ≡ some (f g)
unfolding update_session find
find-update id f [] g k e = absurd (cc)
find-update id f (x ∷ gs) g k e = ground (arith, k x, find-update id f gs g k)

running :
    (r : Reservation)
    → occupies_inventory r.status ≡ true
    → status_eq r.status ReservationStatus.cancelled ≡ false
unfolding occupies_inventory
running r h = ground arith

-- In a store with the invariant, for a session that is not cancelled yet, whose reservation occupies
-- inventory, and for its coach, `cancel` returns. After it the reservation is CANCELLED, the rows of
-- its resources are in step with that, the session is cancelled, the registrations are as they were,
-- and calling it off again returns and changes nothing.
pub cancel-releases :
    (now later : Instant) (coach_user_id : ℕ) (s : Store) (g : GroupSession) (c : CoachProfile)
    (r : Reservation)
    → Inv s
    → find_session g.id s ≡ some g
    → g.cancelled_at ≡ none
    → coach_of g s ≡ some c
    → (c.user_id == coach_user_id) ≡ true
    → find_reservation g.reservation_id s.reservations ≡ some r
    → occupies_inventory r.status ≡ true
    → let t = cancel now g.id coach_user_id s in
      (t.0 ≡ ok tt)
      × (t.1.reservations
          ≡ update_reservation g.reservation_id
              (to_cancelled "group_session_cancelled")
              s.reservations)
      × (t.1.rows ≡ map (sync_row g.reservation_id ReservationStatus.cancelled) s.rows)
      × (find_session g.id t.1 ≡ some (to_called_off now g))
      × (t.1.registrations ≡ s.registrations)
      × (cancel later g.id coach_user_id t.1 ≡ (ok tt, t.1))
unfolding cancel release_reservation for_some
cancel-releases now later coach_user_id s g c r v found running_still hosts is_coach e on =
    let off = find-update g.id (to_called_off now) s.group_sessions g (λ x. refl) found in
    let released = set_status-freed g.reservation_id "group_session_cancelled" s r v e on in
    rw (found, hosts, is_coach, running_still, e, running r on, released)
      (refl, refl, refl, off, refl, rw (off, hosts, is_coach) refl)
