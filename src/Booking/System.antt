-- ===== src/Booking/System.antt =====
-- All calls that write reservations, their rows, group sessions or registrations, as the steps of one system: calls run one after
-- another, each to its end, whether it returns or throws.
pub mod Safety
pub mod Seats
use playslot.Prelude.{ℕ, ◌≡◌, String, Option, List, []}
use playslot.Domain.Time.{Instant}
use playslot.Payments.{Provider}
use playslot.Store.Tables.{Store, Role, ReservationSource}
use playslot.Booking.Slot.{Env}
use playslot.Booking.Create.{CreateReservationInput, Actor, create_reservation}
use playslot.Booking.Create.Manual.{ManualBookingInput, create_manual}
use playslot.Booking.Create.Blocks.{
  BlockInput, CoachBlocking, create_block, create_coach_blocking_reservation,
}
use playslot.Booking.Lifecycle.{confirm, mark_paid, mark_no_show, expire_hold, release_reservation}
use playslot.Booking.Lifecycle.Webhook.{WebhookBody, handle_webhook}
use playslot.Booking.Cancel.{cancel}
use playslot.Booking.Reschedule.{RescheduleInput, reschedule}
use playslot.Moderation.{SuspendUserInput, suspend}
use playslot.Moderation.Removal.{remove}
use playslot.GroupSessions
use playslot.GroupSessions.{CreateGroupSessionInput, register, unregister}

pub data Call : Type 0 where
  create : CreateReservationInput → Actor → ReservationSource → Call
  manual : ℕ → ManualBookingInput → ℕ → Call
  block : ℕ → BlockInput → ℕ → Call
  coach_blocking : CoachBlocking → Call
  reschedule_call : ℕ → ℕ → RescheduleInput → ℕ → Call
  confirm_call : ℕ → ℕ → ℕ → Call
  mark_paid_call : ℕ → ℕ → ℕ → Call
  mark_no_show_call : ℕ → ℕ → ℕ → Call
  expire_hold_call : ℕ → Call
  release : ℕ → String → Call
  webhook : WebhookBody → Call
  cancel_call : ℕ → ℕ → List Role → Option String → Call
  suspend_call : ℕ → SuspendUserInput → ℕ → Call
  remove_call : ℕ → ℕ → Call
  host : ℕ → CreateGroupSessionInput → Call
  call_off : ℕ → ℕ → Call
  register_call : ℕ → ℕ → Call
  unregister_call : ℕ → ℕ → Call

-- Users, clubs, resources and all the rest may be there.
pub record IsFresh (s : Store) : Type 0 where
  pub no_reservations : s.reservations ≡ []
  pub no_rows : s.rows ≡ []
  pub no_sessions : s.group_sessions ≡ []
  pub no_registrations : s.registrations ≡ []

module _ (env : Env) (provider : Provider) where
  -- The store that a call leaves at the time `now`.
  unfoldable pub perform : Instant → Call → Store → Store
  perform now (create input actor source) s =
      (create_reservation env provider now input actor source s).1
  perform now (manual club_id input staff) s = (create_manual env now club_id input staff s).1
  perform now (block club_id input staff) s = (create_block env now club_id input staff s).1
  perform now (coach_blocking args) s = (create_coach_blocking_reservation env now args s).1
  perform now (reschedule_call club_id id input staff) s =
      (reschedule env now club_id id input staff s).1
  perform now (confirm_call club_id id staff) s = (confirm env club_id id staff s).1
  perform now (mark_paid_call club_id id staff) s = (mark_paid now club_id id staff s).1
  perform now (mark_no_show_call club_id id staff) s = (mark_no_show now club_id id staff s).1
  perform now (expire_hold_call id) s = (expire_hold now id s).1
  perform now (release id reason) s = (release_reservation id reason s).1
  perform now (webhook body) s = (handle_webhook env now body s).1
  perform now (cancel_call id user_id roles reason) s = (cancel now id user_id roles reason s).1
  perform now (suspend_call user_id input actor) s = (suspend user_id now input actor s).1
  perform now (remove_call user_id actor) s = (remove user_id now actor s).1
  perform now (host coach_user_id input) s = (GroupSessions.create env now coach_user_id input s).1
  perform now (call_off id coach_user_id) s = (GroupSessions.cancel now id coach_user_id s).1
  perform now (register_call id user_id) s = (register now id user_id s).1
  perform now (unregister_call id user_id) s = (unregister id user_id s).1

  -- The stores that calls lead to from one without reservations and group sessions.
  pub data Reachable : Store → Type 0 where
    start : (s : Store) → IsFresh s → Reachable s
    step : {s : Store} (now : Instant) (call : Call) → Reachable s → Reachable (perform now call s)
