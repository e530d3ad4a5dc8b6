-- ===== src/Moderation.antt =====
-- apps/api/src/moderation/moderation.service.ts: suspending and reinstating an account, approving a
-- registration by hand, and the standing that an account is shown. Notes and snapshots in the audit
-- log are left out, like `list`.
pub mod Erased
pub mod Guarded
pub mod Kept
pub mod Removal
use playslot.Prelude.{
  ℕ, ◌+◌, ◌≡◌, Bool, true, false, not, ◌&&◌, String, Option, none, some, List, [], ◌∷◌, map, any,
  filter, find, length, ltb, ◌==◌, if◌then◌else◌,
}
use playslot.Prelude.Int.{ℤ, pos}
use playslot.Prelude.Result.{ok, err}
use playslot.Domain.Time.{Instant}
use playslot.Domain.Status.{ReservationStatus, includes}
use playslot.Store.Tables.{Store, User, Role, Reservation, GroupSession, Registration}
use playslot.Store.Action.{
  Action, app_exception, forbidden, not_found, ◌>>=◌, ◌>>◌, pure, gets, or_throw, throw_if, modify,
  transaction, audit,
}
use playslot.Store.Rows.{set_status}

abbrev active_states : List ReservationStatus
active_states =
    ReservationStatus.hold ∷ ReservationStatus.pending_payment ∷ ReservationStatus.pending_approval
    ∷ ReservationStatus.confirmed ∷ []

abbrev pub is_admin : Role → Bool
is_admin Role.platform_admin = true
is_admin r = false

abbrev is_set {ℓ} : {A : Type ℓ} → Option A → Bool
is_set none = false
is_set (some a) = true

-- `!user || user.deletedAt` is not found.
abbrev not_deleted : Option User → Option User
not_deleted none = none
not_deleted (some u) = if is_set u.deleted_at then none else some u

unfoldable pub load_target : ℕ → ℕ → Action User
load_target user_id actor_user_id = do
  throw_if (user_id == actor_user_id) (app_exception forbidden "self")
  user ←
      or_throw (not_deleted (← gets (λ s. find (λ (u : User). u.id == user_id) s.users)))
        (app_exception not_found "")
  throw_if (any is_admin user.roles) (app_exception forbidden "platform_admin")
  pure user

unfoldable pub update_user : ℕ → (User → User) → List User → List User
update_user id f us = map (λ (u : User). if u.id == id then f u else u) us

abbrev pub set_user : ℕ → (User → User) → Action (Unit {0})
set_user id f = modify (λ s. record s { users = update_user id f s.users })

abbrev is_upcoming : ℕ → Instant → Reservation → Bool
is_upcoming user_id now r =
    r.user_id == user_id && (includes active_states r.status && ltb now r.starts_at)

-- `reservation.updateMany`, with the trigger for each row.
unfoldable pub cancel_all : String → List ℕ → Action (Unit {0})
cancel_all reason [] = pure tt
cancel_all reason (id ∷ ids) = do
  set_status id
      (λ r. record r { status = ReservationStatus.cancelled; cancellation_reason = some reason })
  cancel_all reason ids

unfoldable pub cancel_upcoming : ℕ → Instant → String → Action ℕ
cancel_upcoming user_id now reason = do
  ids ←
      gets (λ s. map (λ (r : Reservation). r.id) (filter (is_upcoming user_id now) s.reservations))
  cancel_all reason ids
  pure (length ids)

-- `{ session: { startsAt: { gt: now } } }`
abbrev session_later : Store → Instant → ℕ → Bool
session_later s now id =
    any (λ (g : GroupSession). g.id == id && ltb now g.starts_at) s.group_sessions

abbrev is_future_registration : Store → ℕ → Instant → Registration → Bool
is_future_registration s user_id now g =
    g.user_id == user_id && session_later s now g.group_session_id

-- `groupSessionRegistration.deleteMany`, which counts what it deletes.
unfoldable pub drop_registrations : ℕ → Instant → Action ℕ
drop_registrations user_id now s = (
  ok (length (filter (is_future_registration s user_id now) s.registrations)),
  record s {
    registrations = filter (λ g. not (is_future_registration s user_id now g)) s.registrations;
  },
)

pub record SuspendUserInput : Type 0 where
  pub reason : String
  -- `account_suspended:` with the reason behind it
  pub cancellation_reason : String
  -- none for an empty note too
  pub note : Option String
  pub fee_cents : ℤ
  pub cancel_upcoming : Bool

abbrev pub suspended : Instant → SuspendUserInput → User → User
suspended now input u = record u {
  suspended_at = some now;
  suspension_reason = some input.reason;
  suspension_note = input.note;
  reinstatement_fee_cents = some input.fee_cents;
}

unfoldable pub cancel_future : ℕ → Instant → SuspendUserInput → Action ℕ
cancel_future user_id now input = if not input.cancel_upcoming then pure 0 else do
  reservations ← cancel_upcoming user_id now input.cancellation_reason
  registrations ← drop_registrations user_id now
  pure (reservations + registrations)

unfoldable pub suspend_body : ℕ → Instant → SuspendUserInput → ℕ → Action ℕ
suspend_body user_id now input actor_user_id = do
  set_user user_id (suspended now input)
  n ← cancel_future user_id now input
  audit actor_user_id "user.suspend" user_id
  pure n

-- The count of what was cancelled.
unfoldable pub suspend : ℕ → Instant → SuspendUserInput → ℕ → Action ℕ
suspend user_id now input actor_user_id = do
  load_target user_id actor_user_id
  transaction (suspend_body user_id now input actor_user_id)

abbrev reinstated : User → User
reinstated u = record u {
  suspended_at = none;
  suspension_reason = none;
  suspension_note = none;
  reinstatement_fee_cents = none;
}

unfoldable pub reinstate : ℕ → Bool → ℕ → Action (Unit {0})
reinstate user_id fee_paid actor_user_id = do
  user ← load_target user_id actor_user_id
  if not (is_set user.suspended_at)
      then pure tt
      else transaction (
          set_user user_id reinstated
          >> audit actor_user_id
              (if fee_paid then "user.reinstate.fee_paid" else "user.reinstate.fee_waived") user_id)

-- Whether the address was verified already.
unfoldable pub verify_email : ℕ → Instant → ℕ → Action Bool
verify_email user_id now actor_user_id = do
  user ← load_target user_id actor_user_id
  if is_set user.email_verified_at
      then pure true
      else transaction (
          set_user user_id (λ u. record u { email_verified_at = some now })
          >> audit actor_user_id "user.verify_email.manual" user_id
          >> pure false)

pub record AccountStanding : Type 0 where
  pub suspended : Bool
  pub reason : Option String
  pub note : Option String
  pub fee_cents : ℤ

-- REINSTATEMENT_FEE_CENTS of packages/contracts/src/moderation.ts
abbrev reinstatement_fee_cents : ℤ
reinstatement_fee_cents = pos 1_000

abbrev fee_or_default : Option ℤ → ℤ
fee_or_default none = reinstatement_fee_cents
fee_or_default (some c) = c

abbrev standing_of : Option User → AccountStanding
standing_of none = record { suspended = false; reason = none; note = none; fee_cents = pos 0 }
standing_of (some u) = record {
  suspended = is_set u.suspended_at;
  reason = u.suspension_reason;
  note = u.suspension_note;
  fee_cents = if is_set u.suspended_at then fee_or_default u.reinstatement_fee_cents else pos 0;
}

unfoldable pub standing : ℕ → Store → AccountStanding
standing user_id s = standing_of (find (λ (u : User). u.id == user_id) s.users)
