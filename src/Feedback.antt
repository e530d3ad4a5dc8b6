-- ===== src/Feedback.antt =====
-- apps/api/src/feedback/feedback.service.ts: `submit` and `listMine`. What a club sees of the
-- feedback is left out: its average is computed in floating point.
pub mod Mine
pub mod Opinions
pub mod Rated
use playslot.Prelude.{
  ℕ, ◌+◌, ◌-◌, ◌*◌, Bool, true, false, not, ◌&&◌, String, Option, none, some, List, [], ◌∷◌, ◌++◌,
  map, any, filter, find, take, ltb, leb, ◌==◌, if◌then◌else◌,
}
use playslot.Prelude.Text.{str_eq}
use playslot.Prelude.Int.{ℤ, sub_ℕ}
use playslot.Prelude.Result.{ok, err}
use playslot.Prelude.Sort.{sort}
use playslot.Domain.Time.{Instant}
use playslot.Domain.Status.{ReservationStatus, includes, confirmed, completed}
use playslot.Standing.{is_some}
use playslot.Store.Tables.{
  Store, User, Club, CoachProfile, Resource, ResourceType, Reservation, ReservationType,
  ResourceRow, GroupSession, Registration, Feedback,
}
use playslot.Store.Action.{
  Action, app_exception, not_found, policy_violation, ◌>>=◌, ◌>>◌, pure, gets, or_throw, throw_if,
}
use playslot.Booking.Notices.{find_user}
use playslot.GroupSessions.{find_session, is_seat, coach_of}

pub data FeedbackKind : Type 0 where
  reservation group : FeedbackKind

pub record FeedbackInput : Type 0 where
  pub kind : FeedbackKind
  pub id : ℕ
  pub rating : ℕ
  pub comment : Option String

-- `FEEDBACK_WINDOW_DAYS * 86_400_000`
abbrev pub feedback_window : ℕ
feedback_window = 60 * 86_400_000

abbrev pub attended : List ReservationStatus
attended = confirmed ∷ completed ∷ []

-- A column that may be null against an id.
abbrev pub is_id : Option ℕ → ℕ → Bool
is_id none id = false
is_id (some x) id = x == id

-- The key of the two unique indexes: the author and what is rated.
unfoldable pub is_mark : ℕ → FeedbackKind → ℕ → Feedback → Bool
is_mark user_id FeedbackKind.reservation id f = f.user_id == user_id && is_id f.reservation_id id
is_mark user_id FeedbackKind.group id f = f.user_id == user_id && is_id f.group_session_id id

-- `where: { id, userId, type: { in: ['COURT', 'LESSON'] }, groupSession: null }`
abbrev is_rateable_type : ReservationType → Bool
is_rateable_type ReservationType.court = true
is_rateable_type ReservationType.lesson = true
is_rateable_type ReservationType.event = false
is_rateable_type ReservationType.tournament = false
is_rateable_type ReservationType.block = false
is_rateable_type ReservationType.maintenance = false

abbrev pub is_own : ℕ → Store → Reservation → Bool
is_own user_id s r =
    r.user_id == user_id
    && (is_rateable_type r.type
        && not (any (λ (g : GroupSession). g.reservation_id == r.id) s.group_sessions))

-- The coach's profile of the first resource of the reservation that is a COACH.
unfoldable pub coach_of_rows : List Resource → ℕ → List ResourceRow → Option ℕ
coach_of_rows resources id [] = none
coach_of_rows resources id (row ∷ rows) =
    let rest = coach_of_rows resources id rows in
    if not (row.reservation_id == id)
    then rest
    else elim (find (λ (r : Resource). r.id == row.resource_id) resources) [
      | none ↦ rest
      | some r ↦ elim r.type [
        | ResourceType.court ↦ rest
        | ResourceType.coach ↦ r.coach_profile_id
        | ResourceType.equipment ↦ rest
        | ResourceType.room ↦ rest
      ]
    ]

-- `comment ? comment : null`
unfoldable pub kept_comment : Option String → Option String
kept_comment none = none
kept_comment (some c) = if str_eq c "" then none else some c

unfoldable pub assert_rateable : Instant → Instant → Bool → Action (Unit {0})
assert_rateable ends_at now was_there =
    throw_if (not was_there) (app_exception policy_violation "not_attended")
    >> throw_if (ltb now ends_at) (app_exception policy_violation "not_finished")
    >> throw_if (ltb feedback_window (now - ends_at))
        (app_exception policy_violation "feedback_window_closed")

-- The columns of the two kinds.
abbrev reservation_column : FeedbackKind → ℕ → Option ℕ
reservation_column FeedbackKind.reservation id = some id
reservation_column FeedbackKind.group id = none

abbrev session_column : FeedbackKind → ℕ → Option ℕ
session_column FeedbackKind.reservation id = none
session_column FeedbackKind.group id = some id

-- `update: { rating, comment }`
abbrev pub rate_again : ℕ → FeedbackInput → Feedback → Feedback
rate_again user_id input f =
    if is_mark user_id input.kind input.id f
    then record f { rating = input.rating; comment = kept_comment input.comment }
    else f

-- `create: { ... }`
abbrev pub rate_first : ℕ → ℕ → ℕ → Option ℕ → FeedbackInput → Feedback
rate_first id user_id club_id coach_profile_id input = record {
  id = id;
  user_id = user_id;
  club_id = club_id;
  reservation_id = reservation_column input.kind input.id;
  group_session_id = session_column input.kind input.id;
  coach_profile_id = coach_profile_id;
  rating = input.rating;
  comment = kept_comment input.comment;
}

-- `sessionFeedback.upsert`
unfoldable pub upsert : ℕ → ℕ → Option ℕ → FeedbackInput → Action (Unit {0})
upsert user_id club_id coach_profile_id input s =
    if any (is_mark user_id input.kind input.id) s.feedback
    then (ok tt, record s { feedback = map (rate_again user_id input) s.feedback })
    else (
      ok tt,
      record s {
        feedback = rate_first s.next_id user_id club_id coach_profile_id input ∷ s.feedback;
        next_id = s.next_id + 1;
      },
    )

unfoldable pub find_own : ℕ → ℕ → Store → Option Reservation
find_own id user_id s = find (λ r. r.id == id && is_own user_id s r) s.reservations

-- The registration with its session.
unfoldable pub find_attended : ℕ → ℕ → Store → Option GroupSession
find_attended id user_id s =
    if any (is_seat id user_id) s.registrations then find_session id s else none

unfoldable pub submit_reservation : Instant → ℕ → FeedbackInput → Action (Unit {0})
submit_reservation now user_id input = do
  r ← or_throw (← gets (find_own input.id user_id)) (app_exception not_found "")
  assert_rateable r.ends_at now (includes attended r.status)
  coach_profile_id ← gets (λ s. coach_of_rows s.resources r.id s.rows)
  upsert user_id r.club_id coach_profile_id input

unfoldable pub submit_group : Instant → ℕ → FeedbackInput → Action (Unit {0})
submit_group now user_id input = do
  g ← or_throw (← gets (find_attended input.id user_id)) (app_exception not_found "")
  assert_rateable g.ends_at now (not (is_some g.cancelled_at))
  upsert user_id g.club_id (some g.coach_profile_id) input

unfoldable pub submit : Instant → ℕ → FeedbackInput → Action (Unit {0})
submit now user_id input s = elim input.kind [
  | FeedbackKind.reservation ↦ submit_reservation now user_id input s
  | FeedbackKind.group ↦ submit_group now user_id input s
]

-- `byRes.get(r.id)` and `byGroup.get(g.groupSessionId)`, of the author's own feedback.
abbrev pub mark_of : ℕ → FeedbackKind → ℕ → List Feedback → Option Feedback
mark_of user_id kind id fs = find (is_mark user_id kind id) fs
