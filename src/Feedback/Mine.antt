-- ===== src/Feedback/Mine.antt =====
-- apps/api/src/feedback/feedback.service.ts, `listMine`: what a user may rate or has rated.
use playslot.Prelude.{
  ℕ, ◌+◌, Bool, not, ◌&&◌, String, Option, none, some, List, [], ◌∷◌, ◌++◌, map, filter, find, take,
  ltb, leb, ◌==◌, if◌then◌else◌,
}
use playslot.Prelude.Int.{ℤ, sub_ℕ}
use playslot.Prelude.Sort.{sort}
use playslot.Domain.Time.{Instant}
use playslot.Domain.Status.{includes}
use playslot.Standing.{is_some}
use playslot.Store.Tables.{
  Store, Club, CoachProfile, Reservation, ReservationType, GroupSession, Registration, Feedback,
}
use playslot.Booking.Notices.{find_user}
use playslot.GroupSessions.{find_session, coach_of}
use playslot.Feedback.{FeedbackKind, mark_of, feedback_window, attended, is_own, coach_of_rows}

pub record FeedbackItemDto : Type 0 where
  pub kind : FeedbackKind
  pub id : ℕ
  pub club_id : ℕ
  pub club_name : String
  -- none for GROUP
  pub type : Option ReservationType
  pub title : Option String
  pub coach_profile_id : Option ℕ
  pub coach_name : Option String
  pub starts_at : Instant
  pub ends_at : Instant
  pub my_rating : Option ℕ
  pub my_comment : Option String

abbrev name_of_club : ℕ → Store → String
name_of_club id s = elim (find (λ (c : Club). c.id == id) s.clubs) [ none ↦ "" | some c ↦ c.name ]

-- The name of the user of a coach's profile.
abbrev name_of_coach : Store → Option CoachProfile → Option String
name_of_coach s none = none
name_of_coach s (some c) = elim (find_user c.user_id s.users) [ none ↦ none | some u ↦ some u.name ]

abbrev coach_with : Option ℕ → Store → Option CoachProfile
coach_with none s = none
coach_with (some id) s = find (λ (c : CoachProfile). c.id == id) s.coach_profiles

abbrev rating_of : Option Feedback → Option ℕ
rating_of none = none
rating_of (some f) = some f.rating

abbrev comment_of : Option Feedback → Option String
comment_of none = none
comment_of (some f) = f.comment

-- `endsAt: { lt: now, gte: since }`
abbrev lies_back : Instant → Instant → Bool
lies_back now ends_at = ltb ends_at now && leb now (ends_at + feedback_window)

unfoldable pub reservation_item : ℕ → Store → Reservation → FeedbackItemDto
reservation_item user_id s r =
    let coach = coach_of_rows s.resources r.id s.rows in
    let mine = mark_of user_id FeedbackKind.reservation r.id s.feedback in
    record {
      kind = FeedbackKind.reservation;
      id = r.id;
      club_id = r.club_id;
      club_name = name_of_club r.club_id s;
      type = some r.type;
      title = none;
      coach_profile_id = coach;
      coach_name = name_of_coach s (coach_with coach s);
      starts_at = r.starts_at;
      ends_at = r.ends_at;
      my_rating = rating_of mine;
      my_comment = comment_of mine;
    }

unfoldable pub group_item : ℕ → Store → GroupSession → FeedbackItemDto
group_item user_id s g =
    let mine = mark_of user_id FeedbackKind.group g.id s.feedback in
    record {
      kind = FeedbackKind.group;
      id = g.id;
      club_id = g.club_id;
      club_name = name_of_club g.club_id s;
      type = none;
      title = some g.title;
      coach_profile_id = some g.coach_profile_id;
      coach_name = name_of_coach s (coach_of g s);
      starts_at = g.starts_at;
      ends_at = g.ends_at;
      my_rating = rating_of mine;
      my_comment = comment_of mine;
    }

-- `orderBy: { startsAt: 'desc' }`
abbrev last_started : Reservation → Reservation → ℤ
last_started a b = sub_ℕ b.starts_at a.starts_at

-- The dates as text stand in the order of their instants.
abbrev item_order : FeedbackItemDto → FeedbackItemDto → ℤ
item_order a b = sub_ℕ b.starts_at a.starts_at

unfoldable pub past_reservations : Instant → ℕ → Store → List Reservation
past_reservations now user_id s = take 50 (
    sort last_started (
      filter (λ r. is_own user_id s r && (includes attended r.status && lies_back now r.ends_at))
        s.reservations))

abbrev is_past_session : Instant → GroupSession → Bool
is_past_session now g = not (is_some g.cancelled_at) && lies_back now g.ends_at

-- The sessions of the registrations, in the order of the registrations.
unfoldable pub past_sessions : Instant → ℕ → Store → List Registration → List GroupSession
past_sessions now user_id s [] = []
past_sessions now user_id s (r ∷ rs) =
    let rest = past_sessions now user_id s rs in
    if not (r.user_id == user_id) then rest else elim (find_session r.group_session_id s) [
      | none ↦ rest
      | some g ↦ if is_past_session now g then g ∷ rest else rest
    ]

unfoldable pub list_mine : Instant → ℕ → Store → List FeedbackItemDto
list_mine now user_id s = sort item_order (
    map (reservation_item user_id s) (past_reservations now user_id s)
    ++ map (group_item user_id s) (take 50 (past_sessions now user_id s s.registrations)))
