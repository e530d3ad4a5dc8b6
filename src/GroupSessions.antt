-- ===== src/GroupSessions.antt =====
-- apps/api/src/group-sessions/group-sessions.service.ts: sessions that a coach hosts. The text of a
-- mail is left out, and a mail that fails changes nothing, as in Booking/Notices. The invitations
-- run beside the answer and only send mails.
pub mod Apart
pub mod CalledOff
pub mod Kept
pub mod Seated
pub mod Roster
pub mod Seats
use playslot.Prelude.{
  ℕ, ◌+◌, ◌-◌, ◌*◌, Bool, true, false, not, ◌&&◌, String, Option, none, some, List, [], ◌∷◌, map,
  any, filter, find, take, length, ltb, leb, ◌==◌, if◌then◌else◌,
}
use playslot.Prelude.Int.{ℤ, pos, negsuc}
use playslot.Prelude.Result.{ok, err}
use playslot.Prelude.Sort.{sort}
use playslot.Domain.Time.{Instant}
use playslot.Standing.{is_some, assert_in_good_standing}
use playslot.Store.Tables.{
  Store, Email, Role, User, Club, CoachProfile, GroupSession, Registration, Mail, MailKind, Effect,
}
use playslot.Store.Action.{
  Action, app_exception, unique_violation, type_error, forbidden, not_found, policy_violation,
  ◌>>=◌, ◌>>◌, pure, gets, or_throw, throw_if, modify, transaction, on_unique,
}
use playslot.Booking.Slot.{Env}
use playslot.Booking.Notices.{find_user, send}
use playslot.Booking.Create.Blocks.{CoachBlocking, create_coach_blocking_reservation}
use playslot.Booking.Lifecycle.{release_reservation}

pub record CreateGroupSessionInput : Type 0 where
  pub club_id : ℕ
  pub court_id : ℕ
  pub starts_at : Option Instant
  pub duration_min : ℕ
  pub capacity : ℕ
  pub price_cents : ℤ
  pub title : String
  pub description : Option String

pub record GroupSessionDto : Type 0 where
  pub id : ℕ
  pub coach_profile_id : ℕ
  pub coach_name : String
  pub club_id : ℕ
  pub club_name : String
  pub title : String
  pub description : Option String
  pub starts_at : Instant
  pub ends_at : Instant
  pub capacity : ℕ
  pub price_cents : ℤ
  pub currency : String
  pub registered_count : ℕ
  pub spots_left : ℕ
  pub registered : Bool
  pub cancelled : Bool

abbrev pub invite_cap : ℕ
invite_cap = 1_000

abbrev pub find_session : ℕ → Store → Option GroupSession
find_session id s = find (λ (g : GroupSession). g.id == id) s.group_sessions

abbrev pub is_seat : ℕ → ℕ → Registration → Bool
is_seat id user_id r = r.group_session_id == id && r.user_id == user_id

-- `_count: { select: { registrations: true } }`
unfoldable pub seats_taken : ℕ → List Registration → ℕ
seats_taken id rs = length (filter (λ (r : Registration). r.group_session_id == id) rs)

unfoldable pub is_registered : ℕ → ℕ → List Registration → Bool
is_registered id user_id rs = any (is_seat id user_id) rs

abbrev pub coach_of : GroupSession → Store → Option CoachProfile
coach_of g s = find (λ (c : CoachProfile). c.id == g.coach_profile_id) s.coach_profiles

-- `s.coach.user?.name ?? 'Coach'`
abbrev coach_name : Store → Option CoachProfile → String
coach_name s none = "Coach"
coach_name s (some c) = elim (find_user c.user_id s.users) [ none ↦ "Coach" | some u ↦ u.name ]

abbrev club_name : ℕ → Store → String
club_name id s = elim (find (λ (c : Club). c.id == id) s.clubs) [ none ↦ "" | some c ↦ c.name ]

-- The registrations of the caller, none of whom are read without one.
abbrev registered_by : ℕ → Option ℕ → List Registration → Bool
registered_by id none rs = false
registered_by id (some user_id) rs = is_registered id user_id rs

unfoldable pub to_dto : Option ℕ → Store → GroupSession → GroupSessionDto
to_dto user_id s g = record {
  id = g.id;
  coach_profile_id = g.coach_profile_id;
  coach_name = coach_name s (coach_of g s);
  club_id = g.club_id;
  club_name = club_name g.club_id s;
  title = g.title;
  description = g.description;
  starts_at = g.starts_at;
  ends_at = g.ends_at;
  capacity = g.capacity;
  price_cents = g.price_cents;
  currency = g.currency;
  registered_count = seats_taken g.id s.registrations;
  spots_left = g.capacity - seats_taken g.id s.registrations;
  registered = registered_by g.id user_id s.registrations;
  cancelled = is_some g.cancelled_at;
}

unfoldable pub get_one : ℕ → Option ℕ → Action GroupSessionDto
get_one id user_id = do
  g ← or_throw (← gets (find_session id)) (app_exception not_found "")
  gets (λ s. to_dto user_id s g)

-- `orderBy: { startsAt: 'asc' }`
abbrev by_start : GroupSession → GroupSession → ℤ
by_start a b =
    if ltb a.starts_at b.starts_at
    then negsuc 0
    else if ltb b.starts_at a.starts_at
    then pos 1
    else pos 0

abbrev first_hundred : (GroupSession → Bool) → Option ℕ → Store → List GroupSessionDto
first_hundred keep user_id s =
    map (to_dto user_id s) (take 100 (sort by_start (filter keep s.group_sessions)))

-- `...(clubId ? { clubId } : {})`
abbrev at_club : Option ℕ → GroupSession → Bool
at_club none g = true
at_club (some club_id) g = g.club_id == club_id

unfoldable pub list : Instant → Option ℕ → Option ℕ → Action (List GroupSessionDto)
list now club_id user_id = gets (
    first_hundred (λ g. not (is_some g.cancelled_at) && (ltb now g.ends_at && at_club club_id g))
      user_id)

abbrev profile_of : ℕ → Store → Option CoachProfile
profile_of user_id s = find (λ (c : CoachProfile). c.user_id == user_id) s.coach_profiles

unfoldable pub list_mine : Instant → ℕ → Action (List GroupSessionDto)
list_mine now coach_user_id = do
  profile ← or_throw (← gets (profile_of coach_user_id)) (app_exception forbidden "not_a_coach")
  gets (
      first_hundred (λ g. g.coach_profile_id == profile.id && ltb (now - 7 * 86_400_000) g.ends_at)
        (some coach_user_id))

abbrev is_player : Role → Bool
is_player Role.player = true
is_player r = false

abbrev mail_each : MailKind → List Email → List Mail
mail_each kind es = map (λ e. record { kind = kind; to = e }) es

abbrev invited : ℕ → User → Bool
invited coach_user_id u = u.subscribed && (not (u.id == coach_user_id) && any is_player u.roles)

abbrev invitations : Option CoachProfile → Store → List Mail
invitations none s = []
invitations (some c) s =
    mail_each MailKind.group_session_invite
      (map (λ (u : User). u.email) (take invite_cap (filter (invited c.user_id) s.users)))

-- The mails of `invitePlayers`: none for a session that is missing or cancelled.
unfoldable pub invite_mails : ℕ → Store → List Mail
invite_mails id s = elim (find_session id s) [
  | none ↦ []
  | some g ↦ if is_some g.cancelled_at then [] else invitations (coach_of g s) s
]

-- `groupSession.create`
unfoldable pub insert_session : (ℕ → GroupSession) → Action ℕ
insert_session g s = (
  ok s.next_id,
  record s { group_sessions = g s.next_id ∷ s.group_sessions; next_id = s.next_id + 1 },
)

unfoldable pub create : Env → Instant → ℕ → CreateGroupSessionInput → Action GroupSessionDto
create env now coach_user_id input = do
  profile ← or_throw (← gets (profile_of coach_user_id)) (app_exception forbidden "not_a_coach")
  (r, slot) ← create_coach_blocking_reservation env now (record {
    coach_profile_id = profile.id;
    coach_user_id = coach_user_id;
    club_id = input.club_id;
    starts_at = input.starts_at;
    duration_min = input.duration_min;
    court_id = input.court_id;
    title = input.title;
  })
  id ← insert_session (λ id. record {
    id = id;
    coach_profile_id = profile.id;
    club_id = input.club_id;
    reservation_id = r.id;
    title = input.title;
    description = input.description;
    starts_at = slot.start;
    ends_at = slot.end;
    capacity = input.capacity;
    price_cents = input.price_cents;
    currency = slot.currency;
    cancelled_at = none;
  })
  send (invite_mails id)
  get_one id (some coach_user_id)

-- `groupSessionRegistration.create`, with `@@unique([groupSessionId, userId])`.
unfoldable pub insert_registration : ℕ → ℕ → Action (Unit {0})
insert_registration id user_id s =
    if is_registered id user_id s.registrations then (err unique_violation, s) else (
      ok tt,
      record s {
        registrations = record { group_session_id = id; user_id = user_id } ∷ s.registrations;
      },
    )

-- The body of the transaction of `register`.
unfoldable pub take_seat : ℕ → ℕ → ℕ → Action ℕ
take_seat id capacity user_id = do
  count ← gets (λ s. seats_taken id s.registrations)
  throw_if (leb capacity count) (app_exception policy_violation "full")
  insert_registration id user_id
  pure (capacity - count - 1)

-- What `register` does with the session that it found: the seats that are left.
unfoldable pub register_for : Instant → ℕ → ℕ → GroupSession → Action ℕ
register_for now id user_id g = do
  count ← gets (λ s. seats_taken id s.registrations)
  throw_if (is_some g.cancelled_at) (app_exception not_found "")
  throw_if (leb g.ends_at now) (app_exception policy_violation "ended")
  assert_in_good_standing user_id
  on_unique (transaction (take_seat id g.capacity user_id)) (g.capacity - count)

unfoldable pub register : Instant → ℕ → ℕ → Action ℕ
register now id user_id = do
  g ← or_throw (← gets (find_session id)) (app_exception not_found "")
  register_for now id user_id g

unfoldable pub without_seat : ℕ → ℕ → List Registration → List Registration
without_seat id user_id rs = filter (λ r. not (is_seat id user_id r)) rs

unfoldable pub unregister : ℕ → ℕ → Action (Unit {0})
unregister id user_id =
    modify (λ s. record s { registrations = without_seat id user_id s.registrations })

abbrev seat_email : List User → Registration → Option Email
seat_email users r = elim (find_user r.user_id users) [ none ↦ none | some u ↦ some u.email ]

-- The addresses of the registrations of a session.
unfoldable pub registrants : ℕ → List User → List Registration → List Email
registrants id users [] = []
registrants id users (r ∷ rs) =
    let rest = registrants id users rs in
    if r.group_session_id == id
    then elim (seat_email users r) [ none ↦ rest | some e ↦ e ∷ rest ]
    else rest

unfoldable pub update_session :
    ℕ → (GroupSession → GroupSession) → List GroupSession → List GroupSession
update_session id f gs = map (λ (g : GroupSession). if g.id == id then f g else g) gs

abbrev pub to_called_off : Instant → GroupSession → GroupSession
to_called_off now g = record g { cancelled_at = some now }

-- A session without its coach is what Prisma refuses to read.
unfoldable pub cancel : Instant → ℕ → ℕ → Action (Unit {0})
cancel now id coach_user_id = do
  g ← or_throw (← gets (find_session id)) (app_exception not_found "")
  coach ← or_throw (← gets (coach_of g)) type_error
  emails ← gets (λ s. registrants id s.users s.registrations)
  throw_if (not (coach.user_id == coach_user_id)) (app_exception forbidden "")
  if is_some g.cancelled_at then pure tt else do
    release_reservation g.reservation_id "group_session_cancelled"
    modify
        (λ s. record s { group_sessions = update_session id (to_called_off now) s.group_sessions })
    send (λ _. mail_each MailKind.group_session_cancelled emails)
