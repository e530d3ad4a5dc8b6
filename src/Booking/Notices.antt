-- ===== src/Booking/Notices.antt =====
-- reservations.service.ts, the notifications: who gets a mail about a reservation. A mail is its
-- kind and its address; its text is left out. A failed mail changes nothing, so sending is an effect.
use playslot.Prelude.{
  ℕ, Bool, true, false, not, ◌&&◌, String, Option, none, some, List, [], ◌∷◌, ◌++◌, map, any,
  filter, find, ◌==◌, if◌then◌else◌,
}
use playslot.Prelude.Text.{codes, codes_eq, ends_with, lower}
use playslot.Prelude.Result.{ok}
use playslot.Store.Tables.{
  Store, Email, Role, User, ClubMember, Resource, ResourceType, ResourceRow, CoachProfile, Mail,
  MailKind, Effect,
}
use playslot.Store.Action.{Action}
use playslot.Store.Rows.{find_reservation}
use playslot.Booking.Slot.{Env}

abbrev walkin_suffix : Email
walkin_suffix = codes "@walkin.playslot.local"

pub record Parties : Type 0 where
  pub customer : Option Email
  pub customer_name : String
  pub staff : List Email
  pub coach_user : Option Email

abbrev pub find_user : ℕ → List User → Option User
find_user id us = find (λ u. u.id == id) us

-- `role in ['CLUB_ADMIN', 'CLUB_STAFF']`
abbrev pub is_staff_role : Role → Bool
is_staff_role Role.club_admin = true
is_staff_role Role.club_staff = true
is_staff_role r = false

abbrev is_staff_of : ℕ → ClubMember → Bool
is_staff_of club_id m = m.club_id == club_id && (m.active && is_staff_role m.role)

-- `map.set(email, …)`: a key that is there keeps its place.
abbrev pub add_email : List Email → Email → List Email
add_email es e = if any (codes_eq e) es then es else es ++ e ∷ []

abbrev same_email : Option Email → Email → Bool
same_email none e = false
same_email (some c) e = codes_eq e c

abbrev email_of : Option User → Option Email
email_of none = none
email_of (some u) = some u.email

-- The loop over the club's members.
unfoldable pub collect_staff : List User → Option Email → List Email → List ClubMember → List Email
collect_staff users customer acc [] = acc
collect_staff users customer acc (m ∷ ms) =
    collect_staff users customer
      (elim (find_user m.user_id users) [
        | none ↦ acc
        | some u ↦ if same_email customer u.email then acc else add_email acc u.email
      ])
      ms

-- The user of a coach's profile, for a resource of the type COACH.
abbrev coach_email : Store → Resource → Option Email
coach_email s r = elim r.type [
  | ResourceType.coach ↦ elim r.coach_profile_id [
    | none ↦ none
    | some p ↦ elim (find (λ (c : CoachProfile). c.id == p) s.coach_profiles) [
      | none ↦ none
      | some c ↦ email_of (find_user c.user_id s.users)
    ]
  ]
  | _ ↦ none
]

-- The first of the reservation's resources that is a coach with a user.
unfoldable pub first_coach : Store → ℕ → List ResourceRow → Option Email
first_coach s id [] = none
first_coach s id (row ∷ rows) =
    let rest = first_coach s id rows in
    if row.reservation_id == id
    then elim (find (λ (r : Resource). r.id == row.resource_id) s.resources) [
      | none ↦ rest
      | some r ↦ elim (coach_email s r) [ none ↦ rest | some e ↦ some e ]
    ]
    else rest

abbrev is_walkin : Option User → Bool
is_walkin none = true
is_walkin (some u) = ends_with u.email walkin_suffix

abbrev name_or : Option User → Option String → String
name_or (some u) p =
    if ends_with u.email walkin_suffix
    then elim p [ none ↦ "PlaySlot customer" | some n ↦ n ]
    else u.name
name_or none none = "PlaySlot customer"
name_or none (some n) = n

abbrev notified : Option User → Option Email
notified none = none
notified (some u) =
    if not (ends_with u.email walkin_suffix) && u.notify_by_email then some u.email else none

unfoldable pub load_reservation_parties : ℕ → Store → Option Parties
unfolding collect_staff first_coach
load_reservation_parties id s = elim (find_reservation id s.reservations) [
  | none ↦ none
  | some r ↦
      let user = find_user r.user_id s.users in
      some (record {
        customer = notified user;
        customer_name = name_or user r.participant_name;
        staff = collect_staff s.users (email_of user) [] (filter (is_staff_of r.club_id) s.members);
        coach_user = first_coach s id s.rows;
      })
]

abbrev mail_to : MailKind → Option Email → List Mail
mail_to kind none = []
mail_to kind (some e) = record { kind = kind; to = e } ∷ []

abbrev mail_all : MailKind → List Email → List Mail
mail_all kind es = map (λ e. record { kind = kind; to = e }) es

abbrev pub of_parties : Option Parties → (Parties → List Mail) → List Mail
of_parties none f = []
of_parties (some p) f = f p

unfoldable pub notify_platform : Env → ℕ → Store → List Mail
notify_platform env id s = elim env.platform_notify_email [
  | none ↦ []
  | some to ↦ of_parties (load_reservation_parties id s) λ p.
      if any (λ e. codes_eq (map lower e) (map lower to)) p.staff
      then []
      else record { kind = MailKind.platform_booking_notice; to = to } ∷ []
]

-- The mails of each notification, in the order in which they are sent.
unfoldable pub booking_received_mails : Env → ℕ → Store → List Mail
unfolding notify_platform
booking_received_mails env id s = of_parties (load_reservation_parties id s) λ p.
    mail_to MailKind.booking_received p.customer
    ++ (mail_all MailKind.staff_booking_notice p.staff ++ notify_platform env id s)

unfoldable pub confirmation_mails : Env → ℕ → Store → List Mail
unfolding notify_platform
confirmation_mails env id s = of_parties (load_reservation_parties id s) λ p.
    mail_to MailKind.confirmation p.customer
    ++ (mail_all MailKind.staff_booking_notice p.staff
        ++ (mail_to MailKind.coach_booking_notice p.coach_user ++ notify_platform env id s))

unfoldable pub cancellation_mails : ℕ → Store → List Mail
cancellation_mails id s = of_parties (load_reservation_parties id s) λ p.
    mail_to MailKind.cancellation p.customer
    ++ (mail_all MailKind.staff_cancellation_notice p.staff
        ++ mail_to MailKind.coach_cancellation_notice p.coach_user)

unfoldable pub reschedule_mails : ℕ → Store → List Mail
reschedule_mails id s = of_parties (load_reservation_parties id s) λ p.
    mail_to MailKind.reschedule p.customer
    ++ (mail_all MailKind.staff_reschedule_notice p.staff
        ++ mail_to MailKind.coach_reschedule_notice p.coach_user)

unfoldable pub receipt_mails : ℕ → Store → List Mail
receipt_mails id s =
    of_parties (load_reservation_parties id s) λ p. mail_to MailKind.payment_receipt p.customer

unfoldable pub no_show_mails : ℕ → Store → List Mail
no_show_mails id s =
    of_parties (load_reservation_parties id s) λ p. mail_to MailKind.no_show_notice p.customer

-- Sends what a notification computes from the store.
abbrev pub send : (Store → List Mail) → Action (Unit {0})
send mails s = (ok tt, record s { effects = s.effects ++ map Effect.send_mail (mails s) })
