-- ===== src/Moderation/Removal.antt =====
-- apps/api/src/moderation/moderation.service.ts, `remove`: an account registered by mistake. The tables
-- of logins, tokens, push subscriptions, favourites, reviews and events are left out, which are
-- cascaded or emptied, and so are the columns of a user that the store does not have.
use playslot.Prelude.{
  ℕ, suc, Bool, false, not, ◌&&◌, ◌||◌, Option, none, some, [], ◌++◌, map, any, filter, ◌==◌,
  if◌then◌else◌,
}
use playslot.Prelude.Text.{codes}
use playslot.Prelude.Result.{Result, ok, err}
use playslot.Domain.Time.{Instant}
use playslot.Store.Tables.{
  Store, User, ClubMember, CoachProfile, CoachClub, CoachService, Resource, PriceRule, Membership,
  Reservation, GroupSession, Registration, Feedback,
}
use playslot.Store.Action.{
  Action, Thrown, foreign_key_violation, ◌>>◌, pure, modify, transaction, audit,
}
use playslot.Booking.Csv.{decimal}
use playslot.Moderation.{load_target, set_user, cancel_upcoming, drop_registrations}

pub data RemovalMode : Type 0 where
  deleted anonymized : RemovalMode

-- The references from other rows that stop the deletion of a user: the foreign keys of reservations
-- and registrations do not cascade.
unfoldable pub is_referenced : ℕ → Store → Bool
is_referenced user_id s =
    any (λ (r : Reservation). r.user_id == user_id) s.reservations
    || any (λ (r : Registration). r.user_id == user_id) s.registrations

abbrev pub is_profile_of : ℕ → Store → ℕ → Bool
is_profile_of user_id s id =
    any (λ (c : CoachProfile). c.id == id && c.user_id == user_id) s.coach_profiles

abbrev has_profile_of : ℕ → Store → Option ℕ → Bool
has_profile_of user_id s none = false
has_profile_of user_id s (some id) = is_profile_of user_id s id

abbrev pub is_session_of : ℕ → Store → ℕ → Bool
is_session_of user_id s id =
    any (λ (g : GroupSession). g.id == id && is_profile_of user_id s g.coach_profile_id)
      s.group_sessions

abbrev has_session_of : ℕ → Store → Option ℕ → Bool
has_session_of user_id s none = false
has_session_of user_id s (some id) = is_session_of user_id s id

abbrev is_service_of : ℕ → Store → Option ℕ → Bool
is_service_of user_id s none = false
is_service_of user_id s (some id) =
    any (λ (v : CoachService). v.id == id && is_profile_of user_id s v.coach_profile_id)
      s.coach_services

-- `onDelete: SetNull`
abbrev without_coach : ℕ → Store → Option ℕ → Option ℕ
without_coach user_id s o = if has_profile_of user_id s o then none else o

-- What goes with the user, by the cascades of the schema: the coach's profile with its sessions,
-- clubs and services, and what hangs on those.
unfoldable pub cascade : ℕ → Store → Store
cascade user_id s = record s {
  users = filter (λ (u : User). not (u.id == user_id)) s.users;
  members = filter (λ (m : ClubMember). not (m.user_id == user_id)) s.members;
  memberships = filter (λ (m : Membership). not (m.user_id == user_id)) s.memberships;
  coach_profiles = filter (λ (c : CoachProfile). not (c.user_id == user_id)) s.coach_profiles;
  coach_clubs =
      filter (λ (c : CoachClub). not (is_profile_of user_id s c.coach_profile_id)) s.coach_clubs;
  coach_services =
      filter (λ (v : CoachService). not (is_profile_of user_id s v.coach_profile_id))
        s.coach_services;
  price_rules =
      filter (λ (p : PriceRule). not (is_service_of user_id s p.rule.service_id)) s.price_rules;
  resources =
      map
        (λ (r : Resource). record r {
          coach_profile_id = without_coach user_id s r.coach_profile_id;
        })
        s.resources;
  group_sessions =
      filter (λ (g : GroupSession). not (is_profile_of user_id s g.coach_profile_id))
        s.group_sessions;
  registrations =
      filter (λ (r : Registration). not (is_session_of user_id s r.group_session_id))
        s.registrations;
  feedback =
      map
        (λ (f : Feedback). record f {
          coach_profile_id = without_coach user_id s f.coach_profile_id;
        })
        (filter
          (λ (f : Feedback).
            not (f.user_id == user_id || has_session_of user_id s f.group_session_id))
          s.feedback);
}

-- `tx.user.delete`
unfoldable pub delete_user : ℕ → Action (Unit {0})
delete_user user_id s =
    if is_referenced user_id s then (err foreign_key_violation, s) else (ok tt, cascade user_id s)

unfoldable pub delete_body : ℕ → ℕ → Action RemovalMode
delete_body user_id actor_user_id = do
  delete_user user_id
  audit actor_user_id "user.delete" user_id
  pure RemovalMode.deleted

abbrev pub anonymous : ℕ → Instant → User → User
anonymous user_id now u = record u {
  email = codes "deleted-" ++ (decimal (suc user_id) user_id ++ codes "@users.playslot.invalid");
  name = "Изтрит потребител";
  subscribed = false;
  notify_by_email = false;
  roles = [];
  deleted_at = some now;
}

abbrev pub leave_clubs : ℕ → Action (Unit {0})
leave_clubs user_id =
    modify (λ s. record s {
      members = filter (λ (m : ClubMember). not (m.user_id == user_id)) s.members;
    })

unfoldable pub anonymize_body : ℕ → Instant → ℕ → Action RemovalMode
anonymize_body user_id now actor_user_id = do
  cancel_upcoming user_id now "account_deleted"
  drop_registrations user_id now
  leave_clubs user_id
  set_user user_id (anonymous user_id now)
  audit actor_user_id "user.anonymize" user_id
  pure RemovalMode.anonymized

-- `catch (err) { if (err.code !== 'P2003') throw err; }`, and what follows.
abbrev pub otherwise :
    Action RemovalMode → Result Thrown RemovalMode × Store → Result Thrown RemovalMode × Store
otherwise next (ok a, s) = (ok a, s)
otherwise next (err foreign_key_violation, s) = next s
otherwise next (err e, s) = (err e, s)

unfoldable pub on_foreign_key : Action RemovalMode → Action RemovalMode → Action RemovalMode
on_foreign_key m next s = otherwise next (m s)

unfoldable pub remove : ℕ → Instant → ℕ → Action RemovalMode
remove user_id now actor_user_id = do
  load_target user_id actor_user_id
  on_foreign_key (transaction (delete_body user_id actor_user_id))
      (transaction (anonymize_body user_id now actor_user_id))
