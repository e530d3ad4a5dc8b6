-- ===== src/Moderation/Kept.antt =====
-- Moderation keeps the invariant of reservations and resource rows.

use playslot.Prelude.{ℕ, refl, String, List, [], ◌∷◌, Bool-cases, inl, inr, arith}
use playslot.Prelude.Result.{Result, ok, err}
use playslot.Domain.Time.{Instant}
use playslot.Store.Tables.{Store}
use playslot.Store.Action.{
  Action, Thrown, app_exception, exclusion_violation, unique_violation, foreign_key_violation,
  range_error, refund_error, provider_error, type_error,
}
use playslot.Store.Rows.Keeps.{Keeps, Holds, Inv-of_same, >>=-Keeps}
use playslot.Booking.Stable.{Stable, unseen, Inv-Stable, stable_rules, status-Stable, users-Stable}
use playslot.Moderation.{
  load_target, cancel_all, cancel_upcoming, drop_registrations, SuspendUserInput, cancel_future,
  suspend_body, suspend,
}
use playslot.Moderation.Removal.{
  RemovalMode, is_referenced, cascade, delete_user, delete_body, leave_clubs, anonymize_body,
  otherwise, on_foreign_key, remove,
}

module _ {P : Store → Type 0} (stable : Stable P)
    (drop : (user_id : ℕ) (now : Instant) → Holds P (drop_registrations user_id now)) where
  cancel_all-Keeps : (reason : String) (ids : List ℕ) → Holds P (cancel_all reason ids)
  unfolding cancel_all
  cancel_all-Keeps reason [] = search stable_rules
  cancel_all-Keeps reason (id ∷ ids) =
      >>=-Keeps _ (λ _. cancel_all reason ids)
        (status-Stable stable id _
          (record { id = λ r. refl; starts_at = λ r. refl; ends_at = λ r. refl }))
        (λ _. cancel_all-Keeps reason ids)

  upcoming-Keeps :
      (user_id : ℕ) (now : Instant) (reason : String) → Holds P (cancel_upcoming user_id now reason)
  unfolding cancel_upcoming
  upcoming-Keeps user_id now reason = search (stable_rules, cancel_all-Keeps) depth 24

  load_target-Keeps : (user_id actor : ℕ) → Holds P (load_target user_id actor)
  unfolding load_target
  load_target-Keeps user_id actor = search stable_rules depth 24

  future-Keeps :
      (user_id : ℕ) (now : Instant) (input : SuspendUserInput)
      → Holds P (cancel_future user_id now input)
  unfolding cancel_future
  future-Keeps user_id now input = search (stable_rules, upcoming-Keeps, drop) depth 24

  body-Keeps :
      (user_id : ℕ) (now : Instant) (input : SuspendUserInput) (actor : ℕ)
      → Holds P (suspend_body user_id now input actor)
  unfolding suspend_body
  body-Keeps user_id now input actor =
      search (stable_rules, future-Keeps, users-Stable stable) depth 24

  pub suspend_keeps :
      (user_id : ℕ) (now : Instant) (input : SuspendUserInput) (actor : ℕ)
      → Holds P (suspend user_id now input actor)
  unfolding suspend
  suspend_keeps user_id now input actor =
      search (stable_rules, load_target-Keeps, body-Keeps) depth 24

  leave-Keeps : (user_id : ℕ) → Holds P (leave_clubs user_id)
  leave-Keeps user_id = record {
    keeps = λ s v. stable.same s (leave_clubs user_id s).1 (unseen s _ refl refl refl refl refl) v;
  }

  anonymize-Keeps :
      (user_id : ℕ) (now : Instant) (actor : ℕ) → Holds P (anonymize_body user_id now actor)
  unfolding anonymize_body
  anonymize-Keeps user_id now actor =
      search (stable_rules, upcoming-Keeps, drop, leave-Keeps, users-Stable stable) depth 24

  otherwise-Keeps :
      (next : Action RemovalMode) (r : Result Thrown RemovalMode × Store)
      → Holds P next
      → P r.1
      → P (otherwise next r).1
  otherwise-Keeps next (ok a, s) k v = v
  otherwise-Keeps next (err foreign_key_violation, s) k v = k.keeps s v
  otherwise-Keeps next (err (app_exception c d), s) k v = v
  otherwise-Keeps next (err exclusion_violation, s) k v = v
  otherwise-Keeps next (err unique_violation, s) k v = v
  otherwise-Keeps next (err (range_error e), s) k v = v
  otherwise-Keeps next (err refund_error, s) k v = v
  otherwise-Keeps next (err provider_error, s) k v = v
  otherwise-Keeps next (err type_error, s) k v = v

  on_foreign_key-Keeps :
      (m next : Action RemovalMode) → Holds P m → Holds P next → Holds P (on_foreign_key m next)
  unfolding on_foreign_key
  on_foreign_key-Keeps m next k l = record {
    keeps = λ s v. otherwise-Keeps next (m s) l (k.keeps s v);
  }

  module _ (erase : (user_id : ℕ) → Holds P (delete_user user_id)) where
    delete-Keeps : (user_id actor : ℕ) → Holds P (delete_body user_id actor)
    unfolding delete_body
    delete-Keeps user_id actor = search (stable_rules, erase) depth 24

    pub remove_keeps :
        (user_id : ℕ) (now : Instant) (actor : ℕ) → Holds P (remove user_id now actor)
    unfolding remove
    remove_keeps user_id now actor =
        search
          (stable_rules, load_target-Keeps, on_foreign_key-Keeps, delete-Keeps, anonymize-Keeps)
          depth 24

erase-Keeps : (user_id : ℕ) → Keeps (delete_user user_id)
unfolding delete_user cascade
erase-Keeps user_id = record {
  keeps = λ s v. elim (Bool-cases (is_referenced user_id s)) [
    | inl there ↦ rw there v
    | inr free ↦ rw free (Inv-of_same s (cascade user_id s) refl refl (omega arith) v)
  ];
}

drop-Keeps : (user_id : ℕ) (now : Instant) → Keeps (drop_registrations user_id now)
unfolding drop_registrations
drop-Keeps user_id now = record {
  keeps = λ s v. Inv-of_same s (drop_registrations user_id now s).1 refl refl (omega arith) v;
}

pub removal-Keeps : (user_id : ℕ) (now : Instant) (actor : ℕ) → Keeps (remove user_id now actor)
removal-Keeps user_id now actor = remove_keeps Inv-Stable drop-Keeps erase-Keeps user_id now actor

pub suspension-Keeps :
    (user_id : ℕ) (now : Instant) (input : SuspendUserInput) (actor : ℕ)
    → Keeps (suspend user_id now input actor)
suspension-Keeps user_id now input actor =
    suspend_keeps Inv-Stable drop-Keeps user_id now input actor
