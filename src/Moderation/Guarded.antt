-- ===== src/Moderation/Guarded.antt =====
-- Whom moderation may act on.
use playslot.Prelude.{ℕ, ◌≡◌, refl, Bool, true, false, none, some, find, any, ◌==◌}
use playslot.Prelude.Result.{err}
use playslot.Domain.Time.{Instant}
use playslot.Store.Tables.{Store, User}
use playslot.Store.Action.{app_exception, forbidden}
use playslot.Moderation.{load_target, is_admin, suspend, reinstate, verify_email, SuspendUserInput}
use playslot.Moderation.Removal.{remove}

load_target-admin :
    (user_id actor : ℕ) (s : Store) (u : User)
    → (user_id == actor) ≡ false
    → find (λ (x : User). x.id == user_id) s.users ≡ some u
    → u.deleted_at ≡ none
    → any is_admin u.roles ≡ true
    → load_target user_id actor s ≡ (err (app_exception forbidden "platform_admin"), s)
unfolding load_target
load_target-admin user_id actor s u other e alive admin = rw (other, e, alive, admin) refl

-- A platform administrator who is not deleted is safe from the others: to suspend, to reinstate, to
-- verify or to remove the account of one is refused, and changes nothing.
pub admin_safe :
    (user_id actor : ℕ) (now : Instant) (input : SuspendUserInput) (paid : Bool) (s : Store)
    (u : User)
    → (user_id == actor) ≡ false
    → find (λ (x : User). x.id == user_id) s.users ≡ some u
    → u.deleted_at ≡ none
    → any is_admin u.roles ≡ true
    → (suspend user_id now input actor s ≡ (err (app_exception forbidden "platform_admin"), s))
      × (reinstate user_id paid actor s ≡ (err (app_exception forbidden "platform_admin"), s))
      × (verify_email user_id now actor s ≡ (err (app_exception forbidden "platform_admin"), s))
      × (remove user_id now actor s ≡ (err (app_exception forbidden "platform_admin"), s))
unfolding suspend reinstate verify_email remove
admin_safe user_id actor now input paid s u other e alive admin =
    let refused = load_target-admin user_id actor s u other e alive admin in
    (rw refused refl, rw refused refl, rw refused refl, rw refused refl)
