-- ===== src/Standing.antt =====
-- apps/api/src/common/standing.ts: whether an account may book.
use playslot.Prelude.{ℕ, Bool, true, false, Option, none, some, find, ◌==◌}
use playslot.Store.Action.{
  Action, app_exception, unauthenticated, policy_violation, ◌>>=◌, ◌>>◌, gets, throw_if, or_throw,
}

abbrev pub is_some : {A : Type 0} → Option A → Bool
is_some none = false
is_some (some a) = true

unfoldable pub assert_in_good_standing : ℕ → Action (Unit {0})
assert_in_good_standing user_id = do
  user ←
      or_throw (← gets (λ s. find (λ u. u.id == user_id) s.users))
        (app_exception unauthenticated "")
  throw_if (is_some user.deleted_at) (app_exception unauthenticated "")
  throw_if (is_some user.suspended_at) (app_exception policy_violation "account_suspended")
