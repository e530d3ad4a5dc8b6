-- ===== src/Memberships.antt =====
-- apps/api/src/memberships/memberships.service.ts: membership plans, grants, and the member discount.
pub mod Discount
use playslot.Prelude.{
  ℕ, ◌+◌, ◌*◌, Bool, true, false, ◌&&◌, not, String, Option, none, some, List, [], ◌∷◌, map, filter,
  find, ltb, leb, ◌==◌, if◌then◌else◌,
}
use playslot.Prelude.Int.{ℤ, pos, ◌-ℤ◌, ◌*ℤ◌, ltb_ℤ, leb_ℤ, round_div}
use playslot.Prelude.Text.{lower, codes_eq}
use playslot.Prelude.Result.{ok, err}
use playslot.Domain.Time.{Instant}
use playslot.Store.Tables.{Store, User, Email, MembershipPlan, Membership}
use playslot.Store.Action.{
  Action, Thrown, app_exception, not_found, ◌>>=◌, ◌>>◌, pure, gets, or_throw, modify,
}

abbrev pub max_ℤ : ℤ → ℤ → ℤ
max_ℤ a b = if ltb_ℤ a b then b else a

abbrev pub plan_discount : ℕ → List MembershipPlan → ℤ
plan_discount id [] = pos 0
plan_discount id (p ∷ ps) = if p.id == id then p.discount_percent else plan_discount id ps

-- `memberships.reduce((max, m) => Math.max(max, m.plan.discountPercent), 0)`
unfoldable pub best_discount : List MembershipPlan → ℤ → List Membership → ℤ
best_discount plans acc [] = acc
best_discount plans acc (m ∷ ms) =
    best_discount plans (max_ℤ acc (plan_discount m.plan_id plans)) ms

abbrev pub is_current : ℕ → ℕ → Instant → Membership → Bool
is_current club_id user_id now m =
    m.club_id == club_id && (m.user_id == user_id && ltb now m.valid_until)

-- A user id of 0, like none, has no discount.
unfoldable pub discount_percent : ℕ → Option ℕ → Instant → Store → ℤ
unfolding best_discount
discount_percent club_id none now s = pos 0
discount_percent club_id (some user_id) now s =
    if user_id == 0
    then pos 0
    else best_discount s.plans (pos 0) (filter (is_current club_id user_id now) s.memberships)

unfoldable pub apply_discount : ℤ → ℤ → ℤ
apply_discount base_cents discount =
    if leb_ℤ discount (pos 0)
    then base_cents
    else round_div (base_cents *ℤ (pos 100 -ℤ discount)) 100

pub record UpsertMembershipPlanInput : Type 0 where
  pub name : String
  pub price_cents : ℤ
  pub duration_days : ℕ
  pub discount_percent : ℤ
  pub active : Option Bool

abbrev or_true : Option Bool → Bool
or_true none = true
or_true (some b) = b

unfoldable pub create_plan : ℕ → UpsertMembershipPlanInput → Action MembershipPlan
create_plan club_id input s =
    let plan : MembershipPlan = record {
      id = s.next_id;
      club_id = club_id;
      name = input.name;
      price_cents = input.price_cents;
      duration_days = input.duration_days;
      discount_percent = input.discount_percent;
      active = or_true input.active;
    } in
    (ok plan, record s { plans = plan ∷ s.plans; next_id = s.next_id + 1 })

abbrev set_plan : ℕ → UpsertMembershipPlanInput → MembershipPlan → MembershipPlan
set_plan plan_id input p =
    if p.id == plan_id
    then record p {
      name = input.name;
      price_cents = input.price_cents;
      duration_days = input.duration_days;
      discount_percent = input.discount_percent;
      active = or_true input.active;
    }
    else p

abbrev is_plan : ℕ → ℕ → MembershipPlan → Bool
is_plan club_id plan_id p = p.id == plan_id && p.club_id == club_id

unfoldable pub update_plan : ℕ → ℕ → UpsertMembershipPlanInput → Action MembershipPlan
update_plan club_id plan_id input = do
  existing ←
      or_throw (← gets (λ s. find (is_plan club_id plan_id) s.plans)) (app_exception not_found "")
  modify (λ s. record s { plans = map (set_plan plan_id input) s.plans })
  pure (set_plan plan_id input existing)

unfoldable pub grant : ℕ → Email → ℕ → Instant → Action Membership
grant club_id user_email plan_id now = do
  plan ←
      or_throw (← gets (λ s. find (is_plan club_id plan_id) s.plans))
        (app_exception not_found "plan")
  user ←
      or_throw (← gets (λ s. find (λ u. codes_eq u.email (map lower user_email)) s.users))
        (app_exception not_found "user")
  id ← gets (λ s. s.next_id)
  let membership : Membership = record {
    id = id;
    club_id = club_id;
    user_id = user.id;
    plan_id = plan_id;
    valid_until = now + plan.duration_days * 86_400_000;
  }
  modify (λ s. record s { memberships = membership ∷ s.memberships; next_id = id + 1 })
  pure membership
