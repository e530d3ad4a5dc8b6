-- ===== src/Prices/Owned.antt =====
-- A club's admin reaches the price rules of that club only.
use playslot.Prelude.{
  ℕ, ◌≡◌, ◌⊎◌, ◌&&◌, refl, ap, String, false, not, none, some, List, [], ◌∷◌, map, filter, find,
  Option, Bool-cases, Option-cases, inl, inr, arith, ◌==◌, if◌then◌else◌, All, All-imp,
}
use playslot.Prelude.Result.{ok, err}
use playslot.Store.Tables.{Store, Resource, PriceRule}
use playslot.Store.Action.{app_exception, not_found, gets}
use playslot.Store.Rows.Keeps.{Holds, keeps_rules, >>=-Then, gets-Keeps}
use playslot.Booking.Slot.{in_club}
use playslot.Prices.{
  Dates, UpsertPriceRuleInput, is_service, is_rule, is_of_club, assert_owned,
  assert_resource_belongs, insert_rule, update_rule, create, update, remove, listed,
}

-- The rules of the other clubs.
abbrev pub foreign : ℕ → List PriceRule → List PriceRule
foreign club_id ps = filter (λ p. not (is_of_club club_id p)) ps

module _ (dates : Dates) where
  -- Whatever a club's admin asks for a rule that the club does not have, `update` and `remove` throw
  -- `not_found`, and change nothing.
  pub foreign_refused :
      (club_id rule_id : ℕ) (input : UpsertPriceRuleInput) (s : Store)
      → find (is_rule club_id rule_id) s.price_rules ≡ none
      → (update dates club_id rule_id input s ≡ (err (app_exception not_found ""), s))
        × (remove club_id rule_id s ≡ (err (app_exception not_found ""), s))
  unfolding update remove assert_owned
  foreign_refused club_id rule_id input s missing = rw missing (refl, refl)

-- No two rules have the same id.
abbrev pub DistinctIds : List PriceRule → Type 0
DistinctIds [] = Unit
DistinctIds (p ∷ ps) = All (λ q. (q.rule.id == p.rule.id) ≡ false) ps × DistinctIds ps

-- Another club's rule does not have the id of a rule of the club.
absent :
    (id club_id : ℕ) (p : PriceRule) (ps : List PriceRule)
    → All (λ q. (q.rule.id == id) ≡ false) ps
    → find (is_rule club_id id) ps ≡ none
unfolding find
absent id club_id p [] h = refl
absent id club_id p (q ∷ qs) (e, h) = rw e (absent id club_id p qs h)

remove_none :
    (id : ℕ) (ps : List PriceRule)
    → All (λ q. (q.rule.id == id) ≡ false) ps
    → filter (λ (p : PriceRule). not (p.rule.id == id)) ps ≡ ps
unfolding filter
remove_none id [] h = refl
remove_none id (q ∷ qs) (e, h) = rw e (ap (λ x. q ∷ x) (remove_none id qs h))

removed-foreign :
    (club_id id : ℕ) (ps : List PriceRule) (p : PriceRule)
    → DistinctIds ps
    → find (is_rule club_id id) ps ≡ some p
    → foreign club_id (filter (λ (p : PriceRule). not (p.rule.id == id)) ps) ≡ foreign club_id ps
unfolding filter find
removed-foreign club_id id [] p d e = refl
removed-foreign club_id id (q ∷ qs) p (h, d) e = elim (Bool-cases (q.rule.id == id)) [
  | inl same ↦
      let at : q.rule.id ≡ id = ground arith in
      let rest : All (λ x. (x.rule.id == id) ≡ false) qs =
        All-imp _ _ qs (λ x k. ground (arith, k, at)) h in
      ground (arith, remove_none id qs rest, absent id club_id q qs rest)
  | inr other ↦ ground (arith, removed-foreign club_id id qs p d)
]

update_none :
    (id : ℕ) (f : PriceRule → PriceRule) (ps : List PriceRule)
    → All (λ q. (q.rule.id == id) ≡ false) ps
    → map (λ (p : PriceRule). if p.rule.id == id then f p else p) ps ≡ ps
update_none id f [] h = refl
update_none id f (q ∷ qs) (e, h) = rw e (ap (λ x. q ∷ x) (update_none id f qs h))

updated-foreign :
    (club_id id : ℕ) (f : PriceRule → PriceRule) (ps : List PriceRule) (p : PriceRule)
    → ((q : PriceRule) → (f q).club_id ≡ q.club_id)
    → DistinctIds ps
    → find (is_rule club_id id) ps ≡ some p
    → foreign club_id (map (λ (q : PriceRule). if q.rule.id == id then f q else q) ps)
      ≡ foreign club_id ps
unfolding filter find
updated-foreign club_id id f [] p k d e = refl
updated-foreign club_id id f (q ∷ qs) p k (h, d) e = elim (Bool-cases (q.rule.id == id)) [
  | inl same ↦
      let at : q.rule.id ≡ id = ground arith in
      let rest : All (λ x. (x.rule.id == id) ≡ false) qs =
        All-imp _ _ qs (λ x m. ground (arith, m, at)) h in
      ground (arith, k q, update_none id f qs rest, absent id club_id q qs rest)
  | inr other ↦ ground (arith, updated-foreign club_id id f qs p k d)
]

belongs_cases :
    (club_id : ℕ) (id : Option ℕ) (s : Store)
    → (assert_resource_belongs club_id id s ≡ (ok tt, s))
      ⊎ (assert_resource_belongs club_id id s ≡ (err (app_exception not_found ""), s))
unfolding assert_resource_belongs
belongs_cases club_id none s = inl refl
belongs_cases club_id (some id) s =
    elim (Option-cases
      (find (λ (r : Resource). r.id == id && in_club club_id r.club_id) s.resources)) [
        | inl missing ↦ inr (rw missing refl)
        | inr (r, e) ↦ inl (rw e refl)
      ]

belongs-Keeps :
    {P : Store → Type 0} (club_id : ℕ) (id : Option ℕ)
    → Holds P (assert_resource_belongs club_id id)
unfolding assert_resource_belongs
belongs-Keeps club_id none = search keeps_rules
belongs-Keeps club_id (some id) = search keeps_rules depth 24

-- The other clubs' rules are these.
abbrev pub Others : ℕ → List PriceRule → Store → Type 0
Others club_id ps s = foreign club_id s.price_rules ≡ foreign club_id ps

module _ (dates : Dates) (club_id : ℕ) (input : UpsertPriceRuleInput) where
  insert-Others :
      (currency : String) (ps : List PriceRule)
      → Holds (Others club_id ps) (insert_rule dates club_id currency input)
  unfolding insert_rule filter
  insert-Others currency ps = record {
    keeps = λ s h. elim (Bool-cases (is_service input.service_id s)) [
      | inl known ↦ rw known (ground (arith, h))
      | inr unknown ↦ rw unknown h
    ];
  }

  update_rule-Others :
      (id : ℕ) (p : PriceRule) (s : Store)
      → DistinctIds s.price_rules
      → find (is_rule club_id id) s.price_rules ≡ some p
      → Others club_id s.price_rules (update_rule dates id input s).1
  unfolding update_rule
  update_rule-Others id p s d e = elim (Bool-cases (is_service input.service_id s)) [
    | inl known ↦ rw known (updated-foreign club_id id _ s.price_rules p (λ q. refl) d e)
    | inr unknown ↦ rw unknown refl
  ]

  create-Others : (ps : List PriceRule) → Holds (Others club_id ps) (create dates club_id input)
  unfolding create
  create-Others ps = search (keeps_rules, belongs-Keeps, insert-Others) depth 24

  update-Others :
      (id : ℕ) (s : Store)
      → DistinctIds s.price_rules
      → Others club_id s.price_rules (update dates club_id id input s).1
  unfolding update assert_owned
  update-Others id s d = elim (Option-cases (find (is_rule club_id id) s.price_rules)) [
    | inl missing ↦ rw missing refl
    | inr (p, e) ↦ rw e (elim (belongs_cases club_id input.resource_id s) [
      | inr foreign_court ↦ rw foreign_court refl
      | inl own_court ↦ rw own_court (
          >>=-Then {P = Others club_id s.price_rules} (update_rule dates id input)
            (λ _. gets (listed dates club_id id)) s (update_rule-Others id p s d e)
            (λ _. gets-Keeps (listed dates club_id id)))
    ])
  ]

  remove-Others :
      (id : ℕ) (s : Store)
      → DistinctIds s.price_rules
      → Others club_id s.price_rules (remove club_id id s).1
  unfolding remove assert_owned
  remove-Others id s d = elim (Option-cases (find (is_rule club_id id) s.price_rules)) [
    | inl missing ↦ rw missing refl
    | inr (p, e) ↦ rw e (removed-foreign club_id id s.price_rules p d e)
  ]

  -- Where no two price rules have the same id, `create`, `update` and `remove`, asked by the admin of
  -- a club for whatever rule, leave the rules of the other clubs as they are, also when they throw.
  pub rules_elsewhere_kept :
      (id : ℕ) (s : Store)
      → DistinctIds s.price_rules
      → Others club_id s.price_rules (create dates club_id input s).1
        × Others club_id s.price_rules (update dates club_id id input s).1
        × Others club_id s.price_rules (remove club_id id s).1
  rules_elsewhere_kept id s d =
      ((create-Others s.price_rules).keeps s refl, update-Others id s d, remove-Others id s d)
