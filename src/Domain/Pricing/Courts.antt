-- ===== src/Domain/Pricing/Courts.antt =====
-- The courts that a rule is limited to.
use playslot.Prelude.{
  ℕ, ◌≡◌, ◌≢◌, refl, sym, ◌∙◌, Bool, true, false, ◌||◌, Option, none, some, List, [], ◌∷◌, String,
  ◌==◌, arith, contains, contains-append, Bool-cases, inl, inr,
}
use playslot.Domain.Time.{Instant}
use playslot.Domain.Pricing.{
  PriceRuleLike, PriceContext, or_else, add_to_set, add_all, rule_courts, court_ok, matches,
}

abbrev pub is_court : Option ℕ → ℕ → Bool
is_court none c = false
is_court (some r) c = r == c

contains_self : (x c : ℕ) (s : List ℕ) → x ≡ c → contains s x ≡ contains s c
contains_self x c s e = rw e

contains-add_to_set :
    (s : List ℕ) (x c : ℕ) → contains (add_to_set s x) c ≡ (contains s c || x == c)
contains-add_to_set s x c = ground (arith, contains-append s (x ∷ []) c, contains_self x c s)

contains-add_all :
    (s xs : List ℕ) (c : ℕ) → contains (add_all s xs) c ≡ (contains s c || contains xs c)
contains-add_all s [] c = ground arith
contains-add_all s (x ∷ xs) c =
    ground (arith, contains-add_all (add_to_set s x) xs c, contains-add_to_set s x c)

-- A rule is limited to the courts of its group and to its single court, and to no other.
pub contains-rule_courts :
    (rule : PriceRuleLike) (c : ℕ)
    → contains (rule_courts rule) c
      ≡ (contains (or_else rule.resource_ids []) c || is_court rule.resource_id c)
unfolding rule_courts
contains-rule_courts rule c = go rule.resource_id
  where
    ids : List ℕ
    ids = or_else rule.resource_ids []

    go :
        (o : Option ℕ)
        → contains (elim o [ none ↦ add_all [] ids | some r ↦ add_to_set (add_all [] ids) r ]) c
          ≡ (contains ids c || is_court o c)
    go none = ground (arith, contains-add_all [] ids c)
    go (some r) =
        ground (arith, contains-add_all [] ids c, contains-add_to_set (add_all [] ids) r c)

court_ok-some :
    (cs : List ℕ) (r : Option ℕ)
    → cs ≢ []
    → court_ok cs r ≡ true
    → (c : ℕ) × (r ≡ some c) × (contains cs c ≡ true)
court_ok-some [] r limited h = absurd (limited refl)
court_ok-some (x ∷ cs) none limited h = cc
court_ok-some (x ∷ cs) (some c) limited h = (c, refl, h)

matches-court_ok :
    (month_day : String → Instant → ℕ) (rule : PriceRuleLike) (ctx : PriceContext)
    → matches month_day rule ctx ≡ true
    → court_ok (rule_courts rule) ctx.resource_id ≡ true
unfolding matches
matches-court_ok month_day rule ctx h =
    elim (Bool-cases (court_ok (rule_courts rule) ctx.resource_id)) [
      | inl e ↦ e
      | inr e ↦ ground arith
    ]

-- A rule that is limited to some court matches only a slot on one of its courts: in a context
-- without a court, as for two resources at once, it never matches.
pub matches-court :
    (month_day : String → Instant → ℕ) (rule : PriceRuleLike) (ctx : PriceContext)
    → rule_courts rule ≢ []
    → matches month_day rule ctx ≡ true
    → (c : ℕ) × (ctx.resource_id ≡ some c)
      × ((contains (or_else rule.resource_ids []) c || is_court rule.resource_id c) ≡ true)
matches-court month_day rule ctx limited h =
    let (c, e, k) =
      court_ok-some (rule_courts rule) ctx.resource_id limited
        (matches-court_ok month_day rule ctx h) in
    (c, e, sym (contains-rule_courts rule c) ∙ k)
