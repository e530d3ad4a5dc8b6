-- ===== src/Domain/Pricing/Winner.antt =====
-- `resolvePrice` chooses one rule, whatever the order in which the rules are listed.
use mathlib.Core.List.Perm
use mathlib.Core.HLevel.{Π_prop}
use mathlib.Core.Logic.{∥∥₁_elim, ∥∥₁_prop}
use native.Mathlib.Nat.{ℕ_set}
use playslot.Prelude.{
  ℕ, ◌<◌, ◌≡◌, sym, ap, ◌∙◌, ◌⊎◌, inl, inr, Bool, true, false, List, [], ◌∷◌, String, Mem, Perm,
  All, All-mem, arith,
}
use playslot.Prelude.Int.{ℤ, pos, ◌*ℤ◌, round_div, IsRounded, round_div-IsRounded}
use playslot.Prelude.Result.{ok, err}
use playslot.Prelude.Sort.{before}
use playslot.Prelude.Select.{sort-filter-cases}
use playslot.Domain.Time.{Instant}
use playslot.Domain.Pricing.{
  PriceRuleLike, PriceContext, no_rule_matched, invalid_rule_duration, or_else, matches, precedence,
  charge, resolve_price,
}
use playslot.Domain.Pricing.Order.{Precedes, Precedes-of_before, precedence-IsOrder}

module _ (month_day : String → Instant → ℕ) (ctx : PriceContext) where
  abbrev fits : PriceRuleLike → Bool
  fits r = matches month_day r ctx

  -- The rule is listed, matches, and takes precedence over every listed rule that matches.
  abbrev pub Wins : PriceRuleLike → List PriceRuleLike → Type 0
  Wins w rules = Mem w rules × (fits w ≡ true) × All (λ r. fits r ≡ true → Precedes w r) rules

  Precedes-all :
      (w : PriceRuleLike) (rs : List PriceRuleLike)
      → All (λ r. fits r ≡ true → before precedence w r ≡ true) rs
      → All (λ r. fits r ≡ true → Precedes w r) rs
  Precedes-all w [] h = tt
  Precedes-all w (r ∷ rs) (f, h) = (λ k. Precedes-of_before w r (f k), Precedes-all w rs h)

  -- Either no rule matches and the resolution says so, or there is a rule that wins and its charge,
  -- or the refusal of its duration, is the result.
  pub resolve_price_cases :
      (rules : List PriceRuleLike)
      → (All (λ r. fits r ≡ false) rules
          × (resolve_price month_day rules ctx
              ≡ err (no_rule_matched ctx.resource_id ctx.service_id)))
        ⊎ ((w : PriceRuleLike) × Wins w rules × (resolve_price month_day rules ctx ≡ charge w ctx))
  unfolding resolve_price
  resolve_price_cases rules = elim (sort-filter-cases precedence-IsOrder fits rules) [
    | inl (e, h) ↦ inl (h, rw e)
    | inr (w, rest, e, m, q, h) ↦ inr (w, (m, q, Precedes-all w rules h), rw e)
  ]

  -- The ids of the listed rules are distinct, as the primary key makes them.
  abbrev pub DistinctIds : List PriceRuleLike → Type 0
  DistinctIds rules = (a b : PriceRuleLike) → Mem a rules → Mem b rules → a.id ≡ b.id → a ≡ b

  same_id : (a b : PriceRuleLike) → Precedes a b → Precedes b a → a.id ≡ b.id
  same_id a b h k = ground arith

  -- A rule that wins among some listed rules takes precedence over one that matches and is listed.
  Wins-Precedes :
      (w r : PriceRuleLike) (rules : List PriceRuleLike)
      → Wins w rules
      → Mem r rules
      → fits r ≡ true
      → ∥ Precedes w r ∥₁
  Wins-Precedes w r rules (_, _, h) m q =
      All-mem (λ x. fits x ≡ true → ∥ Precedes w x ∥₁) (λ x. Π_prop (λ _. ∥∥₁_prop)) rules
        (truncate rules h) m q
    where
      truncate :
          (rs : List PriceRuleLike)
          → All (λ x. fits x ≡ true → Precedes w x) rs
          → All (λ x. fits x ≡ true → ∥ Precedes w x ∥₁) rs
      truncate [] h = tt
      truncate (x ∷ rs) (f, h) = (λ k. ∣ f k ∣₁, truncate rs h)

  winners-eq :
      (w w' : PriceRuleLike) (rules rules' : List PriceRuleLike)
      → DistinctIds rules
      → Perm rules rules'
      → Wins w rules
      → Wins w' rules'
      → w.id ≡ w'.id
  winners-eq w w' rules rules' d p a b =
      ∥∥₁_elim (Wins-Precedes w w' rules a ((Perm.mem_iff p).1 b.0) b.1) (λ x y. ℕ_set _ _ x y)
        λ h.
          ∥∥₁_elim (Wins-Precedes w' w rules' b ((Perm.mem_iff p).0 a.0) a.1) (λ x y. ℕ_set _ _ x y)
            λ k. same_id w w' h k

  -- The order in which the rules are listed does not matter: for rules with distinct ids, two
  -- listings of the same rules give the same price, or the same refusal.
  pub resolve_price-perm :
      (rules rules' : List PriceRuleLike)
      → DistinctIds rules
      → Perm rules rules'
      → resolve_price month_day rules ctx ≡ resolve_price month_day rules' ctx
  resolve_price-perm rules rules' d p = elim (resolve_price_cases rules) [
    | inl (h, e) ↦ elim (resolve_price_cases rules') [
      | inl (_, e') ↦ e ∙ sym e'
      | inr (w, a, _) ↦ absurd (clash rules w h ((Perm.mem_iff p).1 a.0) a.1)
    ]
    | inr (w, a, e) ↦ elim (resolve_price_cases rules') [
      | inl (h, _) ↦ absurd (clash rules' w h ((Perm.mem_iff p).0 a.0) a.1)
      | inr (w', b, e') ↦
          let same : w ≡ w' =
            d w w' a.0 ((Perm.mem_iff p).1 b.0) (winners-eq w w' rules rules' d p a b) in
          e ∙ (ap (λ r. charge r ctx) same ∙ sym e')
    ]
  ]
    where
      clash :
          (rs : List PriceRuleLike) (w : PriceRuleLike)
          → All (λ r. fits r ≡ false) rs
          → Mem w rs
          → fits w ≡ true
          → ⊥
      clash rs w h m q = let refused : fits w ≡ false = All-mem _ (λ r. hlevel) rs h m in cc

-- A rule with a positive unit charges the integer nearest to price * duration / unit, a half
-- rounded up, in its own currency; a rule with the unit 0 is refused.
pub charge_nearest :
    (w : PriceRuleLike) (ctx : PriceContext)
    → let unit = or_else w.duration_min 60 in
      (0 < unit
        → (r : ℤ) × (charge w ctx
            ≡ ok (record { price_cents = r; currency = w.currency; rule_id = w.id }))
          × IsRounded (w.price_cents *ℤ pos ctx.duration_min) unit r)
      × (unit ≡ 0 → charge w ctx ≡ err (invalid_rule_duration w.id))
unfolding charge
charge_nearest w ctx =
    let unit = or_else w.duration_min 60 in
    (
      λ h. (
        round_div (w.price_cents *ℤ pos ctx.duration_min) unit,
        ground arith,
        round_div-IsRounded _ unit h,
      ),
      λ h. ground arith,
    )
