-- ===== src/Domain/Cancellation/Refund.antt =====
-- The refund of cancellation.ts: its bounds, the tier that decides it, and what more notice does.
use native.Mathlib.Bridge.{le_prop}
use playslot.Prelude.{
  ℕ, ◌+◌, ◌*◌, ◌/◌, ◌≤◌, ◌≡◌, refl, true, false, Option, none, some, List, [], ◌∷◌, arith, All,
  All-mem, Mem,
}
use playslot.Prelude.Int.{ℤ, pos, negsuc, ◌≤ℤ◌, -ℤ_nonpos, pos_part}
use playslot.Prelude.Result.{ok, err}
use playslot.Prelude.Sort.{before, IsOrder}
use playslot.Prelude.Select.{find-sort, find-sort-none}
use playslot.Domain.Money.Rounding.{round_pos}
use playslot.Domain.Cancellation.{
  RefundTier, RefundResult, Hours, at_least, clamp_percent, longest_first, winning_tier,
  percent_of_tier, compute_refund, bad_price,
}

longest_first-le :
    (a b : RefundTier) → before longest_first a b ≡ true → b.min_hours_before ≤ℤ a.min_hours_before
longest_first-le a b h = ground (arith, -ℤ_nonpos b.min_hours_before a.min_hours_before)

longest_first-IsOrder : IsOrder longest_first
longest_first-IsOrder = record {
  total = λ a b h. ground (
    arith,
    -ℤ_nonpos b.min_hours_before a.min_hours_before,
    -ℤ_nonpos a.min_hours_before b.min_hours_before,
  );
  trans = λ a b c h k. ground (
    arith,
    -ℤ_nonpos b.min_hours_before a.min_hours_before,
    -ℤ_nonpos c.min_hours_before b.min_hours_before,
    -ℤ_nonpos c.min_hours_before a.min_hours_before,
  );
}

-- The tier asks for at most this much notice.
abbrev pub Applies : Hours → RefundTier → Type 0
Applies h t = at_least h t.min_hours_before ≡ true

-- No tier of the list that applies asks for more notice than this one.
abbrev pub IsLongest : Hours → List RefundTier → RefundTier → Type 0
IsLongest h tiers t = All (λ u. Applies h u → u.min_hours_before ≤ℤ t.min_hours_before) tiers

IsLongest-of_before :
    (h : Hours) (t : RefundTier) (us : List RefundTier)
    → All (λ u. Applies h u → before longest_first t u ≡ true) us
    → IsLongest h us t
IsLongest-of_before h t [] a = tt
IsLongest-of_before h t (u ∷ us) (p, a) =
    (λ k. longest_first-le t u (p k), IsLongest-of_before h t us a)

-- The tier that decides is one of the list, applies, and asks for the most notice of those that
-- apply; where no tier decides, none applies.
pub winning_tier-IsLongest :
    (tiers : List RefundTier) (h : Hours)
    → ((t : RefundTier)
        → winning_tier tiers h ≡ some t
        → Mem t tiers × Applies h t × IsLongest h tiers t)
      × (winning_tier tiers h ≡ none → All (λ t. at_least h t.min_hours_before ≡ false) tiers)
unfolding winning_tier
winning_tier-IsLongest tiers h = (
  λ t e.
      let (m, q, a) = find-sort longest_first-IsOrder _ tiers t e in
      (m, q, IsLongest-of_before h t tiers a),
  find-sort-none longest_first-IsOrder _ tiers,
)

-- The percentage that a refund pays, as a number.
abbrev percent : Option RefundTier → ℕ
percent o = pos_part (percent_of_tier o)

percent_bounds : (o : Option RefundTier) → (percent_of_tier o ≡ pos (percent o)) × (percent o ≤ 100)
unfolding percent_of_tier
percent_bounds none = ground arith
percent_bounds (some t) = ground arith

-- The cents that a refund of so many percent pays.
abbrev share : ℕ → ℕ → ℕ
share n p = (2 * (n * p) + 100) / 200

share-le : (n p : ℕ) → p ≤ 100 → share n p ≤ n
share-le n p h = let most : n * p ≤ n * 100 = grind arith in omega arith

share_mono : (n p q : ℕ) → p ≤ q → share n p ≤ share n q
share_mono n p q h = let most : n * p ≤ n * q = grind arith in omega arith

compute_refund_lem :
    (tiers : List RefundTier) (h : Hours) (n p : ℕ)
    → percent_of_tier (winning_tier tiers h) ≡ pos p
    → compute_refund tiers h (pos n)
      ≡ ok (record { refund_cents = pos (share n p); refund_percent = pos p })
unfolding compute_refund
compute_refund_lem tiers h n p e = simp (e, round_pos) (ground arith)

-- For a price of n >= 0 cents a refund is computed, of 0 to 100 percent and of 0 to n cents; a
-- negative price is refused.
pub compute_refund_bounds :
    (tiers : List RefundTier) (h : Hours) (n : ℕ)
    → ((p c : ℕ) × (compute_refund tiers h (pos n)
          ≡ ok (record { refund_cents = pos c; refund_percent = pos p }))
        × (p ≤ 100)
        × (c ≤ n))
      × (compute_refund tiers h (negsuc n) ≡ err (bad_price (negsuc n)))
unfolding compute_refund
compute_refund_bounds tiers h n =
    let o = winning_tier tiers h in
    let most = (percent_bounds o).1 in
    (
      (
        percent o,
        share n (percent o),
        compute_refund_lem tiers h n _ (percent_bounds o).0,
        most,
        share-le n (percent o) most,
      ),
      ground arith,
    )

-- Longer notice never pays a smaller percentage.
abbrev pub IsGenerous : List RefundTier → Type 0
IsGenerous tiers =
    (t u : RefundTier)
    → Mem t tiers
    → Mem u tiers
    → t.min_hours_before ≤ℤ u.min_hours_before
    → t.refund_percent ≤ℤ u.refund_percent

clamp_mono : (p q : ℤ) → p ≤ℤ q → pos_part (clamp_percent p) ≤ pos_part (clamp_percent q)
unfolding clamp_percent
clamp_mono p q h = ground arith

Applies-later : (h k : Hours) (t : RefundTier) → h ≤ℤ k → Applies h t → Applies k t
Applies-later h k t le a = ground arith

percent_mono :
    (tiers : List RefundTier) (h k : Hours)
    → IsGenerous tiers
    → h ≤ℤ k
    → percent (winning_tier tiers h) ≤ percent (winning_tier tiers k)
unfolding percent_of_tier
percent_mono tiers h k g le =
    go (winning_tier tiers h) (winning_tier tiers k) (winning_tier-IsLongest tiers h).0
      (winning_tier-IsLongest tiers k)
  where
    go :
        (o o' : Option RefundTier)
        → ((t : RefundTier) → o ≡ some t → Mem t tiers × Applies h t × IsLongest h tiers t)
        → ((t : RefundTier) → o' ≡ some t → Mem t tiers × Applies k t × IsLongest k tiers t)
          × (o' ≡ none → All (λ t. at_least k t.min_hours_before ≡ false) tiers)
        → percent o ≤ percent o'
    go none o' a b = omega arith
    go (some t) none a b =
        let (m, q, _) = a t refl in
        let refused = All-mem _ (λ u. hlevel) tiers (b.1 refl) m in
        let accepted = Applies-later h k t le q in cc
    go (some t) (some u) a b =
        let (m, q, _) = a t refl in
        let (m', _, longest) = b.0 u refl in
        clamp_mono t.refund_percent u.refund_percent
          (g t u m m' (All-mem _ (λ v. hlevel le_prop) tiers longest m (Applies-later h k t le q)))

-- Under a policy in which longer notice never pays a smaller percentage, cancelling earlier never
-- refunds less: for a price of n >= 0 cents and notices h <= k both refunds are computed, and the
-- one for k is at least the one for h.
pub compute_refund_mono :
    (tiers : List RefundTier) (h k : Hours) (n : ℕ)
    → IsGenerous tiers
    → h ≤ℤ k
    → (r s : RefundResult) × (compute_refund tiers h (pos n) ≡ ok r)
      × (compute_refund tiers k (pos n) ≡ ok s)
      × (r.refund_percent ≤ℤ s.refund_percent)
      × (r.refund_cents ≤ℤ s.refund_cents)
compute_refund_mono tiers h k n g le =
    let o = winning_tier tiers h in
    let o' = winning_tier tiers k in
    let more = percent_mono tiers h k g le in
    (
      record { refund_cents = pos (share n (percent o)); refund_percent = pos (percent o) },
      record { refund_cents = pos (share n (percent o')); refund_percent = pos (percent o') },
      compute_refund_lem tiers h n _ (percent_bounds o).0,
      compute_refund_lem tiers k n _ (percent_bounds o').0,
      omega arith,
      omega (arith, share_mono n (percent o) (percent o') more),
    )
