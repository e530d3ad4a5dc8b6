-- ===== src/Domain/Slots/Minutes.antt =====
-- The start minutes that the inner loop of `generateSlots` goes through.
use playslot.Prelude.{
  ℕ, zero, suc, ◌+◌, ◌*◌, ◌≤◌, ◌<◌, ◌≡◌, refl, sym, true, false, List, [], ◌∷◌, All, leb, arith,
  contains, Bool-cases, inl, inr,
}
use playslot.Prelude.Result.{ok, >>=-eq-ok}
use playslot.Domain.Slots.{start_minutes}

module _ (step duration end : ℕ) where
  -- The minute is reached from the first by whole steps, and the duration still fits.
  abbrev pub OnGrid : ℕ → ℕ → Type 0
  OnGrid first m = (k : ℕ) × (m ≡ first + k * step) × (m + duration ≤ end)

  shift : (first : ℕ) (ms : List ℕ) → All (OnGrid (first + step)) ms → All (OnGrid first) ms
  shift first [] h = tt
  shift first (m ∷ ms) ((k, e, fit), h) = ((suc k, omega arith, fit), shift first ms h)

  unfinished :
      (first : ℕ) (ms : List ℕ)
      → leb (first + duration) end ≡ true
      → start_minutes zero first step duration end ≡ ok ms
      → ⊥
  unfolding start_minutes
  unfinished first ms e h = let clash = rw e at h in absurd (cc)

  -- A loop that has ended after a round: the rounds that came after it have.
  one_round :
      (fuel first : ℕ) (ms : List ℕ)
      → leb (first + duration) end ≡ true
      → start_minutes (suc fuel) first step duration end ≡ ok ms
      → (rest : List ℕ) × (start_minutes fuel (first + step) step duration end ≡ ok rest)
        × (first ∷ rest ≡ ms)
  unfolding start_minutes
  one_round fuel first ms e h =
      let (rest, k, l) =
        >>=-eq-ok (start_minutes fuel (first + step) step duration end) (λ ms. ok (first ∷ ms))
          {b = ms} (rw e at h) in
      (rest, k, ground (arith, l))

  none_left :
      (fuel first : ℕ) (ms : List ℕ)
      → leb (first + duration) end ≡ false
      → start_minutes fuel first step duration end ≡ ok ms
      → [] ≡ ms
  unfolding start_minutes
  none_left zero first ms e h = ground (arith, h, e)
  none_left (suc fuel) first ms e h = ground (arith, h, e)

  pub start_minutes-OnGrid :
      (fuel first : ℕ) (ms : List ℕ)
      → start_minutes fuel first step duration end ≡ ok ms
      → All (OnGrid first) ms
  start_minutes-OnGrid zero first ms h = elim (Bool-cases (leb (first + duration) end)) [
    | inl e ↦ absurd (unfinished first ms e h)
    | inr e ↦ rw (sym (none_left zero first ms e h)) tt
  ]
  start_minutes-OnGrid (suc fuel) first ms h = elim (Bool-cases (leb (first + duration) end)) [
    | inl e ↦
        let (rest, k, split) = one_round fuel first ms e h in
        rw (sym split) (
          (zero, omega arith, ground arith),
          shift first rest (start_minutes-OnGrid fuel (first + step) rest k),
        )
    | inr e ↦ rw (sym (none_left (suc fuel) first ms e h)) tt
  ]

  -- With a positive step and fuel beyond the end the loop ends by its test.
  pub start_minutes_total :
      (fuel first : ℕ)
      → 0 < step
      → end < fuel + first
      → (ms : List ℕ) × (start_minutes fuel first step duration end ≡ ok ms)
  unfolding start_minutes
  start_minutes_total zero first p enough = ([], ground arith)
  start_minutes_total (suc fuel) first p enough = elim (Bool-cases (leb (first + duration) end)) [
    | inl e ↦
        let (rest, k) = start_minutes_total fuel (first + step) p (omega arith) in
        (first ∷ rest, rw (e, k) refl)
    | inr e ↦ ([], rw e refl)
  ]

  -- A loop that has ended has reached every such minute.
  pub start_minutes_complete :
      (fuel first k : ℕ) (ms : List ℕ)
      → start_minutes fuel first step duration end ≡ ok ms
      → first + k * step + duration ≤ end
      → contains ms (first + k * step) ≡ true
  start_minutes_complete zero first k ms h fit = absurd (unfinished first ms (ground arith) h)
  start_minutes_complete (suc fuel) first zero ms h fit =
      let (rest, l, split) = one_round fuel first ms (ground arith) h in
      rw (sym split) (ground arith)
  start_minutes_complete (suc fuel) first (suc k) ms h fit =
      let (rest, l, split) = one_round fuel first ms (ground arith) h in
      let again : first + step + k * step ≡ first + suc k * step = omega arith in
      let there = start_minutes_complete fuel (first + step) k rest l (omega arith) in
      rw (sym split) (ground (arith, there, again))
