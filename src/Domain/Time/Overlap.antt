-- ===== src/Domain/Time/Overlap.antt =====
-- The overlap test of time.ts against the sets of instants, and the day's minutes.
use playslot.Prelude.{ℕ, ◌≤◌, ◌<◌, ◌≡◌, ◌↔◌, true, arith, leb, if◌then◌else◌}
use playslot.Domain.Time.{Instant, Interval, intervals_overlap}

-- The instant lies in the half-open interval.
abbrev pub Within : Instant → Interval → Type 0
Within t i = (i.start ≤ t) × (t < i.end)

later : ℕ → ℕ → ℕ
later a b = if leb a b then b else a

-- Two intervals that are not empty overlap exactly when some instant lies in both.
pub intervals_overlap_iff :
    (a b : Interval)
    → a.start < a.end
    → b.start < b.end
    → (intervals_overlap a b ≡ true) ↔ ((t : Instant) × (Within t a × Within t b))
unfolding intervals_overlap later
intervals_overlap_iff a b ha hb = (λ h. (later a.start b.start, ground arith), λ h. ground arith)

pub overlap_comm : (a b : Interval) → intervals_overlap a b ≡ intervals_overlap b a
unfolding intervals_overlap
overlap_comm a b = ground arith
