-- ===== src/Feedback/Rated.antt =====
-- What a submitted rating leaves in the table.
use playslot.Prelude.{
  ℕ, ◌+◌, ◌-◌, ◌≡◌, refl, Bool, true, false, not, ◌&&◌, Option, none, some, any, all, ltb, leb,
  if◌then◌else◌, Bool-cases, Option-cases, inl, inr, arith,
}
use playslot.Prelude.Result.{Result, ok, err}
use playslot.Domain.Time.{Instant}
use playslot.Domain.Status.{includes}
use playslot.Standing.{is_some}
use playslot.Store.Tables.{Store, Reservation, GroupSession}
use playslot.Store.Action.{Action, Thrown, ◌>>◌}
use playslot.Feedback.{
  FeedbackKind, FeedbackInput, is_mark, feedback_window, attended, kept_comment, upsert,
  assert_rateable, find_own, find_attended, coach_of_rows, submit, submit_reservation, submit_group,
}
use playslot.Feedback.Opinions.{same_key, single, opinion, given, upsert-opinion}

-- The account was there, and it is over, for no longer than the window.
abbrev may_rate : Instant → Bool → Instant → Bool
may_rate now was_there ends_at =
    was_there && (leb ends_at now && leb now (ends_at + feedback_window))

abbrev may_rate_reservation : Instant → Option Reservation → Bool
may_rate_reservation now none = false
may_rate_reservation now (some r) = may_rate now (includes attended r.status) r.ends_at

abbrev may_rate_group : Instant → Option GroupSession → Bool
may_rate_group now none = false
may_rate_group now (some g) = may_rate now (not (is_some g.cancelled_at)) g.ends_at

-- What may be rated: an own booking or lesson that took place, a session with an own registration
-- that was not called off.
unfoldable pub rateable : Instant → ℕ → FeedbackInput → Store → Bool
rateable now user_id input s = elim input.kind [
  | FeedbackKind.reservation ↦ may_rate_reservation now (find_own input.id user_id s)
  | FeedbackKind.group ↦ may_rate_group now (find_attended input.id user_id s)
]

abbrev pub is_ok : Result Thrown (Unit {0}) → Bool
is_ok (err e) = false
is_ok (ok a) = true

-- The call answered as allowed, set the one opinion if so, and kept the feedback single.
record Rates (user_id : ℕ) (input : FeedbackInput) (allowed : Bool) (s : Store)
    (after : Result Thrown (Unit {0}) × Store) : Type 0 where
  pub answer : is_ok after.0 ≡ allowed
  pub opinions :
      (v : ℕ) (k : FeedbackKind) (i : ℕ)
      → opinion v k i after.1.feedback ≡ (
          if allowed && same_key user_id input.kind input.id v k i
          then given user_id input
          else opinion v k i s.feedback)
  pub singles : all single after.1.feedback ≡ true

module _ (user_id : ℕ) (input : FeedbackInput) (s : Store)
    (one : all single s.feedback ≡ true) where
  refused-Rates : (e : Thrown) → Rates user_id input false s (err e, s)
  refused-Rates e = record { answer = refl; opinions = λ v k i. refl; singles = one }

  upsert-ok :
      (club_id : ℕ) (coach : Option ℕ) → is_ok (upsert user_id club_id coach input s).0 ≡ true
  unfolding upsert
  upsert-ok club_id coach =
      elim (Bool-cases (any (is_mark user_id input.kind input.id) s.feedback)) [
        | inl there ↦ rw there refl
        | inr new ↦ rw new refl
      ]

  upsert-Rates :
      (club_id : ℕ) (coach : Option ℕ)
      → Rates user_id input true s (upsert user_id club_id coach input s)
  upsert-Rates club_id coach =
      let sets = upsert-opinion user_id input s one club_id coach in
      record {
        answer = upsert-ok club_id coach;
        opinions = λ v k i. (sets v k i).0;
        singles = (sets 0 FeedbackKind.group 0).1;
      }

  checked-Rates :
      (now ends_at : Instant) (was_there : Bool) (next : Action (Unit {0}))
      → Rates user_id input true s (next s)
      → Rates user_id input
          (may_rate now was_there ends_at)
          s
          ((assert_rateable ends_at now was_there >> next) s)
  unfolding assert_rateable
  checked-Rates now ends_at false next rates = refused-Rates _
  checked-Rates now ends_at true next rates = elim (Bool-cases (ltb now ends_at)) [
    | inl early ↦
        let refuses : leb ends_at now ≡ false = ground arith in
        rw (early, refuses) (refused-Rates _)
    | inr over ↦
        let fine : leb ends_at now ≡ true = ground arith in
        rw (over, fine)
          (elim (Bool-cases (ltb feedback_window (now - ends_at))) [
            | inl late ↦
                let refuses : leb now (ends_at + feedback_window) ≡ false = ground arith in
                rw (late, refuses) (refused-Rates _)
            | inr within ↦
                let allows : leb now (ends_at + feedback_window) ≡ true = ground arith in
                rw (within, allows) rates
          ])
  ]

  submit_reservation-Rates :
      (now : Instant)
      → Rates user_id input
          (may_rate_reservation now (find_own input.id user_id s))
          s
          (submit_reservation now user_id input s)
  unfolding submit_reservation
  submit_reservation-Rates now = elim (Option-cases (find_own input.id user_id s)) [
    | inl missing ↦ rw missing (refused-Rates _)
    | inr (r, found) ↦ rw found (
        checked-Rates now r.ends_at (includes attended r.status) _
          (upsert-Rates r.club_id (coach_of_rows s.resources r.id s.rows)))
  ]

  submit_group-Rates :
      (now : Instant)
      → Rates user_id input
          (may_rate_group now (find_attended input.id user_id s))
          s
          (submit_group now user_id input s)
  unfolding submit_group
  submit_group-Rates now = elim (Option-cases (find_attended input.id user_id s)) [
    | inl missing ↦ rw missing (refused-Rates _)
    | inr (g, found) ↦ rw found (
        checked-Rates now g.ends_at (not (is_some g.cancelled_at)) _
          (upsert-Rates g.club_id (some g.coach_profile_id)))
  ]

  by_kind :
      (now : Instant) (k : FeedbackKind)
      → Rates user_id input
          (elim k [
            | FeedbackKind.reservation ↦ may_rate_reservation now (find_own input.id user_id s)
            | FeedbackKind.group ↦ may_rate_group now (find_attended input.id user_id s)
          ])
          s
          (elim k [
            | FeedbackKind.reservation ↦ submit_reservation now user_id input s
            | FeedbackKind.group ↦ submit_group now user_id input s
          ])
  by_kind now FeedbackKind.reservation = submit_reservation-Rates now
  by_kind now FeedbackKind.group = submit_group-Rates now

  submit-Rates :
      (now : Instant)
      → Rates user_id input (rateable now user_id input s) s (submit now user_id input s)
  unfolding submit rateable
  submit-Rates now = by_kind now input.kind

-- Where no feedback is on a reservation and on a session at once, `submit` returns exactly for an own
-- booking or lesson that was attended and for a session that the user was registered for and that was
-- not called off, ended and no more than 60 days ago. It then sets the user's rating and comment of
-- that item, where there was one before and where there was none, and leaves every other rating as it
-- was, also when it throws; and no feedback is on both kinds at once afterwards.
pub submit-opinion :
    (now : Instant) (user_id : ℕ) (input : FeedbackInput) (s : Store) (v : ℕ) (k : FeedbackKind)
    (i : ℕ)
    → all single s.feedback ≡ true
    → let after = submit now user_id input s in
      (is_ok after.0 ≡ rateable now user_id input s)
      × (opinion v k i after.1.feedback ≡ (
          if rateable now user_id input s && same_key user_id input.kind input.id v k i
          then some (input.rating, kept_comment input.comment)
          else opinion v k i s.feedback))
      × (all single after.1.feedback ≡ true)
submit-opinion now user_id input s v k i one =
    let rates = submit-Rates user_id input s one now in
    (rates.answer, rates.opinions v k i, rates.singles)
