-- ===== src/Feedback/Opinions.antt =====
-- The table of feedback as a map: what a user thinks of a reservation or of a session. An upsert sets
-- one entry.
use playslot.Prelude.{
  ℕ, ◌≡◌, refl, ◌∙◌, Bool, true, false, not, ◌&&◌, String, Option, none, some, List, [], ◌∷◌, map,
  any, all, find, ◌==◌, if◌then◌else◌, Bool-cases, inl, inr, arith,
}
use playslot.Standing.{is_some}
use playslot.Store.Tables.{Store, Feedback}
use playslot.Feedback.{
  FeedbackKind, FeedbackInput, is_id, is_mark, mark_of, rate_again, rate_first, reservation_column,
  session_column, kept_comment, upsert,
}

abbrev same_kind : FeedbackKind → FeedbackKind → Bool
same_kind FeedbackKind.reservation FeedbackKind.reservation = true
same_kind FeedbackKind.reservation FeedbackKind.group = false
same_kind FeedbackKind.group FeedbackKind.reservation = false
same_kind FeedbackKind.group FeedbackKind.group = true

-- The two authors and the two things that they rate are the same.
unfoldable pub same_key : ℕ → FeedbackKind → ℕ → ℕ → FeedbackKind → ℕ → Bool
same_key u kind id v k i = u == v && (same_kind kind k && id == i)

-- A feedback is not on a reservation and on a session at once.
unfoldable pub single : Feedback → Bool
single f = not (is_some f.reservation_id && is_some f.group_session_id)

abbrev opinion_of : Option Feedback → Option (ℕ × Option String)
opinion_of none = none
opinion_of (some f) = some (f.rating, f.comment)

-- What a user thinks of something: the rating and the comment.
unfoldable pub opinion : ℕ → FeedbackKind → ℕ → List Feedback → Option (ℕ × Option String)
opinion v k i fs = opinion_of (mark_of v k i fs)

opinion_of-if :
    (b : Bool) (x y : Option Feedback)
    → opinion_of (if b then x else y) ≡ (if b then opinion_of x else opinion_of y)
opinion_of-if true x y = refl
opinion_of-if false x y = refl

opinion-cons :
    (v : ℕ) (k : FeedbackKind) (i : ℕ) (f : Feedback) (fs : List Feedback)
    → opinion v k i (f ∷ fs)
      ≡ (if is_mark v k i f then some (f.rating, f.comment) else opinion v k i fs)
unfolding opinion find
opinion-cons v k i f fs = opinion_of-if (is_mark v k i f) (some f) (find (is_mark v k i) fs)

is_id-eq : (o : Option ℕ) (id i : ℕ) → is_id o id ≡ true → is_id o i ≡ true → (id == i) ≡ true
is_id-eq none id i a b = absurd (cc)
is_id-eq (some x) id i a b = ground arith

is_id-some : (o : Option ℕ) (id : ℕ) → is_id o id ≡ true → is_some o ≡ true
is_id-some none id a = absurd (cc)
is_id-some (some x) id a = refl

-- A feedback has one key.
is_mark_unique :
    (u v id i : ℕ) (kind k : FeedbackKind) (f : Feedback)
    → single f ≡ true
    → is_mark u kind id f ≡ true
    → is_mark v k i f ≡ true
    → same_key u kind id v k i ≡ true
unfolding single is_mark same_key
is_mark_unique u v id i FeedbackKind.reservation FeedbackKind.reservation f one a b =
    ground (arith, is_id-eq f.reservation_id id i)
is_mark_unique u v id i FeedbackKind.reservation FeedbackKind.group f one a b =
    ground (arith, is_id-some f.reservation_id id, is_id-some f.group_session_id i)
is_mark_unique u v id i FeedbackKind.group FeedbackKind.reservation f one a b =
    ground (arith, is_id-some f.reservation_id i, is_id-some f.group_session_id id)
is_mark_unique u v id i FeedbackKind.group FeedbackKind.group f one a b =
    ground (arith, is_id-eq f.group_session_id id i)

-- A feedback with a key has every key that is the same.
is_mark_of_same :
    (u v id i : ℕ) (kind k : FeedbackKind) (f : Feedback)
    → is_mark v k i f ≡ true
    → same_key u kind id v k i ≡ true
    → is_mark u kind id f ≡ true
unfolding is_mark same_key
is_mark_of_same u v id i FeedbackKind.reservation FeedbackKind.reservation f a b =
    let e : i ≡ id = ground arith in ground (arith, rw e at a)
is_mark_of_same u v id i FeedbackKind.reservation FeedbackKind.group f a b = absurd (ground arith)
is_mark_of_same u v id i FeedbackKind.group FeedbackKind.reservation f a b = absurd (ground arith)
is_mark_of_same u v id i FeedbackKind.group FeedbackKind.group f a b =
    let e : i ≡ id = ground arith in ground (arith, rw e at a)

same_key-sym :
    (u v id i : ℕ) (kind k : FeedbackKind)
    → same_key u kind id v k i ≡ true
    → same_key v k i u kind id ≡ true
unfolding same_key
same_key-sym u v id i FeedbackKind.reservation FeedbackKind.reservation a = ground arith
same_key-sym u v id i FeedbackKind.reservation FeedbackKind.group a = absurd (ground arith)
same_key-sym u v id i FeedbackKind.group FeedbackKind.reservation a = absurd (ground arith)
same_key-sym u v id i FeedbackKind.group FeedbackKind.group a = ground arith

module _ (user_id : ℕ) (input : FeedbackInput) where
  abbrev pub given : Option (ℕ × Option String)
  given = some (input.rating, kept_comment input.comment)

  rate_again-mark :
      (v : ℕ) (k : FeedbackKind) (i : ℕ) (f : Feedback)
      → is_mark v k i (rate_again user_id input f) ≡ is_mark v k i f
  unfolding is_mark
  rate_again-mark v FeedbackKind.reservation i f =
      elim (Bool-cases (is_mark user_id input.kind input.id f)) [
        | inl e ↦ rw e refl
        | inr e ↦ rw e refl
      ]
  rate_again-mark v FeedbackKind.group i f =
      elim (Bool-cases (is_mark user_id input.kind input.id f)) [
        | inl e ↦ rw e refl
        | inr e ↦ rw e refl
      ]

  -- One feedback that is rated again.
  rated_again :
      (v : ℕ) (k : FeedbackKind) (i : ℕ) (f : Feedback)
      → single f ≡ true
      → is_mark v k i f ≡ true
      → (let g = rate_again user_id input f in some (g.rating, g.comment))
        ≡ (if same_key user_id input.kind input.id v k i then given else some (f.rating, f.comment))
  rated_again v k i f one m = elim (Bool-cases (is_mark user_id input.kind input.id f)) [
    | inl e ↦
        let same = is_mark_unique user_id v input.id i input.kind k f one e m in rw (e, same) refl
    | inr e ↦ elim (Bool-cases (same_key user_id input.kind input.id v k i)) [
      | inl same ↦
          let m' = is_mark_of_same user_id v input.id i input.kind k f m same in absurd (cc)
      | inr other ↦ rw (e, other) refl
    ]
  ]

  rate_again-opinion :
      (v : ℕ) (k : FeedbackKind) (i : ℕ) (fs : List Feedback)
      → all single fs ≡ true
      → (same_key user_id input.kind input.id v k i ≡ true
          → any (is_mark user_id input.kind input.id) fs ≡ true)
      → opinion v k i (map (rate_again user_id input) fs)
        ≡ (if same_key user_id input.kind input.id v k i then given else opinion v k i fs)
  unfolding all any
  rate_again-opinion v k i [] one there =
      elim (Bool-cases (same_key user_id input.kind input.id v k i)) [
        | inl same ↦ let a = there same in absurd (cc)
        | inr other ↦ rw other refl
      ]
  rate_again-opinion v k i (f ∷ fs) one there =
      rw
        (
          opinion-cons v k i (rate_again user_id input f) (map (rate_again user_id input) fs),
          rate_again-mark v k i f,
          opinion-cons v k i f fs,
        )
        (elim (Bool-cases (is_mark v k i f)) [
          | inl m ↦ rw m (rated_again v k i f (ground arith) m)
          | inr m ↦ rw m (
              rate_again-opinion v k i fs (ground arith) (λ same.
                let a = there same in
                let m' = same_key-sym user_id v input.id i input.kind k same in
                ground (arith, is_mark_of_same v user_id i input.id k input.kind f)))
        ])

  rate_again-single :
      (fs : List Feedback) → all single (map (rate_again user_id input) fs) ≡ all single fs
  unfolding all single
  rate_again-single [] = refl
  rate_again-single (f ∷ fs) =
      let a : single (rate_again user_id input f) ≡ single f =
        elim (Bool-cases (is_mark user_id input.kind input.id f)) [
          | inl e ↦ rw e refl
          | inr e ↦ rw e refl
        ] in
      rw (a, rate_again-single fs) refl

  -- A feedback that is rated for the first time.
  first-mark :
      (kind : FeedbackKind) (id v : ℕ) (k : FeedbackKind) (i : ℕ) (f : Feedback)
      → f.user_id ≡ user_id
      → f.reservation_id ≡ reservation_column kind id
      → f.group_session_id ≡ session_column kind id
      → (is_mark v k i f ≡ same_key user_id kind id v k i) × (single f ≡ true)
  unfolding is_mark same_key single
  first-mark FeedbackKind.reservation id v FeedbackKind.reservation i f a b c =
      (rw (a, b) refl, rw (b, c) refl)
  first-mark FeedbackKind.reservation id v FeedbackKind.group i f a b c =
      (rw (a, c) refl, rw (b, c) refl)
  first-mark FeedbackKind.group id v FeedbackKind.reservation i f a b c =
      (rw (a, b) refl, rw b refl)
  first-mark FeedbackKind.group id v FeedbackKind.group i f a b c = (rw (a, c) refl, rw b refl)

  module _ (s : Store) (one : all single s.feedback ≡ true) where
    -- The upsert sets one opinion, and keeps the feedback single.
    pub upsert-opinion :
        (club_id : ℕ) (coach : Option ℕ) (v : ℕ) (k : FeedbackKind) (i : ℕ)
        → let after = (upsert user_id club_id coach input s).1 in
          (opinion v k i after.feedback ≡ (
            if same_key user_id input.kind input.id v k i then given else opinion v k i s.feedback))
          × (all single after.feedback ≡ true)
    unfolding upsert all
    upsert-opinion club_id coach v k i =
        let mark = is_mark user_id input.kind input.id in
        elim (Bool-cases (any mark s.feedback)) [
          | inl there ↦ rw there (
            rate_again-opinion v k i s.feedback one (λ _. there),
            rate_again-single s.feedback ∙ one,
          )
          | inr new ↦
              let f = rate_first s.next_id user_id club_id coach input in
              let m = first-mark input.kind input.id v k i f refl refl refl in
              rw (new, opinion-cons v k i f s.feedback, m.0, m.1) (refl, one)
        ]
