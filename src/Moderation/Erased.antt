-- ===== src/Moderation/Erased.antt =====
-- A user who is deleted takes the group sessions of a coach's profile along, with their registrations.
use playslot.Prelude.{
  ℕ, ◌<◌, ◌≡◌, ◌⊎◌, refl, Bool, true, not, ◌&&◌, some, List, [], ◌∷◌, any, filter, find, All-filter,
  Bool-cases, inl, inr, arith, ◌==◌,
}
use playslot.Store.Tables.{GroupSession, Registration}
use playslot.Store.Rows.Keeps.{Holds}
use playslot.GroupSessions.{seats_taken}
use playslot.GroupSessions.Seats.{unique-filter, seats-filter_le}
use playslot.GroupSessions.Seated.{Seated}
use playslot.Moderation.Removal.{is_profile_of, is_session_of, is_referenced, cascade, delete_user}

-- A session that is found where some have gone was found before, or one with its id is gone.
find-gone :
    (gone : GroupSession → Bool) (id : ℕ) (gs : List GroupSession) (g : GroupSession)
    → find (λ (x : GroupSession). x.id == id) (filter (λ x. not (gone x)) gs) ≡ some g
    → (find (λ (x : GroupSession). x.id == id) gs ≡ some g)
      ⊎ (any (λ (x : GroupSession). x.id == id && gone x) gs ≡ true)
unfolding find filter any
find-gone gone id [] g e = inl e
find-gone gone id (x ∷ gs) g e = elim (Bool-cases (gone x)) [
  | inl out ↦ elim (Bool-cases (x.id == id)) [
    | inl same ↦ inr (rw (same, out) refl)
    | inr other ↦ elim (find-gone gone id gs g (rw out at e)) [
      | inl before ↦ inl (rw other before)
      | inr there ↦ inr (rw other there)
    ]
  ]
  | inr stays ↦ elim (Bool-cases (x.id == id)) [
    | inl same ↦ inl (rw same (rw (stays, same) at e))
    | inr other ↦ elim (find-gone gone id gs g (rw (stays, other) at e)) [
      | inl before ↦ inl (rw other before)
      | inr there ↦ inr (rw other there)
    ]
  ]
]

seats-gone :
    (gone : ℕ → Bool) (id : ℕ) (rs : List Registration)
    → gone id ≡ true
    → seats_taken id (filter (λ (r : Registration). not (gone r.group_session_id)) rs) ≡ 0
unfolding seats_taken filter
seats-gone gone id [] h = refl
seats-gone gone id (r ∷ rs) h = elim (Bool-cases (gone r.group_session_id)) [
  | inl out ↦ rw out (seats-gone gone id rs h)
  | inr stays ↦ elim (Bool-cases (r.group_session_id == id)) [
    | inl same ↦ let at : r.group_session_id ≡ id = ground arith in absurd (cc)
    | inr other ↦ rw (stays, other) (seats-gone gone id rs h)
  ]
]

pub erase-Seated : (user_id : ℕ) → Holds Seated (delete_user user_id)
unfolding delete_user cascade
erase-Seated user_id = record {
  keeps = λ s v. elim (Bool-cases (is_referenced user_id s)) [
    | inl there ↦ rw there v
    | inr free ↦ rw free (record {
      fits = λ id g e.
          elim (find-gone (λ x. is_profile_of user_id s x.coach_profile_id) id s.group_sessions g
            e) [
              | inl before ↦ omega (
                arith,
                v.fits id g before,
                seats-filter_le (λ r. not (is_session_of user_id s r.group_session_id)) id
                    s.registrations,
              )
              | inr there ↦
                  omega (arith, seats-gone (is_session_of user_id s) id s.registrations there)
            ];
      once = unique-filter _ s.registrations v.once;
      fresh = All-filter _ (λ g. g.id < s.next_id) s.group_sessions v.fresh;
      known = All-filter _ (λ r. r.group_session_id < s.next_id) s.registrations v.known;
    })
  ];
}
