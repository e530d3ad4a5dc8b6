-- ===== src/GroupSessions/Seated.antt =====
-- The invariant of group sessions, and that every call of their own keeps it.
use playslot.Prelude.{
  ℕ, ◌<◌, ◌≤◌, ◌≡◌, ◌⊎◌, refl, subst, Bool, true, false, some, List, [], ◌∷◌, filter, find, All,
  All-imp, All-filter, Bool-cases, Option-cases, inl, inr, arith, leb, ◌==◌,
}
use playslot.Domain.Time.{Instant}
use playslot.Store.Tables.{Store, GroupSession, Registration}
use playslot.Store.Action.{modify, transaction, on_unique}
use playslot.Store.Rows.Keeps.{Holds, keeps_rules}
use playslot.Booking.Create.Kept.{standing-Keeps}
use playslot.GroupSessions.{
  find_session, seats_taken, is_registered, take_seat, register, register_for, unregister,
  without_seat, update_session, to_called_off, insert_session,
}
use playslot.GroupSessions.Seats.{
  seat, unique, seats-seat, seats-filter_le, unique-filter, none_taken,
}
use playslot.GroupSessions.Roster.{seat_taken}

-- No session has more registrations than seats, nobody is registered twice for one, and the ids of
-- sessions, in registrations too, are below the next one.
pub record Seated (s : Store) : Type 0 where
  pub fits :
      (id : ℕ) (g : GroupSession)
      → find_session id s ≡ some g
      → seats_taken id s.registrations ≤ g.capacity
  pub once : unique s.registrations ≡ true
  pub fresh : All (λ g. g.id < s.next_id) s.group_sessions
  pub known : All (λ r. r.group_session_id < s.next_id) s.registrations

-- The invariant reads the two tables and the next id only.
pub Seated-of_same :
    (s s' : Store)
    → s'.group_sessions ≡ s.group_sessions
    → s'.registrations ≡ s.registrations
    → s.next_id ≤ s'.next_id
    → Seated s
    → Seated s'
Seated-of_same s s' sessions registrations later v = record {
  fits = λ id g e. rw registrations (v.fits id g (rw sessions at e));
  once = rw registrations v.once;
  fresh = rw sessions (All-imp _ _ s.group_sessions (λ r h. omega arith) v.fresh);
  known = rw registrations (All-imp _ _ s.registrations (λ r h. omega arith) v.known);
}

-- Registrations that go away leave it.
pub Seated-filter :
    (p : Registration → Bool) (s : Store)
    → Seated s
    → Seated (record s { registrations = filter p s.registrations })
Seated-filter p s v = record {
  fits = λ id g e. omega (arith, v.fits id g e, seats-filter_le p id s.registrations);
  once = unique-filter p s.registrations v.once;
  fresh = v.fresh;
  known = All-filter p (λ r. r.group_session_id < s.next_id) s.registrations v.known;
}

pub unregister-Seated : (id user_id : ℕ) → Holds Seated (unregister id user_id)
unfolding unregister without_seat
unregister-Seated id user_id = record { keeps = λ s v. Seated-filter _ s v }

find-below :
    (n id : ℕ) (gs : List GroupSession) (g : GroupSession)
    → All (λ x. x.id < n) gs
    → find (λ (x : GroupSession). x.id == id) gs ≡ some g
    → id < n
unfolding find
find-below n id [] g h e = absurd (cc)
find-below n id (x ∷ gs) g h e = ground (arith, find-below n id gs g h.1)

-- A seat that is free, for somebody who has none.
seat-Seated :
    (id user_id : ℕ) (s : Store) (g : GroupSession)
    → find_session id s ≡ some g
    → id < s.next_id
    → leb g.capacity (seats_taken id s.registrations) ≡ false
    → is_registered id user_id s.registrations ≡ false
    → Seated s
    → Seated (record s { registrations = seat id user_id ∷ s.registrations })
unfolding unique
seat-Seated id user_id s g found old left new v = record {
  fits = λ j x e. elim (Bool-cases (id == j)) [
    | inl same ↦
        let at : id ≡ j = ground arith in
        let found' : find_session j s ≡ some g = subst (λ i. find_session i s ≡ some g) at found in
        let is : x ≡ g = ground (arith, found', e) in
        let room : seats_taken j s.registrations < g.capacity =
          subst (λ i. seats_taken i s.registrations < g.capacity) at (ground arith) in
        rw is (ground (arith, seats-seat id user_id j s.registrations))
    | inr other ↦ ground (arith, seats-seat id user_id j s.registrations, v.fits j x e)
  ];
  once = ground (arith, v.once);
  fresh = v.fresh;
  known = (old, v.known);
}

abbrev Offers : ℕ → GroupSession → Store → Type 0
Offers id g s = Seated s × (find_session id s ≡ some g)

take_seat-Offers :
    (id user_id left : ℕ) (g : GroupSession)
    → Holds (Offers id g) (on_unique (transaction (take_seat id g.capacity user_id)) left)
take_seat-Offers id user_id left g = record {
  keeps = λ s (v, found). elim (Bool-cases (leb g.capacity (seats_taken id s.registrations))) [
    | inl none_left ↦ rw (seat_taken id g.capacity user_id left s, none_left) (v, found)
    | inr some_left ↦ elim (Bool-cases (is_registered id user_id s.registrations)) [
      | inl there ↦ rw (seat_taken id g.capacity user_id left s, some_left, there) (v, found)
      | inr new ↦
          let old = find-below s.next_id id s.group_sessions g v.fresh found in
          rw (seat_taken id g.capacity user_id left s, some_left, new)
            (seat-Seated id user_id s g found old some_left new v, found)
    ]
  ];
}

register_for-Offers :
    (now : Instant) (id user_id : ℕ) (g : GroupSession)
    → Holds (Offers id g) (register_for now id user_id g)
unfolding register_for
register_for-Offers now id user_id g =
    search (keeps_rules, standing-Keeps, take_seat-Offers) depth 24

-- Whoever asks for a seat, and whenever: the check of the capacity and the unique index keep it.
pub register-Seated : (now : Instant) (id user_id : ℕ) → Holds Seated (register now id user_id)
unfolding register
register-Seated now id user_id = record {
  keeps = λ s v. elim (Option-cases (find_session id s)) [
    | inl missing ↦ rw missing v
    | inr (g, found) ↦ rw found ((register_for-Offers now id user_id g).keeps s (v, found)).0
  ];
}

update-capacity :
    (id : ℕ) (f : GroupSession → GroupSession) (gs : List GroupSession)
    → ((g : GroupSession) → (f g).id ≡ g.id)
    → ((g : GroupSession) → (f g).capacity ≡ g.capacity)
    → (j : ℕ) (g : GroupSession)
    → find (λ (x : GroupSession). x.id == j) (update_session id f gs) ≡ some g
    → (old : GroupSession) × (find (λ (x : GroupSession). x.id == j) gs ≡ some old)
      × (old.capacity ≡ g.capacity)
unfolding update_session find
update-capacity id f [] k l j g e = absurd (cc)
update-capacity id f (x ∷ gs) k l j g e = elim (Bool-cases (x.id == j)) [
  | inl same ↦ rw same (x, refl, ground (arith, k x, l x, same, e))
  | inr other ↦ rw other (update-capacity id f gs k l j g (ground (arith, k x, other, e)))
]

update-fresh :
    (n id : ℕ) (f : GroupSession → GroupSession) (gs : List GroupSession)
    → ((g : GroupSession) → (f g).id ≡ g.id)
    → All (λ g. g.id < n) gs
    → All (λ g. g.id < n) (update_session id f gs)
unfolding update_session
update-fresh n id f [] k h = tt
update-fresh n id f (g ∷ gs) k h = ground (arith, k g, update-fresh n id f gs k h.1)

-- A session that is called off keeps its seats.
pub call_off-Seated :
    (now : Instant) (id : ℕ)
    → Holds Seated (
        modify (λ s. record s {
          group_sessions = update_session id (to_called_off now) s.group_sessions;
        }))
call_off-Seated now id = record {
  keeps = λ s v. record {
    fits = λ j g e.
        let (old, found, same) =
          update-capacity id (to_called_off now) s.group_sessions (λ g. refl) (λ g. refl) j g e in
        omega (arith, v.fits j old found, same);
    once = v.once;
    fresh = update-fresh s.next_id id (to_called_off now) s.group_sessions (λ g. refl) v.fresh;
    known = v.known;
  };
}

find-new :
    (n : ℕ) (g x : GroupSession) (gs : List GroupSession) (j : ℕ)
    → g.id ≡ n
    → find (λ (y : GroupSession). y.id == j) (g ∷ gs) ≡ some x
    → (j ≡ n) ⊎ (find (λ (y : GroupSession). y.id == j) gs ≡ some x)
unfolding find
find-new n g x gs j at e = ground arith

-- A new session has all its seats.
pub insert_session-Seated :
    (g : ℕ → GroupSession) → ((n : ℕ) → (g n).id ≡ n) → Holds Seated (insert_session g)
unfolding insert_session
insert_session-Seated g at = record {
  keeps = λ s v. record {
    fits = λ j x e. elim (find-new s.next_id (g s.next_id) x s.group_sessions j (at s.next_id) e) [
      | inl new ↦ rw new (omega (arith, none_taken s.next_id s.registrations v.known))
      | inr old ↦ v.fits j x old
    ];
    once = v.once;
    fresh =
        (omega (arith, at s.next_id), All-imp _ _ s.group_sessions (λ x h. omega arith) v.fresh);
    known = All-imp _ _ s.registrations (λ x h. omega arith) v.known;
  };
}
