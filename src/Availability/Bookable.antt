-- ===== src/Availability/Bookable.antt =====
-- What the availability of a club says of a slot is what a booking of the slot meets.
use playslot.Prelude.{
  ℕ, ◌≤◌, ◌≡◌, refl, sym, ap, subst, ◌∙◌, Bool, true, false, not, ◌&&◌, Option, some, List, [], ◌∷◌,
  ◌++◌, filter, find, contains, All, All-imp, All-of_filter, any-false_of_All, Bool-cases, inl, inr,
  arith, leb, ◌==◌,
}
use playslot.Prelude.Result.{ok}
use playslot.Domain.Time.{Instant, Interval, intervals_overlap, weekday_in_zone}
use playslot.Domain.Time.Overlap.{overlap_comm}
use playslot.Domain.Status.{ReservationStatus, status_eq, includes}
use playslot.Domain.Slots.{GenerateSlotsInput, SlotState, Occupancy, Slot, slot_at, generate_slots}
use playslot.Domain.Slots.Classified.{Apart, classify-free_iff}
use playslot.Domain.Slots.Rounds.{StandsFor}
use playslot.Domain.Slots.Offered.{generate_slots_sound}
use playslot.Store.Tables.{Store, Resource, Reservation, ResourceRow}
use playslot.Store.Rows.{ranges_overlap, conflicts, find_reservation}
use playslot.Store.Rows.Exclusive.{ranges-apart}
use playslot.Store.Rows.Inv.{Inv, IsSynced}
use playslot.Availability.{
  time_of, is_shown, pushes, occ_by_court, occupancy, occupying_statuses, run_out,
}
use playslot.Availability.Day.{Day, slots_input, slot_time}

All-append_left :
    {A : Type 0} (P : A → Type 0) (xs ys : List A) → All P (xs ++ ys) → All P xs × All P ys
All-append_left P [] ys h = (tt, h)
All-append_left P (x ∷ xs) ys (p, h) = let (k, l) = All-append_left P xs ys h in ((p, k), l)

All-const : {A : Type 0} (P : A → Type 0) (xs : List A) → ((x : A) → P x) → All P xs
All-const P [] f = tt
All-const P (x ∷ xs) f = (f x, All-const P xs f)

All-zip :
    {A : Type 0} (P Q : A → Type 0) (xs : List A) → All P xs → All Q xs → All (λ x. P x × Q x) xs
All-zip P Q [] h k = tt
All-zip P Q (x ∷ xs) (p, h) (q, k) = ((p, q), All-zip P Q xs h k)

-- What holds of all pairs, read the other way round.
All-swap :
    {A B : Type 0} (R : A → B → Type 0) (xs : List A) (ys : List B)
    → All (λ x. All (R x) ys) xs
    → All (λ y. All (λ x. R x y) xs) ys
All-swap R [] ys h = All-const (λ _. Unit) ys (λ _. tt)
All-swap R (x ∷ xs) ys (p, h) = All-zip (R x) (λ y. All (λ z. R z y) xs) ys p (All-swap R xs ys h)

find-All :
    (P : Reservation → Type 0) (id : ℕ) (rs : List Reservation) (r : Reservation)
    → All P rs
    → find_reservation id rs ≡ some r
    → P r × (r.id ≡ id)
unfolding find_reservation find
find-All P id [] r h e = absurd (cc)
find-All P id (x ∷ rs) r (p, h) e = elim (Bool-cases (x.id == id)) [
  | inl same ↦ let is : x ≡ r = ground (arith, same, e) in (subst P is p, ground (arith, same, e))
  | inr other ↦ find-All P id rs r h (ground (arith, other, e))
]

-- A reservation with such a row is apart from the slot.
abbrev Clear : ℕ → Interval → Reservation → ResourceRow → Type 0
Clear court_id slot r row =
    (row.reservation_id == r.id && row.resource_id == court_id) ≡ true → Apart slot (time_of r)

if_shown :
    (b : Bool) (P : ResourceRow → Type 0) (rows : List ResourceRow)
    → (b ≡ true → All P rows)
    → All (λ row. b ≡ true → P row) rows
if_shown true P rows h = All-imp _ _ rows (λ row p _. p) (h refl)
if_shown false P rows h = All-const _ rows (λ row e. absurd (cc))

module _ (user_id : Option ℕ) (court_id : ℕ) (slot : Interval) where
  pushes-Clear :
      (r : Reservation) (rows : List ResourceRow)
      → All (λ (o : Occupancy). Apart slot o.interval) (pushes user_id court_id r rows)
      → All (Clear court_id slot r) rows
  unfolding pushes
  pushes-Clear r [] h = tt
  pushes-Clear r (row ∷ rows) h =
      elim (Bool-cases (row.reservation_id == r.id && row.resource_id == court_id)) [
        | inl hit ↦
            let (p, k) : Apart slot (time_of r)
                × All (λ (o : Occupancy). Apart slot o.interval) (pushes user_id court_id r rows) =
              rw hit at h in
            (λ _. p, pushes-Clear r rows k)
        | inr miss ↦ (λ hit. absurd (cc), pushes-Clear r rows (rw miss at h))
      ]

  occ-Clear :
      (rows : List ResourceRow) (rs : List Reservation)
      → All (λ (o : Occupancy). Apart slot o.interval) (occ_by_court user_id court_id rows rs)
      → All (λ r. All (Clear court_id slot r) rows) rs
  unfolding occ_by_court
  occ-Clear rows [] h = tt
  occ-Clear rows (r ∷ rs) h =
      let (p, k) =
        All-append_left (λ (o : Occupancy). Apart slot o.interval) (pushes user_id court_id r rows)
          (occ_by_court user_id court_id rows rs) h in
      (pushes-Clear r rows p, occ-Clear rows rs k)

-- Of the club, in a status that `getAvailability` counts, and not a hold that has run out.
abbrev pub is_counted : ℕ → Instant → Reservation → Bool
is_counted club_id now r =
    r.club_id == club_id
    && (includes occupying_statuses r.status
        && not (status_eq r.status ReservationStatus.hold && run_out now r.hold_expires_at))

-- If the row holds the court, its reservation counts.
abbrev pub IsCounted : ℕ → Instant → ℕ → List Reservation → ResourceRow → Type 0
IsCounted club_id now court_id rs row =
    (row.is_active && row.resource_id == court_id) ≡ true
    → (r : Reservation) → find_reservation row.reservation_id rs ≡ some r
    → is_counted club_id now r ≡ true

shown_of :
    (club_id : ℕ) (day slot : Interval) (now : Instant) (r : Reservation)
    → is_counted club_id now r ≡ true
    → day.start ≤ slot.start
    → slot.end ≤ day.end
    → intervals_overlap slot (time_of r) ≡ true
    → is_shown club_id day now r ≡ true
unfolding is_shown intervals_overlap
shown_of club_id day slot now r counted from until over = ground arith

module _ (day : Day) (court_id : ℕ) (slot : Interval) (s : Store)
    (from : day.period.start ≤ slot.start) (until : slot.end ≤ day.period.end) where
  abbrev hit : ResourceRow → Bool
  hit row =
      row.is_active && (contains (court_id ∷ []) row.resource_id && ranges_overlap row.period slot)

  abbrev shown : Reservation → Bool
  shown = is_shown day.club.id day.period day.now

  row-apart :
      (row : ResourceRow)
      → All (λ r. shown r ≡ true → Clear court_id slot r row) s.reservations
      → IsSynced s.reservations row
      → IsCounted day.club.id day.now court_id s.reservations row
      → hit row ≡ false
  row-apart row clear (r, e, on, at) counted =
      let (clear_r, same) = find-All _ row.reservation_id s.reservations r clear e in
      let over : intervals_overlap row.period slot ≡ intervals_overlap slot (time_of r) =
        ap (λ p. intervals_overlap p slot) at ∙ overlap_comm (time_of r) slot in
      elim (Bool-cases (row.is_active && row.resource_id == court_id)) [
        | inr idle ↦ ground arith
        | inl held_here ↦ elim (Bool-cases (intervals_overlap slot (time_of r))) [
          | inr apart ↦ ground (arith, ranges-apart row.period slot, over, apart)
          | inl overlaps ↦
              let is_there =
                shown_of day.club.id day.period slot day.now r (counted held_here r e) from until
                  overlaps in
              let apart : Apart slot (time_of r) = clear_r is_there (ground arith) in absurd (cc)
        ]
      ]

  occupancy-conflicts :
      All
        (λ (o : Occupancy). Apart slot o.interval)
        (occupancy day.user_id day.club.id day.period day.now court_id s)
      → Inv s
      → All (IsCounted day.club.id day.now court_id s.reservations) s.rows
      → conflicts (court_id ∷ []) slot s.rows ≡ false
  unfolding occupancy conflicts
  occupancy-conflicts clear v counted =
      let by_row =
        All-swap (λ r row. shown r ≡ true → Clear court_id slot r row) s.reservations s.rows
          (All-imp _ _ s.reservations (λ r h. if_shown (shown r) _ s.rows h)
            (All-of_filter shown _ s.reservations
              (occ-Clear day.user_id court_id slot s.rows (filter shown s.reservations) clear))) in
      any-false_of_All _ s.rows (
        All-imp _ _ s.rows (λ row ((c, y), k). row-apart row c y k)
          (All-zip _ _ s.rows (All-zip _ _ s.rows by_row v.synced) counted))

free-IsClear :
    (day : Day) (court : Resource) (s : Store) (m : ℕ) (start end : Instant)
    → let slot = slot_at (slots_input day court s) m start end in
      slot.state ≡ SlotState.free
      → All
          (λ (o : Occupancy). Apart (slot_time slot) o.interval)
          (occupancy day.user_id day.club.id day.period day.now court.id s)
unfolding slot_at slots_input
free-IsClear day court s m start end h = ((classify-free_iff start end day.now _ _).0 h).2

-- A slot of the day that is free meets no conflict.
abbrev pub MeetsNone : Day → Resource → Store → Slot → Type 0
MeetsNone day court s slot =
    slot.state ≡ SlotState.free
    → day.period.start ≤ slot.start
    → slot.end ≤ day.period.end
    → conflicts (court.id ∷ []) (slot_time slot) s.rows ≡ false

stands-MeetsNone :
    (day : Day) (court : Resource) (s : Store) (P : ℕ → Type 0)
    → Inv s
    → All (IsCounted day.club.id day.now court.id s.reservations) s.rows
    → (slot : Slot) → StandsFor (slots_input day court s) P slot
    → MeetsNone day court s slot
stands-MeetsNone day court s P v counted slot (m, g, _) is_free from until =
    let at : slot ≡ slot_at (slots_input day court s) m g.from g.until = g.is_slot in
    occupancy-conflicts day court.id (slot_time slot) s from until
      (subst
        (λ (x : Slot).
          All (λ (o : Occupancy). Apart (slot_time x) o.interval)
            (occupancy day.user_id day.club.id day.period day.now court.id s))
        (sym at)
        (free-IsClear day court s m g.from g.until
          (subst (λ (x : Slot). x.state ≡ SlotState.free) at is_free)))
      v counted

none_generated :
    (input : GenerateSlotsInput) (slots : List Slot)
    → leb input.duration_min 0 ≡ true
    → generate_slots input ≡ ok slots
    → [] ≡ slots
unfolding generate_slots
none_generated input slots h e = ground (arith, rw h at e)

-- The slots that are generated for a court of the day meet no conflict where they are free.
pub generated-MeetsNone :
    (day : Day) (court : Resource) (s : Store) (slots : List Slot)
    → Inv s
    → weekday_in_zone day.club.zone day.date ≡ ok day.weekday
    → generate_slots (slots_input day court s) ≡ ok slots
    → All
        (λ (slot : Slot).
          All (IsCounted day.club.id day.now court.id s.reservations) s.rows
          → MeetsNone day court s slot)
        slots
unfolding slots_input
generated-MeetsNone day court s slots v today e =
    elim (Bool-cases (leb (slots_input day court s).duration_min 0)) [
      | inl none_asked ↦
          let none_there : [] ≡ slots =
            none_generated (slots_input day court s) slots none_asked e in
          rw (sym none_there) tt
      | inr asked ↦
          let (stand, _) =
            generate_slots_sound (slots_input day court s) day.weekday slots (ground arith) today
              e in
          All-imp _ _ slots (λ slot k counted. stands-MeetsNone day court s _ v counted slot k)
            stand
    ]
