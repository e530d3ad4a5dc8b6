-- ===== src/Availability/Booked.antt =====
-- A slot that `getAvailability` answers as FREE, and `createReservation` for it.
use playslot.Prelude.{
  ℕ, ◌≤◌, ◌≡◌, refl, sym, ◌∙◌, ap, subst, false, Option, some, List, [], ◌∷◌, ◌++◌, map, filter,
  find, Mem, All, All-mem, Option-cases, Bool-cases, inl, inr, arith,
}
use playslot.Prelude.Result.{Result, ok, err, Result-cases}
use playslot.Prelude.Sort.{sort}
use playslot.Domain.Time.{Instant, Interval, Zone, instant_from_day_minutes, weekday_in_zone}
use playslot.Domain.Slots.{SlotState, generate_slots}
use playslot.Store.Tables.{Store, Club, Resource, ReservationSource}
use playslot.Store.Action.{Action, Thrown, after}
use playslot.Store.Rows.{conflicts}
use playslot.Store.Rows.Exclusive.{active_row}
use playslot.Store.Rows.Inv.{Inv}
use playslot.Payments.{Provider}
use playslot.Booking.Slot.{Env, is_active_club, load_price_rules}
use playslot.Booking.Transaction.{BookingArgs, period_of, finish, held}
use playslot.Booking.Transaction.Outcome.{IsDistinct, booked, run_booking_transaction_lem}
use playslot.Booking.Create.{CreateReservationInput, Actor, prepare_reservation, create_reservation}
use playslot.Booking.Create.Stored.{create_reservation-stored}
use playslot.Availability.{
  AvailabilityQuery, AvailabilitySlot, AvailabilityResponse, load_coach_availability,
}
use playslot.Availability.Day.{
  Day, slots_input, slot_dto, court_slots, get_availability, by_name, is_court,
}
use playslot.Memberships.{discount_percent}
use playslot.Availability.Bookable.{IsCounted, generated-MeetsNone}

-- A step that is followed by another returned, if the two together did.
after-ok :
    {A B : Type 0} (f : A → Action B) (x : Result Thrown A × Store) (b : B) (t : Store)
    → after f x ≡ (ok b, t)
    → (a : A) × (s : Store) × (x ≡ (ok a, s)) × (f a s ≡ (ok b, t))
after-ok f (ok a, s) b t h = (a, s, refl, h)
after-ok f (err e, s) b t h = absurd (cc)

All-append : {A : Type 0} (P : A → Type 0) (xs ys : List A) → All P xs → All P ys → All P (xs ++ ys)
All-append P [] ys h k = k
All-append P (x ∷ xs) ys (p, h) k = (p, All-append P xs ys h k)

All-map :
    {A B : Type 0} (P : B → Type 0) (f : A → B) (xs : List A)
    → All (λ x. P (f x)) xs
    → All P (map f xs)
All-map P f [] h = tt
All-map P f (x ∷ xs) (p, h) = (p, All-map P f xs h)

abbrev time_shown : AvailabilitySlot → Interval
time_shown a = record { start = a.start; end = a.end }

-- A slot that is shown as FREE, within the day, meets no conflict.
abbrev ShownClear : ℕ → Instant → Interval → Store → AvailabilitySlot → Type 0
ShownClear club_id now period s a =
    All (IsCounted club_id now a.resource_id s.reservations) s.rows
    → a.state ≡ SlotState.free
    → period.start ≤ a.start
    → a.end ≤ period.end
    → conflicts (a.resource_id ∷ []) (time_shown a) s.rows ≡ false

module _ (env : Env) (day : Day) (s : Store) (v : Inv s)
    (today : weekday_in_zone day.club.zone day.date ≡ ok day.weekday) where
  court_slots-ShownClear :
      (courts : List Resource) (dtos : List AvailabilitySlot) (t : Store)
      → court_slots env day courts s ≡ (ok dtos, t)
      → All (ShownClear day.club.id day.now day.period s) dtos
  unfolding court_slots slot_dto
  court_slots-ShownClear [] dtos t h =
      let none_there : [] ≡ dtos = ground (arith, h) in rw (sym none_there) tt
  court_slots-ShownClear (court ∷ courts) dtos t h =
      elim (Result-cases (generate_slots (slots_input day court s))) [
        | inl (slots, e) ↦
            let (rest, u, k, l) = after-ok _ (court_slots env day courts s) dtos t (rw e at h) in
            let is : map (slot_dto env day court) slots ++ rest ≡ dtos = ground (arith, l) in
            rw (sym is) (
              All-append _ _ rest
                (All-map _ (slot_dto env day court) slots
                  (generated-MeetsNone day court s slots v today e))
                (court_slots-ShownClear courts rest u k))
        | inr (x, e) ↦ let thrown = rw e at h in absurd (cc)
      ]

found-id :
    (id : ℕ) (clubs : List Club) (club : Club)
    → find (is_active_club id) clubs ≡ some club
    → club.id ≡ id
unfolding find
found-id id [] club e = absurd (cc)
found-id id (c ∷ clubs) club e = elim (Bool-cases (is_active_club id c)) [
  | inl yes_it ↦
      let is : c ≡ club = ground (arith, rw yes_it at e) in
      subst (λ (x : Club). x.id ≡ id) is (ground (arith, yes_it))
  | inr no_it ↦ found-id id clubs club (rw no_it at e)
]

slots_of : Result Thrown AvailabilityResponse × Store → List AvailabilitySlot
slots_of (ok x, s) = x.slots
slots_of (err e, s) = []

zone_of : Zone → Result Thrown AvailabilityResponse × Store → Zone
zone_of z (ok x, s) = x.timezone
zone_of z (err e, s) = z

-- What `getAvailability` answers, from the club, the day's beginning and end, and its weekday.
answer-ShownClear :
    (env : Env) (now : Instant) (query : AvailabilityQuery) (user_id : Option ℕ)
    (resp : AvailabilityResponse) (from until : Instant) (s t : Store)
    → Inv s
    → get_availability env now query user_id s ≡ (ok resp, t)
    → instant_from_day_minutes resp.timezone query.date 0 ≡ ok from
    → instant_from_day_minutes resp.timezone query.date 1440 ≡ ok until
    → All (ShownClear query.club_id now (record { start = from; end = until }) s) resp.slots
unfolding get_availability slots_of zone_of
answer-ShownClear env now query user_id resp from until s t v h first last =
    elim (Option-cases (find (is_active_club query.club_id) s.clubs)) [
      | inl missing ↦ let thrown = rw missing at h in absurd (cc)
      | inr (club, found) ↦ elim (Result-cases (instant_from_day_minutes club.zone query.date 0)) [
        | inr (x, e) ↦ let thrown = rw (found, e) at h in absurd (cc)
        | inl (a, e) ↦ elim (Result-cases (instant_from_day_minutes club.zone query.date 1440)) [
          | inr (x, f) ↦ let thrown = rw (found, e, f) at h in absurd (cc)
          | inl (b, f) ↦ elim (Result-cases (weekday_in_zone club.zone query.date)) [
            | inr (x, g) ↦ let thrown = rw (found, e, f, g) at h in absurd (cc)
            | inl (d, g) ↦
                let day : Day = record {
                  club = club;
                  date = query.date;
                  weekday = d;
                  period = record { start = a; end = b };
                  now = now;
                  user_id = user_id;
                  duration = query.duration;
                  price_rules = load_price_rules query.club_id s;
                  discount = discount_percent query.club_id user_id now s;
                  coaches = load_coach_availability query.club_id (record { start = a; end = b }) s;
                } in
                let courts = sort (by_name env) (filter (is_court query) s.resources) in
                let (dtos, u, k, l) =
                  after-ok _ (court_slots env day courts s) resp t (rw (found, e, f, g) at h) in
                let zone : club.zone ≡ resp.timezone = ap (zone_of club.zone) l in
                let slots : dtos ≡ resp.slots = ap slots_of l in
                let clear = court_slots-ShownClear env day s v g courts dtos u k in
                let e' = subst (λ z. instant_from_day_minutes z query.date 0 ≡ ok a) zone e in
                let f' = subst (λ z. instant_from_day_minutes z query.date 1440 ≡ ok b) zone f in
                let begins : a ≡ from = ground (arith, e', first) in
                let ends : b ≡ until = ground (arith, f', last) in
                let id = found-id query.club_id s.clubs club found in
                let Clear : ℕ → Instant → Instant → AvailabilitySlot → Type 0 =
                  λ c x y. ShownClear c now (record { start = x; end = y }) s in
                subst (All (Clear query.club_id from until)) slots (
                  subst (λ c. All (Clear c from until) dtos) id
                    (subst (λ x. All (Clear club.id x until) dtos) begins
                      (subst (λ y. All (Clear club.id a y) dtos) ends clear)))
          ]
        ]
      ]
    ]

-- In a store with the invariant, take a slot that `getAvailability` answers as FREE, which lies between
-- the midnights of its day, on a court whose active rows are all of reservations of the club that are
-- neither COMPLETED nor holds that have run out. A request of that court for that time, whose slot and
-- price `createReservation` accepts (it refuses what lies beyond the booking horizon, is shorter than
-- the court's minimum or off the club's grid), is not refused by the transaction: after the call the
-- reservation and its row are stored, whatever the checkout does.
pub free-books :
    (env : Env) (provider : Provider) (now later : Instant) (query : AvailabilityQuery)
    (user_id : Option ℕ) (resp : AvailabilityResponse) (from until : Instant) (a : AvailabilitySlot)
    (input : CreateReservationInput) (actor : Actor) (source : ReservationSource)
    (args : BookingArgs) (s t : Store)
    → Inv s
    → get_availability env now query user_id s ≡ (ok resp, t)
    → instant_from_day_minutes resp.timezone query.date 0 ≡ ok from
    → instant_from_day_minutes resp.timezone query.date 1440 ≡ ok until
    → Mem a resp.slots
    → All (IsCounted query.club_id now a.resource_id s.reservations) s.rows
    → a.state ≡ SlotState.free
    → from ≤ a.start
    → a.end ≤ until
    → prepare_reservation env later input actor source s ≡ (ok args, s)
    → args.slot.resource_ids ≡ a.resource_id ∷ []
    → period_of args.slot ≡ time_shown a
    → let u = (create_reservation env provider later input actor source s).1 in
      (u.reservations ≡ finish args (held args s.next_id) ∷ s.reservations)
      × (u.rows ≡ active_row s.next_id a.resource_id (time_shown a) ∷ s.rows)
free-books env provider now later query user_id resp from until a input actor source args s t v h
      first last m counted is_free begins ends prepared one time =
    let clear =
      All-mem (ShownClear query.club_id now (record { start = from; end = until }) s) (λ x. hlevel)
        resp.slots (answer-ShownClear env now query user_id resp from until s t v h first last) m
        counted is_free begins ends in
    let none_met : conflicts args.slot.resource_ids (period_of args.slot) s.rows ≡ false =
      rw (one, time) clear in
    let books = run_booking_transaction_lem args s v (subst IsDistinct (sym one) (refl, tt)) in
    let (there, rows) =
      create_reservation-stored env provider later input actor source args
        (finish args (held args s.next_id)) s (booked args s) prepared (rw none_met at books) in
    (there, rows ∙ rw (one, time) refl)
