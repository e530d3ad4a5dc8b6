-- ===== src/Store/Rows/Inv.antt =====
-- The invariant of reservations and resource rows, and the statements that keep it.

use playslot.Prelude.{
  ℕ, ◌<◌, ◌≡◌, refl, sym, ◌∙◌, ap, subst, ◌≢◌, true, false, some, List, [], ◌∷◌, map, find, All,
  Bool-cases, Option-cases, inl, inr, arith, ◌==◌,
}
use playslot.Prelude.Result.{ok}
use playslot.Domain.Status.{ReservationStatus, status_eq, occupies_inventory}
use playslot.Store.Tables.{Store, Reservation, ResourceRow}
use playslot.Store.Rows.{exclusive, sync_row, update_reservation, find_reservation, set_status}
use playslot.Store.Rows.Exclusive.{release-exclusive, sync-same}

-- The row belongs to a stored reservation, covers its time, and is active exactly while the
-- reservation's status occupies inventory.
abbrev pub IsSynced : List Reservation → ResourceRow → Type 0
IsSynced rs row =
    (r : Reservation) × (find_reservation row.reservation_id rs ≡ some r)
    × (row.is_active ≡ occupies_inventory r.status)
    × (row.period ≡ record { start = r.starts_at; end = r.ends_at })

-- No two active rows of a resource overlap, every row is in step with its reservation, and the ids
-- in use are below the next one.
pub record Inv (s : Store) : Type 0 where
  pub no_overlap : exclusive s.rows ≡ true
  pub synced : All (IsSynced s.reservations) s.rows
  pub fresh : All (λ r. r.id < s.next_id) s.reservations

-- What an update may not touch.
pub record KeepsPlace (f : Reservation → Reservation) : Type 0 where
  pub id : (r : Reservation) → (f r).id ≡ r.id
  pub starts_at : (r : Reservation) → (f r).starts_at ≡ r.starts_at
  pub ends_at : (r : Reservation) → (f r).ends_at ≡ r.ends_at

pub status_eq→eq : (a b : ReservationStatus) → status_eq a b ≡ true → a ≡ b
status_eq→eq a b h = ground arith

module _ (id : ℕ) (f : Reservation → Reservation) (k : (r : Reservation) → (f r).id ≡ r.id) where
  pub find-update_self :
      (rs : List Reservation) (r : Reservation)
      → find_reservation id rs ≡ some r
      → find_reservation id (update_reservation id f rs) ≡ some (f r)
  unfolding find_reservation update_reservation find
  find-update_self [] r h = cc
  find-update_self (x ∷ rs) r h = ground (arith, k x, find-update_self rs r)

  pub find-update_ne :
      (rs : List Reservation) (j : ℕ)
      → j ≢ id
      → find_reservation j (update_reservation id f rs) ≡ find_reservation j rs
  unfolding find_reservation update_reservation find
  find-update_ne [] j h = refl
  find-update_ne (x ∷ rs) j h = ground (arith, k x, find-update_ne rs j h)

  pub update-fresh :
      (n : ℕ) (rs : List Reservation)
      → All (λ r. r.id < n) rs
      → All (λ r. r.id < n) (update_reservation id f rs)
  unfolding update_reservation
  update-fresh n [] h = tt
  update-fresh n (x ∷ rs) h = ground (arith, k x, update-fresh n rs h.1)

module _ (id : ℕ) (f : Reservation → Reservation) (k : KeepsPlace f) where
  -- Rows follow an update of their reservation.
  sync-IsSynced :
      (rs : List Reservation) (old : Reservation) (rows : List ResourceRow)
      → find_reservation id rs ≡ some old
      → All (IsSynced rs) rows
      → All (IsSynced (update_reservation id f rs)) (map (sync_row id (f old).status) rows)
  unfolding sync_row
  sync-IsSynced rs old [] e h = tt
  sync-IsSynced rs old (row ∷ rows) e ((r, e', a, p), h) = (
    elim (Bool-cases (row.reservation_id == id)) [
      | inl same ↦
          let at : row.reservation_id ≡ id = ground arith in
          let found : some r ≡ some old = sym e' ∙ (ap (λ i. find_reservation i rs) at ∙ e) in
          let r_old : r ≡ old = ground arith in
          rw same (
            f old,
            ap (λ i. find_reservation i (update_reservation id f rs)) at
                ∙ find-update_self id f k.id rs old e,
            refl,
            ground (arith, k.starts_at old, k.ends_at old),
          )
      | inr other ↦
          rw other (r, find-update_ne id f k.id rs row.reservation_id (ground arith) ∙ e', a, p)
    ],
    sync-IsSynced rs old rows e h,
  )

active_of :
    (rs : List Reservation) (id : ℕ) (old : Reservation) (rows : List ResourceRow)
    → find_reservation id rs ≡ some old
    → All (IsSynced rs) rows
    → All (λ row. row.reservation_id ≡ id → row.is_active ≡ occupies_inventory old.status) rows
active_of rs id old [] e h = tt
active_of rs id old (row ∷ rows) e ((r, e', a, p), h) = (
  λ at.
      let found : some r ≡ some old = sym e' ∙ (ap (λ i. find_reservation i rs) at ∙ e) in
      let r_old : r ≡ old = ground arith in
      a ∙ ap (λ (x : Reservation). occupies_inventory x.status) r_old,
  active_of rs id old rows e h,
)

module _ (id : ℕ) (f : Reservation → Reservation) (k : KeepsPlace f) where
  unchanged-IsSynced :
      (rs : List Reservation) (old : Reservation) (rows : List ResourceRow)
      → find_reservation id rs ≡ some old
      → old.status ≡ (f old).status
      → All (IsSynced rs) rows
      → All (IsSynced (update_reservation id f rs)) rows
  unchanged-IsSynced rs old rows e same h =
      let idle : map (sync_row id (f old).status) rows ≡ rows = sync-same id (f old).status rows (
        subst
          (λ st. All (λ row. row.reservation_id ≡ id → row.is_active ≡ occupies_inventory st) rows)
          same (active_of rs id old rows e h)) in
      subst (All (IsSynced (update_reservation id f rs))) idle
        (sync-IsSynced id f k rs old rows e h)

  -- An update of a reservation that keeps its id and its times keeps the invariant, whatever it
  -- does to the status.
  pub set_status-Inv : (s : Store) → Inv s → Inv (set_status id f s).1
  unfolding set_status
  set_status-Inv s v = elim (Option-cases (find_reservation id s.reservations)) [
    | inl missing ↦ rw (missing, set_status) v
    | inr (old, e) ↦
        rw (e, set_status)
          (elim (Bool-cases (status_eq old.status (f old).status)) [
            | inl same ↦ rw same (record {
              no_overlap = v.no_overlap;
              synced =
                  unchanged-IsSynced s.reservations old s.rows e
                    (status_eq→eq old.status (f old).status same) v.synced;
              fresh = update-fresh id f k.id s.next_id s.reservations v.fresh;
            })
            | inr changed ↦
                rw changed
                  (elim (Bool-cases (exclusive (map (sync_row id (f old).status) s.rows))) [
                    | inl fine ↦ rw fine (record {
                      no_overlap = fine;
                      synced = sync-IsSynced id f k s.reservations old s.rows e v.synced;
                      fresh = update-fresh id f k.id s.next_id s.reservations v.fresh;
                    })
                    | inr refused ↦ rw refused v
                  ])
          ])
  ]

  -- To a status that does not occupy inventory the update never fails.
  pub set_status-releases :
      (s : Store) (old : Reservation)
      → Inv s
      → find_reservation id s.reservations ≡ some old
      → occupies_inventory old.status ≡ true
      → occupies_inventory (f old).status ≡ false
      → set_status id f s ≡ (
        ok tt,
        record s {
          reservations = update_reservation id f s.reservations;
          rows = map (sync_row id (f old).status) s.rows;
        },
      )
  unfolding set_status
  set_status-releases s old v e on off =
      let fine = release-exclusive id (f old).status s.rows off v.no_overlap in
      rw (e, set_status)
        (elim (Bool-cases (status_eq old.status (f old).status)) [
          | inl same ↦
              let eq = ap occupies_inventory (status_eq→eq old.status (f old).status same) in
              absurd (cc)
          | inr changed ↦ rw (changed, fine) refl
        ])

  -- Between two statuses that occupy inventory alike the update never fails, and no row changes.
  pub set_status-keeps :
      (s : Store) (old : Reservation)
      → Inv s
      → find_reservation id s.reservations ≡ some old
      → occupies_inventory old.status ≡ occupies_inventory (f old).status
      → set_status id f s
        ≡ (ok tt, record s { reservations = update_reservation id f s.reservations })
  unfolding set_status
  set_status-keeps s old v e alike =
      let idle = sync-same id (f old).status s.rows (
        subst (λ b. All (λ row. row.reservation_id ≡ id → row.is_active ≡ b) s.rows) alike
          (active_of s.reservations id old s.rows e v.synced)) in
      rw (e, set_status)
        (elim (Bool-cases (status_eq old.status (f old).status)) [
          | inl same ↦ rw same refl
          | inr changed ↦ rw (changed, idle, v.no_overlap) refl
        ])
