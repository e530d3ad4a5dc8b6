-- ===== src/Domain/Slots/Generated.antt =====
-- What `generateSlots` offers: exactly the minutes of the day's windows that the clock shows.
use mathlib.Core.List.{mem-cons, not-mem-nil}
use mathlib.Core.Logic.Or
use playslot.Prelude.{
  ℕ, suc, ◌+◌, ◌*◌, ◌≤◌, ◌≡◌, sym, subst, true, false, List, [], ◌∷◌, contains, All, All-imp, Mem,
  arith,
}
use playslot.Prelude.Result.{Result, ok, ◌>>=◌, >>=-eq-ok}
use playslot.Domain.Time.{RangeError}
use playslot.Domain.Slots.{
  GenerateSlotsInput, AvailabilityRuleLike, Loop, half_hour_refused, visit_all, visit_windows, step,
  start_minutes,
}
use playslot.Domain.Slots.Minutes.{OnGrid, start_minutes-OnGrid, start_minutes_complete}
use playslot.Domain.Slots.Rounds.{Inv, visit_all-Inv, visit_all-seen, visit_all-visits}

module _ (input : GenerateSlotsInput) where
  -- The minute lies in the window, on its grid, and the duration fits.
  abbrev pub Fits : AvailabilityRuleLike → ℕ → Type 0
  Fits w = OnGrid (step input.resource) input.duration_min w.end_min w.start_min

  -- The minute fits one of the windows.
  abbrev pub InWindow : List AvailabilityRuleLike → ℕ → Type 0
  InWindow ws m = (w : AvailabilityRuleLike) × Mem w ws × Fits w m

  abbrev minutes_of : AvailabilityRuleLike → Result RangeError (List ℕ)
  minutes_of w =
      start_minutes (suc w.end_min) w.start_min (step input.resource) input.duration_min w.end_min

  -- The loops over one window and over those that come after it.
  first_window :
      (w : AvailabilityRuleLike) (ws : List AvailabilityRuleLike) (loop next : Loop)
      → visit_windows input (w ∷ ws) loop ≡ ok next
      → (ms : List ℕ) × (mid : Loop) × (minutes_of w ≡ ok ms)
        × (visit_all input ms loop ≡ ok mid)
        × (visit_windows input ws mid ≡ ok next)
  unfolding visit_windows
  first_window w ws loop next h =
      let (mid, e, k) =
        >>=-eq-ok (minutes_of w >>= (λ ms. visit_all input ms loop)) (visit_windows input ws)
          {b = next} h in
      let (ms, l, n) = >>=-eq-ok (minutes_of w) (λ ms. visit_all input ms loop) {b = mid} e in
      (ms, mid, l, n, k)

  pub visit_windows-Inv :
      (all ws : List AvailabilityRuleLike) (loop next : Loop)
      → All (λ w. Mem w all) ws
      → Inv input (InWindow all) loop
      → visit_windows input ws loop ≡ ok next
      → Inv input (InWindow all) next
  unfolding visit_windows
  visit_windows-Inv all [] loop next a v h =
      let same : loop ≡ next = ground arith in subst (Inv input (InWindow all)) same v
  visit_windows-Inv all (w ∷ ws) loop next a v h =
      let (ms, mid, l, e, k) = first_window w ws loop next h in
      visit_windows-Inv all ws mid next a.1
        (visit_all-Inv input (InWindow all) ms loop mid
          (All-imp _ _ ms (λ m g. (w, a.0, g))
            (start_minutes-OnGrid (step input.resource) input.duration_min w.end_min (suc w.end_min)
              w.start_min ms l))
          v e)
        k

  visit_windows-seen :
      (ws : List AvailabilityRuleLike) (loop next : Loop) (m : ℕ)
      → visit_windows input ws loop ≡ ok next
      → contains loop.seen m ≡ true
      → contains next.seen m ≡ true
  unfolding visit_windows
  visit_windows-seen [] loop next m h c =
      let same : loop ≡ next = ground arith in subst (λ l. contains l.seen m ≡ true) same c
  visit_windows-seen (w ∷ ws) loop next m h c =
      let (ms, mid, l, e, k) = first_window w ws loop next h in
      visit_windows-seen ws mid next m k (visit_all-seen input ms loop mid m e c)

  pub visit_windows-visits :
      (ws : List AvailabilityRuleLike) (loop next : Loop) (w : AvailabilityRuleLike) (m : ℕ)
      → Mem w ws
      → Fits w m
      → half_hour_refused input.resource m ≡ false
      → visit_windows input ws loop ≡ ok next
      → contains next.seen m ≡ true
  unfolding visit_windows
  visit_windows-visits [] loop next w m l f r h = absurd (not-mem-nil l)
  visit_windows-visits (x ∷ ws) loop next w m l (i, at, fit) r h =
      let (ms, mid, made, e, k) = first_window x ws loop next h in
      Or.elim (hlevel) (mem-cons.0 l)
        (λ same.
          visit_windows-seen ws mid next m k
            (visit_all-visits input ms loop mid m e (reached x i ms made same at fit) r))
        (λ rest. visit_windows-visits ws mid next w m rest (i, at, fit) r k)
    where
      reached :
          (x : AvailabilityRuleLike) (i : ℕ) (ms : List ℕ)
          → minutes_of x ≡ ok ms
          → w ≡ x
          → m ≡ w.start_min + i * step input.resource
          → m + input.duration_min ≤ w.end_min
          → contains ms m ≡ true
      reached x i ms made same at fit =
          let at' : m ≡ x.start_min + i * step input.resource =
            subst (λ y. m ≡ y.start_min + i * step input.resource) same at in
          let fit' : m + input.duration_min ≤ x.end_min =
            subst (λ y. m + input.duration_min ≤ y.end_min) same fit in
          subst (λ n. contains ms n ≡ true) (sym at')
            (start_minutes_complete (step input.resource) input.duration_min x.end_min
              (suc x.end_min) x.start_min i ms made (omega arith))
