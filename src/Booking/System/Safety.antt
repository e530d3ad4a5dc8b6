-- ===== src/Booking/System/Safety.antt =====
-- No call sequence double-books a resource.
use playslot.Prelude.{◌≡◌, refl, subst, Bool, true, false, not, List, [], ◌∷◌, ◌++◌, all, arith}
use playslot.Domain.Time.{Instant, intervals_overlap}
use playslot.Domain.Time.Overlap.{Within}
use playslot.Payments.{Provider}
use playslot.Store.Tables.{Store, ResourceRow}
use playslot.Store.Rows.{ranges_overlap, clash, exclusive}
use playslot.Store.Rows.Inv.{Inv}
use playslot.Booking.Slot.{Env}
use playslot.Booking.Lifecycle.Kept.{
  confirm-Keeps, mark_paid-Keeps, mark_no_show-Keeps, expire_hold-Keeps, release-Keeps,
  webhook-Keeps, cancel-Keeps,
}
use playslot.Booking.Create.Kept.{
  create_reservation-Inv, create_manual-Keeps, create_block-Keeps, coach_blocking-Keeps,
}
use playslot.Booking.Reschedule.Kept.{reschedule-Inv}
use playslot.Booking.Stable.{Inv-Stable}
use playslot.Moderation.Kept.{suspension-Keeps, removal-Keeps}
use playslot.GroupSessions.Kept
use playslot.GroupSessions.Kept.{register-Keeps, unregister-Keeps}
use playslot.Booking.System.{
  Call, create, manual, block, coach_blocking, reschedule_call, confirm_call, mark_paid_call,
  mark_no_show_call, expire_hold_call, release, webhook, cancel_call, suspend_call, remove_call,
  host, call_off, register_call, unregister_call, perform, Reachable, start, step,
}

clash_of :
    (a b : ResourceRow) (t : Instant)
    → a.is_active ≡ true
    → b.is_active ≡ true
    → a.resource_id ≡ b.resource_id
    → Within t a.period
    → Within t b.period
    → clash a b ≡ true
unfolding clash ranges_overlap intervals_overlap
clash_of a b t on on' same (h, h') (k, k') = ground arith

all-later :
    (p : ResourceRow → Bool) (ys zs : List ResourceRow) (b : ResourceRow)
    → all p (ys ++ b ∷ zs) ≡ true
    → p b ≡ true
unfolding all
all-later p [] zs b h = ground (arith, h)
all-later p (y ∷ ys) zs b h = ground (arith, all-later p ys zs b)

exclusive-apart :
    (xs ys zs : List ResourceRow) (a b : ResourceRow)
    → exclusive (xs ++ a ∷ (ys ++ b ∷ zs)) ≡ true
    → clash a b ≡ false
unfolding exclusive
exclusive-apart [] ys zs a b h = ground (arith, all-later (λ x. not (clash a x)) ys zs b)
exclusive-apart (x ∷ xs) ys zs a b h = ground (arith, exclusive-apart xs ys zs a b)

module _ (env : Env) (provider : Provider) where
  -- Every call keeps the invariant, whatever its arguments, also when it throws.
  pub perform-Inv :
      (now : Instant) (call : Call) (s : Store) → Inv s → Inv (perform env provider now call s)
  unfolding perform
  perform-Inv now (create input actor source) s v =
      (create_reservation-Inv env provider now input actor source).keeps s v
  perform-Inv now (manual club_id input staff) s v =
      (create_manual-Keeps Inv-Stable env now club_id input staff).keeps s v
  perform-Inv now (block club_id input staff) s v =
      (create_block-Keeps Inv-Stable env now club_id input staff).keeps s v
  perform-Inv now (coach_blocking args) s v =
      (coach_blocking-Keeps Inv-Stable env now args).keeps s v
  perform-Inv now (reschedule_call club_id id input staff) s v =
      (reschedule-Inv env now club_id id input staff).keeps s v
  perform-Inv now (confirm_call club_id id staff) s v =
      (confirm-Keeps Inv-Stable env club_id id staff).keeps s v
  perform-Inv now (mark_paid_call club_id id staff) s v =
      (mark_paid-Keeps Inv-Stable now club_id id staff).keeps s v
  perform-Inv now (mark_no_show_call club_id id staff) s v =
      (mark_no_show-Keeps Inv-Stable now club_id id staff).keeps s v
  perform-Inv now (expire_hold_call id) s v = (expire_hold-Keeps Inv-Stable now id).keeps s v
  perform-Inv now (release id reason) s v = (release-Keeps Inv-Stable id reason).keeps s v
  perform-Inv now (webhook body) s v = (webhook-Keeps Inv-Stable env now body).keeps s v
  perform-Inv now (cancel_call id user_id roles reason) s v =
      (cancel-Keeps Inv-Stable now id user_id roles reason).keeps s v
  perform-Inv now (suspend_call user_id input actor) s v =
      (suspension-Keeps user_id now input actor).keeps s v
  perform-Inv now (remove_call user_id actor) s v = (removal-Keeps user_id now actor).keeps s v
  perform-Inv now (host coach_user_id input) s v =
      (Kept.create-Keeps env now coach_user_id input).keeps s v
  perform-Inv now (call_off id coach_user_id) s v =
      (Kept.cancel-Keeps now id coach_user_id).keeps s v
  perform-Inv now (register_call id user_id) s v = (register-Keeps now id user_id).keeps s v
  perform-Inv now (unregister_call id user_id) s v = (unregister-Keeps id user_id).keeps s v

  Reachable-Inv : (s : Store) → Reachable env provider s → Inv s
  unfolding exclusive
  Reachable-Inv s (start _ f) = record {
    no_overlap = rw f.no_rows refl;
    synced = rw f.no_rows tt;
    fresh = rw f.no_reservations tt;
  }
  Reachable-Inv s (step {s = t} now call h) = perform-Inv now call t (Reachable-Inv t h)

  -- In a store that calls lead to from one without reservations and group sessions, two different rows of a resource
  -- that are both active never cover the same instant.
  pub no_double_booking :
      (s : Store)
      → Reachable env provider s
      → (xs ys zs : List ResourceRow) (a b : ResourceRow) → s.rows ≡ xs ++ a ∷ (ys ++ b ∷ zs)
      → a.is_active ≡ true
      → b.is_active ≡ true
      → a.resource_id ≡ b.resource_id
      → (t : Instant) → ¬ (Within t a.period × Within t b.period)
  no_double_booking s h xs ys zs a b parts on on' same t (in_a, in_b) =
      let apart =
        exclusive-apart xs ys zs a b
          (subst (λ rows. exclusive rows ≡ true) parts (Reachable-Inv s h).no_overlap) in
      let together = clash_of a b t on on' same in_a in_b in cc
