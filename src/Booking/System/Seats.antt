-- ===== src/Booking/System/Seats.antt =====
-- No call sequence overbooks a group session.
use playslot.Prelude.{ℕ, ◌≤◌, ◌≡◌, refl, true, some, find}
use playslot.Domain.Time.{Instant}
use playslot.Payments.{Provider}
use playslot.Store.Tables.{Store, GroupSession}
use playslot.Store.Rows.Keeps.{Holds}
use playslot.Booking.Slot.{Env}
use playslot.Booking.Lifecycle.Kept.{
  confirm-Keeps, mark_paid-Keeps, mark_no_show-Keeps, expire_hold-Keeps, release-Keeps,
  webhook-Keeps, cancel-Keeps,
}
use playslot.Booking.Create.Kept.{
  create_reservation-Keeps, create_manual-Keeps, create_block-Keeps, coach_blocking-Keeps,
}
use playslot.Moderation.{drop_registrations}
use playslot.Moderation.Erased.{erase-Seated}
use playslot.Moderation.Kept.{suspend_keeps, remove_keeps}
use playslot.GroupSessions.{find_session, seats_taken}
use playslot.GroupSessions.Seats.{unique}
use playslot.GroupSessions.Seated.{Seated, Seated-filter, register-Seated, unregister-Seated}
use playslot.GroupSessions.Apart.{Seated-Stable, reschedule-Seated}
use playslot.GroupSessions.Kept.{create-Seated, cancel-Seated}
use playslot.Booking.System.{
  Call, create, manual, block, coach_blocking, reschedule_call, confirm_call, mark_paid_call,
  mark_no_show_call, expire_hold_call, release, webhook, cancel_call, suspend_call, remove_call,
  host, call_off, register_call, unregister_call, perform, Reachable, start, step,
}

drop-Seated : (user_id : ℕ) (now : Instant) → Holds Seated (drop_registrations user_id now)
unfolding drop_registrations
drop-Seated user_id now = record { keeps = λ s v. Seated-filter _ s v }

module _ (env : Env) (provider : Provider) where
  perform-Seated :
      (now : Instant) (call : Call) (s : Store)
      → Seated s
      → Seated (perform env provider now call s)
  unfolding perform
  perform-Seated now (create input actor source) s v =
      (create_reservation-Keeps Seated-Stable env provider now input actor source).keeps s v
  perform-Seated now (manual club_id input staff) s v =
      (create_manual-Keeps Seated-Stable env now club_id input staff).keeps s v
  perform-Seated now (block club_id input staff) s v =
      (create_block-Keeps Seated-Stable env now club_id input staff).keeps s v
  perform-Seated now (coach_blocking args) s v =
      (coach_blocking-Keeps Seated-Stable env now args).keeps s v
  perform-Seated now (reschedule_call club_id id input staff) s v =
      (reschedule-Seated env now club_id id input staff).keeps s v
  perform-Seated now (confirm_call club_id id staff) s v =
      (confirm-Keeps Seated-Stable env club_id id staff).keeps s v
  perform-Seated now (mark_paid_call club_id id staff) s v =
      (mark_paid-Keeps Seated-Stable now club_id id staff).keeps s v
  perform-Seated now (mark_no_show_call club_id id staff) s v =
      (mark_no_show-Keeps Seated-Stable now club_id id staff).keeps s v
  perform-Seated now (expire_hold_call id) s v = (expire_hold-Keeps Seated-Stable now id).keeps s v
  perform-Seated now (release id reason) s v = (release-Keeps Seated-Stable id reason).keeps s v
  perform-Seated now (webhook body) s v = (webhook-Keeps Seated-Stable env now body).keeps s v
  perform-Seated now (cancel_call id user_id roles reason) s v =
      (cancel-Keeps Seated-Stable now id user_id roles reason).keeps s v
  perform-Seated now (suspend_call user_id input actor) s v =
      (suspend_keeps Seated-Stable drop-Seated user_id now input actor).keeps s v
  perform-Seated now (remove_call user_id actor) s v =
      (remove_keeps Seated-Stable drop-Seated erase-Seated user_id now actor).keeps s v
  perform-Seated now (host coach_user_id input) s v =
      (create-Seated env now coach_user_id input).keeps s v
  perform-Seated now (call_off id coach_user_id) s v =
      (cancel-Seated now id coach_user_id).keeps s v
  perform-Seated now (register_call id user_id) s v = (register-Seated now id user_id).keeps s v
  perform-Seated now (unregister_call id user_id) s v = (unregister-Seated id user_id).keeps s v

  Reachable-Seated : (s : Store) → Reachable env provider s → Seated s
  unfolding unique seats_taken find
  Reachable-Seated s (start _ f) = record {
    fits = λ id g e. let none_there = rw f.no_sessions at e in absurd (cc);
    once = rw f.no_registrations refl;
    fresh = rw f.no_sessions tt;
    known = rw f.no_registrations tt;
  }
  Reachable-Seated s (step {s = t} now call h) = perform-Seated now call t (Reachable-Seated t h)

  -- In a store that calls lead to from one without reservations and group sessions, no group session
  -- has more registrations than its capacity, and no account is registered twice for one.
  pub no_overfull :
      (s : Store)
      → Reachable env provider s
      → ((id : ℕ) (g : GroupSession)
          → find_session id s ≡ some g
          → seats_taken id s.registrations ≤ g.capacity)
        × (unique s.registrations ≡ true)
  no_overfull s h = let v = Reachable-Seated s h in (v.fits, v.once)
