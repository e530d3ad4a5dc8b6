-- ===== src/Store/Action.antt =====
-- A service call: it reads and writes the store, and may throw. What was written before a throw
-- stays, except in a transaction, which is undone.
use playslot.Prelude.{◌≡◌, ap, ℕ, Bool, true, false, String, Option, none, some, ◌∷◌, ◌++◌, []}
use playslot.Prelude.Result.{Result, ok, err}
use playslot.Domain.Time.{RangeError}
use playslot.Store.Tables.{Store, Effect}

-- packages/contracts/src/errors.ts
pub data ErrorCode : Type 0 where
  validation_failed unauthenticated forbidden not_found availability_changed price_mismatch
        hold_expired payment_required rate_limited policy_violation internal :
      ErrorCode

-- An `AppException` with the `reason` of its details; PostgreSQL's exclusion violation; other errors.
pub data Thrown : Type 0 where
  app_exception : ErrorCode → String → Thrown
  exclusion_violation : Thrown
  unique_violation : Thrown
  foreign_key_violation : Thrown
  range_error : RangeError → Thrown
  refund_error : Thrown
  provider_error : Thrown
  type_error : Thrown

abbrev pub Action : Type 0 → Type 0
Action A = Store → Result Thrown A × Store

module _ {A : Type 0} where
  abbrev pub pure : A → Action A
  pure a s = (ok a, s)

  abbrev pub throw : Thrown → Action A
  throw e s = (err e, s)

  abbrev pub gets : (Store → A) → Action A
  gets f s = (ok (f s), s)

  -- The value of a lookup, or the exception where there is none.
  abbrev pub or_throw : Option A → Thrown → Action A
  or_throw none e = throw e
  or_throw (some a) e = pure a

abbrev pub after :
    {A B : Type 0} → (A → Action B) → Result Thrown A × Store → Result Thrown B × Store
after f (ok a, s) = f a s
after f (err e, s) = (err e, s)

infixl 5 ◌>>=◌ ◌>>◌
abbrev pub ◌>>=◌ : {A B : Type 0} → Action A → (A → Action B) → Action B
◌>>=◌ m f s = after f (m s)

abbrev pub ◌>>◌ : {A B : Type 0} → Action A → Action B → Action B
m >> k = m >>= λ _. k

abbrev pub throw_if : Bool → Thrown → Action (Unit {0})
throw_if true e s = (err e, s)
throw_if false e s = (ok tt, s)

-- `if (!r) return;` before the rest.
unfoldable pub for_some : {A : Type 0} → Option A → (A → Action (Unit {0})) → Action (Unit {0})
for_some none f = pure tt
for_some (some a) f = f a

abbrev pub modify : (Store → Store) → Action (Unit {0})
modify f s = (ok tt, f s)

-- A library call that may throw.
abbrev pub lift : {A : Type 0} → Result RangeError A → Action A
lift (ok a) s = (ok a, s)
lift (err e) s = (err (range_error e), s)

-- `prisma.$transaction`: all or nothing.
abbrev pub commit : {A : Type 0} → Store → Result Thrown A × Store → Result Thrown A × Store
commit old (ok a, s) = (ok a, s)
commit old (err e, s) = (err e, old)

abbrev pub transaction : {A : Type 0} → Action A → Action A
transaction m s = commit s (m s)

-- `catch (e) { if (isExclusionViolation(e)) throw instead; throw e; }`
abbrev pub rethrow_exclusion : Thrown → Thrown → Thrown
rethrow_exclusion instead exclusion_violation = instead
rethrow_exclusion instead e = e

abbrev pub rethrown : {A : Type 0} → Thrown → Result Thrown A × Store → Result Thrown A × Store
rethrown instead (ok a, s) = (ok a, s)
rethrown instead (err e, s) = (err (rethrow_exclusion instead e), s)

abbrev pub on_exclusion : {A : Type 0} → Action A → Thrown → Action A
on_exclusion m instead s = rethrown instead (m s)

-- `catch (e) { if (e.message.includes('Unique constraint')) return instead; throw e; }`
abbrev recover_unique : {A : Type 0} → A → Thrown → Result Thrown A
recover_unique instead unique_violation = ok instead
recover_unique instead e = err e

abbrev pub recovered : {A : Type 0} → A → Result Thrown A × Store → Result Thrown A × Store
recovered instead (ok a, s) = (ok a, s)
recovered instead (err e, s) = (recover_unique instead e, s)

abbrev pub on_unique : {A : Type 0} → Action A → A → Action A
on_unique m instead s = recovered instead (m s)

abbrev pub emit : Effect → Action (Unit {0})
emit e s = (ok tt, record s { effects = s.effects ++ e ∷ [] })

-- `prisma.auditLog.create`
abbrev pub audit : ℕ → String → ℕ → Action (Unit {0})
audit actor action object s = (
  ok tt,
  record s {
    audit_log = record { actor_user_id = actor; action = action; object_id = object } ∷ s.audit_log;
  },
)

-- A step that returns is passed by, and one that throws ends the call.
pub >>=-ok :
    {A B : Type 0} (m : Action A) (f : A → Action B) (s s' : Store) (a : A)
    → m s ≡ (ok a, s')
    → (m >>= f) s ≡ f a s'
>>=-ok m f s s' a e = ap (after f) e

pub >>=-err :
    {A B : Type 0} (m : Action A) (f : A → Action B) (s s' : Store) (x : Thrown)
    → m s ≡ (err x, s')
    → (m >>= f) s ≡ (err x, s')
>>=-err m f s s' x e = ap (after f) e

-- A transaction with its handler, by what its body does.
pub settle-ok :
    {A : Type 0} (m : Action A) (instead : Thrown) (s s' : Store) (a : A)
    → m s ≡ (ok a, s')
    → on_exclusion (transaction m) instead s ≡ (ok a, s')
settle-ok m instead s s' a e = ap (λ r. rethrown instead (commit s r)) e

pub settle-err :
    {A : Type 0} (m : Action A) (instead x : Thrown) (s s' : Store)
    → m s ≡ (err x, s')
    → on_exclusion (transaction m) instead s ≡ (err (rethrow_exclusion instead x), s)
settle-err m instead x s s' e = ap (λ r. rethrown instead (commit s r)) e
