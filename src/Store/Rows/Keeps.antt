-- ===== src/Store/Rows/Keeps.antt =====
-- Actions that keep the invariant, and how they compose.

use playslot.Prelude.{
  if◌then◌else◌, ℕ, ◌≤◌, ◌≡◌, refl, Bool, true, false, String, Option, none, some, All-imp, arith,
}
use playslot.Prelude.Result.{Result, ok, err}
use playslot.Domain.Time.{RangeError}
use playslot.Store.Tables.{Store, Reservation, Effect}
use playslot.Store.Action.{
  Action, Thrown, after, commit, ◌>>=◌, pure, throw, gets, or_throw, throw_if, lift, transaction,
  on_exclusion, rethrown, for_some, emit, audit,
}
use playslot.Store.Rows.{set_status}
use playslot.Store.Rows.Inv.{Inv, KeepsPlace, set_status-Inv}

-- Whether it returns or throws, the action keeps what is said of the store.
pub record Holds {A : Type 0} (P : Store → Type 0) (m : Action A) : Type 0 where
  pub keeps : (s : Store) → P s → P (m s).1

-- It keeps the invariant.
abbrev pub Keeps : {A : Type 0} → Action A → Type 0
Keeps m = Holds Inv m

-- The invariant reads the reservations, the rows and the next id only.
pub Inv-of_same :
    (s s' : Store)
    → s'.rows ≡ s.rows
    → s'.reservations ≡ s.reservations
    → s.next_id ≤ s'.next_id
    → Inv s
    → Inv s'
Inv-of_same s s' same_rows same_reservations later v = record {
  no_overlap = rw same_rows v.no_overlap;
  synced = rw (same_rows, same_reservations) v.synced;
  fresh = rw same_reservations (All-imp _ _ s.reservations (λ r h. omega arith) v.fresh);
}

module _ {A B : Type 0} {P : Store → Type 0} where
  after-Inv :
      (f : A → Action B)
      → ((a : A) → Holds P (f a))
      → (r : Result Thrown A × Store) → P r.1
      → P (after f r).1
  after-Inv f k (ok a, s) v = (k a).keeps s v
  after-Inv f k (err e, s) v = v

  -- A step after which it holds, and what follows keeps it.
  pub >>=-Then :
      (m : Action A) (f : A → Action B) (s : Store)
      → P (m s).1
      → ((a : A) → Holds P (f a))
      → P ((m >>= f) s).1
  >>=-Then m f s v k = after-Inv f k (m s) v

  pub >>=-Keeps :
      (m : Action A) (f : A → Action B) → Holds P m → ((a : A) → Holds P (f a)) → Holds P (m >>= f)
  >>=-Keeps m f k l = record { keeps = λ s v. after-Inv f l (m s) (k.keeps s v) }

module _ {A B : Type 0} {Q : Store → Type 0} (P : Store → Type 0) where
  after-Leads :
      (f : A → Action B)
      → ((s : Store) → P s → Q s)
      → ((a : A) (s : Store) → P s → Q (f a s).1)
      → (r : Result Thrown A × Store) → P r.1
      → Q (after f r).1
  after-Leads f i k (ok a, s) v = k a s v
  after-Leads f i k (err e, s) v = i s v

  -- What is known before a step and kept by it is known in what follows.
  pub >>=-Leads :
      (m : Action A) (f : A → Action B)
      → ((s : Store) → P s → Q s)
      → Holds P m
      → ((a : A) (s : Store) → P s → Q (f a s).1)
      → (s : Store) → P s
      → Q ((m >>= f) s).1
  >>=-Leads m f i l k s v = after-Leads f i k (m s) (l.keeps s v)

module _ {A : Type 0} (P : Store → Type 0) where
  pub commit-Inv : (s : Store) (r : Result Thrown A × Store) → P s → P r.1 → P (commit s r).1
  commit-Inv s (ok a, t) v w = w
  commit-Inv s (err e, t) v w = v

  rethrown-Inv : (x : Thrown) (r : Result Thrown A × Store) → P r.1 → P (rethrown x r).1
  rethrown-Inv x (ok a, t) v = v
  rethrown-Inv x (err e, t) v = v

module _ {A : Type 0} {P : Store → Type 0} where
  pub pure-Keeps : (a : A) → Holds P (pure a)
  pure-Keeps a = record { keeps = λ s v. v }

  pub throw-Keeps : (e : Thrown) → Holds P (throw {A = A} e)
  throw-Keeps e = record { keeps = λ s v. v }

  pub gets-Keeps : (f : Store → A) → Holds P (gets f)
  gets-Keeps f = record { keeps = λ s v. v }

  pub or_throw-Keeps : (o : Option A) (e : Thrown) → Holds P (or_throw o e)
  or_throw-Keeps none e = record { keeps = λ s v. v }
  or_throw-Keeps (some a) e = record { keeps = λ s v. v }

  pub if-Keeps : (b : Bool) (m n : Action A) → Holds P m → Holds P n → Holds P (if b then m else n)
  if-Keeps true m n k l = k
  if-Keeps false m n k l = l

  pub transaction-Keeps : (m : Action A) → Holds P m → Holds P (transaction m)
  transaction-Keeps m k = record { keeps = λ s v. commit-Inv P s (m s) v (k.keeps s v) }

  pub on_exclusion-Keeps : (m : Action A) (x : Thrown) → Holds P m → Holds P (on_exclusion m x)
  on_exclusion-Keeps m x k = record { keeps = λ s v. rethrown-Inv P x (m s) (k.keeps s v) }

  pub lift-Keeps : (r : Result RangeError A) → Holds P (lift r)
  lift-Keeps (ok a) = record { keeps = λ s v. v }
  lift-Keeps (err e) = record { keeps = λ s v. v }

pub throw_if-Keeps : {P : Store → Type 0} (b : Bool) (e : Thrown) → Holds P (throw_if b e)
throw_if-Keeps true e = record { keeps = λ s v. v }
throw_if-Keeps false e = record { keeps = λ s v. v }

pub for_some-Keeps :
    {A : Type 0} {P : Store → Type 0} (o : Option A) (f : A → Action (Unit {0}))
    → ((a : A) → Holds P (f a))
    → Holds P (for_some o f)
unfolding for_some
for_some-Keeps none f k = record { keeps = λ s v. v }
for_some-Keeps (some a) f k = k a

pub emit-Keeps : (e : Effect) → Keeps (emit e)
emit-Keeps e = record { keeps = λ s v. Inv-of_same s (emit e s).1 refl refl (omega arith) v }

pub audit-Keeps : (actor : ℕ) (action : String) (object : ℕ) → Keeps (audit actor action object)
audit-Keeps actor action object = record {
  keeps = λ s v. Inv-of_same s (audit actor action object s).1 refl refl (omega arith) v;
}

pub set_status-Keeps :
    (id : ℕ) (f : Reservation → Reservation) → KeepsPlace f → Keeps (set_status id f)
set_status-Keeps id f k = record { keeps = λ s v. set_status-Inv id f k s v }

pub ruleset keeps_rules = (
  >>=-Keeps, pure-Keeps, throw-Keeps, gets-Keeps, or_throw-Keeps, throw_if-Keeps, for_some-Keeps,
  lift-Keeps, if-Keeps, emit-Keeps, audit-Keeps, transaction-Keeps,
)
