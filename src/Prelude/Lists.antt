-- ===== src/Prelude/Lists.antt =====
-- Lists over the native numbers and Boolean tests: the methods of JavaScript's arrays that the
-- program calls, and predicates by recursion.
use Prim.Native.Nat.{ℕ, suc, ◌+◌, ◌-◌}
use mathlib.Core.Path.{◌≡◌, refl, sym, subst, ap, ◌∙◌}
use mathlib.Core.Logic.{inl, inr}
use mathlib.Core.Logic.Or
use mathlib.Core.Bool.{Bool, true, false, ◌&&◌, ◌||◌}
use mathlib.Core.List.{
  List, [], ◌∷◌, ◌++◌, Mem, Mem-prop, not-mem-nil, mem-cons, mem-cons_self, mem-cons_of_mem,
}
use mathlib.Core.Option.{Option, none, some}
use native.Mathlib.Omega.{arith}
use playslot.Prelude.Tests.{◌==◌, if◌then◌else◌, Bool-cases, Option-cases}

module _ {ℓ} {A : Type ℓ} where
  abbrev pub length : List A → ℕ
  length [] = 0
  length (x ∷ xs) = suc (length xs)

  -- `xs.filter(p)`
  unfoldable pub filter : (A → Bool) → List A → List A
  filter p [] = []
  filter p (x ∷ xs) = let rest = filter p xs in if p x then x ∷ rest else rest

  -- `xs.slice(0, n)`
  unfoldable pub take : ℕ → List A → List A
  take n [] = []
  take n (x ∷ xs) = let rest = take (n - 1) xs in if n == 0 then [] else x ∷ rest

  -- `xs.find(p)`
  unfoldable pub find : (A → Bool) → List A → Option A
  find p [] = none
  find p (x ∷ xs) = if p x then some x else find p xs

  -- `xs.some(p)`
  unfoldable pub any : (A → Bool) → List A → Bool
  any p [] = false
  any p (x ∷ xs) = p x || any p xs

  -- `xs.every(p)`
  unfoldable pub all : (A → Bool) → List A → Bool
  all p [] = true
  all p (x ∷ xs) = p x && all p xs

  pub length-append : (xs ys : List A) → length (xs ++ ys) ≡ length xs + length ys
  length-append [] ys = omega arith
  length-append (x ∷ xs) ys = omega (arith, length-append xs ys)

module _ {ℓ κ} {A : Type ℓ} (P : A → Type κ) where
  -- Every entry has the property.
  abbrev pub All : List A → Type κ
  All [] = Unit
  All (x ∷ xs) = P x × All xs

pub All-imp {ℓ κ ν} :
    {A : Type ℓ} (P : A → Type κ) (Q : A → Type ν) (xs : List A)
    → ((x : A) → P x → Q x)
    → All P xs
    → All Q xs
All-imp P Q [] f h = tt
All-imp P Q (x ∷ xs) f h = (f x h.0, All-imp P Q xs f h.1)

-- What holds of every entry holds of a member.
pub All-mem {ℓ κ} :
    {A : Type ℓ} (P : A → Type κ) (prop : (x : A) → IsProp (P x)) {a : A} (xs : List A)
    → All P xs
    → Mem a xs
    → P a
All-mem P prop [] h m = absurd (not-mem-nil m)
All-mem P prop {a} (x ∷ xs) h m =
    Or.elim (prop a) (mem-cons.0 m) (λ e. subst P (sym e) h.0) (λ k. All-mem P prop xs h.1 k)

-- What holds of every member holds of every entry.
pub All_of_mem {ℓ κ} :
    {A : Type ℓ} (P : A → Type κ) (xs : List A) → ((x : A) → Mem x xs → P x) → All P xs
All_of_mem P [] f = tt
All_of_mem P (x ∷ xs) f = (f x mem-cons_self, All_of_mem P xs (λ y m. f y (mem-cons_of_mem x m)))

module _ {ℓ} {A : Type ℓ} (p : A → Bool) where
  pub mem-filter : {a : A} (xs : List A) → Mem a (filter p xs) → Mem a xs × (p a ≡ true)
  unfolding filter
  mem-filter [] m = absurd (not-mem-nil m)
  mem-filter {a} (x ∷ xs) m = elim (Bool-cases (p x)) [
    | inl e ↦
        Or.elim (hlevel Mem-prop) (mem-cons.0 (rw e at m))
          (λ q. (subst (λ y. Mem y (x ∷ xs)) (sym q) mem-cons_self, rw q e))
          (λ k. let (m', q) = mem-filter xs k in (mem-cons_of_mem x m', q))
    | inr e ↦ let (m', q) = mem-filter xs (rw e at m) in (mem-cons_of_mem x m', q)
  ]

  pub mem-filter_of : {a : A} (xs : List A) → Mem a xs → p a ≡ true → Mem a (filter p xs)
  unfolding filter
  mem-filter_of [] m q = absurd (not-mem-nil m)
  mem-filter_of {a} (x ∷ xs) m q = elim (Bool-cases (p x)) [
    | inl e ↦ rw e (
        Or.elim (hlevel Mem-prop) (mem-cons.0 m) (λ r. rw r mem-cons_self)
          (λ k. mem-cons_of_mem x (mem-filter_of xs k q)))
    | inr e ↦ rw e (
        Or.elim (hlevel Mem-prop) (mem-cons.0 m)
          (λ r. let clash : p x ≡ true = subst (λ y. p y ≡ true) r q in absurd (cc))
          (λ k. mem-filter_of xs k q))
  ]

  pub All-of_filter {κ} :
      (P : A → Type κ) (xs : List A) → All P (filter p xs) → All (λ x. p x ≡ true → P x) xs
  unfolding filter
  All-of_filter P [] h = tt
  All-of_filter P (x ∷ xs) h = elim (Bool-cases (p x)) [
    | inl e ↦ let h' : P x × All P (filter p xs) = rw e at h in (λ _. h'.0, All-of_filter P xs h'.1)
    | inr e ↦ (λ k. absurd (cc), All-of_filter P xs (rw e at h))
  ]

  pub All-filter {κ} : (P : A → Type κ) (xs : List A) → All P xs → All P (filter p xs)
  unfolding filter
  All-filter P [] h = tt
  All-filter P (x ∷ xs) (q, h) = elim (Bool-cases (p x)) [
    | inl e ↦ rw e (q, All-filter P xs h)
    | inr e ↦ rw e (All-filter P xs h)
  ]

  pub filter-none : (xs : List A) → filter p xs ≡ [] → All (λ x. p x ≡ false) xs
  unfolding filter
  filter-none [] h = tt
  filter-none (x ∷ xs) h = ground (arith, filter-none xs)

module _ {ℓ} {A : Type ℓ} (p : A → Bool) where
  pub any-false : (xs : List A) → any p xs ≡ false → All (λ x. p x ≡ false) xs
  unfolding any
  any-false [] h = tt
  any-false (x ∷ xs) h = ground (arith, any-false xs)

  pub any-false_of_All : (xs : List A) → All (λ x. p x ≡ false) xs → any p xs ≡ false
  unfolding any
  any-false_of_All [] h = refl
  any-false_of_All (x ∷ xs) h = ground (arith, any-false_of_All xs h.1)

module _ {ℓ} {A : Type ℓ} (p : A → Bool) where
  -- What is found has the test's property, and any that all entries have.
  pub find-All {κ} :
      (P : A → Type κ) (a : A) (xs : List A) → All P xs → find p xs ≡ some a → P a × (p a ≡ true)
  unfolding find
  find-All P a [] h e = absurd (cc)
  find-All P a (x ∷ xs) (h, hs) e = elim (Bool-cases (p x)) [
    | inl yes_it ↦
        let same : x ≡ a = ground (arith, rw yes_it at e) in
        (subst P same h, subst (λ y. p y ≡ true) same yes_it)
    | inr no_it ↦ find-All P a xs hs (rw no_it at e)
  ]

  pub find-none : (xs : List A) → find p xs ≡ none → All (λ x. p x ≡ false) xs
  unfolding find
  find-none [] e = tt
  find-none (x ∷ xs) e = elim (Bool-cases (p x)) [
    | inl yes_it ↦ absurd (ground (arith, rw yes_it at e))
    | inr no_it ↦ (no_it, find-none xs (rw no_it at e))
  ]

  -- The only member with the property is the one that is found.
  pub find_unique :
      (a : A) (xs : List A)
      → Mem a xs
      → p a ≡ true
      → All (λ b. p b ≡ true → b ≡ a) xs
      → find p xs ≡ some a
  find_unique a xs m h only = elim (Option-cases (find p xs)) [
    | inl missing ↦
        let miss = All-mem (λ x. p x ≡ false) (λ x. hlevel) xs (find-none xs missing) m in
        absurd (cc)
    | inr (b, e) ↦
        let (is, k) = find-All (λ b. p b ≡ true → b ≡ a) b xs only e in e ∙ ap some (is k)
  ]

-- `xs.includes(n)`, and `set.has(n)`.
abbrev pub contains : List ℕ → ℕ → Bool
contains [] x = false
contains (y ∷ ys) x = y == x || contains ys x

pub contains-append :
    (xs ys : List ℕ) (c : ℕ) → contains (xs ++ ys) c ≡ (contains xs c || contains ys c)
contains-append [] ys c = refl
contains-append (x ∷ xs) ys c = ground (arith, contains-append xs ys c)
