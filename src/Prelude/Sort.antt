-- ===== src/Prelude/Sort.antt =====
-- `Array.prototype.sort` with a comparator: stable, so equal entries keep their order.
use playslot.Prelude.Tests.{if◌then◌else◌, Bool-cases}
use playslot.Prelude.Lists.{All}
use playslot.Prelude.Int.{ℤ, pos, leb_ℤ}
use mathlib.Core.Path.{◌≡◌}
use mathlib.Core.Bool.{Bool, true, false}
use mathlib.Core.Logic.{inl, inr}
use mathlib.Core.List.{List, [], ◌∷◌, Perm}
use mathlib.Core.List.Perm

module _ {ℓ} {A : Type ℓ} (cmp : A → A → ℤ) where
  -- `a` may stand before `b`.
  abbrev pub before : A → A → Bool
  before a b = leb_ℤ (cmp a b) (pos 0)

  unfoldable pub insert : A → List A → List A
  insert x [] = x ∷ []
  insert x (y ∷ ys) = let rest = insert x ys in if before x y then x ∷ y ∷ ys else y ∷ rest

  unfoldable pub sort : List A → List A
  unfolding insert
  sort [] = []
  sort (x ∷ xs) = insert x (sort xs)

  pub insert-perm : (x : A) (ys : List A) → Perm (insert x ys) (x ∷ ys)
  unfolding insert
  insert-perm x [] = Perm.rfl
  insert-perm x (y ∷ ys) = elim (Bool-cases (before x y)) [
    | inl e ↦ rw e Perm.rfl
    | inr e ↦ rw e (Perm.trans (Perm.cons y (insert-perm x ys)) (Perm.swap x y ys))
  ]

  pub sort-perm : (xs : List A) → Perm (sort xs) xs
  unfolding sort
  sort-perm [] = Perm.nil
  sort-perm (x ∷ xs) = Perm.trans (insert-perm x (sort xs)) (Perm.cons x (sort-perm xs))

-- A comparator that orders: any two entries are comparable, and the order is transitive.
pub record IsOrder {ℓ} {A : Type ℓ} (cmp : A → A → ℤ) : Type ℓ where
  pub total : (a b : A) → before cmp a b ≡ false → before cmp b a ≡ true
  pub trans : (a b c : A) → before cmp a b ≡ true → before cmp b c ≡ true → before cmp a c ≡ true

module _ {ℓ} {A : Type ℓ} (cmp : A → A → ℤ) where
  -- No entry stands before an earlier one.
  abbrev pub IsSorted : List A → Type 0
  IsSorted [] = Unit
  IsSorted (x ∷ xs) = All (λ y. before cmp x y ≡ true) xs × IsSorted xs

module _ {ℓ} {A : Type ℓ} {cmp : A → A → ℤ} (o : IsOrder cmp) where
  All-before_trans :
      (x y : A) (zs : List A)
      → before cmp x y ≡ true
      → All (λ z. before cmp y z ≡ true) zs
      → All (λ z. before cmp x z ≡ true) zs
  All-before_trans x y [] h a = tt
  All-before_trans x y (z ∷ zs) h (p, a) = (o.trans x y z h p, All-before_trans x y zs h a)

  All-insert :
      (x y : A) (zs : List A)
      → before cmp y x ≡ true
      → All (λ z. before cmp y z ≡ true) zs
      → All (λ z. before cmp y z ≡ true) (insert cmp x zs)
  unfolding insert
  All-insert x y [] p a = (p, tt)
  All-insert x y (z ∷ zs) p (q, a) = elim (Bool-cases (before cmp x z)) [
    | inl e ↦ rw e (p, (q, a))
    | inr e ↦ rw e (q, All-insert x y zs p a)
  ]

  insert-IsSorted : (x : A) (ys : List A) → IsSorted cmp ys → IsSorted cmp (insert cmp x ys)
  unfolding insert
  insert-IsSorted x [] s = (tt, tt)
  insert-IsSorted x (y ∷ ys) (h, s) = elim (Bool-cases (before cmp x y)) [
    | inl e ↦ rw e ((e, All-before_trans x y ys e h), (h, s))
    | inr e ↦ rw e (All-insert x y ys (o.total x y e) h, insert-IsSorted x ys s)
  ]

  pub sort-IsSorted : (xs : List A) → IsSorted cmp (sort cmp xs)
  unfolding sort
  sort-IsSorted [] = tt
  sort-IsSorted (x ∷ xs) = insert-IsSorted x (sort cmp xs) (sort-IsSorted xs)
