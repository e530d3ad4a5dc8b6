-- ===== src/Prelude/Select.antt =====
-- What the first entry of a sorted list is, and the first that passes a test.
use mathlib.Core.Path.{◌≡◌, refl, sym, subst}
use mathlib.Core.Bool.{Bool, true, false}
use mathlib.Core.Logic.{◌⊎◌, inl, inr}
use mathlib.Core.Option.{none, some}
use mathlib.Core.List.{List, [], ◌∷◌, Mem, Perm, mem-cons_self, mem-cons_of_mem}
use mathlib.Core.List.Perm
use native.Mathlib.Omega.{arith}
use playslot.Prelude.Tests.{if◌then◌else◌, Bool-cases}
use playslot.Prelude.Lists.{All, find, filter, mem-filter, All-of_filter, filter-none}
use playslot.Prelude.Int.{ℤ}
use playslot.Prelude.Sort.{before, insert, sort, IsOrder, IsSorted, sort-IsSorted, sort-perm}

module _ {ℓ κ} {A : Type ℓ} (P : A → Type κ) (cmp : A → A → ℤ) where
  All-insert_inv : (x : A) (ys : List A) → All P (insert cmp x ys) → P x × All P ys
  unfolding insert
  All-insert_inv x [] h = h
  All-insert_inv x (y ∷ ys) h = go (before cmp x y) h (All-insert_inv x ys)
    where
      go :
          (b : Bool)
          → All P (if b then x ∷ y ∷ ys else y ∷ insert cmp x ys)
          → (All P (insert cmp x ys) → P x × All P ys)
          → P x × (P y × All P ys)
      go true k ih = k
      go false k ih = ((ih k.1).0, (k.0, (ih k.1).1))

  -- What holds of all entries of the sorted list holds of all entries.
  pub All-of_sort : (xs : List A) → All P (sort cmp xs) → All P xs
  unfolding sort
  All-of_sort [] h = tt
  All-of_sort (x ∷ xs) h =
      let (p, rest) = All-insert_inv x (sort cmp xs) h in (p, All-of_sort xs rest)

  All-insert : (x : A) (ys : List A) → P x → All P ys → All P (insert cmp x ys)
  unfolding insert
  All-insert x [] p h = (p, tt)
  All-insert x (y ∷ ys) p (q, h) = elim (Bool-cases (before cmp x y)) [
    | inl e ↦ rw e (p, (q, h))
    | inr e ↦ rw e (q, All-insert x ys p h)
  ]

  pub All-sort : (xs : List A) → All P xs → All P (sort cmp xs)
  unfolding sort
  All-sort [] h = tt
  All-sort (x ∷ xs) (p, h) = All-insert x (sort cmp xs) p (All-sort xs h)

module _ {ℓ} {A : Type ℓ} where
  pub find-mem : (p : A → Bool) (xs : List A) (a : A) → find p xs ≡ some a → Mem a xs × (p a ≡ true)
  unfolding find
  find-mem p [] a h = cc
  find-mem p (x ∷ xs) a h = elim (Bool-cases (p x)) [
    | inl e ↦
        let here : x ≡ a = ground arith in
        (subst (λ y. Mem y (x ∷ xs)) here mem-cons_self, subst (λ y. p y ≡ true) here e)
    | inr e ↦ let later = find-mem p xs a (ground arith) in (mem-cons_of_mem x later.0, later.1)
  ]

  pub find-none : (p : A → Bool) (xs : List A) → find p xs ≡ none → All (λ x. p x ≡ false) xs
  unfolding find
  find-none p [] h = tt
  find-none p (x ∷ xs) h = ground (arith, find-none p xs)

  pub find-none_of_All : (p : A → Bool) (xs : List A) → All (λ x. p x ≡ false) xs → find p xs ≡ none
  unfolding find
  find-none_of_All p [] h = refl
  find-none_of_All p (x ∷ xs) h = ground (arith, find-none_of_All p xs h.1)

module _ {ℓ} {A : Type ℓ} {cmp : A → A → ℤ} (o : IsOrder cmp) (p : A → Bool) where
  before_refl : (a : A) → before cmp a a ≡ true
  before_refl a = elim (Bool-cases (before cmp a a)) [ inl e ↦ e | inr e ↦ o.total a a e ]

  weaken :
      (a : A) (xs : List A)
      → All (λ x. before cmp a x ≡ true) xs
      → All (λ x. p x ≡ true → before cmp a x ≡ true) xs
  weaken a [] h = tt
  weaken a (x ∷ xs) (q, h) = (λ _. q, weaken a xs h)

  find_sorted :
      (xs : List A) (a : A)
      → IsSorted cmp xs
      → find p xs ≡ some a
      → All (λ x. p x ≡ true → before cmp a x ≡ true) xs
  unfolding find
  find_sorted [] a s e = tt
  find_sorted (x ∷ xs) a (h, s) e = elim (Bool-cases (p x)) [
    | inl q ↦
        subst (λ y. All (λ z. p z ≡ true → before cmp y z ≡ true) (x ∷ xs)) (ground arith)
          (λ _. before_refl x, weaken x xs h)
    | inr q ↦ (λ k. cc, find_sorted xs a s (ground arith))
  ]

  -- The first entry of the sorted list that passes the test stands before all that pass it.
  pub find-sort :
      (xs : List A) (a : A)
      → find p (sort cmp xs) ≡ some a
      → Mem a xs × (p a ≡ true) × All (λ x. p x ≡ true → before cmp a x ≡ true) xs
  find-sort xs a e =
      let (m, q) = find-mem p (sort cmp xs) a e in
      (
        (Perm.mem_iff (sort-perm cmp xs)).0 m,
        q,
        All-of_sort _ cmp xs (find_sorted (sort cmp xs) a (sort-IsSorted o xs) e),
      )

  -- None is found in the sorted list exactly when none of the entries passes.
  pub find-sort-none : (xs : List A) → find p (sort cmp xs) ≡ none → All (λ x. p x ≡ false) xs
  find-sort-none xs e = All-of_sort _ cmp xs (find-none p (sort cmp xs) e)

module _ {ℓ} {A : Type ℓ} {cmp : A → A → ℤ} (o : IsOrder cmp) (p : A → Bool) where
  -- What stands first once the entries that pass are sorted.
  pub sort-filter-cases :
      (xs : List A)
      → ((sort cmp (filter p xs) ≡ []) × All (λ x. p x ≡ false) xs)
        ⊎ ((w : A) × (rest : List A) × (sort cmp (filter p xs) ≡ w ∷ rest)
            × Mem w xs
            × (p w ≡ true)
            × All (λ x. p x ≡ true → before cmp w x ≡ true) xs)
  sort-filter-cases xs = go (sort cmp (filter p xs)) refl
    where
      go :
          (ys : List A)
          → sort cmp (filter p xs) ≡ ys
          → ((sort cmp (filter p xs) ≡ []) × All (λ x. p x ≡ false) xs)
            ⊎ ((w : A) × (rest : List A) × (sort cmp (filter p xs) ≡ w ∷ rest)
                × Mem w xs
                × (p w ≡ true)
                × All (λ x. p x ≡ true → before cmp w x ≡ true) xs)
      go [] e = inl (
        e,
        filter-none p xs
            (Perm.eq-nil (subst (λ l. Perm (filter p xs) l) e (Perm.symm (sort-perm cmp _)))),
      )
      go (w ∷ rest) e =
          let ordered : IsSorted cmp (w ∷ rest) =
            subst (IsSorted cmp) e (sort-IsSorted o (filter p xs)) in
          let whole : All (λ x. before cmp w x ≡ true) (sort cmp (filter p xs)) =
            subst (All (λ x. before cmp w x ≡ true)) (sym e) (before_refl o p w, ordered.0) in
          let listed : Mem w (filter p xs) =
            (Perm.mem_iff (sort-perm cmp (filter p xs))).0 (subst (Mem w) (sym e) mem-cons_self) in
          let (m, q) = mem-filter p xs listed in
          inr (
            w,
            rest,
            e,
            m,
            q,
            All-of_filter p (λ x. before cmp w x ≡ true) xs (All-of_sort _ cmp _ whole),
          )
