-- ===== src/Base/Sort.antt =====
-- `Array.prototype.sort` with a comparator: a stable sort.
use Prim.Native.Nat.{ℕ, zero, suc, Ordering}
use mathlib.Core.Path.{◌≡◌}
use mathlib.Core.Bool.{Bool, true, false}
use mathlib.Core.Option.{some}
use mathlib.Core.List.{List, [], ◌∷◌}
use mathlib.Core.Logic.{inl, inr}
use native.Mathlib.Omega.{arith}
use loyalty_interchange_prot.Base.Tests.{Bool-cases, get_elem?, if◌then◌else◌}

-- `comparator(a, b) <= 0`
abbrev pub not_after : Ordering → Bool
not_after Ordering.gt = false
not_after _ = true

-- `first || second`, on the answers of two comparators
abbrev pub then_by : Ordering → Ordering → Ordering
then_by Ordering.eq second = second
then_by first second = first

module _ {ℓ} {A : Type ℓ} (cmp : A → A → Ordering) where
  -- `x` stood before the elements of the list, so it stays before those that compare equal.
  unfoldable pub sorted_insert : A → List A → List A
  sorted_insert x [] = x ∷ []
  sorted_insert x (y ∷ ys) = if not_after (cmp x y) then x ∷ y ∷ ys else y ∷ sorted_insert x ys

  unfoldable pub sort : List A → List A
  unfolding sorted_insert
  sort [] = []
  sort (x ∷ xs) = sorted_insert x (sort xs)

-- an element that stands at some index
abbrev pub StandsIn {ℓ} : {A : Type ℓ} → List A → A → Type ℓ
StandsIn xs x = (i : ℕ) × (get_elem? xs i ≡ some x)

module _ {ℓ} {A : Type ℓ} (cmp : A → A → Ordering) where
  past_head : (x y z : A) (xs : List A) → StandsIn (x ∷ xs) y → StandsIn (x ∷ z ∷ xs) y
  past_head x y z xs (zero, h) = (zero, h)
  past_head x y z xs (suc i, h) = (suc (suc i), h)

  in_tail : (x y : A) (xs : List A) → StandsIn xs y → StandsIn (x ∷ xs) y
  in_tail x y xs (i, h) = (suc i, h)

  inserted_from :
      (x y : A) (i : ℕ) (xs : List A)
      → get_elem? (sorted_insert cmp x xs) i ≡ some y
      → StandsIn (x ∷ xs) y
  unfolding sorted_insert
  inserted_from x y i [] h = (i, h)
  inserted_from x y zero (z ∷ xs) h = elim (Bool-cases (not_after (cmp x z))) [
    | inl first ↦ (zero, ground (arith, first, h))
    | inr later ↦ (1, ground (arith, later, h))
  ]
  inserted_from x y (suc i) (z ∷ xs) h = elim (Bool-cases (not_after (cmp x z))) [
    | inl first ↦ (suc i, ground (arith, first, h))
    | inr later ↦ past_head x y z xs (inserted_from x y i xs (ground (arith, later, h)))
  ]

  inserted_to :
      (x y : A) (i : ℕ) (xs : List A)
      → get_elem? (x ∷ xs) i ≡ some y
      → StandsIn (sorted_insert cmp x xs) y
  unfolding sorted_insert
  inserted_to x y i [] h = (i, h)
  inserted_to x y zero (z ∷ xs) h = elim (Bool-cases (not_after (cmp x z))) [
    | inl first ↦ rw first (zero, h)
    | inr later ↦ rw later (in_tail z y _ (inserted_to x y zero xs h))
  ]
  inserted_to x y (suc zero) (z ∷ xs) h = elim (Bool-cases (not_after (cmp x z))) [
    | inl first ↦ rw first (1, h)
    | inr later ↦ rw later (zero, h)
  ]
  inserted_to x y (suc (suc i)) (z ∷ xs) h = elim (Bool-cases (not_after (cmp x z))) [
    | inl first ↦ rw first (suc (suc i), h)
    | inr later ↦ rw later (in_tail z y _ (inserted_to x y (suc i) xs h))
  ]

  inserted :
      (x y : A) (xs ys : List A)
      → (StandsIn xs y → StandsIn ys y)
      → StandsIn (x ∷ xs) y
      → StandsIn (x ∷ ys) y
  inserted x y xs ys f (zero, h) = (zero, h)
  inserted x y xs ys f (suc i, h) = in_tail x y ys (f (i, h))

  -- Sorting keeps what stands in a list, and adds nothing.
  pub sort-StandsIn_from : (x : A) (xs : List A) → StandsIn (sort cmp xs) x → StandsIn xs x
  unfolding sort
  sort-StandsIn_from x [] h = h
  sort-StandsIn_from x (y ∷ xs) (i, h) =
      inserted y x (sort cmp xs) xs (sort-StandsIn_from x xs) (inserted_from y x i (sort cmp xs) h)

  pub sort-StandsIn_to : (x : A) (xs : List A) → StandsIn xs x → StandsIn (sort cmp xs) x
  unfolding sort
  sort-StandsIn_to x [] h = h
  sort-StandsIn_to x (y ∷ xs) h =
      let (i, k) = inserted y x xs (sort cmp xs) (sort-StandsIn_to x xs) h in
      inserted_to y x i (sort cmp xs) k
