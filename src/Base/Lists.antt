-- ===== src/Base/Lists.antt =====
-- Slices of arrays as lists, and their lengths.
use Prim.Native.Nat.{ℕ, zero, suc, ◌+◌, ◌-◌, ◌≤◌}
use mathlib.Core.Path.{◌≡◌, refl}
use mathlib.Core.Option.{Option, none, some}
use mathlib.Core.List.{List, [], ◌∷◌, ◌++◌}
use native.Mathlib.Omega.{arith}
use loyalty_interchange_prot.Base.Tests.{length, leb, if◌then◌else◌}

-- `array.slice(start)` and `array.slice(0, count)`
unfoldable pub drop {ℓ} : {A : Type ℓ} → ℕ → List A → List A
drop zero xs = xs
drop (suc n) [] = []
drop (suc n) (x ∷ xs) = drop n xs

unfoldable pub take {ℓ} : {A : Type ℓ} → ℕ → List A → List A
take zero xs = []
take (suc n) [] = []
take (suc n) (x ∷ xs) = x ∷ take n xs

-- `array.at(-1)`
unfoldable pub last? {ℓ} : {A : Type ℓ} → List A → Option A
last? [] = none
last? (x ∷ []) = some x
last? (x ∷ y ∷ xs) = last? (y ∷ xs)

module _ {ℓ} {A : Type ℓ} where
  pub length-drop : (n : ℕ) (xs : List A) → length (drop n xs) ≡ length xs - n
  unfolding drop
  length-drop zero xs = omega arith
  length-drop (suc n) [] = omega arith
  length-drop (suc n) (x ∷ xs) = ground (arith, length-drop n xs)

  pub length-take :
      (n : ℕ) (xs : List A) → length (take n xs) ≡ (if leb n (length xs) then n else length xs)
  unfolding take
  length-take zero xs = ground arith
  length-take (suc n) [] = ground arith
  length-take (suc n) (x ∷ xs) = ground (arith, length-take n xs)

  pub length-append : (xs ys : List A) → length (xs ++ ys) ≡ length xs + length ys
  length-append [] ys = omega arith
  length-append (x ∷ xs) ys = omega (arith, length-append xs ys)

  pub last?-drop_append :
      (n : ℕ) (xs : List A) (x : A) → n ≤ length xs → last? (drop n (xs ++ x ∷ [])) ≡ some x
  unfolding drop last?
  last?-drop_append zero [] x h = refl
  last?-drop_append zero (y ∷ []) x h = refl
  last?-drop_append zero (y ∷ z ∷ xs) x h = last?-drop_append zero (z ∷ xs) x (omega arith)
  last?-drop_append (suc n) [] x h = absurd (omega arith)
  last?-drop_append (suc n) (y ∷ xs) x h = last?-drop_append n xs x (omega arith)
