-- ===== src/Base/Assoc.antt =====
-- A JavaScript `Map` keyed by strings: entries in insertion order.
use Prim.Native.String.{String}
use mathlib.Core.Path.{◌≡◌, refl}
use mathlib.Core.Logic.{◌≢◌}
use mathlib.Core.Bool.{Bool}
use mathlib.Core.Option.{Option, none, some}
use mathlib.Core.List.{List, [], ◌∷◌, ◌++◌, map}
use native.Mathlib.Omega.{arith}
use text.Mathlib.Text.{◌==◌ as str_eq}
use text.Mathlib.TextEquality.{eq_iff as str_eq_iff}
use loyalty_interchange_prot.Base.Tests.{is_some, if◌then◌else◌}

abbrev pub Assoc {ℓ} : Type ℓ → Type ℓ
Assoc V = List (String × V)

module _ {ℓ} {V : Type ℓ} where
  -- `m.get(k)`
  unfoldable pub lookup : String → Assoc V → Option V
  lookup k [] = none
  lookup k ((j, v) ∷ m) = if str_eq j k then some v else lookup k m

  -- `m.has(k)`
  abbrev pub has : String → Assoc V → Bool
  has k m = is_some (lookup k m)

  -- `m.set(k, v)`: in place, or at the end
  unfoldable pub insert : String → V → Assoc V → Assoc V
  insert k v [] = (k, v) ∷ []
  insert k v ((j, w) ∷ m) = if str_eq j k then (k, v) ∷ m else (j, w) ∷ insert k v m

  -- `m.delete(k)`
  unfoldable pub erase : String → Assoc V → Assoc V
  erase k [] = []
  erase k ((j, w) ∷ m) = if str_eq j k then m else (j, w) ∷ erase k m

  abbrev pub values : Assoc V → List V
  values = map (λ e. e.1)

  abbrev pub keys : Assoc V → List String
  keys = map (λ e. e.0)

  -- every value replaced in place
  unfoldable pub map_values : (V → V) → Assoc V → Assoc V
  map_values f [] = []
  map_values f ((k, v) ∷ m) = (k, f v) ∷ map_values f m

  pub lookup-insert :
      (k j : String) (v : V) (m : Assoc V)
      → lookup j (insert k v m) ≡ (if str_eq k j then some v else lookup j m)
  unfolding lookup insert
  lookup-insert k j v [] = refl
  lookup-insert k j v ((i, w) ∷ m) =
      ground (arith, str_eq_iff k j, str_eq_iff i k, str_eq_iff i j, lookup-insert k j v m)

  pub lookup-insert_self : (k : String) (v : V) (m : Assoc V) → lookup k (insert k v m) ≡ some v
  lookup-insert_self k v m = ground (arith, lookup-insert k k v m, str_eq_iff k k)

  pub lookup-insert_ne :
      (k j : String) (v : V) (m : Assoc V) → k ≢ j → lookup j (insert k v m) ≡ lookup j m
  lookup-insert_ne k j v m h = ground (arith, lookup-insert k j v m, str_eq_iff k j)

  pub lookup-map_values :
      (f : V → V) (k : String) (m : Assoc V)
      → lookup k (map_values f m) ≡ elim (lookup k m) [ none ↦ none | some v ↦ some (f v) ]
  unfolding lookup map_values
  lookup-map_values f k [] = refl
  lookup-map_values f k ((j, v) ∷ m) = ground (arith, lookup-map_values f k m)

  -- a key that is not there goes to the end
  pub insert-append :
      (k : String) (v : V) (m : Assoc V) → lookup k m ≡ none → insert k v m ≡ m ++ (k, v) ∷ []
  unfolding lookup insert
  insert-append k v [] h = refl
  insert-append k v ((j, w) ∷ m) h = ground (arith, insert-append k v m)

  pub insert-insert_self :
      (k : String) (v w : V) (m : Assoc V) → insert k v (insert k w m) ≡ insert k v m
  unfolding insert
  insert-insert_self k v w [] = ground (arith, str_eq_iff k k)
  insert-insert_self k v w ((j, u) ∷ m) =
      ground (arith, str_eq_iff k k, str_eq_iff j k, insert-insert_self k v w m)

  -- what stands there already
  pub insert_same : (k : String) (v : V) (m : Assoc V) → lookup k m ≡ some v → insert k v m ≡ m
  unfolding lookup insert
  insert_same k v [] h = ground arith
  insert_same k v ((j, u) ∷ m) h = ground (arith, str_eq_iff j k, insert_same k v m)

  -- a key that stands there keeps its place whatever is written under another key
  pub insert-insert_ne :
      (k j : String) (v w x : V) (m : Assoc V)
      → k ≢ j
      → lookup k m ≡ some x
      → insert j w (insert k v m) ≡ insert k v (insert j w m)
  unfolding lookup insert
  insert-insert_ne k j v w x [] n h = ground arith
  insert-insert_ne k j v w x ((i, u) ∷ m) n h =
      ground (arith, str_eq_iff k j, str_eq_iff i k, str_eq_iff i j, insert-insert_ne k j v w x m n)

  pub erase-insert :
      (k : String) (v : V) (m : Assoc V) → lookup k m ≡ none → erase k (insert k v m) ≡ m
  unfolding lookup insert erase
  erase-insert k v [] h = ground (arith, str_eq_iff k k)
  erase-insert k v ((j, u) ∷ m) h = ground (arith, str_eq_iff j k, erase-insert k v m)

  pub erase_absent : (k : String) (m : Assoc V) → lookup k m ≡ none → erase k m ≡ m
  unfolding lookup erase
  erase_absent k [] h = refl
  erase_absent k ((j, u) ∷ m) h = ground (arith, erase_absent k m)
