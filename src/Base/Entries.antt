-- ===== src/Base/Entries.antt =====
-- Maps that are rebuilt from their entries.
use mathlib.Core.Path.{◌≡◌, refl, sym, ap, ◌∙◌}
use mathlib.Core.Logic.{◌≢◌}
use mathlib.Core.Option.{none}
use mathlib.Core.List.{List, [], ◌∷◌, ◌++◌, append-nil, append_assoc}
use native.Mathlib.Omega.{arith}
use Prim.Native.String.{String}
use text.Mathlib.TextEquality.{eq_iff as str_eq_iff}
use loyalty_interchange_prot.Base.Assoc.{Assoc, lookup, insert, insert-append}

module _ {V : Type 0} where
  -- `new Map(entries)`, where the map holds something already
  unfoldable pub set_all : List (String × V) → Assoc V → Assoc V
  set_all [] m = m
  set_all ((k, v) ∷ entries) m = set_all entries (insert k v m)

  -- no key twice
  unfoldable pub HasDistinctKeys : Assoc V → Type 0
  HasDistinctKeys [] = Unit {0}
  HasDistinctKeys ((k, _) ∷ m) = (lookup k m ≡ none) × HasDistinctKeys m

  -- the keys of one map stand under no key of another
  Absent : Assoc V → Assoc V → Type 0
  Absent [] p = Unit {0}
  Absent ((k, _) ∷ m) p = (lookup k p ≡ none) × Absent m p

  pub lookup-append :
      (k j : String) (v : V) (p : Assoc V)
      → lookup k p ≡ none
      → j ≢ k
      → lookup k (p ++ (j, v) ∷ []) ≡ none
  unfolding lookup
  lookup-append k j v [] h n = ground (arith, str_eq_iff j k)
  lookup-append k j v ((i, x) ∷ p) h n = ground (arith, lookup-append k j v p)

  Absent-append :
      (k : String) (v : V) (m p : Assoc V)
      → Absent m p
      → lookup k m ≡ none
      → Absent m (p ++ (k, v) ∷ [])
  unfolding Absent lookup
  Absent-append k v [] p a h = tt
  Absent-append k v ((j, x) ∷ m) p a h = (
    lookup-append j k v p a.0 (λ same. ground (arith, str_eq_iff j k)),
    Absent-append k v m p a.1 (ground (arith, str_eq_iff j k)),
  )

  Absent-nil : (m : Assoc V) → Absent m []
  unfolding Absent lookup
  Absent-nil [] = tt
  Absent-nil ((j, x) ∷ m) = (refl, Absent-nil m)

  set_all-append : (m p : Assoc V) → HasDistinctKeys m → Absent m p → set_all m p ≡ p ++ m
  unfolding set_all HasDistinctKeys Absent
  set_all-append [] p d a = sym (append-nil p)
  set_all-append ((j, v) ∷ m) p d a =
      ap (set_all m) (insert-append j v p a.0)
      ∙ (set_all-append m (p ++ (j, v) ∷ []) d.1 (Absent-append j v m p a.1 d.0)
          ∙ append_assoc p ((j, v) ∷ []) m)

  -- a map's entries rebuild the map
  pub set_all-distinct : (m : Assoc V) → HasDistinctKeys m → set_all m [] ≡ m
  set_all-distinct m d = set_all-append m [] d (Absent-nil m)
