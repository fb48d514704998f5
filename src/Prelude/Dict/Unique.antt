-- ===== src/Prelude/Dict/Unique.antt =====
-- A dictionary holds each key once.
use mathlib.Core.Path.{◌≡◌, refl}
use mathlib.Core.Bool.{Bool}
use mathlib.Core.Option.{Option, none, some}
use mathlib.Core.List.{[], ◌∷◌}
use Prim.Native.Nat.{suc}
use bambu_gateway.Prelude.Lists.{length}
use native.Mathlib.Omega.{arith}
use bambu_gateway.Prelude.Tests.{Eq, if◌then◌else◌}
use bambu_gateway.Prelude.Dict.{Dict, lookup, insert, remove, retain, lookup-insert, lookup-remove}

abbrev pub keep {κ} : {V : Type κ} → (V → Bool) → Option V → Option V
keep p none = none
keep p (some v) = if p v then some v else none

module _ {ℓ κ} {K : Type ℓ} {V : Type κ} ⦃e : Eq K⦄ where
  abbrev pub IsUnique : Dict K V → Type κ
  IsUnique [] = Unit
  IsUnique ((k, v) ∷ m) = (lookup k m ≡ none) × IsUnique m

  retain_absent :
      (p : V → Bool) (k : K) (m : Dict K V) → lookup k m ≡ none → lookup k (retain p m) ≡ none
  unfolding lookup retain
  retain_absent p k [] h = refl
  retain_absent p k ((j, v) ∷ m) h = ground (arith, retain_absent p k m)

  pub lookup-retain :
      (p : V → Bool) (k : K) (m : Dict K V)
      → IsUnique m
      → lookup k (retain p m) ≡ keep p (lookup k m)
  unfolding lookup retain
  lookup-retain p k [] u = refl
  lookup-retain p k ((j, v) ∷ m) u =
      ground (arith, lookup-retain p k m, retain_absent p j m, e.eqb_iff j k)

  pub retain-IsUnique : (p : V → Bool) (m : Dict K V) → IsUnique m → IsUnique (retain p m)
  unfolding retain
  retain-IsUnique p [] u = tt
  retain-IsUnique p ((k, v) ∷ m) u = ground (arith, retain-IsUnique p m, retain_absent p k m)

  pub insert-IsUnique : (k : K) (v : V) (m : Dict K V) → IsUnique m → IsUnique (insert k v m)
  unfolding insert lookup
  insert-IsUnique k v [] u = (refl, tt)
  insert-IsUnique k v ((j, w) ∷ m) u =
      ground (arith, insert-IsUnique k v m, lookup-insert k j v m, e.eqb_iff j k, e.eqb_iff k j)

  pub remove-IsUnique : (k : K) (m : Dict K V) → IsUnique m → IsUnique (remove k m)
  unfolding remove
  remove-IsUnique k [] u = tt
  remove-IsUnique k ((j, w) ∷ m) u = ground (arith, remove-IsUnique k m, lookup-remove k j m)

  pub length-insert :
      (k : K) (v : V) (m : Dict K V) → lookup k m ≡ none → length (insert k v m) ≡ suc (length m)
  unfolding insert lookup
  length-insert k v [] h = refl
  length-insert k v ((j, w) ∷ m) h = ground (arith, length-insert k v m)

  absent-remove : (k : K) (m : Dict K V) → lookup k m ≡ none → remove k m ≡ m
  unfolding remove lookup
  absent-remove k [] h = refl
  absent-remove k ((j, w) ∷ m) h = ground (arith, absent-remove k m)

  pub length-remove :
      (k : K) (v : V) (m : Dict K V)
      → IsUnique m
      → lookup k m ≡ some v
      → suc (length (remove k m)) ≡ length m
  unfolding remove lookup
  length-remove k v [] u h = absurd cc
  length-remove k v ((j, w) ∷ m) (new, u) h =
      ground (arith, absent-remove j m, length-remove k v m u, e.eqb_iff j k)
