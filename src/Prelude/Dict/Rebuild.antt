-- ===== src/Prelude/Dict/Rebuild.antt =====
-- A dictionary made of a list of values, each under its own key.
use mathlib.Core.Path.{◌≡◌, refl, ap, ◌∙◌}
use mathlib.Core.Bool.{Bool}
use mathlib.Core.Option.{none}
use mathlib.Core.List.{List, [], ◌∷◌, ◌++◌, append-nil, append_assoc}
use native.Mathlib.Omega.{arith}
use bambu_gateway.Prelude.Tests.{Eq, if_both}
use bambu_gateway.Prelude.Dict.{Dict, lookup, insert, remove, retain}
use bambu_gateway.Prelude.Dict.Unique.{IsUnique}

module _ {ℓ κ} {K : Type ℓ} {V : Type κ} where
  abbrev pub values : Dict K V → List V
  values [] = []
  values ((k, v) ∷ m) = v ∷ values m

  -- Every value stands under the key that is its own.
  abbrev pub Keyed : (V → K) → Dict K V → Type ℓ
  Keyed key [] = Unit
  Keyed key ((k, v) ∷ m) = (key v ≡ k) × Keyed key m

  Keyed-middle :
      (key : V → K) (k : K) (v : V) (acc rest : Dict K V)
      → Keyed key (acc ++ (k, v) ∷ rest)
      → key v ≡ k
  Keyed-middle key k v [] rest h = h.0
  Keyed-middle key k v ((j, w) ∷ acc) rest h = Keyed-middle key k v acc rest h.1

  pub retain-Keyed :
      (key : V → K) (p : V → Bool) (m : Dict K V) → Keyed key m → Keyed key (retain p m)
  unfolding retain
  retain-Keyed key p [] h = tt
  retain-Keyed key p ((j, w) ∷ m) h =
      if_both (λ (d : Dict K V). Keyed key d) (p w) (h.0, retain-Keyed key p m h.1)
        (retain-Keyed key p m h.1)

module _ {ℓ κ} {K : Type ℓ} {V : Type κ} ⦃e : Eq K⦄ where
  unfoldable pub rebuild : (V → K) → List V → Dict K V → Dict K V
  rebuild key [] m = m
  rebuild key (v ∷ vs) m = rebuild key vs (insert (key v) v m)

  insert_new : (k : K) (v : V) (m : Dict K V) → lookup k m ≡ none → insert k v m ≡ m ++ (k, v) ∷ []
  unfolding lookup insert
  insert_new k v [] h = refl
  insert_new k v ((j, w) ∷ m) h = ground (arith, h, insert_new k v m)

  lookup_parts :
      (k : K) (a b : Dict K V)
      → lookup k (a ++ b) ≡ none
      → (lookup k a ≡ none) × (lookup k b ≡ none)
  unfolding lookup
  lookup_parts k [] b h = (refl, h)
  lookup_parts k ((j, v) ∷ a) b h = ground (arith, h, lookup_parts k a b)

  IsUnique-middle :
      (k : K) (v : V) (acc rest : Dict K V) → IsUnique (acc ++ (k, v) ∷ rest) → lookup k acc ≡ none
  unfolding lookup
  IsUnique-middle k v [] rest u = refl
  IsUnique-middle k v ((j, w) ∷ acc) rest u = ground (
    arith,
    IsUnique-middle k v acc rest u.1,
    lookup_parts j acc ((k, v) ∷ rest) u.0,
    e.eqb_iff k j,
    e.eqb_iff j k,
  )

  pub rebuild-values :
      (key : V → K) (acc m : Dict K V)
      → IsUnique (acc ++ m)
      → Keyed key (acc ++ m)
      → rebuild key (values m) acc ≡ acc ++ m
  unfolding rebuild
  rebuild-values key acc [] u h = rw append-nil
  rebuild-values key acc ((k, v) ∷ m) u h =
      let assoc = append_assoc acc ((k, v) ∷ []) m in
      ap (λ (d : Dict K V). rebuild key (values m) d)
        (ap (λ (i : K). insert i v acc) (Keyed-middle key k v acc m h)
          ∙ insert_new k v acc (IsUnique-middle k v acc m u))
      ∙ rebuild-values key (acc ++ (k, v) ∷ []) m (rw assoc u) (rw assoc h)
      ∙ assoc

  pub insert-Keyed :
      (key : V → K) (k : K) (v : V) (m : Dict K V)
      → key v ≡ k
      → Keyed key m
      → Keyed key (insert k v m)
  unfolding insert
  insert-Keyed key k v [] q h = (q, tt)
  insert-Keyed key k v ((j, w) ∷ m) q h =
      ground (arith, q, insert-Keyed key k v m q h.1, h, e.eqb_iff j k)

  pub remove-Keyed : (key : V → K) (k : K) (m : Dict K V) → Keyed key m → Keyed key (remove k m)
  unfolding remove
  remove-Keyed key k [] h = tt
  remove-Keyed key k ((j, w) ∷ m) h =
      if_both (λ (d : Dict K V). Keyed key d) (e.eqb j k) (remove-Keyed key k m h.1)
        (h.0, remove-Keyed key k m h.1)
