-- ===== src/Std/BTreeMap.antt =====
-- `std::collections::BTreeMap` as the list of its entries in the order of their keys.
use rockduck.Std.HashMap.{over}
use rockduck.Prelude.{◌≡◌, refl, Option, none, some, List, [], ◌∷◌, map, arith, Ord, Ordering, ap}

abbrev pub BTreeMap {ℓ κ} : Type ℓ → Type κ → Type (ℓ ⊔ κ)
BTreeMap K V = List (K × V)

-- The value under a key that compares so, or else the one given.
abbrev pub or_value {ℓ} : {V : Type ℓ} → Ordering → V → Option V → Option V
or_value Ordering.eq v r = some v
or_value _ v r = r

module _ {ℓ κ} {K : Type ℓ} {V : Type κ} ⦃o : Ord K⦄ where
  abbrev pub get : BTreeMap K V → K → Option V
  get [] k = none
  get ((j, v) ∷ m) k = elim (o.cmp j k) [ Ordering.eq ↦ some v | _ ↦ get m k ]

  abbrev pub insert : BTreeMap K V → K → V → BTreeMap K V
  insert [] k v = (k, v) ∷ []
  insert ((j, w) ∷ m) k v = elim (o.cmp k j) [
    | Ordering.lt ↦ (k, v) ∷ (j, w) ∷ m
    | Ordering.eq ↦ (k, v) ∷ m
    | Ordering.gt ↦ (j, w) ∷ insert m k v
  ]

  abbrev pub values : BTreeMap K V → List V
  values = map (λ e. e.1)

  abbrev pub Above : K → BTreeMap K V → Type 0
  Above k [] = Unit
  Above k ((j, v) ∷ m) = (o.cmp k j ≡ Ordering.lt) × Above k m

  -- The keys rise along the list.
  abbrev pub IsSorted : BTreeMap K V → Type 0
  IsSorted [] = Unit
  IsSorted ((k, v) ∷ m) = Above k m × IsSorted m

  pub get-insert :
      (m : BTreeMap K V) (k : K) (v : V) (j : K)
      → get (insert m k v) j ≡ or_value (o.cmp k j) v (get m j)
  get-insert [] k v j = ground arith
  get-insert ((i, w) ∷ m) k v j =
      ground (arith, o.cmp_iff k i, o.cmp_iff i j, o.cmp_iff k j, get-insert m k v j)

  Above-trans : (i k : K) (m : BTreeMap K V) → o.cmp i k ≡ Ordering.lt → Above k m → Above i m
  Above-trans i k [] h a = tt
  Above-trans i k ((j, w) ∷ m) h a = (o.cmp_trans i k j h a.0, Above-trans i k m h a.1)

  insert-Above :
      (i : K) (m : BTreeMap K V) (k : K) (v : V)
      → o.cmp i k ≡ Ordering.lt
      → Above i m
      → Above i (insert m k v)
  insert-Above i [] k v h a = (h, tt)
  insert-Above i ((j, w) ∷ m) k v h a = ground (arith, insert-Above i m k v h a.1)

  pub insert-IsSorted : (m : BTreeMap K V) (k : K) (v : V) → IsSorted m → IsSorted (insert m k v)
  insert-IsSorted [] k v s = (tt, tt)
  insert-IsSorted ((j, w) ∷ m) k v s = ground (
    arith,
    o.cmp_iff k j,
    o.cmp_reverse k j,
    Above-trans k j m,
    insert-Above j m k v,
    insert-IsSorted m k v s.1,
  )

  get-Above : (i : K) (m : BTreeMap K V) → Above i m → get m i ≡ none
  get-Above i [] a = refl
  get-Above i ((j, w) ∷ m) a = ground (arith, o.cmp_reverse i j, get-Above i m a.1)

module _ {ℓ κ η} {K : Type ℓ} {V : Type κ} {W : Type η} ⦃o : Ord K⦄ (f : V → W) where
  abbrev pub map_values : BTreeMap K V → BTreeMap K W
  map_values = map (λ e. (e.0, f e.1))

  pub get-map_values : (m : BTreeMap K V) (k : K) → get (map_values m) k ≡ over f (get m k)
  get-map_values [] k = refl
  get-map_values ((j, v) ∷ m) k = ground (arith, get-map_values m k)

  pub insert-map_values :
      (m : BTreeMap K V) (k : K) (v : V) → insert (map_values m) k (f v) ≡ map_values (insert m k v)
  insert-map_values [] k v = refl
  insert-map_values ((j, w) ∷ m) k v = ground (arith, insert-map_values m k v)

  pub values-map_values : (m : BTreeMap K V) → values (map_values m) ≡ map f (values m)
  values-map_values [] = refl
  values-map_values ((j, w) ∷ m) = ap (◌∷◌ (f w)) (values-map_values m)
