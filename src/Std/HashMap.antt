-- ===== src/Std/HashMap.antt =====
-- `std::collections::HashMap` as an association list. The order of the list stands for the order
-- of iteration, which the standard library leaves open.
use rockduck.Prelude.{
  Bool-cases, inl, inr, ◌≡◌, refl, Bool, true, false, Option, none, some, List, [], ◌∷◌, map, arith,
  if◌then◌else◌, Eq, ◌==◌, filter,
}

abbrev pub HashMap {ℓ κ} : Type ℓ → Type κ → Type (ℓ ⊔ κ)
HashMap K V = List (K × V)

abbrev or_else {ℓ} : {A : Type ℓ} → Option A → Option A → Option A
or_else none o = o
or_else (some v) o = some v

-- `Option::map`
abbrev pub over {ℓ κ} : {A : Type ℓ} {B : Type κ} → (A → B) → Option A → Option B
over f none = none
over f (some v) = some (f v)

module _ {ℓ κ} {K : Type ℓ} {V : Type κ} ⦃e : Eq K⦄ where
  abbrev pub get : HashMap K V → K → Option V
  get [] k = none
  get ((j, v) ∷ m) k = if j == k then some v else get m k

  abbrev pub contains_key : HashMap K V → K → Bool
  contains_key m k = elim (get m k) [ none ↦ false | some v ↦ true ]

  -- `insert` replaces the value of a key that is there.
  abbrev pub insert : HashMap K V → K → V → HashMap K V
  insert [] k v = (k, v) ∷ []
  insert ((j, w) ∷ m) k v = if j == k then (k, v) ∷ m else (j, w) ∷ insert m k v

  abbrev pub remove : HashMap K V → K → HashMap K V
  remove [] k = []
  remove ((j, w) ∷ m) k = let rest = remove m k in if j == k then rest else (j, w) ∷ rest

  -- `collect` of an iterator over pairs
  abbrev pub extend : HashMap K V → List (K × V) → HashMap K V
  extend m [] = m
  extend m ((k, v) ∷ l) = extend (insert m k v) l

  -- No key stands twice, as in every hash map.
  abbrev pub IsUnique : HashMap K V → Type κ
  IsUnique [] = Unit
  IsUnique ((k, v) ∷ m) = (get m k ≡ none) × IsUnique m

  pub get-insert :
      (m : HashMap K V) (k : K) (v : V) (j : K)
      → get (insert m k v) j ≡ (if k == j then some v else get m j)
  get-insert [] k v j = refl
  get-insert ((i, w) ∷ m) k v j =
      ground (arith, e.equals_iff i k, e.equals_iff i j, e.equals_iff k j, get-insert m k v j)

  pub get-remove :
      (m : HashMap K V) (k j : K) → get (remove m k) j ≡ (if k == j then none else get m j)
  get-remove [] k j = ground arith
  get-remove ((i, w) ∷ m) k j =
      ground (arith, e.equals_iff i k, e.equals_iff i j, e.equals_iff k j, get-remove m k j)

  pub insert-IsUnique : (m : HashMap K V) (k : K) (v : V) → IsUnique m → IsUnique (insert m k v)
  insert-IsUnique [] k v u = ground arith
  insert-IsUnique ((i, w) ∷ m) k v u =
      ground
        (arith, e.equals_iff i k, e.equals_iff k i, get-insert m k v i, insert-IsUnique m k v u.1)

  pub remove-IsUnique : (m : HashMap K V) (k : K) → IsUnique m → IsUnique (remove m k)
  remove-IsUnique [] k u = u
  remove-IsUnique ((i, w) ∷ m) k u = ground (arith, get-remove m k i, remove-IsUnique m k u.1)

  extend_lookup :
      (m l : HashMap K V) (k : K) → IsUnique l → get (extend m l) k ≡ or_else (get l k) (get m k)
  extend_lookup m [] k u = refl
  extend_lookup m ((i, w) ∷ l) k u =
      ground (arith, e.equals_iff i k, get-insert m i w k, extend_lookup (insert m i w) l k u.1)

  -- Collecting pairs with distinct keys keeps every pair.
  pub get-extend : (l : HashMap K V) (k : K) → IsUnique l → get (extend [] l) k ≡ get l k
  get-extend l k u = ground (arith, extend_lookup [] l k u)

  pub extend-IsUnique : (m : HashMap K V) (l : List (K × V)) → IsUnique m → IsUnique (extend m l)
  extend-IsUnique m [] u = u
  extend-IsUnique m ((k, v) ∷ l) u = extend-IsUnique (insert m k v) l (insert-IsUnique m k v u)

module _ {ℓ κ} {K : Type ℓ} {V : Type κ} ⦃e : Eq K⦄ (p : K × V → Bool) where
  abbrev pub keep : K → Option V → Option V
  keep k none = none
  keep k (some v) = if p (k, v) then some v else none

  pub keep-eq-some :
      (k : K) (o : Option V) (v : V) → keep k o ≡ some v → (o ≡ some v) × (p (k, v) ≡ true)
  keep-eq-some k none v h = ground arith
  keep-eq-some k (some w) v h = elim (Bool-cases (p (k, w))) [
    | inl e ↦ let q : some w ≡ some v = rw e at h in (q, cc (q, e))
    | inr e ↦ absurd (ground arith)
  ]

  -- `retain`, and `filter` on an iterator over the map
  pub get-filter : (m : HashMap K V) (k : K) → IsUnique m → get (filter p m) k ≡ keep k (get m k)
  get-filter [] k u = refl
  get-filter ((i, w) ∷ m) k u = ground (arith, e.equals_iff i k, get-filter m k u.1)

  pub filter-IsUnique : (m : HashMap K V) → IsUnique m → IsUnique (filter p m)
  filter-IsUnique [] u = u
  filter-IsUnique ((i, w) ∷ m) u = ground (arith, get-filter m i u.1, filter-IsUnique m u.1)

module _ {ℓ κ η} {K : Type ℓ} {V : Type κ} {W : Type η} ⦃e : Eq K⦄ (f : V → W) where
  abbrev pub map_values : HashMap K V → HashMap K W
  map_values = map (λ e. (e.0, f e.1))

  pub get-map_values : (m : HashMap K V) (k : K) → get (map_values m) k ≡ over f (get m k)
  get-map_values [] k = refl
  get-map_values ((i, w) ∷ m) k = ground (arith, get-map_values m k)

  pub map_values-IsUnique : (m : HashMap K V) → IsUnique m → IsUnique (map_values m)
  map_values-IsUnique [] u = tt
  map_values-IsUnique ((i, w) ∷ m) u = ground (arith, get-map_values m i, map_values-IsUnique m u.1)
