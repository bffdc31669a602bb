-- ===== src/Std/HashSet.antt =====
-- `HashSet` and `BTreeSet` where only membership is asked for: a list without repetitions.
use rockduck.Prelude.{
  ◌≡◌, refl, false, ◌||◌, List, [], ◌∷◌, ◌++◌, arith, if◌then◌else◌, Eq, ◌==◌, elem, elem-append,
}

module _ {ℓ} {A : Type ℓ} ⦃e : Eq A⦄ where
  abbrev pub insert : List A → A → List A
  insert s a = if elem a s then s else s ++ a ∷ []

  abbrev pub remove : List A → A → List A
  remove [] a = []
  remove (x ∷ s) a = let rest = remove s a in if x == a then rest else x ∷ rest

  -- `collect` of an iterator
  abbrev pub extend : List A → List A → List A
  extend s [] = s
  extend s (a ∷ l) = extend (insert s a) l

  pub elem-insert : (s : List A) (a b : A) → elem b (insert s a) ≡ (a == b || elem b s)
  elem-insert s a b = ground (arith, elem-append b s (a ∷ []), e.equals_iff a b)

  pub elem-remove :
      (s : List A) (a b : A) → elem b (remove s a) ≡ (if a == b then false else elem b s)
  elem-remove [] a b = ground arith
  elem-remove (x ∷ s) a b =
      ground (arith, e.equals_iff x a, e.equals_iff x b, e.equals_iff a b, elem-remove s a b)

  pub elem-extend : (s l : List A) (b : A) → elem b (extend s l) ≡ (elem b l || elem b s)
  elem-extend s [] b = refl
  elem-extend s (a ∷ l) b = ground (arith, elem-extend (insert s a) l b, elem-insert s a b)
