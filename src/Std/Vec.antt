-- ===== src/Std/Vec.antt =====
-- `Vec::sort_by`, which is stable, as an insertion sort.
use rockduck.Prelude.{◌≡◌, refl, ap, ◌∙◌, List, [], ◌∷◌, Ordering}

module _ {ℓ} {A : Type ℓ} (cmp : A → A → Ordering) where
  abbrev pub insert_by : A → List A → List A
  insert_by x [] = x ∷ []
  insert_by x (y ∷ ys) = elim (cmp x y) [ Ordering.gt ↦ y ∷ insert_by x ys | _ ↦ x ∷ y ∷ ys ]

  abbrev pub sort_by : List A → List A
  sort_by [] = []
  sort_by (x ∷ xs) = insert_by x (sort_by xs)

  abbrev pub IsBelow : A → List A → Type 0
  IsBelow x [] = Unit
  IsBelow x (y ∷ ys) = cmp x y ≡ Ordering.lt

  -- Each element stands strictly below the next.
  abbrev pub IsRising : List A → Type 0
  IsRising [] = Unit
  IsRising (x ∷ xs) = IsBelow x xs × IsRising xs

  insert_by-eq : (x : A) (xs : List A) → IsBelow x xs → insert_by x xs ≡ x ∷ xs
  insert_by-eq x [] b = refl
  insert_by-eq x (y ∷ ys) b = rw (b, insert_by)

  -- A list that rises stays as it is.
  pub sort_by-eq : (xs : List A) → IsRising xs → sort_by xs ≡ xs
  sort_by-eq [] r = refl
  sort_by-eq (x ∷ xs) r = ap (insert_by x) (sort_by-eq xs r.1) ∙ insert_by-eq x xs r.0
