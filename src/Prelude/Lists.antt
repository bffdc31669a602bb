-- ===== src/Prelude/Lists.antt =====
-- Lists measured, cut and tested over the native numbers, under the library's names.
use Prim.Native.Nat.{ℕ, zero, suc, ◌+◌, ◌-◌, ◌≤◌}
use mathlib.Core.Path.{◌≡◌, refl, ap, sym, ◌∙◌, fun_ext}
use mathlib.Core.Logic.{◌↔◌, ◌⊎◌, inl, inr}
use mathlib.Core.Bool.{Bool, true, false, ◌&&◌, ◌||◌}
use mathlib.Core.Option.{Option, none, some}
use mathlib.Core.List.{List, [], ◌∷◌, ◌++◌}
use native.Mathlib.Omega.{arith}
use rockduck.Prelude.Tests.{if◌then◌else◌, Bool-cases, Eq, ◌==◌}

module _ {ℓ} {A : Type ℓ} where
  abbrev pub length : List A → ℕ
  length [] = 0
  length (x ∷ xs) = suc (length xs)

  abbrev pub get_elem? : List A → ℕ → Option A
  get_elem? [] i = none
  get_elem? (x ∷ xs) zero = some x
  get_elem? (x ∷ xs) (suc i) = get_elem? xs i

  abbrev pub take : ℕ → List A → List A
  take zero xs = []
  take (suc n) [] = []
  take (suc n) (x ∷ xs) = x ∷ take n xs

  abbrev pub drop : ℕ → List A → List A
  drop zero xs = xs
  drop (suc n) [] = []
  drop (suc n) (x ∷ xs) = drop n xs

  -- `Iterator::filter`
  abbrev pub filter : (A → Bool) → List A → List A
  filter p [] = []
  filter p (x ∷ xs) = let rest = filter p xs in if p x then x ∷ rest else rest

  -- `Iterator::any`
  abbrev pub any : (A → Bool) → List A → Bool
  any p [] = false
  any p (x ∷ xs) = p x || any p xs

  abbrev pub All {κ} : (A → Type κ) → List A → Type κ
  All P [] = Unit
  All P (x ∷ xs) = P x × All P xs

  -- `Iterator::flatten`
  abbrev pub concat : List (List A) → List A
  concat [] = []
  concat (xs ∷ xss) = xs ++ concat xss

  pub filter-append :
      (p : A → Bool) (xs ys : List A) → filter p (xs ++ ys) ≡ filter p xs ++ filter p ys
  filter-append p [] ys = refl
  filter-append p (x ∷ xs) ys = ground (arith, filter-append p xs ys)

  pub get_elem?-eq-none : (xs : List A) (i : ℕ) → (get_elem? xs i ≡ none) ↔ (length xs ≤ i)
  get_elem?-eq-none [] i = ground arith
  get_elem?-eq-none (x ∷ xs) zero = ground arith
  get_elem?-eq-none (x ∷ xs) (suc i) = ground (arith, get_elem?-eq-none xs i)

  pub append_nil : (xs : List A) → xs ++ [] ≡ xs
  append_nil [] = refl
  append_nil (x ∷ xs) = ap (◌∷◌ x) (append_nil xs)

  pub append_assoc : (xs ys zs : List A) → (xs ++ ys) ++ zs ≡ xs ++ (ys ++ zs)
  append_assoc [] ys zs = refl
  append_assoc (x ∷ xs) ys zs = ap (◌∷◌ x) (append_assoc xs ys zs)

  pub length-append : (xs ys : List A) → length (xs ++ ys) ≡ length xs + length ys
  length-append [] ys = omega arith
  length-append (x ∷ xs) ys = omega (arith, length-append xs ys)

  pub length-drop : (n : ℕ) (xs : List A) → length (drop n xs) ≡ length xs - n
  length-drop zero xs = omega arith
  length-drop (suc n) [] = omega arith
  length-drop (suc n) (x ∷ xs) = omega (arith, length-drop n xs)

  pub take-append : (xs ys : List A) → take (length xs) (xs ++ ys) ≡ xs
  take-append [] ys = refl
  take-append (x ∷ xs) ys = ap (◌∷◌ x) (take-append xs ys)

  pub drop-append : (xs ys : List A) → drop (length xs) (xs ++ ys) ≡ ys
  drop-append [] ys = refl
  drop-append (x ∷ xs) ys = drop-append xs ys

  drop-nil : (k : ℕ) → drop k [] ≡ []
  drop-nil zero = refl
  drop-nil (suc k) = refl

  pub drop-drop : (m n : ℕ) (xs : List A) → drop (m + n) xs ≡ drop n (drop m xs)
  drop-drop zero n xs = let h : 0 + n ≡ n = omega arith in ap (λ k. drop k xs) h
  drop-drop (suc m) n [] = drop-nil (suc m + n) ∙ sym (drop-nil n)
  drop-drop (suc m) n (x ∷ xs) =
      let h : suc m + n ≡ suc (m + n) = omega arith in
      ap (λ k. drop k (x ∷ xs)) h ∙ drop-drop m n xs

  -- `&xs[start..stop]`, in range
  unfoldable pub slice : List A → ℕ → ℕ → List A
  slice xs start stop = take (stop - start) (drop start xs)

  pub slice-eq-take :
      (xs : List A) (start n : ℕ) → slice xs start (start + n) ≡ take n (drop start xs)
  unfolding slice
  slice-eq-take xs start n =
      let h : (start + n) - start ≡ n = omega arith in ap (λ k. take k (drop start xs)) h

  pub length-filter-le : (p : A → Bool) (xs : List A) → length (filter p xs) ≤ length xs
  length-filter-le p [] = omega arith
  length-filter-le p (x ∷ xs) = ground (arith, length-filter-le p xs)

module _ {A : Type 0} where
  abbrev pub In : A → List A → Type 0
  In a [] = ⊥
  In a (x ∷ xs) = (a ≡ x) ⊎ In a xs

  pub In-append-cases : (a : A) (xs ys : List A) → In a (xs ++ ys) → In a xs ⊎ In a ys
  In-append-cases a [] ys i = inr i
  In-append-cases a (x ∷ xs) ys (inl e) = inl (inl e)
  In-append-cases a (x ∷ xs) ys (inr i) = elim (In-append-cases a xs ys i) [
    | inl j ↦ inl (inr j)
    | inr j ↦ inr j
  ]

  pub filter-In : (p : A → Bool) (a : A) (xs : List A) → In a xs → p a ≡ true → In a (filter p xs)
  filter-In p a [] i h = i
  filter-In p a (x ∷ xs) (inl e) h = let q : p x ≡ true = sym (ap p e) ∙ h in rw (q, filter) (inl e)
  filter-In p a (x ∷ xs) (inr i) h = elim (Bool-cases (p x)) [
    | inl e ↦ rw (e, filter) (inr (filter-In p a xs i h))
    | inr e ↦ rw (e, filter) (filter-In p a xs i h)
  ]

  pub In-filter : (p : A → Bool) (a : A) (xs : List A) → In a (filter p xs) → In a xs × (p a ≡ true)
  In-filter p a [] i = absurd i
  In-filter p a (x ∷ xs) i = elim (Bool-cases (p x)) [
    | inl e ↦
        let j : In a (x ∷ filter p xs) = rw (e, filter) at i in
        elim j [
          | inl h ↦ (inl h, ap p h ∙ e)
          | inr h ↦ let (k, l) = In-filter p a xs h in (inr k, l)
        ]
    | inr e ↦
        let j : In a (filter p xs) = rw (e, filter) at i in
        let (k, l) = In-filter p a xs j in (inr k, l)
  ]

any-nil {ℓ} : {A : Type ℓ} (xs : List A) → any (λ x. false) xs ≡ false
any-nil [] = refl
any-nil (x ∷ xs) = any-nil xs

module _ {ℓ} {A : Type ℓ} where
  pub any-ext : (p q : A → Bool) (xs : List A) → ((x : A) → p x ≡ q x) → any p xs ≡ any q xs
  any-ext p q xs h = rw (fun_ext h)

  pub any-or : (p q : A → Bool) (xs : List A) → any (λ x. p x || q x) xs ≡ (any p xs || any q xs)
  any-or p q [] = refl
  any-or p q (x ∷ xs) = ground (arith, any-or p q xs)

  pub any-and : (b : Bool) (p : A → Bool) (xs : List A) → any (λ x. b && p x) xs ≡ (b && any p xs)
  any-and b p [] = ground arith
  any-and b p (x ∷ xs) = ground (arith, any-and b p xs)

module _ {ℓ κ} {A : Type ℓ} {B : Type κ} where
  pub any-exchange :
      (r : A → B → Bool) (xs : List A) (ys : List B)
      → any (λ x. any (r x) ys) xs ≡ any (λ y. any (λ x. r x y) xs) ys
  any-exchange r [] ys = sym (any-nil ys)
  any-exchange r (x ∷ xs) ys =
      ap (λ b. any (r x) ys || b) (any-exchange r xs ys)
      ∙ sym (any-or (r x) (λ y. any (λ z. r z y) xs) ys)

module _ {ℓ} {A : Type ℓ} ⦃e : Eq A⦄ where
  -- `Iterator::any(|x| x == a)`, `contains`
  abbrev pub elem : A → List A → Bool
  elem a [] = false
  elem a (x ∷ xs) = x == a || elem a xs

  pub elem-append : (a : A) (xs ys : List A) → elem a (xs ++ ys) ≡ (elem a xs || elem a ys)
  elem-append a [] ys = refl
  elem-append a (x ∷ xs) ys = ground (arith, elem-append a xs ys)

  pub elem-filter : (p : A → Bool) (a : A) (xs : List A) → elem a (filter p xs) ≡ (elem a xs && p a)
  elem-filter p a [] = refl
  elem-filter p a (x ∷ xs) = ground (arith, elem-filter p a xs, e.equals_iff x a)

  abbrev pub list_eqb : List A → List A → Bool
  list_eqb [] [] = true
  list_eqb [] (y ∷ ys) = false
  list_eqb (x ∷ xs) [] = false
  list_eqb (x ∷ xs) (y ∷ ys) = x == y && list_eqb xs ys

  pub list_eqb_iff : (xs ys : List A) → (list_eqb xs ys ≡ true) ↔ (xs ≡ ys)
  list_eqb_iff [] [] = ground arith
  list_eqb_iff [] (y ∷ ys) = ground arith
  list_eqb_iff (x ∷ xs) [] = ground arith
  list_eqb_iff (x ∷ xs) (y ∷ ys) = ground (arith, e.equals_iff x y, list_eqb_iff xs ys)

  instance abbrev pub list_eq : Eq (List A)
  list_eq = record { equals = list_eqb; equals_iff = list_eqb_iff }

-- A byte is a number below 256. A Rust string is its UTF-8 bytes, which is how it is compared.
abbrev pub Bytes : Type 0
Bytes = List ℕ

abbrev pub Str : Type 0
Str = List ℕ
