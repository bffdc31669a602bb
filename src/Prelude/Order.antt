-- ===== src/Prelude/Order.antt =====
-- Rust's `Ord`: a comparison whose equal values are equal, its lexicographic instances, and the
-- equality tests that come with them.
use Prim.Native.Nat.{ℕ, compare, Ordering}
use mathlib.Core.Path.{◌≡◌, refl}
use mathlib.Core.Logic.{◌↔◌}
use mathlib.Core.List.{List, [], ◌∷◌}
use native.Mathlib.Omega.{arith}

-- `Ordering::then`
abbrev pub then_ord : Ordering → Ordering → Ordering
then_ord Ordering.lt o = Ordering.lt
then_ord Ordering.eq o = o
then_ord Ordering.gt o = Ordering.gt

-- `Ordering::reverse`
abbrev pub reverse_ord : Ordering → Ordering
reverse_ord Ordering.lt = Ordering.gt
reverse_ord Ordering.eq = Ordering.eq
reverse_ord Ordering.gt = Ordering.lt

pub record Ord {ℓ} (A : Type ℓ) : Type ℓ where
  pub cmp : A → A → Ordering
  pub cmp_iff : (a b : A) → (cmp a b ≡ Ordering.eq) ↔ (a ≡ b)
  pub cmp_reverse : (a b : A) → cmp b a ≡ reverse_ord (cmp a b)
  pub cmp_trans :
      (a b c : A) → cmp a b ≡ Ordering.lt → cmp b c ≡ Ordering.lt → cmp a c ≡ Ordering.lt

pub nat_cmp_iff : (a b : ℕ) → (compare a b ≡ Ordering.eq) ↔ (a ≡ b)
nat_cmp_iff a b = ground arith

pub nat_cmp_reverse : (a b : ℕ) → compare b a ≡ reverse_ord (compare a b)
nat_cmp_reverse a b = ground arith

pub nat_cmp_trans :
    (a b c : ℕ) → compare a b ≡ Ordering.lt → compare b c ≡ Ordering.lt → compare a c ≡ Ordering.lt
nat_cmp_trans a b c h k = ground arith

instance abbrev pub nat_ord : Ord ℕ
nat_ord = record {
  cmp = compare;
  cmp_iff = nat_cmp_iff;
  cmp_reverse = nat_cmp_reverse;
  cmp_trans = nat_cmp_trans;
}

module _ {ℓ} {A : Type ℓ} ⦃o : Ord A⦄ where
  abbrev pub list_cmp : List A → List A → Ordering
  list_cmp [] [] = Ordering.eq
  list_cmp [] (y ∷ ys) = Ordering.lt
  list_cmp (x ∷ xs) [] = Ordering.gt
  list_cmp (x ∷ xs) (y ∷ ys) = then_ord (o.cmp x y) (list_cmp xs ys)

  pub list_cmp_iff : (a b : List A) → (list_cmp a b ≡ Ordering.eq) ↔ (a ≡ b)
  list_cmp_iff [] [] = ground arith
  list_cmp_iff [] (y ∷ ys) = ground arith
  list_cmp_iff (x ∷ xs) [] = ground arith
  list_cmp_iff (x ∷ xs) (y ∷ ys) = ground (arith, o.cmp_iff x y, list_cmp_iff xs ys)

  pub list_cmp_reverse : (a b : List A) → list_cmp b a ≡ reverse_ord (list_cmp a b)
  list_cmp_reverse [] [] = refl
  list_cmp_reverse [] (y ∷ ys) = refl
  list_cmp_reverse (x ∷ xs) [] = refl
  list_cmp_reverse (x ∷ xs) (y ∷ ys) = ground (arith, o.cmp_reverse x y, list_cmp_reverse xs ys)

  pub list_cmp_trans :
      (a b c : List A)
      → list_cmp a b ≡ Ordering.lt
      → list_cmp b c ≡ Ordering.lt
      → list_cmp a c ≡ Ordering.lt
  list_cmp_trans [] b [] h k = ground (arith, list_cmp_reverse [] b)
  list_cmp_trans [] b (z ∷ zs) h k = refl
  list_cmp_trans (x ∷ xs) [] c h k = ground arith
  list_cmp_trans (x ∷ xs) (y ∷ ys) [] h k = ground arith
  list_cmp_trans (x ∷ xs) (y ∷ ys) (z ∷ zs) h k = ground (
    arith,
    o.cmp_trans x y z,
    o.cmp_iff x y,
    o.cmp_iff y z,
    o.cmp_iff x z,
    list_cmp_trans xs ys zs,
  )

  instance abbrev pub list_ord : Ord (List A)
  list_ord = record {
    cmp = list_cmp;
    cmp_iff = list_cmp_iff;
    cmp_reverse = list_cmp_reverse;
    cmp_trans = list_cmp_trans;
  }

module _ {ℓ κ} {A : Type ℓ} {B : Type κ} ⦃o : Ord A⦄ ⦃p : Ord B⦄ where
  abbrev pub pair_cmp : A × B → A × B → Ordering
  pair_cmp (a, b) (c, d) = then_ord (o.cmp a c) (p.cmp b d)

  pub pair_cmp_iff : (s t : A × B) → (pair_cmp s t ≡ Ordering.eq) ↔ (s ≡ t)
  pair_cmp_iff (a, b) (c, d) = ground (arith, o.cmp_iff a c, p.cmp_iff b d)

  pub pair_cmp_reverse : (s t : A × B) → pair_cmp t s ≡ reverse_ord (pair_cmp s t)
  pair_cmp_reverse (a, b) (c, d) = ground (arith, o.cmp_reverse a c, p.cmp_reverse b d)

  pub pair_cmp_trans :
      (s t u : A × B)
      → pair_cmp s t ≡ Ordering.lt
      → pair_cmp t u ≡ Ordering.lt
      → pair_cmp s u ≡ Ordering.lt
  pair_cmp_trans (a, b) (c, d) (x, y) h k =
      ground
        (arith, o.cmp_trans a c x, o.cmp_iff a c, o.cmp_iff c x, o.cmp_iff a x, p.cmp_trans b d y)

  instance abbrev pub pair_ord : Ord (A × B)
  pair_ord = record {
    cmp = pair_cmp;
    cmp_iff = pair_cmp_iff;
    cmp_reverse = pair_cmp_reverse;
    cmp_trans = pair_cmp_trans;
  }
