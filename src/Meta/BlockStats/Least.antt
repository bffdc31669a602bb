-- ===== src/Meta/BlockStats/Least.antt =====
-- src/metadata/block_stats.rs: no value of the part is less than the least or above the greatest one,
-- by the comparison of the values.
use mathlib.Core.Path.{subst}
use rockduck.Prelude.{
  nat_ord, nat_eq, list_ord, ℕ, ◌≡◌, inl, inr, refl, sym, Bool, true, false, Option, none, some,
  List, [], ◌∷◌, Bytes, arith, length, leb, ◌||◌, ◌==◌, Bool-cases, In, if◌then◌else◌, list_cmp_iff,
  list_cmp_reverse, list_cmp_trans,
}
use rockduck.Std.Int.{ℤ, pos, negsuc}
use rockduck.Meta.ZoneMap.{signed, ltb_int, lexical_lt}
use rockduck.Meta.BlockStats.{
  BlockColumnStats, extremes, extremes_stats, from_first, int_stats_from, signed_value_lt,
  unsigned_value_lt,
}

-- A value that replaces the least one so far leaves no value below it, and likewise upwards.
pub record IsStrict (lt : Bytes → Bytes → Bool) : Type 0 where
  pub irreflexive : (x : Bytes) → lt x x ≡ false
  pub downwards : (x m v : Bytes) → lt x m ≡ false → lt v m ≡ true → lt x v ≡ false
  pub upwards : (x m v : Bytes) → lt m x ≡ false → lt m v ≡ true → lt v x ≡ false

int-strict :
    (x m v : ℤ)
    → (ltb_int x x ≡ false)
      × (ltb_int x m ≡ false → ltb_int v m ≡ true → ltb_int x v ≡ false)
      × (ltb_int m x ≡ false → ltb_int m v ≡ true → ltb_int v x ≡ false)
int-strict (pos x) (pos m) (pos v) = (ground arith, λ h k. ground arith, λ h k. ground arith)
int-strict (pos x) (pos m) (negsuc v) = (ground arith, λ h k. ground arith, λ h k. ground arith)
int-strict (pos x) (negsuc m) (pos v) = (ground arith, λ h k. ground arith, λ h k. ground arith)
int-strict (pos x) (negsuc m) (negsuc v) = (ground arith, λ h k. ground arith, λ h k. ground arith)
int-strict (negsuc x) (pos m) (pos v) = (ground arith, λ h k. ground arith, λ h k. ground arith)
int-strict (negsuc x) (pos m) (negsuc v) = (ground arith, λ h k. ground arith, λ h k. ground arith)
int-strict (negsuc x) (negsuc m) (pos v) = (ground arith, λ h k. ground arith, λ h k. ground arith)
int-strict (negsuc x) (negsuc m) (negsuc v) =
    (ground arith, λ h k. ground arith, λ h k. ground arith)

pub signed-IsStrict : (n : ℕ) → IsStrict (signed_value_lt n)
signed-IsStrict n = record {
  irreflexive = λ x. (int-strict (signed n x) (signed n x) (signed n x)).0;
  downwards = λ x m v. (int-strict (signed n x) (signed n m) (signed n v)).1;
  upwards = λ x m v. (int-strict (signed n x) (signed n m) (signed n v)).2;
}

pub unsigned-IsStrict : IsStrict unsigned_value_lt
unsigned-IsStrict = record {
  irreflexive = λ x. ground arith;
  downwards = λ x m v h k. ground arith;
  upwards = λ x m v h k. ground arith;
}

pub lexical-IsStrict : IsStrict lexical_lt
lexical-IsStrict = record {
  irreflexive = λ x. ground (arith, list_cmp_iff x x);
  downwards = λ x m v h k.
      ground
        (arith, list_cmp_iff x m, list_cmp_reverse x m, list_cmp_trans x v m, list_cmp_reverse x v);
  upwards = λ x m v h k.
      ground
        (arith, list_cmp_iff m x, list_cmp_reverse m x, list_cmp_trans m v x, list_cmp_reverse v x);
}

module _ (lt : Bytes → Bytes → Bool) (strict : IsStrict lt) (P : Bytes → Type 0) where
  -- The least and the greatest value have the property of all values, and bound `x`.
  abbrev Bounded : Bytes → Bytes × Bytes → Type 0
  Bounded x (mn, mx) = P mn × P mx × (lt x mn ≡ false) × (lt mx x ≡ false)

  abbrev pub HasAll : List (Option Bytes) → Type 0
  HasAll vs = (x : Bytes) → In (some x) vs → P x

  lesser : (x mn v : Bytes) → lt x mn ≡ false → lt x (if lt v mn then v else mn) ≡ false
  lesser x mn v h = elim (Bool-cases (lt v mn)) [
    | inl e ↦ rw e (strict.downwards x mn v h e)
    | inr e ↦ rw e h
  ]

  lesser_self : (mn v : Bytes) → lt v (if lt v mn then v else mn) ≡ false
  lesser_self mn v = elim (Bool-cases (lt v mn)) [
    | inl e ↦ rw e (strict.irreflexive v)
    | inr e ↦ rw e e
  ]

  greater : (x mx v : Bytes) → lt mx x ≡ false → lt (if lt mx v then v else mx) x ≡ false
  greater x mx v h = elim (Bool-cases (lt mx v)) [
    | inl e ↦ rw e (strict.upwards x mx v h e)
    | inr e ↦ rw e h
  ]

  greater_self : (mx v : Bytes) → lt (if lt mx v then v else mx) v ≡ false
  greater_self mx v = elim (Bool-cases (lt mx v)) [
    | inl e ↦ rw e (strict.irreflexive v)
    | inr e ↦ rw e e
  ]

  chosen : (b : Bool) (v m : Bytes) → P v → P m → P (if b then v else m)
  chosen true v m h k = h
  chosen false v m h k = k

  extremes-past :
      (x mn mx : Bytes) (vs : List (Option Bytes))
      → Bounded x (mn, mx)
      → HasAll vs
      → Bounded x (extremes lt mn mx vs)
  extremes-past x mn mx [] b a = b
  extremes-past x mn mx (none ∷ vs) b a = extremes-past x mn mx vs b (λ y i. a y (inr i))
  extremes-past x mn mx (some v ∷ vs) (p, q, h, k) a =
      extremes-past x (if lt v mn then v else mn) (if lt mx v then v else mx) vs
        (
          chosen (lt v mn) v mn (a v (inl refl)) p,
          chosen (lt mx v) v mx (a v (inl refl)) q,
          lesser x mn v h,
          greater x mx v k,
        )
        (λ y i. a y (inr i))

  extremes-Bounded :
      (x mn mx : Bytes) (vs : List (Option Bytes))
      → P mn
      → P mx
      → HasAll vs
      → In (some x) vs
      → Bounded x (extremes lt mn mx vs)
  extremes-Bounded x mn mx [] p q a i = absurd i
  extremes-Bounded x mn mx (none ∷ vs) p q a (inl e) = absurd (ground arith)
  extremes-Bounded x mn mx (none ∷ vs) p q a (inr i) =
      extremes-Bounded x mn mx vs p q (λ y j. a y (inr j)) i
  extremes-Bounded x mn mx (some v ∷ vs) p q a (inl e) =
      let h : x ≡ v = ground arith in
      extremes-past x (if lt v mn then v else mn) (if lt mx v then v else mx) vs
        (
          chosen (lt v mn) v mn (a v (inl refl)) p,
          chosen (lt mx v) v mx (a v (inl refl)) q,
          subst (λ y. lt y (if lt v mn then v else mn) ≡ false) (sym h) (lesser_self mn v),
          subst (λ y. lt (if lt mx v then v else mx) y ≡ false) (sym h) (greater_self mx v),
        )
        (λ y i. a y (inr i))
  extremes-Bounded x mn mx (some v ∷ vs) p q a (inr i) =
      extremes-Bounded x (if lt v mn then v else mn) (if lt mx v then v else mx) vs
        (chosen (lt v mn) v mn (a v (inl refl)) p) (chosen (lt mx v) v mx (a v (inl refl)) q)
        (λ y j. a y (inr j)) i

  -- What `extremes_stats` holds.
  abbrev pub BoundedStats : Bytes → BlockColumnStats → Type 0
  BoundedStats x s =
      ((m : Bytes) → s.min_bytes ≡ some m → P m × (lt x m ≡ false))
      × ((m : Bytes) → s.max_bytes ≡ some m → P m × (lt m x ≡ false))

  extremes_stats-Bounded :
      (x : Bytes) (nulls : ℕ) (e : Bytes × Bytes)
      → Bounded x e
      → BoundedStats x (extremes_stats nulls e)
  extremes_stats-Bounded x nulls (mn, mx) (p, q, h, k) = (
    λ m e. let d : mn ≡ m = ground arith in (subst P d p, subst (λ y. lt x y ≡ false) d h),
    λ m e. let d : mx ≡ m = ground arith in (subst P d q, subst (λ y. lt y x ≡ false) d k),
  )

  pub from_first-Bounded :
      (x : Bytes) (none_nulls nulls : ℕ) (vs : List (Option Bytes))
      → HasAll vs
      → In (some x) vs
      → BoundedStats x (from_first lt none_nulls nulls vs)
  from_first-Bounded x none_nulls nulls [] a i = absurd i
  from_first-Bounded x none_nulls nulls (none ∷ vs) a (inl e) = absurd (ground arith)
  from_first-Bounded x none_nulls nulls (none ∷ vs) a (inr i) =
      from_first-Bounded x none_nulls nulls vs (λ y j. a y (inr j)) i
  from_first-Bounded x none_nulls nulls (some v ∷ vs) a (inl e) =
      let h : v ≡ x = ground arith in
      let p = a v (inl refl) in
      extremes_stats-Bounded x nulls (extremes lt v v vs) (
        subst (λ y. Bounded y (extremes lt v v vs)) h
          (extremes-past v v v vs (p, p, strict.irreflexive v, strict.irreflexive v)
            (λ y j. a y (inr j))))
  from_first-Bounded x none_nulls nulls (some v ∷ vs) a (inr i) =
      let p = a v (inl refl) in
      extremes_stats-Bounded x nulls (extremes lt v v vs)
        (extremes-Bounded x v v vs p p (λ y j. a y (inr j)) i)

  pub int_stats-Bounded :
      (x : Bytes) (nulls non_null : ℕ) (vs : List (Option Bytes))
      → HasAll vs
      → In (some x) vs
      → BoundedStats x (int_stats_from lt nulls non_null vs)
  unfolding int_stats_from
  int_stats-Bounded x nulls non_null vs a i =
      elim (Bool-cases (leb (length vs) 0 || non_null == 0)) [
        | inl e ↦ rw e ((λ m h. absurd (ground arith)), (λ m h. absurd (ground arith)))
        | inr e ↦ rw e (from_first-Bounded x 0 nulls vs a i)
      ]
