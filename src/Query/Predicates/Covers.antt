-- ===== src/Query/Predicates/Covers.antt =====
-- src/query/filter_expr.rs: the ranges of a filter cover the rows that it is true of.
use mathlib.Core.Path.{subst}
use rockduck.Prelude.{
  nat_eq, list_eq, ℕ, ◌≡◌, ◌⊎◌, inl, inr, refl, sym, ◌∙◌, Bool, true, false, ◌||◌, Option, none,
  some, List, [], ◌∷◌, ◌++◌, map, arith, Bytes, Str, elem, elem-append, any, Bool-cases,
  if◌then◌else◌, ◌==◌,
}
use rockduck.Std.HashMap
use rockduck.Std.HashMap.{HashMap}
use rockduck.Query.Predicates.{
  Ranges, ZoneMapOrGroup, is_nil, absorb, absorb_all, by_column, keys, ranges_of, push_group,
  united,
}

module _ (P : Bytes × Bytes → Type 0) where
  -- Some range has the property.
  abbrev pub SomeRange : Ranges → Type 0
  SomeRange [] = ⊥
  SomeRange (r ∷ rs) = P r ⊎ SomeRange rs

  SomeRange-left : (rs ss : Ranges) → SomeRange rs → SomeRange (rs ++ ss)
  SomeRange-left [] ss h = absurd h
  SomeRange-left (r ∷ rs) ss (inl h) = inl h
  SomeRange-left (r ∷ rs) ss (inr h) = inr (SomeRange-left rs ss h)

  SomeRange-right : (rs ss : Ranges) → SomeRange ss → SomeRange (rs ++ ss)
  SomeRange-right [] ss h = h
  SomeRange-right (r ∷ rs) ss h = inr (SomeRange-right rs ss h)

  not_nil : (rs : Ranges) → SomeRange rs → is_nil rs ≡ false
  not_nil [] h = absurd h
  not_nil (r ∷ rs) h = refl

  module _ (c : Str) where
    abbrev pub has_column : List ZoneMapOrGroup → Bool
    has_column groups = any (λ g. g.column == c) groups

    -- Every group of the column has such a range.
    abbrev pub AllCover : List ZoneMapOrGroup → Type 0
    AllCover [] = Unit
    AllCover (g ∷ groups) = ((g.column == c) ≡ true → SomeRange g.ranges) × AllCover groups

    -- The column has groups, and every one of them has such a range.
    pub record Covered (groups : List ZoneMapOrGroup) : Type 0 where
      pub present : has_column groups ≡ true
      pub covering : AllCover groups

    has_column-absorb :
        (groups : List ZoneMapOrGroup) (b : ZoneMapOrGroup)
        → has_column groups ≡ true
        → has_column (absorb groups b) ≡ true
    unfolding absorb
    has_column-absorb [] b h = absurd (ground arith)
    has_column-absorb (g ∷ groups) b h = ground (arith, has_column-absorb groups b)

    -- Either the column is there already, or the new group is of another one.
    AllCover-absorb :
        (groups : List ZoneMapOrGroup) (b : ZoneMapOrGroup)
        → AllCover groups
        → (has_column groups ≡ true) ⊎ ((b.column == c) ≡ false)
        → AllCover (absorb groups b)
    unfolding absorb
    AllCover-absorb [] b a (inl h) = absurd (ground arith)
    AllCover-absorb [] b a (inr h) = (λ k. absurd (ground arith), tt)
    AllCover-absorb (g ∷ groups) b (a, as') o = elim (Bool-cases (g.column == b.column)) [
      | inl e ↦ rw (e, absorb) (λ k. SomeRange-left g.ranges b.ranges (a k), as')
      | inr e ↦ rw (e, absorb) (a, AllCover-absorb groups b as' (tail_case e o))
    ]
      where
        tail_case :
            (g.column == b.column) ≡ false
            → (has_column (g ∷ groups) ≡ true) ⊎ ((b.column == c) ≡ false)
            → (has_column groups ≡ true) ⊎ ((b.column == c) ≡ false)
        tail_case e (inr h) = inr h
        tail_case e (inl h) = elim (Bool-cases (g.column == c)) [
          | inl k ↦ inr (
              ground (
                arith,
                (list_eq {A = ℕ}).equals_iff g.column c,
                (list_eq {A = ℕ}).equals_iff b.column c,
                (list_eq {A = ℕ}).equals_iff g.column b.column,
              ))
          | inr k ↦ inl (ground arith)
        ]

    pub absorb_all-Covered :
        (groups bs : List ZoneMapOrGroup) → Covered groups → Covered (absorb_all groups bs)
    unfolding absorb_all
    absorb_all-Covered groups [] v = v
    absorb_all-Covered groups (b ∷ bs) v = absorb_all-Covered (absorb groups b) bs (record {
      present = has_column-absorb groups b v.present;
      covering = AllCover-absorb groups b v.covering (inl v.present);
    })

    -- What a map of groups holds for the column has such a range.
    abbrev Held : Option ZoneMapOrGroup → Type 0
    Held none = Unit
    Held (some g) = SomeRange g.ranges

    -- What the map of the columns holds for the column, when it is filled behind `m`.
    abbrev pairs : List ZoneMapOrGroup → List (Str × ZoneMapOrGroup)
    pairs = map (λ g. (g.column, g))

    extend-Held :
        (m : HashMap Str ZoneMapOrGroup) (groups : List ZoneMapOrGroup)
        → Held (HashMap.get m c)
        → AllCover groups
        → Held (HashMap.get (HashMap.extend m (pairs groups)) c)
    extend-Held m [] h a = h
    extend-Held m (g ∷ groups) h (a, as') =
        extend-Held (HashMap.insert m g.column g) groups
          (subst Held (sym (HashMap.get-insert m g.column g c))
            (inserted (Bool-cases (g.column == c))))
          as'
      where
        inserted :
            ((g.column == c) ≡ true) ⊎ ((g.column == c) ≡ false)
            → Held (if g.column == c then some g else HashMap.get m c)
        inserted (inl e) = rw e (a e)
        inserted (inr e) = rw e h

    abbrev is_some : Option ZoneMapOrGroup → Bool
    is_some none = false
    is_some (some g) = true

    extend-is_some :
        (m : HashMap Str ZoneMapOrGroup) (groups : List ZoneMapOrGroup)
        → (is_some (HashMap.get m c) || has_column groups) ≡ true
        → is_some (HashMap.get (HashMap.extend m (pairs groups)) c) ≡ true
    extend-is_some m [] h = ground arith
    extend-is_some m (g ∷ groups) h =
        extend-is_some (HashMap.insert m g.column g) groups
          (ground (arith, HashMap.get-insert m g.column g c))

    -- The column has a covering group in the map of a covered list.
    pub by_column-Covered :
        (groups : List ZoneMapOrGroup)
        → Covered groups
        → SomeRange (ranges_of (HashMap.get (by_column groups) c))
    by_column-Covered groups v =
        go (HashMap.get (by_column groups) c) (extend-Held [] groups tt v.covering)
          (extend-is_some [] groups (ground (arith, v.present)))
      where
        go : (o : Option ZoneMapOrGroup) → Held o → is_some o ≡ true → SomeRange (ranges_of o)
        go none h s = absurd (ground arith)
        go (some g) h s = h

    elem-keys :
        (m : HashMap Str ZoneMapOrGroup)
        → SomeRange (ranges_of (HashMap.get m c))
        → elem c (keys m) ≡ true
    elem-keys [] h = absurd h
    elem-keys ((k, g) ∷ m) h = elim (Bool-cases (k == c)) [
      | inl e ↦ rw (e, elem) refl
      | inr e ↦
          let h' : SomeRange (ranges_of (HashMap.get m c)) = rw (e, HashMap.get) at h in
          rw (e, elem) (elem-keys m h')
    ]

    module _ (a_map b_map : HashMap Str ZoneMapOrGroup)
        (held : SomeRange (ranges_of (HashMap.get a_map c))
          ⊎ SomeRange (ranges_of (HashMap.get b_map c))) where
      -- The ranges that are pushed for the column.
      push_group-Covered :
          (a b : Ranges) (groups : List ZoneMapOrGroup)
          → SomeRange a ⊎ SomeRange b
          → AllCover groups
          → Covered (push_group c a b groups)
      push_group-Covered [] [] groups (inl h) k = absurd h
      push_group-Covered [] [] groups (inr h) k = absurd h
      push_group-Covered [] (r ∷ rs) groups (inl h) k = absurd h
      push_group-Covered [] (r ∷ rs) groups (inr h) k = record {
        present = ground (arith, (list_eq {A = ℕ}).equals_iff c c);
        covering = (λ e. h, k);
      }
      push_group-Covered (q ∷ qs) [] groups (inl h) k = record {
        present = ground (arith, (list_eq {A = ℕ}).equals_iff c c);
        covering = (λ e. h, k);
      }
      push_group-Covered (q ∷ qs) [] groups (inr h) k = absurd h
      push_group-Covered (q ∷ qs) (r ∷ rs) groups (inl h) k = record {
        present = ground (arith, (list_eq {A = ℕ}).equals_iff c c);
        covering = (λ e. SomeRange-left (q ∷ qs) (r ∷ rs) h, k);
      }
      push_group-Covered (q ∷ qs) (r ∷ rs) groups (inr h) k = record {
        present = ground (arith, (list_eq {A = ℕ}).equals_iff c c);
        covering = (λ e. SomeRange-right (q ∷ qs) (r ∷ rs) h, k);
      }

      -- A push for another column.
      push_group-other :
          (col : Str) (a b : Ranges) (groups : List ZoneMapOrGroup)
          → (col == c) ≡ false
          → AllCover groups
          → AllCover (push_group col a b groups)
            × (has_column (push_group col a b groups) ≡ has_column groups)
      push_group-other col [] [] groups e k = (k, refl)
      push_group-other col [] (r ∷ rs) groups e k = ((λ q. absurd (ground arith), k), ground arith)
      push_group-other col (q ∷ qs) [] groups e k = ((λ q. absurd (ground arith), k), ground arith)
      push_group-other col (q ∷ qs) (r ∷ rs) groups e k =
          ((λ q. absurd (ground arith), k), ground arith)

      united-AllCover : (cols : List Str) → AllCover (united a_map b_map cols)
      unfolding united
      united-AllCover [] = tt
      united-AllCover (col ∷ cols) = elim (Bool-cases (col == c)) [
        | inl e ↦
            let q : c ≡ col = sym (((list_eq {A = ℕ}).equals_iff col c).0 e) in
            subst
              (λ z. AllCover (
                push_group z (ranges_of (HashMap.get a_map z)) (ranges_of (HashMap.get b_map z))
                  (united a_map b_map cols)))
              q
              (push_group-Covered (ranges_of (HashMap.get a_map c))
                (ranges_of (HashMap.get b_map c)) (united a_map b_map cols) held
                (united-AllCover cols)).covering
        | inr e ↦
            (push_group-other col (ranges_of (HashMap.get a_map col))
              (ranges_of (HashMap.get b_map col)) (united a_map b_map cols) e
              (united-AllCover cols)).0
      ]

      united-has_column :
          (cols : List Str) → elem c cols ≡ true → has_column (united a_map b_map cols) ≡ true
      unfolding united
      united-has_column [] h = absurd (ground arith)
      united-has_column (col ∷ cols) h = elim (Bool-cases (col == c)) [
        | inl e ↦
            let q : c ≡ col = sym (((list_eq {A = ℕ}).equals_iff col c).0 e) in
            subst
              (λ z.
                has_column (
                  push_group z (ranges_of (HashMap.get a_map z)) (ranges_of (HashMap.get b_map z))
                    (united a_map b_map cols))
                ≡ true)
              q
              (push_group-Covered (ranges_of (HashMap.get a_map c))
                (ranges_of (HashMap.get b_map c)) (united a_map b_map cols) held
                (united-AllCover cols)).present
        | inr e ↦
            (push_group-other col (ranges_of (HashMap.get a_map col))
              (ranges_of (HashMap.get b_map col)) (united a_map b_map cols) e
              (united-AllCover cols)).1
            ∙ united-has_column cols (ground arith)
      ]

      pub united-Covered : Covered (united a_map b_map (keys a_map ++ keys b_map))
      united-Covered = record {
        present = united-has_column (keys a_map ++ keys b_map) (elem_keys held);
        covering = united-AllCover (keys a_map ++ keys b_map);
      }
        where
          elem_keys :
              SomeRange (ranges_of (HashMap.get a_map c))
                ⊎ SomeRange (ranges_of (HashMap.get b_map c))
              → elem c (keys a_map ++ keys b_map) ≡ true
          elem_keys (inl h) =
              ground (arith, elem-append c (keys a_map) (keys b_map), elem-keys a_map h)
          elem_keys (inr h) =
              ground (arith, elem-append c (keys a_map) (keys b_map), elem-keys b_map h)
