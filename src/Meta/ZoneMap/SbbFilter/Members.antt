-- ===== src/Meta/ZoneMap/SbbFilter/Members.antt =====
-- src/metadata/block_zone_map.rs: a Bloom filter contains every key that was put into it.
use mathlib.Core.Path.{subst}
use native.Mathlib.Nat.{mod-lt}
use rockduck.Prelude.{
  nat_ord, nat_eq, ℕ, zero, suc, ◌+◌, ◌*◌, ◌%◌, ◌<◌, ◌≤◌, ◌≡◌, ◌≢◌, inl, inr, refl, sym, ap, ◌∙◌,
  Bool, true, false, some, List, [], ◌∷◌, Bytes, map, length, get_elem?, ltb, ◌==◌, arith, In,
  Option-cases, Bool-cases,
}
use rockduck.Meta.ZoneMap.Builder.{u32}
use rockduck.Meta.ZoneMap.SbbFilter.{
  salt, SbbFilter, bit_at, key_bits, set_bit, set_all, all_set, insert_hashes, might_contain_hashes,
  insert, might_contain,
}

-- The bits that are set stay set.
abbrev pub Grows : List Bool → List Bool → Type 0
Grows xs ys = (i : ℕ) → get_elem? xs i ≡ some true → get_elem? ys i ≡ some true

length-set_bit : (xs : List Bool) (i : ℕ) → length (set_bit xs i) ≡ length xs
length-set_bit [] i = refl
length-set_bit (x ∷ xs) zero = refl
length-set_bit (x ∷ xs) (suc i) = omega (arith, length-set_bit xs i)

set_bit-same : (xs : List Bool) (i : ℕ) → i < length xs → get_elem? (set_bit xs i) i ≡ some true
set_bit-same [] i h = absurd (omega arith)
set_bit-same (x ∷ xs) zero h = refl
set_bit-same (x ∷ xs) (suc i) h = set_bit-same xs i (omega arith)

set_bit-Grows : (xs : List Bool) (i : ℕ) → Grows xs (set_bit xs i)
set_bit-Grows [] i j h = h
set_bit-Grows (x ∷ xs) zero zero h = refl
set_bit-Grows (x ∷ xs) zero (suc j) h = h
set_bit-Grows (x ∷ xs) (suc i) zero h = h
set_bit-Grows (x ∷ xs) (suc i) (suc j) h = set_bit-Grows xs i j h

set_all-Grows :
    (xs : List Bool) (is : List ℕ)
    → ((i : ℕ) → In i is → i < length xs)
    → (ys : List Bool) × (set_all xs is ≡ some ys)
      × (length ys ≡ length xs)
      × Grows xs ys
      × ((i : ℕ) → In i is → get_elem? ys i ≡ some true)
set_all-Grows xs [] h = (xs, refl, refl, (λ i g. g), (λ i j. absurd j))
set_all-Grows xs (k ∷ is) h =
    let l : k < length xs = h k (inl refl) in
    let e : ltb k (length xs) ≡ true = ground arith in
    let (ys, s, n, g, m) =
      set_all-Grows (set_bit xs k) is (λ i j. omega (arith, length-set_bit xs k, h i (inr j))) in
    (
      ys,
      rw e s,
      n ∙ length-set_bit xs k,
      (λ i q. g i (set_bit-Grows xs k i q)),
      λ i j. elim j [ inl q ↦ ap (get_elem? ys) q ∙ g k (set_bit-same xs k l) | inr q ↦ m i q ],
    )

all_set-In :
    (xs : List Bool) (is : List ℕ)
    → all_set xs is ≡ some true
    → (i : ℕ) → In i is
    → get_elem? xs i ≡ some true
all_set-In xs [] h i j = absurd j
all_set-In xs (k ∷ is) h i (inl e) = ap (get_elem? xs) e ∙ (ground arith)
all_set-In xs (k ∷ is) h i (inr j) = all_set-In xs is (ground arith) i j

all_set-all :
    (xs : List Bool) (is : List ℕ)
    → ((i : ℕ) → In i is → get_elem? xs i ≡ some true)
    → all_set xs is ≡ some true
all_set-all xs [] h = refl
all_set-all xs (k ∷ is) h = rw (all_set, h k (inl refl)) (all_set-all xs is (λ i j. h i (inr j)))

set_bit-other : (xs : List Bool) (k i : ℕ) → k ≢ i → get_elem? (set_bit xs k) i ≡ get_elem? xs i
set_bit-other [] k i h = refl
set_bit-other (x ∷ xs) zero zero h = absurd (h refl)
set_bit-other (x ∷ xs) zero (suc i) h = refl
set_bit-other (x ∷ xs) (suc k) zero h = refl
set_bit-other (x ∷ xs) (suc k) (suc i) h = set_bit-other xs k i (λ e. h (ap suc e))

set_all-other :
    (xs : List Bool) (is : List ℕ) (ys : List Bool) (i : ℕ)
    → set_all xs is ≡ some ys
    → ((k : ℕ) → In k is → k ≢ i)
    → get_elem? ys i ≡ get_elem? xs i
set_all-other xs [] ys i e h = ground arith
set_all-other xs (k ∷ is) ys i e h =
    set_all-other (set_bit xs k) is ys i (ground arith) (λ j m. h j (inr m))
    ∙ set_bit-other xs k i (h k (inl refl))

bit_at-first : (block_idx h2 s : ℕ) → bit_at block_idx h2 s % 256 < 32
bit_at-first block_idx h2 s = omega arith

-- The filter has blocks, of 32 bytes each.
pub record IsSized (f : SbbFilter) : Type 0 where
  pub some_block : 0 < f.num_blocks
  pub size : length f.bits ≡ f.num_blocks * 256

bit_at-lt :
    (num_blocks block_idx h2 s : ℕ)
    → block_idx < num_blocks
    → bit_at block_idx h2 s < num_blocks * 256
bit_at-lt num_blocks block_idx h2 s h = omega arith

map-In :
    {A : Type 0} (f : A → ℕ) (P : ℕ → Type 0) (xs : List A)
    → ((x : A) → P (f x))
    → (i : ℕ) → In i (map f xs)
    → P i
map-In f P [] h i j = absurd j
map-In f P (x ∷ xs) h i (inl e) = subst P (sym e) (h x)
map-In f P (x ∷ xs) h i (inr j) = map-In f P xs h i j

key_bits-lt :
    (f : SbbFilter) (h : ℕ × ℕ)
    → IsSized f
    → (i : ℕ) → In i (key_bits f.num_blocks h)
    → i < length f.bits
key_bits-lt f (h1, h2) s i j =
    let b : h1 % f.num_blocks < f.num_blocks = mod-lt h1 s.some_block in
    let l =
      map-In (bit_at (h1 % f.num_blocks) h2) (λ n. n < f.num_blocks * 256) salt
        (λ x. bit_at-lt f.num_blocks (h1 % f.num_blocks) h2 x b) i j in
    omega (arith, l, s.size)

module _ (hash : Bytes → ℕ × ℕ) where
  -- A filter of one block or more takes every key without a panic, contains it then, and contains
  -- every key that it contained before.
  pub might_contain-insert :
      (f : SbbFilter) (key : Bytes)
      → IsSized f
      → (g : SbbFilter) × (insert hash f key ≡ some g)
        × IsSized g
        × (might_contain hash g key ≡ some true)
        × ((other : Bytes)
            → might_contain hash f other ≡ some true
            → might_contain hash g other ≡ some true)
  unfolding insert insert_hashes might_contain might_contain_hashes
  might_contain-insert f key s =
      let some_block = s.some_block in
      let e : (f.num_blocks == 0) ≡ false = ground arith in
      let is : List ℕ = key_bits f.num_blocks (hash key) in
      let (ys, r, n, g, m) = set_all-Grows f.bits is (key_bits-lt f (hash key) s) in
      (
        record f { bits = ys; entries = u32 (f.entries + 1) },
        rw (e, r) refl,
        record { some_block = s.some_block; size = n ∙ s.size },
        rw e (all_set-all ys is m),
        λ other h.
            let k : all_set f.bits (key_bits f.num_blocks (hash other)) ≡ some true = rw e at h in
            rw e (
              all_set-all ys (key_bits f.num_blocks (hash other))
                (λ i j. g i (all_set-In f.bits (key_bits f.num_blocks (hash other)) k i j))),
      )

  -- Of the 256 bits of a block, a key only sets the first 32.
  pub insert-first_bits :
      (f g : SbbFilter) (key : Bytes) (i : ℕ)
      → insert hash f key ≡ some g
      → 32 ≤ i % 256
      → get_elem? g.bits i ≡ get_elem? f.bits i
  unfolding insert insert_hashes
  insert-first_bits f g key i h l = elim (Bool-cases (f.num_blocks == 0)) [
    | inl e ↦ absurd (ground arith)
    | inr e ↦ elim (Option-cases (set_all f.bits (key_bits f.num_blocks (hash key)))) [
      | inl r ↦ absurd (ground arith)
      | inr (ys, r) ↦
          let k : record f { bits = ys; entries = u32 (f.entries + 1) } ≡ g = ground arith in
          ap (λ x. get_elem? x.bits i) (sym k)
          ∙ set_all-other f.bits (key_bits f.num_blocks (hash key)) ys i r
              (λ j m. other (hash key) j m)
    ]
  ]
    where
      other : (h : ℕ × ℕ) (j : ℕ) → In j (key_bits f.num_blocks h) → j ≢ i
      other (h1, h2) j m e =
          let q =
            map-In (bit_at (h1 % f.num_blocks) h2) (λ n. n % 256 < 32) salt
              (λ s. bit_at-first (h1 % f.num_blocks) h2 s) j m in
          omega (arith, q, e, l)
