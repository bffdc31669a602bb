-- ===== src/Meta/ZoneMap/SbbFilter.antt =====
-- src/metadata/block_zone_map.rs: the split block Bloom filter of a granule. A byte of `bits` is its
-- eight bits, from the least on; the hash is a parameter, and `none` is a panic.
pub mod Members
use rockduck.Prelude.{
  nat_ord, nat_eq, ℕ, zero, suc, ◌+◌, ◌*◌, ◌/◌, ◌%◌, Bool, true, false, Option, none, some, List,
  [], ◌∷◌, Bytes, map, length, get_elem?, ltb, ◌==◌, if◌then◌else◌,
}
use rockduck.Meta.ZoneMap.Builder.{u32}

-- The salts of the Parquet format.
abbrev pub salt : List ℕ
salt =
    1203067463 ∷ 2390111315 ∷ 849908277 ∷ 2139298169 ∷ 1804405433 ∷ 1301579683 ∷ 494153203
    ∷ 2704234429 ∷ []

pub record SbbFilter : Type 0 where
  pub entries : ℕ
  pub num_blocks : ℕ
  pub bits : List Bool

abbrev repeat : Bool → ℕ → List Bool
repeat b zero = []
repeat b (suc n) = b ∷ repeat b n

abbrev pub new_filter : ℕ → SbbFilter
new_filter num_blocks = record {
  entries = 0;
  num_blocks = num_blocks;
  bits = repeat false (num_blocks * 256);
}

-- The bits of a key: in the block that `h1` picks, one for each salt.
abbrev pub bit_pos : ℕ → ℕ → ℕ
bit_pos h2 s = u32 (s * u32 h2) % 32

abbrev pub bit_at : (block_idx h2 s : ℕ) → ℕ
bit_at block_idx h2 s = 8 * (block_idx * 32 + bit_pos h2 s / 8) + bit_pos h2 s % 8

abbrev pub key_bits : ℕ → ℕ × ℕ → List ℕ
key_bits num_blocks (h1, h2) = map (bit_at (h1 % num_blocks) h2) salt

abbrev pub set_bit : List Bool → ℕ → List Bool
set_bit [] i = []
set_bit (b ∷ bits) zero = true ∷ bits
set_bit (b ∷ bits) (suc i) = b ∷ set_bit bits i

abbrev pub set_all : List Bool → List ℕ → Option (List Bool)
set_all bits [] = some bits
set_all bits (i ∷ is) =
    let rest = set_all (set_bit bits i) is in if ltb i (length bits) then rest else none

abbrev pub all_set : List Bool → List ℕ → Option Bool
all_set bits [] = some true
all_set bits (i ∷ is) = elim (get_elem? bits i) [
  | none ↦ none
  | some b ↦ elim b [ true ↦ all_set bits is | false ↦ some false ]
]

-- The remainder by 0 panics.
unfoldable pub insert_hashes : SbbFilter → ℕ × ℕ → Option SbbFilter
insert_hashes f h =
    if f.num_blocks == 0 then none else (elim (set_all f.bits (key_bits f.num_blocks h)) [
      | none ↦ none
      | some bits ↦ some (record f { bits = bits; entries = u32 (f.entries + 1) })
    ])

unfoldable pub might_contain_hashes : SbbFilter → ℕ × ℕ → Option Bool
might_contain_hashes f h =
    if f.num_blocks == 0 then none else all_set f.bits (key_bits f.num_blocks h)

module _ (hash : Bytes → ℕ × ℕ) where
  unfoldable pub insert : SbbFilter → Bytes → Option SbbFilter
  insert f key = insert_hashes f (hash key)

  unfoldable pub might_contain : SbbFilter → Bytes → Option Bool
  might_contain f key = might_contain_hashes f (hash key)
