-- ===== src/Std/Int.antt =====
-- The integers of the standard library: bytes of an unsigned number, and signed numbers.
use rockduck.Prelude.{
  nat_eq, ℕ, zero, suc, ◌+◌, ◌-◌, ◌*◌, ◌/◌, ◌%◌, ◌<◌, ◌≡◌, refl, Bool, Option, none, some, [], ◌∷◌,
  Bytes, Str, arith, length, ltb, leb, ◌&&◌, ◌==◌, if◌then◌else◌,
}

-- `i64`; `negsuc n` is -(n + 1)
pub data ℤ : Type 0 where
  pos negsuc : ℕ → ℤ

-- `to_le_bytes` of a number of `n` bytes
abbrev pub to_le_bytes : ℕ → ℕ → Bytes
to_le_bytes zero x = []
to_le_bytes (suc n) x = (x % 256) ∷ to_le_bytes n (x / 256)

abbrev pub from_le_bytes : Bytes → ℕ
from_le_bytes [] = 0
from_le_bytes (b ∷ bs) = b + 256 * from_le_bytes bs

-- What `n` bytes hold.
abbrev pub byte_limit : ℕ → ℕ
byte_limit zero = 1
byte_limit (suc n) = 256 * byte_limit n

pub length-to_le_bytes : (n x : ℕ) → length (to_le_bytes n x) ≡ n
length-to_le_bytes zero x = refl
length-to_le_bytes (suc n) x = omega (arith, length-to_le_bytes n (x / 256))

pub from_le_bytes-to_le_bytes : (n x : ℕ) → x < byte_limit n → from_le_bytes (to_le_bytes n x) ≡ x
from_le_bytes-to_le_bytes zero x h = omega arith
from_le_bytes-to_le_bytes (suc n) x h =
    omega (arith, from_le_bytes-to_le_bytes n (x / 256) (omega arith))

-- Negation, which does not overflow above the least `i64`.
abbrev pub neg : ℤ → ℤ
neg (pos zero) = pos 0
neg (pos (suc n)) = negsuc n
neg (negsuc n) = pos (suc n)

abbrev pub is_digit : ℕ → Bool
is_digit c = leb b'0' c && leb c b'9'

-- The number that decimal digits write, behind `acc`.
unfoldable pub digits_value : ℕ → Str → Option ℕ
digits_value acc [] = some acc
digits_value acc (c ∷ s) =
    let rest = digits_value (10 * acc + (c - b'0')) s in if is_digit c then rest else none

abbrev pub i64_bound : ℕ
i64_bound = 9223372036854775808

abbrev non_negative : Option ℕ → Option ℤ
non_negative none = none
non_negative (some n) = if ltb n i64_bound then some (pos n) else none

abbrev negative : Option ℕ → Option ℤ
negative none = none
negative (some n) = if leb n i64_bound then some (neg (pos n)) else none

abbrev digits : Str → Option ℕ
digits [] = none
digits (c ∷ s) = digits_value 0 (c ∷ s)

-- `str::parse::<i64>`: an optional sign and at least one digit, in range.
unfoldable pub parse_i64 : Str → Option ℤ
parse_i64 [] = none
parse_i64 (c ∷ s) =
    if c == b'-'
    then negative (digits s)
    else if c == b'+'
    then non_negative (digits s)
    else non_negative (digits (c ∷ s))

-- `i64::to_le_bytes`: two's complement
abbrev pub i64_to_le_bytes : ℤ → Bytes
i64_to_le_bytes (pos n) = to_le_bytes 8 n
i64_to_le_bytes (negsuc n) = to_le_bytes 8 (2 * i64_bound - 1 - n)
