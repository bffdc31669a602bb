-- ===== src/Read/Tests.antt =====
-- Segments of one column: of integers from 1 to 4, and of texts.
use rockduck.Prelude.{
  ℕ, ◌≡◌, ◌≢◌, inl, inr, refl, Bool, true, false, Option, none, some, [], ◌∷◌, Bytes, Str,
}
use rockduck.Prelude.{sym, In, length, ◌<◌, arith}
use rockduck.Meta.BlockStats.{Array}
use rockduck.Meta.BlockStats.Within.{IsColumn, IsValue}
use rockduck.Read.Prune.Built.{row_of, segment_zone_map, should_skip-built}
use mathlib.Core.Path.{subst}
use rockduck.Std.Int.{pos}
use rockduck.Meta.ZoneMap.{DataType, int64, utf8, BlockStats, GranuleZoneMapIndex, bytes_lt, below}
use rockduck.Query.Expr.{eq, gt, ge, ScalarVal, Expr, comparison, or_expr}
use rockduck.Query.Predicates.{ZoneMapPredicateGroup, extract_predicates_grouped}
use rockduck.Query.Predicates.Sound.{Matches}
use rockduck.Read.Prune.{should_skip_segment_for_zone_map}
use rockduck.Read.Prune.LowerBound.{should_skip-text, should_skip-int64}

abbrev no_lt : Bytes → Bytes → Bool
no_lt l r = false

abbrev f64_bytes : ℕ → Bytes
f64_bytes f = []

abbrev bytes_of : ℕ → Bytes
bytes_of n = n ∷ 0 ∷ 0 ∷ 0 ∷ 0 ∷ 0 ∷ 0 ∷ 0 ∷ []

abbrev block_of : Bytes → Bytes → BlockStats
block_of lo hi = record {
  row_start = 0;
  row_end = 10;
  min_bytes = some lo;
  max_bytes = some hi;
  null_count = 0;
}

abbrev integers : GranuleZoneMapIndex
integers = record { column_type = int64; granules = (block_of (bytes_of 1) (bytes_of 4) ∷ []) ∷ [] }

abbrev texts : GranuleZoneMapIndex
texts = record { column_type = utf8; granules = (block_of (b'c' ∷ []) (b'x' ∷ []) ∷ []) ∷ [] }

abbrev col_a : Str
col_a = b'a' ∷ []

-- a = 9 or a = 2
abbrev nine_or_two : Expr ℕ
nine_or_two =
    or_expr (comparison col_a eq (ScalarVal.int64 (pos 9)))
      (comparison col_a eq (ScalarVal.int64 (pos 2)))

abbrev groups : ZoneMapPredicateGroup
groups = record {
  groups =
      record { column = col_a; ranges = (bytes_of 9, bytes_of 9) ∷ (bytes_of 2, bytes_of 2) ∷ [] }
      ∷ record { column = col_a; ranges = (bytes_of 9, bytes_of 9) ∷ (bytes_of 2, bytes_of 2) ∷ [] }
      ∷ [];
  has_cross_column_or = false;
}

extracted : extract_predicates_grouped f64_bytes nine_or_two ≡ some groups
unfolding extract_predicates_grouped rockduck.Query.Predicates.scalar_to_bytes
    rockduck.Query.Predicates.united
extracted = refl

some_injective {ℓ} : {A : Type ℓ} (x y : A) → some x ≡ some y → x ≡ y
some_injective x y h = cc

some-none : (y : Bytes) → some y ≢ none
some-none y h = ground arith

-- Texts up to `x`, and the filter a >= "d".
should_skip-text_example :
    (g : ZoneMapPredicateGroup) × (extract_predicates_grouped f64_bytes
        (comparison col_a ge (ScalarVal.string (b'd' ∷ [])))
      ≡ some g)
    × (should_skip_segment_for_zone_map no_lt no_lt (λ c. some texts) (some g) ≡ some true)
should_skip-text_example =
    should_skip-text no_lt no_lt (λ c. some texts) f64_bytes col_a ge texts refl refl
      ((b'c', [], refl), tt) (b'd' ∷ []) refl

reaches : below no_lt no_lt (some (bytes_of 4)) (bytes_of 3) int64 ≡ some false
unfolding bytes_lt rockduck.Meta.ZoneMap.read_bytes
reaches = refl

-- Integers up to 4, and the filter a > 3.
should_skip-int64_example :
    (g : ZoneMapPredicateGroup) × (extract_predicates_grouped f64_bytes
        (comparison col_a gt (ScalarVal.int64 (pos 3)))
      ≡ some g)
    × (should_skip_segment_for_zone_map no_lt no_lt (λ c. some integers) (some g) ≡ none)
should_skip-int64_example =
    should_skip-int64 no_lt no_lt (λ c. some integers) f64_bytes col_a gt integers refl refl
      ((1, 0 ∷ 0 ∷ 0 ∷ 0 ∷ 0 ∷ 0 ∷ 0 ∷ [], refl), tt) (pos 3) (block_of (bytes_of 1) (bytes_of 4))
      refl (inl refl) reaches

-- A segment of one column, of the values 7, null and 2, under every name.
abbrev never : Bytes → Bool
never x = false

abbrev column : Array
column = record {
  data_type = int64;
  int32_keys = false;
  values = some (bytes_of 7) ∷ none ∷ some (bytes_of 2) ∷ [];
}

abbrev columns : Str → Option Array
columns c = some column

column-IsColumn : IsColumn no_lt no_lt never never int64 column
column-IsColumn = record { of_type = refl; of_values = of_values }
  where
    of_values : (y : Bytes) → In (some y) column.values → IsValue int64 y
    of_values y (inl e) = subst (IsValue int64) (some_injective (bytes_of 7) y (sym e)) refl
    of_values y (inr (inl e)) = absurd (some-none y e)
    of_values y (inr (inr (inl e))) =
        subst (IsValue int64) (some_injective (bytes_of 2) y (sym e)) refl
    of_values y (inr (inr (inr e))) = absurd e

typed :
    (c : Str) (col : Array)
    → columns c ≡ some col
    → (length col.values < 4294967296) × IsColumn no_lt no_lt never never int64 col
typed c col h =
    subst (λ a. (length a.values < 4294967296) × IsColumn no_lt no_lt never never int64 a)
      (some_injective column col h) (omega arith, column-IsColumn)

third-Matches :
    Matches no_lt no_lt f64_bytes
      (λ c. int64)
      (row_of no_lt no_lt never never columns 2)
      nine_or_two
unfolding rockduck.Query.Predicates.scalar_to_bytes bytes_lt rockduck.Meta.ZoneMap.read_bytes
third-Matches = inr (bytes_of 2, refl, (refl, refl))

should_skip-built_example :
    should_skip_segment_for_zone_map no_lt no_lt
      (segment_zone_map no_lt no_lt never never columns)
      (some groups)
    ≢ some true
should_skip-built_example =
    should_skip-built no_lt no_lt never never columns f64_bytes (λ c. int64) nine_or_two groups 2
      (λ c. tt) typed (refl, refl) third-Matches extracted
