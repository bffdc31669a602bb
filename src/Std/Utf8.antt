-- ===== src/Std/Utf8.antt =====
-- `str::as_bytes`: the UTF-8 bytes of code points.
use rockduck.Prelude.{ℕ, ◌+◌, ◌/◌, ◌%◌, [], ◌∷◌, ◌++◌, Bytes, Str, ltb, if◌then◌else◌}

abbrev pub utf8_char : ℕ → Bytes
utf8_char c =
    if ltb c 0x80
    then c ∷ []
    else if ltb c 0x800
    then (0xC0 + c / 64) ∷ (0x80 + c % 64) ∷ []
    else if ltb c 0x10000
    then (0xE0 + c / 4096) ∷ (0x80 + c / 64 % 64) ∷ (0x80 + c % 64) ∷ []
    else (0xF0 + c / 262144) ∷ (0x80 + c / 4096 % 64) ∷ (0x80 + c / 64 % 64) ∷ (0x80 + c % 64) ∷ []

unfoldable pub as_bytes : Str → Bytes
as_bytes [] = []
as_bytes (c ∷ s) = utf8_char c ++ as_bytes s
