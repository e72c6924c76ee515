-- ===== src/Tests.antt =====
-- The theorems on integers, strings and encodings at concrete inputs.
use luster.Prelude.{◌∷◌, [], ◌-◌, arith}
use luster.I64.{modulus, mod_i64}
use luster.Numbers.{read_hex_integer, read_neg, from_digit, read_integer}
use luster.Numbers.Integers.{
  ReadsHex, read_hex_integer-ReadsHex, Reads, digits_value, read_integer-Reads,
}
use luster.I64.Laws.{Reduces, mod_i64-Reduces}

-- -7 by 3
mod_i64-Reduces_example : Reduces (modulus - 7) 3 (mod_i64 (modulus - 7) 3)
mod_i64-Reduces_example = mod_i64-Reduces (modulus - 7) 3 (omega arith) (omega arith)

-- The text -12
read_integer-Reads_example :
    Reads
      (read_neg (45 ∷ 49 ∷ 50 ∷ [])).0
      (digits_value from_digit 10 0 (read_neg (45 ∷ 49 ∷ 50 ∷ [])).1)
      (read_integer (45 ∷ 49 ∷ 50 ∷ []))
read_integer-Reads_example = read_integer-Reads (45 ∷ 49 ∷ 50 ∷ [])

-- The text -0x1F
read_hex_integer-ReadsHex_example :
    ReadsHex
      (read_neg (45 ∷ 48 ∷ 120 ∷ 49 ∷ 70 ∷ [])).0
      (read_neg (45 ∷ 48 ∷ 120 ∷ 49 ∷ 70 ∷ [])).1
      (read_hex_integer (45 ∷ 48 ∷ 120 ∷ 49 ∷ 70 ∷ []))
read_hex_integer-ReadsHex_example = read_hex_integer-ReadsHex (45 ∷ 48 ∷ 120 ∷ 49 ∷ 70 ∷ [])
