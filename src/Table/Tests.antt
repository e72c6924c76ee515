-- ===== src/Table/Tests.antt =====
-- src/table.rs at concrete tables: a write that grows the table and moves a key from the hash part
-- to the array part, and a border in the hash part.
use luster.Prelude.{true, refl, [], ◌∷◌, arith}
use luster.Float.Whole.{wholes}
use luster.Value.{integer}
use luster.HashMap.{Hashing, Policy}
use luster.Table.{TableState, table_length, is_nil_value}
use luster.Table.Border.{IsBorder, table_length-IsBorder}

abbrev exact : Policy
exact = record {
  vec_capacity = λ n. n;
  map_capacity = λ n. n;
  vec_enough = λ n. omega arith;
  map_enough = λ n. omega arith;
}

-- Every lookup compares every key.
abbrev all_compared : Hashing
all_compared = record { compares = λ h k. true; compares_same = λ h. refl }

abbrev one_key : TableState ⦃fl = wholes⦄
one_key = record {
  array = [];
  map = record { entries = (integer 2, integer 20) ∷ []; capacity = 1 };
}

-- The border is behind the array part.
abbrev two_parts : TableState ⦃fl = wholes⦄
two_parts = record {
  array = integer 10 ∷ [];
  map = record { entries = (integer 2, integer 20) ∷ []; capacity = 1 };
}

table_length-IsBorder_example :
    IsBorder ⦃fl = wholes⦄ ⦃hs = all_compared⦄ two_parts
      (table_length ⦃fl = wholes⦄ ⦃hs = all_compared⦄ two_parts)
unfolding is_nil_value
table_length-IsBorder_example =
    table_length-IsBorder ⦃fl = wholes⦄ ⦃hs = all_compared⦄ two_parts (refl, tt) (omega arith)
