-- ===== src/Table/Size.antt =====
-- The optimal size of a table's array part, from the indices that could live there.
use luster.Prelude.{
  ℕ, zero, suc, ◌+◌, ◌/◌, ◌^◌, ◌&&◌, List, [], ◌∷◌, ◌++◌, length, get_or, set, replicate, ltb, leb,
  if◌then◌else◌,
}

-- The array `LOG_2` of `highest_bit`.
unfoldable pub log_2 : List ℕ
log_2 =
    0
    ∷ (1
        ∷ (replicate 2 2
            ++ (replicate 4 3
                ++ (replicate 8 4
                    ++ (replicate 16 5
                        ++ (replicate 32 6 ++ (replicate 64 7 ++ replicate 128 8)))))))

-- The loop of `highest_bit`, on fuel: 8 rounds suffice below 2 ^ 64.
highest_bit_loop : ℕ → ℕ → ℕ → ℕ
unfolding log_2
highest_bit_loop zero hb i = hb + get_or log_2 i 0
highest_bit_loop (suc fuel) hb i =
    let rest = highest_bit_loop fuel (hb + 8) (i / 2 ^ 8) in
    if leb 256 i then rest else hb + get_or log_2 i 0

unfoldable pub highest_bit : ℕ → ℕ
unfolding highest_bit_loop
highest_bit i = highest_bit_loop 8 0 i

-- `array_counts[highest_bit(i)] += 1` for every candidate.
count_all : List ℕ → List ℕ → List ℕ
unfolding highest_bit
count_all [] counts = counts
count_all (i ∷ is) counts =
    let b = highest_bit i in count_all is (set counts b (get_or counts b 0 + 1))

-- `for i in 0..USIZE_BITS`, with `n` rounds left.
size_loop : ℕ → ℕ → List ℕ → ℕ → ℕ → ℕ → ℕ
size_loop zero i counts array_total total optimal = optimal
size_loop (suc n) i counts array_total total optimal =
    let total' = total + get_or counts i 0 in
    let optimal' = if ltb 0 (get_or counts i 0) && ltb (2 ^ i / 2) total' then 2 ^ i else optimal in
    let rest = size_loop n (i + 1) counts array_total total' optimal' in
    if leb array_total (2 ^ i / 2) then optimal else rest

unfoldable pub optimal_size : List ℕ → ℕ
unfolding count_all size_loop
optimal_size is = size_loop 64 0 (count_all is (replicate 64 0)) (length is) 0 0
