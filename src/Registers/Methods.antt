-- ===== src/Registers/Methods.antt =====
-- What each method of the register allocator promises, on every branch, as an effect on the set
-- of registers in use.
use luster.Prelude.{
  ℕ, ◌+◌, ◌-◌, ◌%◌, ◌≤◌, ◌<◌, max, ◌≡◌, refl, ◌⊎◌, inl, inr, true, false, ◌&&◌, Option, none, some,
  arith, ltb, leb, ◌==◌, Bool-cases,
}
use luster.Prelude.Run.{Run, done, panic, ◌>>=◌}
use luster.Registers.{RegisterAllocator, write, fill, allocate, pop_to, free, push_block, push}
use luster.Registers.Valid.{
  IsValid, allocated-IsValid, popped-IsValid, popped-le, pushed-IsValid, freed-IsValid,
}

-- The result of `allocate`.
abbrev pub Allocates : RegisterAllocator → Option ℕ × RegisterAllocator → Type 0
Allocates a (none, a') = ((j : ℕ) → j < 256 → a.registers j ≡ true) × (a' ≡ a)
Allocates a (some r, a') =
    (r < 256)
    × (a.registers r ≡ false)
    × ((j : ℕ) → j < r → a.registers j ≡ true)
    × ((j : ℕ) → a'.registers j ≡ write a.registers r true j)
    × (a'.stack_size ≡ max a.stack_size a'.stack_top)
    × IsValid a'

-- The result of `push`.
abbrev pub Pushes : ℕ → RegisterAllocator → Run (Option ℕ × RegisterAllocator) → Type 0
Pushes size a panic = (0 < size) × (a.stack_top + size ≡ 256)
Pushes size a (done (none, a')) = (a' ≡ a) × ((size ≡ 0) ⊎ (256 < a.stack_top + size))
Pushes size a (done (some r, a')) =
    (0 < size)
    × (r ≡ a.stack_top)
    × (a.stack_top + size < 256)
    × (a'.stack_top ≡ a.stack_top + size)
    × ((j : ℕ) → a'.registers j ≡ fill a.registers a.stack_top (a.stack_top + size) true j)
    × (a'.stack_size ≡ max a.stack_size a'.stack_top)
    × IsValid a'

-- The result of `free`.
abbrev pub Frees : ℕ → RegisterAllocator → Run RegisterAllocator → Type 0
Frees r a panic = a.registers r ≡ false
Frees r a (done a') =
    (a.registers r ≡ true)
    × ((j : ℕ) → a'.registers j ≡ write a.registers r false j)
    × (a'.stack_size ≡ a.stack_size)
    × IsValid a'

-- The result of `pop_to`.
abbrev pub Pops : ℕ → RegisterAllocator → RegisterAllocator → Type 0
Pops n a a' =
    ((j : ℕ) → a'.registers j ≡ a.registers j && ltb j n)
    × (a'.stack_top ≤ n)
    × (a'.stack_size ≡ a.stack_size)
    × IsValid a'

module _ {a : RegisterAllocator} (v : IsValid a) where
  -- `allocate` fails only if all 256 registers are in use, and then changes nothing. Otherwise it
  -- returns the least free register, takes that one alone, raises the stack size to the new top
  -- where that is greater, and keeps the invariant.
  pub allocate-Allocates : Allocates a (allocate a)
  unfolding allocate
  allocate-Allocates = elim (Bool-cases (ltb a.first_free 256)) [
    | inr e ↦ rw e (λ j h. v.below j (ground arith), refl)
    | inl e ↦ rw e (
      omega arith,
      ground (arith, v.at, v.above a.first_free, v.free_le),
      λ j h. v.below j (ground arith),
      λ j. refl,
      ground (arith, v.high_water),
      allocated-IsValid v (ground arith),
    )
  ]

  -- `pop_to n` frees exactly the registers from `n` on, leaves the top at most `n` and the stack
  -- size as it was, and keeps the invariant.
  pub pop_to-Pops : (n : ℕ) → Pops n a (pop_to n a)
  unfolding pop_to
  pop_to-Pops n = elim (Bool-cases (ltb n a.stack_top)) [
    | inr e ↦ rw e (λ j. ground (arith, v.above j), ground arith, refl, v)
    | inl e ↦
        let p = popped-IsValid v n (ground arith) in
        rw e (λ j. ground (arith, v.above j), popped-le v n (ground arith), refl, p)
  ]

  -- `free` panics exactly on a register that is not in use. Otherwise it frees that one alone,
  -- leaves the stack size as it was, and keeps the invariant.
  pub free-Frees : (r : ℕ) → Frees r a (free r a)
  unfolding free
  free-Frees r = elim (Bool-cases (a.registers r)) [
    | inr e ↦ rw (e, ◌>>=◌) e
    | inl e ↦ elim (Bool-cases (r + 1 == a.stack_top)) [
      | inl top ↦
          let (regs, _, size, valid) = pop_to-Pops r in
          rw (e, top) (e, λ j. ground (arith, regs j, v.above j), size, valid)
      | inr inner ↦ rw (e, inner) (e, λ j. refl, refl, freed-IsValid v r e (ground arith))
    ]
  ]

  push_block-Pushes :
      (size : ℕ) → 0 < size → a.stack_top + size ≤ 256 → Pushes size a (push_block size a)
  unfolding push_block
  push_block-Pushes size pos room = elim (Bool-cases (ltb (a.stack_top % 256 + size) 256)) [
    | inr e ↦ rw e (pos, ground arith)
    | inl e ↦ rw e (
      pos,
      ground arith,
      ground arith,
      refl,
      λ j. ground arith,
      refl,
      pushed-IsValid v size (ground arith) pos,
    )
  ]

  -- `push` panics exactly for a block that ends at 256, since `rbegin + size` overflows a `u8`. It
  -- fails, and changes nothing, exactly for the size 0 or a block that ends beyond 256. Otherwise
  -- it takes exactly the `size` registers from the old top on, returns the first of them, raises
  -- the top and the stack size, and keeps the invariant.
  pub push-Pushes : (size : ℕ) → Pushes size a (push size a)
  unfolding push
  push-Pushes size = elim (Bool-cases (size == 0)) [
    | inl e ↦ rw e (refl, inl (ground arith))
    | inr e ↦
        let top : leb a.stack_top 256 ≡ true = ground (arith, v.in_range, v.high_water) in
        elim (Bool-cases (leb size (256 - a.stack_top))) [
          | inl fits ↦ rw (e, top, fits) (push_block-Pushes size (ground arith) (ground arith))
          | inr over ↦ rw (e, top, over) (refl, inr (ground arith))
        ]
  ]
