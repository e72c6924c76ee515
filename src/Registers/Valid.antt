-- ===== src/Registers/Valid.antt =====
-- The invariant of the register allocator, and what each method does to it.
use luster.Prelude.{
  ℕ, ◌+◌, ◌-◌, ◌%◌, ◌≤◌, ◌<◌, min, max, ◌≡◌, ◌≢◌, refl, inl, inr, true, false, arith, ltb, ◌==◌,
  if◌then◌else◌, Bool-cases,
}
use luster.Registers.{RegisterAllocator, default, write, fill, allocate, pop_to, trim, next_free}
use luster.Registers.Scan.{next_free-Scanned, Trimmed-last, trim-Trimmed}

-- `first_free` is the least free index, `stack_top` is one past the last index in use (0 if there
-- is none), and `stack_size` is at least that.
pub record IsValid (a : RegisterAllocator) : Type 0 where
  pub in_range : a.stack_size ≤ 256
  pub high_water : a.stack_top ≤ a.stack_size
  pub free_le : a.first_free ≤ a.stack_top
  pub below : (j : ℕ) → j < a.first_free → a.registers j ≡ true
  pub at : a.first_free < a.stack_top → a.registers a.first_free ≡ false
  pub above : (j : ℕ) → a.stack_top ≤ j → a.registers j ≡ false
  pub last : 0 < a.stack_top → a.registers (a.stack_top - 1) ≡ true

pub default-IsValid : IsValid default
default-IsValid = record {
  in_range = omega arith;
  high_water = omega arith;
  free_le = omega arith;
  below = λ j h. absurd (omega arith);
  at = λ h. absurd (omega arith);
  above = λ j h. refl;
  last = λ h. absurd (omega arith);
}

module _ {a : RegisterAllocator} (v : IsValid a) where
  pub popped-IsValid :
      (n : ℕ)
      → n < a.stack_top
      → let regs = fill a.registers n a.stack_top false in
        let first = min a.first_free n in
        IsValid (record a {
          registers = regs;
          stack_top = trim regs first (n - first) n;
          first_free = first;
        })
  popped-IsValid n h =
      let regs = fill a.registers n a.stack_top false in
      let first = min a.first_free n in
      let t = trim-Trimmed regs first n (omega arith) in
      record {
        in_range = v.in_range;
        high_water = omega (arith, t.within, v.high_water);
        free_le = t.from;
        below = λ j l. ground (arith, v.below j);
        at = λ l. ground (arith, v.at, t.within);
        above = λ j l. ground (arith, t.cleared j, v.above j);
        last = Trimmed-last t (λ j l. ground (arith, v.below j));
      }

  pub popped-le :
      (n : ℕ)
      → n < a.stack_top
      → let regs = fill a.registers n a.stack_top false in
        let first = min a.first_free n in trim regs first (n - first) n ≤ n
  popped-le n h =
      (trim-Trimmed (fill a.registers n a.stack_top false) (min a.first_free n) n
        (omega arith)).within

  pub pop_to-IsValid : (n : ℕ) → IsValid (pop_to n a)
  unfolding pop_to
  pop_to-IsValid n = elim (Bool-cases (ltb n a.stack_top)) [
    | inr e ↦ rw e v
    | inl e ↦ rw e (popped-IsValid n (ground arith))
  ]

  pub allocated-IsValid :
      a.first_free < 256
      → let regs = write a.registers (a.first_free % 256) true in
        let top = if a.first_free == a.stack_top then a.stack_top + 1 else a.stack_top in
        IsValid (record {
          registers = regs;
          first_free = next_free 256 regs a.first_free;
          stack_top = top;
          stack_size = if a.first_free == a.stack_top then max a.stack_size top else a.stack_size;
        })
  allocated-IsValid h =
      let regs = write a.registers (a.first_free % 256) true in
      let n = next_free-Scanned 256 regs a.first_free (omega arith) (omega arith) in
      record {
        in_range = ground (arith, v.in_range, v.high_water);
        high_water = ground (arith, v.high_water);
        free_le = ground (
          arith,
          n.passed (a.stack_top + 1),
          n.passed a.stack_top,
          v.above (a.stack_top + 1),
          v.above a.stack_top,
          v.free_le,
        );
        below = λ j l. ground (arith, n.passed j, v.below j);
        at = λ l. ground (arith, n.found, v.in_range, v.high_water);
        above = λ j l. ground (arith, v.above j, v.free_le);
        last = λ l. ground (arith, v.last, v.free_le);
      }

  pub allocate-IsValid : IsValid (allocate a).1
  unfolding allocate
  allocate-IsValid = elim (Bool-cases (ltb a.first_free 256)) [
    | inr e ↦ rw e v
    | inl e ↦ rw e (allocated-IsValid (ground arith))
  ]

  pub pushed-IsValid :
      (size : ℕ)
      → a.stack_top + size < 256
      → 0 < size
      → IsValid (record {
        registers = fill a.registers (a.stack_top % 256) (a.stack_top % 256 + size) true;
        first_free = if a.first_free == a.stack_top then a.first_free + size else a.first_free;
        stack_top = a.stack_top + size;
        stack_size = max a.stack_size (a.stack_top + size);
      })
  pushed-IsValid size h pos = record {
    in_range = omega (arith, v.in_range);
    high_water = omega arith;
    free_le = ground (arith, v.free_le);
    below = λ j l. ground (arith, v.below j, v.free_le);
    at = λ l. ground (arith, v.at, v.free_le);
    above = λ j l. ground (arith, v.above j);
    last = λ l. ground arith;
  }

  pub freed-IsValid :
      (r : ℕ)
      → a.registers r ≡ true
      → r + 1 ≢ a.stack_top
      → IsValid
          (record a { registers = write a.registers r false; first_free = min a.first_free r })
  freed-IsValid r h n = record {
    in_range = v.in_range;
    high_water = v.high_water;
    free_le = omega (arith, v.free_le);
    below = λ j l. ground (arith, v.below j);
    at = λ l. ground (arith, v.at);
    above = λ j l. ground (arith, v.above j);
    last = λ l. ground (arith, v.last);
  }
