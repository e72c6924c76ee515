-- ===== src/Registers.antt =====
-- src/compiler/register_allocator.rs: the allocator of a function's 256 registers. The array
-- `registers` is a function from the index; every index that the code uses is below 256. A method
-- that mutates returns its result beside the new allocator, and `Run` has the failed `assert!`
-- and the arithmetic overflows of a checked build.
use luster.Prelude.{
  ℕ, zero, suc, ◌+◌, ◌-◌, ◌%◌, ◌≤◌, ◌<◌, min, max, ◌≡◌, refl, Bool, true, false, not, ◌&&◌, ◌||◌,
  Option, none, some, arith, ltb, leb, ◌==◌, if◌then◌else◌,
}
use luster.Prelude.Run.{Run, done, panic, ◌>>=◌, ◌>>◌, assert, add_checked, sub_checked}
pub mod Scan
pub mod Valid
pub mod Methods
pub mod Runs
mod Tests

pub record RegisterAllocator : Type 0 where
  pub registers : ℕ → Bool
  pub first_free : ℕ
  pub stack_top : ℕ
  pub stack_size : ℕ

abbrev pub default : RegisterAllocator
default = record { registers = λ _. false; first_free = 0; stack_top = 0; stack_size = 0 }

-- `self.registers[i] = v`
abbrev pub write : (ℕ → Bool) → ℕ → Bool → ℕ → Bool
write regs i v j = if j == i then v else regs j

-- `for i in from..to { self.registers[i as usize] = v; }`
abbrev pub fill : (ℕ → Bool) → ℕ → ℕ → Bool → ℕ → Bool
fill regs from to v j = if leb from j && ltb j to then v else regs j

-- The loop of `allocate`: the first index from `i` on that is free, or 256.
pub next_free : ℕ → (ℕ → Bool) → ℕ → ℕ
next_free zero regs i = i
next_free (suc fuel) regs i =
    let rest = next_free fuel regs (i + 1) in if i == 256 || not (regs i) then i else rest

-- `for i in (first_free..stack_top).rev()`, with `n` indices left: leaves the new `stack_top`.
pub trim : (ℕ → Bool) → ℕ → ℕ → ℕ → ℕ
trim regs first_free zero top = top
trim regs first_free (suc n) top =
    let i = first_free + n in let rest = trim regs first_free n i in if regs i then top else rest

pub allocate : RegisterAllocator → Option ℕ × RegisterAllocator
allocate a =
    let register = a.first_free % 256 in
    let regs = write a.registers register true in
    let top = if a.first_free == a.stack_top then a.stack_top + 1 else a.stack_top in
    let size = if a.first_free == a.stack_top then max a.stack_size top else a.stack_size in
    let taken : RegisterAllocator = record {
      registers = regs;
      first_free = next_free 256 regs a.first_free;
      stack_top = top;
      stack_size = size;
    } in
    if ltb a.first_free 256 then (some register, taken) else (none, a)

pub pop_to : ℕ → RegisterAllocator → RegisterAllocator
pop_to new_top a =
    let regs = fill a.registers new_top a.stack_top false in
    let first = min a.first_free new_top in
    let popped : RegisterAllocator = record a {
      registers = regs;
      stack_top = trim regs first (new_top - first) new_top;
      first_free = first;
    } in
    if ltb new_top a.stack_top then popped else a

pub free : ℕ → RegisterAllocator → Run RegisterAllocator
free register a = do
  assert (a.registers register)
  let freed : RegisterAllocator = record a {
    registers = write a.registers register false;
    first_free = min a.first_free register;
  }
  done (if register + 1 == a.stack_top then pop_to register a else freed)

-- The block that `push` takes once there is room; `rbegin + size` is a `u8`, the other sums are
-- `u16`.
pub push_block : ℕ → RegisterAllocator → Run (Option ℕ × RegisterAllocator)
push_block size a = do
  let rbegin = a.stack_top % 256
  rend ← add_checked 8 rbegin size
  let top = a.stack_top + size
  let pushed : RegisterAllocator = record {
    registers = fill a.registers rbegin rend true;
    first_free = if a.first_free == a.stack_top then a.first_free + size else a.first_free;
    stack_top = top;
    stack_size = max a.stack_size top;
  }
  done (some rbegin, pushed)

push_room : ℕ → RegisterAllocator → Run (Option ℕ × RegisterAllocator)
push_room size a = do
  room ← sub_checked 256 a.stack_top
  if leb size room then push_block size a else done (none, a)

pub push : ℕ → RegisterAllocator → Run (Option ℕ × RegisterAllocator)
unfolding push_room
push size a = if size == 0 then done (none, a) else push_room size a
