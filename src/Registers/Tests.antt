-- ===== src/Registers/Tests.antt =====
-- Runs of the register allocator, and its theorems at concrete inputs.
use luster.Prelude.{ℕ, ◌<◌, ◌≡◌, refl, subst, true, false, Option, some}
use luster.Prelude.Run.{Run, done, panic, ◌>>=◌}
use luster.Registers.{
  RegisterAllocator, default, fill, allocate, pop_to, free, push, push_block, push_room, next_free,
  trim,
}
use luster.Registers.Valid.{IsValid, default-IsValid}
use luster.Registers.Methods.{
  Allocates, Pushes, Frees, Pops, allocate-Allocates, pop_to-Pops, free-Frees, push-Pushes,
}
use luster.Registers.Runs.{SameStack, start, next, allocated, pushed, pop_to-push, Calls-stack_size}

program : Unit {0}
unfolding allocate pop_to free push push_block push_room next_free trim
program = tt

-- Three registers pushed.
abbrev three : RegisterAllocator
three = record {
  registers = fill (λ _. false) 0 3 true;
  first_free = 3;
  stack_top = 3;
  stack_size = 3;
}

push-three : push 3 default ≡ done (some 0, three)
unfolding program
push-three = refl

three-IsValid : IsValid three
three-IsValid = (subst (Pushes 3 default) push-three (push-Pushes default-IsValid 3)).6

-- A hole in the middle is reused before the top grows.
reuse : Run (Option ℕ × ℕ × ℕ)
reuse = do b ← free 1 three; let (r, c) = allocate b; done (r, c.first_free, c.stack_top)

reuse_runs : reuse ≡ done (some 1, 3, 3)
unfolding program reuse
reuse_runs = refl

-- The last register cannot be pushed: `255 + 1` overflows.
full : RegisterAllocator → Run ℕ
full a = do (_, b) ← push 255 a; (_, c) ← push 1 b; done c.stack_top

full_panics : full default ≡ panic
unfolding program full
full_panics = refl

allocate-Allocates_example : Allocates three (allocate three)
allocate-Allocates_example = allocate-Allocates three-IsValid

pop_to-Pops_example : Pops 1 three (pop_to 1 three)
pop_to-Pops_example = pop_to-Pops three-IsValid 1

free-Frees_example : Frees 1 three (free 1 three)
free-Frees_example = free-Frees three-IsValid 1

push-Pushes_example : Pushes 253 three (push 253 three)
push-Pushes_example = push-Pushes three-IsValid 253

pop_to-push_example : SameStack (pop_to 0 three) default
pop_to-push_example = pop_to-push default-IsValid 3 0 three push-three

Calls-stack_size_example :
    IsValid (allocate three).1
    × ((j : ℕ) → three.registers j ≡ true → j < (allocate three).1.stack_size)
Calls-stack_size_example =
    Calls-stack_size (next start (pushed 3 (some 0) push-three)) (next start allocated)
