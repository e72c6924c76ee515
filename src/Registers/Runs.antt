-- ===== src/Registers/Runs.antt =====
-- Sequences of calls of the register allocator.
use luster.Prelude.{
  ℕ, ◌-◌, ◌≤◌, ◌<◌, ◌≡◌, refl, ap, subst, inl, inr, sym, true, false, Option, none, some, arith,
  ltb, Bool-cases,
}
use luster.Prelude.Run.{Run, done, panic}
use luster.Registers.{RegisterAllocator, default, write, allocate, pop_to, free, push}
use luster.Registers.Valid.{IsValid, default-IsValid}
use luster.Registers.Methods.{
  Allocates, Pushes, Frees, allocate-Allocates, pop_to-Pops, free-Frees, push-Pushes,
}

-- The same registers in use, the same least free one and the same top.
abbrev pub SameStack : RegisterAllocator → RegisterAllocator → Type 0
SameStack a b =
    ((j : ℕ) → a.registers j ≡ b.registers j)
    × (a.first_free ≡ b.first_free)
    × (a.stack_top ≡ b.stack_top)

module _ {a b : RegisterAllocator} (v : IsValid a) (w : IsValid b) where
  first_free-le : ((j : ℕ) → a.registers j ≡ b.registers j) → a.first_free ≤ b.first_free
  first_free-le same = elim (Bool-cases (ltb b.first_free a.first_free)) [
    | inr e ↦ ground arith
    | inl e ↦
        ground
          (arith, v.below b.first_free, same b.first_free, w.at, w.above b.first_free, w.free_le)
  ]

  stack_top-le : ((j : ℕ) → a.registers j ≡ b.registers j) → a.stack_top ≤ b.stack_top
  stack_top-le same = elim (Bool-cases (ltb b.stack_top a.stack_top)) [
    | inr e ↦ ground arith
    | inl e ↦ ground (arith, v.last, same (a.stack_top - 1), w.above (a.stack_top - 1))
  ]

-- In a valid allocator the registers in use determine `first_free` and `stack_top`.
pub IsValid-SameStack :
    {a b : RegisterAllocator}
    → IsValid a
    → IsValid b
    → ((j : ℕ) → a.registers j ≡ b.registers j)
    → SameStack a b
IsValid-SameStack v w same = (
  same,
  omega (arith, first_free-le v w same, first_free-le w v (λ j. sym (same j))),
  omega (arith, stack_top-le v w same, stack_top-le w v (λ j. sym (same j))),
)

module _ {a : RegisterAllocator} (v : IsValid a) where
  -- Popping back to the start of a pushed block restores what was in use, and the two indices.
  pub pop_to-push :
      (size r : ℕ) (b : RegisterAllocator)
      → push size a ≡ done (some r, b)
      → SameStack (pop_to r b) a
  pop_to-push size r b e =
      let (_, start, _, _, regs, _, w) = subst (Pushes size a) e (push-Pushes v size) in
      let (kept, _, _, u) = pop_to-Pops w r in
      IsValid-SameStack u v (λ j. ground (arith, kept j, regs j, v.above j))

  -- Freeing a register that `allocate` has just given out does not panic, and restores what was
  -- in use, and the two indices.
  pub free-allocate :
      (r : ℕ) (b : RegisterAllocator)
      → allocate a ≡ (some r, b)
      → (c : RegisterAllocator) × (free r b ≡ done c) × SameStack c a
  free-allocate r b e =
      let (_, unused, _, regs, _, w) = subst (Allocates a) e (allocate-Allocates v) in
      go (free r b) refl unused regs (free-Frees w r)
    where
      go :
          (o : Run RegisterAllocator)
          → free r b ≡ o
          → a.registers r ≡ false
          → ((j : ℕ) → b.registers j ≡ write a.registers r true j)
          → Frees r b o
          → (c : RegisterAllocator) × (free r b ≡ done c) × SameStack c a
      go panic e' unused regs f = absurd (ground (arith, regs r))
      go (done c) e' unused regs (_, freed, _, u) =
          (c, e', IsValid-SameStack u v (λ j. ground (arith, freed j, regs j)))

abbrev stack_size_of : RegisterAllocator → ℕ
stack_size_of a = a.stack_size

-- A call that does not panic.
pub data Step (a : RegisterAllocator) : RegisterAllocator → Type 0 where
  allocated : Step a (allocate a).1
  popped : (n : ℕ) → Step a (pop_to n a)
  freed : (r : ℕ) {b : RegisterAllocator} → free r a ≡ done b → Step a b
  pushed : (size : ℕ) (r : Option ℕ) {b : RegisterAllocator} → push size a ≡ done (r, b) → Step a b

pub data Calls (a : RegisterAllocator) : RegisterAllocator → Type 0 where
  start : Calls a a
  next : {b c : RegisterAllocator} → Calls a b → Step b c → Calls a c

-- A call keeps the invariant and lowers the stack size in no case.
abbrev pub Grows : RegisterAllocator → RegisterAllocator → Type 0
Grows a b = IsValid b × (a.stack_size ≤ b.stack_size)

allocated-Grows :
    (a : RegisterAllocator) (p : Option ℕ × RegisterAllocator)
    → IsValid a
    → Allocates a p
    → Grows a p.1
allocated-Grows a (none, b) v (_, e) = (subst IsValid (sym e) v, omega (arith, ap stack_size_of e))
allocated-Grows a (some r, b) v (_, _, _, _, size, w) = (w, omega arith)

Step-Grows : {a b : RegisterAllocator} → Step a b → IsValid a → Grows a b
Step-Grows {a} allocated v = allocated-Grows a (allocate a) v (allocate-Allocates v)
Step-Grows (popped n) v = let (_, _, size, w) = pop_to-Pops v n in (w, omega arith)
Step-Grows {a} (freed r e) v =
    let (_, _, size, w) = subst (Frees r a) e (free-Frees v r) in (w, omega arith)
Step-Grows {a} (pushed size none e) v =
    let (same, _) = subst (Pushes size a) e (push-Pushes v size) in
    (subst IsValid (sym same) v, omega (arith, ap stack_size_of same))
Step-Grows {a} (pushed size (some r) e) v =
    let (_, _, _, _, _, top, w) = subst (Pushes size a) e (push-Pushes v size) in (w, omega arith)

Calls-Grows : {a b : RegisterAllocator} → Calls a b → IsValid a → Grows a b
Calls-Grows start v = (v, omega arith)
Calls-Grows (next r st) v =
    let (w, m) = Calls-Grows r v in let (u, n) = Step-Grows st w in (u, omega arith)

-- In every allocator that calls make of the default one, the invariant holds, and every register
-- that was in use at any point of the run stays below the stack size from then on.
pub Calls-stack_size :
    {a b : RegisterAllocator}
    → Calls default a
    → Calls a b
    → IsValid b × ((j : ℕ) → a.registers j ≡ true → j < b.stack_size)
Calls-stack_size before after =
    let (v, _) = Calls-Grows before default-IsValid in
    let (w, grows) = Calls-Grows after v in (w, λ j used. ground (arith, v.above j, v.high_water))
