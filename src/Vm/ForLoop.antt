-- ===== src/Vm/ForLoop.antt =====
-- src/thread/vm.rs, `NumericForLoop` on integers, against the integers that the patterns stand for.
use luster.Prelude.{
  ℕ, ◌+◌, ◌<◌, ◌≡◌, refl, sym, ap, ◌∙◌, Bool, true, false, arith, length, set, length-set,
  if◌then◌else◌, Bool-cases, inl, inr, subst,
}
use luster.Prelude.Int.{ℤ, pos, ◌+ℤ◌, ltb_ℤ}
use luster.Types.{RegisterIndex}
use luster.OpCode.{OpCode}
use luster.Float.{Float}
use luster.I64
use luster.I64.{to_ℤ, wrapping_add, sum_overflows, is_negative, checked_sum}
use luster.I64.Laws.{IsI64, lt-ltb_ℤ, wrapping_add-+ℤ}
use luster.Value.{integer}
use luster.Vm
use luster.Vm.{Registers, Constants, exec}
use luster.Vm.Frame.{add_offset}
use luster.Vm.Loops.{loop_integers}
use luster.Vm.Writes.{write-fits}
use luster.Vm.Outcome.{Step, next, panics, ◌>>=◌}

-- Whether a loop with this step has passed its limit.
abbrev pub past_end : ℤ → ℤ → ℤ → Bool
past_end i limit step = if ltb_ℤ step (pos 0) then ltb_ℤ i limit else ltb_ℤ limit i

module _ ⦃fl : Float⦄ where
  -- The registers behind `NumericForLoop` for the new index `i`, at the target of the jump if the
  -- loop goes on.
  abbrev pub stepped : RegisterIndex → ℕ → ℕ → Bool → Registers → Registers
  stepped base i target past f =
      let indexed = set f.stack_frame base (integer i) in
      if past
      then record f { stack_frame = indexed }
      else record { pc = target; stack_frame = set indexed (base + 3) (integer i) }

  -- The result of `NumericForLoop`, by whether the sum of the index and the step is an `i64`.
  abbrev pub Advances : Bool → RegisterIndex → ℕ → ℕ → ℕ → ℕ → Registers → Step Registers → Type 0
  Advances true base target index limit step f r = r ≡ panics
  Advances false base target index limit step f r =
      (i : ℕ) × (to_ℤ i ≡ to_ℤ index +ℤ to_ℤ step)
      × (r ≡ next (stepped base i target (past_end (to_ℤ i) (to_ℤ limit) (to_ℤ step)) f))

  past_end-lt :
      (i limit step : ℕ)
      → IsI64 i
      → IsI64 limit
      → IsI64 step
      → (if is_negative step then I64.lt i limit else I64.lt limit i)
        ≡ past_end (to_ℤ i) (to_ℤ limit) (to_ℤ step)
  past_end-lt i limit step h k l = ground (arith, lt-ltb_ℤ i limit h k, lt-ltb_ℤ limit i k h)

  wrapping_add-IsI64 : (a b : ℕ) → IsI64 (wrapping_add a b)
  unfolding wrapping_add
  wrapping_add-IsI64 a b = omega arith

  continues :
      (base : RegisterIndex) (jump : ℤ) (i target : ℕ) (past : Bool) (f : Registers)
      → base + 3 < length f.stack_frame
      → add_offset f.pc jump ≡ next target
      → (Vm.write base (integer i) f >>= λ g.
          if past then next g else (Vm.jump_by jump g >>= Vm.write (base + 3) (integer i)))
        ≡ next (stepped base i target past f)
  unfolding Vm.jump_by
  continues base jump i target true f room to =
      rw (write-fits base (integer i) f (omega arith)) refl
  continues base jump i target false f room to =
      let indexed = set f.stack_frame base (integer i) in
      rw (write-fits base (integer i) f (omega arith), to, Vm.jump_by)
        (write-fits (base + 3) (integer i) (record { pc = target; stack_frame = indexed })
          (subst (λ n. base + 3 < n) (sym (length-set f.stack_frame base (integer i))) room))

  loop_integers-Advances :
      (base : RegisterIndex) (jump : ℤ) (index limit step target : ℕ) (f : Registers)
      → IsI64 index
      → IsI64 limit
      → IsI64 step
      → base + 3 < length f.stack_frame
      → add_offset f.pc jump ≡ next target
      → Advances
          (sum_overflows index step)
          base
          target
          index
          limit
          step
          f
          (loop_integers base jump index limit step f)
  unfolding loop_integers checked_sum wrapping_add
  loop_integers-Advances base jump index limit step target f h k l room to =
      elim (Bool-cases (sum_overflows index step)) [
        | inl e ↦ rw e refl
        | inr e ↦
            let i = wrapping_add index step in
            rw e (
              i,
              wrapping_add-+ℤ index step h l e,
              continues base jump i target _ f room to
                  ∙ ap (λ b. next (stepped base i target b f))
                      (past_end-lt i limit step (wrapping_add-IsI64 index step) k l),
            )
      ]

  -- `NumericForLoop` on an integer index, limit and step: it panics if their sum is no `i64`, and
  -- otherwise the new index is the sum. It is stored, and if it is not past the limit, in the
  -- direction of the step's sign, the machine jumps and stores it in the loop's variable too. The
  -- four registers are in the frame, and the offset of the jump leads to a target.
  pub numeric_for_loop-Advances :
      (p : Constants) (base : RegisterIndex) (jump : ℤ) (index limit step target : ℕ)
      (f : Registers)
      → IsI64 index
      → IsI64 limit
      → IsI64 step
      → base + 3 < length f.stack_frame
      → add_offset f.pc jump ≡ next target
      → Vm.register base f ≡ next (integer index)
      → Vm.register (base + 1) f ≡ next (integer limit)
      → Vm.register (base + 2) f ≡ next (integer step)
      → Advances
          (sum_overflows index step)
          base
          target
          index
          limit
          step
          f
          (exec p (OpCode.numeric_for_loop base jump) f)
  unfolding exec Vm.exec_test Vm.exec_numeric_for Vm.Loops.numeric_for_loop
  numeric_for_loop-Advances p base jump index limit step target f h k l room to x y z =
      rw (x, y, z) (loop_integers-Advances base jump index limit step target f h k l room to)
