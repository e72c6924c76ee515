-- ===== src/Vm/Frame.antt =====
-- src/thread/vm.rs: the registers of a frame, and what the instructions do with them.
use luster.Prelude.{
  ℕ, zero, suc, ◌+◌, ◌-◌, ◌^◌, ◌&&◌, Bool, not, Option, List, length, get_elem?, set, ltb, leb,
  if◌then◌else◌,
}
use luster.Prelude.Int.{ℤ, pos, negsuc}
use luster.Prelude.Run.{Run}
use luster.Types.{RegisterIndex}
use luster.Float.{Float}
use luster.Value.{Value}
use luster.Constant.{Constant, to_value}
use luster.Vm.Outcome.{Step, next, panics, ◌>>=◌, BinaryOperatorError, or_fail, or_panic, lift}

abbrev pub same : Bool → Bool → Bool
same a b = if a then b else not b

-- `add_offset`: the offset is an `i16`, and the negation of the least one overflows.
unfoldable pub add_offset : ℕ → ℤ → Step ℕ
add_offset pc (pos n) = if ltb (pc + n) (2 ^ 64) then next (pc + n) else panics
add_offset pc (negsuc n) =
    if leb (suc n) pc && ltb n (2 ^ 15 - 1) then next (pc - suc n) else panics

module _ ⦃fl : Float⦄ where
  -- The registers of a frame: the program counter and the frame's part of the stack.
  pub record Registers : Type 0 where
    pub pc : ℕ
    pub stack_frame : List (Value fl.F64)

  abbrev pub Constants : Type 0
  Constants = List (Constant fl.F64)

  -- `registers.stack_frame[r.0 as usize]`, read and written.
  unfoldable pub register : RegisterIndex → Registers → Step (Value fl.F64)
  register r f = or_panic (get_elem? f.stack_frame r)

  unfoldable pub write : RegisterIndex → Value fl.F64 → Registers → Step Registers
  write r v f =
      if ltb r (length f.stack_frame)
      then next (record f { stack_frame = set f.stack_frame r v })
      else panics

  -- `current_function.0.proto.constants[c.0 as usize].to_value()`
  unfoldable pub constant : ℕ → Constants → Step (Value fl.F64)
  unfolding to_value
  constant c p = do k ← or_panic (get_elem? p c); next (to_value k)

  -- `*registers.pc += 1` under a condition.
  unfoldable pub skip_when : Bool → Registers → Registers
  skip_when b f = if b then record f { pc = f.pc + 1 } else f

  unfoldable pub jump_by : ℤ → Registers → Step Registers
  unfolding add_offset
  jump_by offset f = do target ← add_offset f.pc offset; next (record f { pc = target })

  -- The loop of `LoadNil`: `count` registers from `dest` on.
  unfoldable pub load_nils : ℕ → RegisterIndex → Registers → Step Registers
  unfolding write
  load_nils zero dest f = next f
  load_nils (suc count) dest f = do g ← write dest Value.nil f; load_nils count (dest + 1) g

  -- An arithmetic or bitwise instruction, with its operands read and its operator applied.
  unfoldable pub arithmetic :
      BinaryOperatorError
      → (Value fl.F64 → Value fl.F64 → Run (Option (Value fl.F64)))
      → RegisterIndex
      → Step (Value fl.F64)
      → Step (Value fl.F64)
      → Registers
      → Step Registers
  unfolding write
  arithmetic e op dest left right f = do
    a ← left
    b ← right
    r ← lift (op a b)
    v ← or_fail e r
    write dest v f

  -- A comparison, with its operands read: the next instruction is skipped if the result is
  -- `skip_if`.
  unfoldable pub comparison :
      (Value fl.F64 → Value fl.F64 → Step Bool)
      → Bool
      → Step (Value fl.F64)
      → Step (Value fl.F64)
      → Registers
      → Step Registers
  unfolding skip_when
  comparison test skip_if left right f = do
    a ← left
    b ← right
    r ← test a b
    next (skip_when (same r skip_if) f)
