-- ===== src/OpCode.antt =====
-- src/opcode.rs: the instructions of the virtual machine, with the fields in the source's order.
-- An `i16` offset is an integer.
use luster.Prelude.{ℕ, Bool}
use luster.Prelude.Int.{ℤ}
use luster.Types.{
  RegisterIndex, ConstantIndex8, ConstantIndex16, UpValueIndex, PrototypeIndex, Opt254, VarCount,
}

pub data OpCode : Type 0 where
  move : RegisterIndex → RegisterIndex → OpCode
  load_constant : RegisterIndex → ConstantIndex16 → OpCode
  load_bool : RegisterIndex → Bool → Bool → OpCode
  load_nil : RegisterIndex → ℕ → OpCode
  new_table : RegisterIndex → OpCode
  get_table_r : RegisterIndex → RegisterIndex → RegisterIndex → OpCode
  get_table_c : RegisterIndex → RegisterIndex → ConstantIndex8 → OpCode
  set_table_rr : RegisterIndex → RegisterIndex → RegisterIndex → OpCode
  set_table_rc : RegisterIndex → RegisterIndex → ConstantIndex8 → OpCode
  set_table_cr : RegisterIndex → ConstantIndex8 → RegisterIndex → OpCode
  set_table_cc : RegisterIndex → ConstantIndex8 → ConstantIndex8 → OpCode
  get_up_table_r : RegisterIndex → UpValueIndex → RegisterIndex → OpCode
  get_up_table_c : RegisterIndex → UpValueIndex → ConstantIndex8 → OpCode
  set_up_table_rr : UpValueIndex → RegisterIndex → RegisterIndex → OpCode
  set_up_table_rc : UpValueIndex → RegisterIndex → ConstantIndex8 → OpCode
  set_up_table_cr : UpValueIndex → ConstantIndex8 → RegisterIndex → OpCode
  set_up_table_cc : UpValueIndex → ConstantIndex8 → ConstantIndex8 → OpCode
  call : RegisterIndex → VarCount → VarCount → OpCode
  tail_call : RegisterIndex → VarCount → OpCode
  return : RegisterIndex → VarCount → OpCode
  var_args : RegisterIndex → VarCount → OpCode
  jump : ℤ → Opt254 → OpCode
  test : RegisterIndex → Bool → OpCode
  test_set : RegisterIndex → RegisterIndex → Bool → OpCode
  closure : RegisterIndex → PrototypeIndex → OpCode
  numeric_for_prep : RegisterIndex → ℤ → OpCode
  numeric_for_loop : RegisterIndex → ℤ → OpCode
  generic_for_call : RegisterIndex → ℕ → OpCode
  generic_for_loop : RegisterIndex → ℤ → OpCode
  self_r : RegisterIndex → RegisterIndex → RegisterIndex → OpCode
  self_c : RegisterIndex → RegisterIndex → ConstantIndex8 → OpCode
  concat : RegisterIndex → RegisterIndex → ℕ → OpCode
  get_up_value : RegisterIndex → UpValueIndex → OpCode
  set_up_value : UpValueIndex → RegisterIndex → OpCode
  length : RegisterIndex → RegisterIndex → OpCode
  eq_rr : Bool → RegisterIndex → RegisterIndex → OpCode
  eq_rc : Bool → RegisterIndex → ConstantIndex8 → OpCode
  eq_cr : Bool → ConstantIndex8 → RegisterIndex → OpCode
  eq_cc : Bool → ConstantIndex8 → ConstantIndex8 → OpCode
  less_rr : Bool → RegisterIndex → RegisterIndex → OpCode
  less_rc : Bool → RegisterIndex → ConstantIndex8 → OpCode
  less_cr : Bool → ConstantIndex8 → RegisterIndex → OpCode
  less_cc : Bool → ConstantIndex8 → ConstantIndex8 → OpCode
  less_eq_rr : Bool → RegisterIndex → RegisterIndex → OpCode
  less_eq_rc : Bool → RegisterIndex → ConstantIndex8 → OpCode
  less_eq_cr : Bool → ConstantIndex8 → RegisterIndex → OpCode
  less_eq_cc : Bool → ConstantIndex8 → ConstantIndex8 → OpCode
  not : RegisterIndex → RegisterIndex → OpCode
  minus : RegisterIndex → RegisterIndex → OpCode
  add_rr : RegisterIndex → RegisterIndex → RegisterIndex → OpCode
  add_rc : RegisterIndex → RegisterIndex → ConstantIndex8 → OpCode
  add_cr : RegisterIndex → ConstantIndex8 → RegisterIndex → OpCode
  add_cc : RegisterIndex → ConstantIndex8 → ConstantIndex8 → OpCode
  sub_rr : RegisterIndex → RegisterIndex → RegisterIndex → OpCode
  sub_rc : RegisterIndex → RegisterIndex → ConstantIndex8 → OpCode
  sub_cr : RegisterIndex → ConstantIndex8 → RegisterIndex → OpCode
  sub_cc : RegisterIndex → ConstantIndex8 → ConstantIndex8 → OpCode
  mul_rr : RegisterIndex → RegisterIndex → RegisterIndex → OpCode
  mul_rc : RegisterIndex → RegisterIndex → ConstantIndex8 → OpCode
  mul_cr : RegisterIndex → ConstantIndex8 → RegisterIndex → OpCode
  mul_cc : RegisterIndex → ConstantIndex8 → ConstantIndex8 → OpCode
  div_rr : RegisterIndex → RegisterIndex → RegisterIndex → OpCode
  div_rc : RegisterIndex → RegisterIndex → ConstantIndex8 → OpCode
  div_cr : RegisterIndex → ConstantIndex8 → RegisterIndex → OpCode
  div_cc : RegisterIndex → ConstantIndex8 → ConstantIndex8 → OpCode
  idiv_rr : RegisterIndex → RegisterIndex → RegisterIndex → OpCode
  idiv_rc : RegisterIndex → RegisterIndex → ConstantIndex8 → OpCode
  idiv_cr : RegisterIndex → ConstantIndex8 → RegisterIndex → OpCode
  idiv_cc : RegisterIndex → ConstantIndex8 → ConstantIndex8 → OpCode
  mod_rr : RegisterIndex → RegisterIndex → RegisterIndex → OpCode
  mod_rc : RegisterIndex → RegisterIndex → ConstantIndex8 → OpCode
  mod_cr : RegisterIndex → ConstantIndex8 → RegisterIndex → OpCode
  mod_cc : RegisterIndex → ConstantIndex8 → ConstantIndex8 → OpCode
  pow_rr : RegisterIndex → RegisterIndex → RegisterIndex → OpCode
  pow_rc : RegisterIndex → RegisterIndex → ConstantIndex8 → OpCode
  pow_cr : RegisterIndex → ConstantIndex8 → RegisterIndex → OpCode
  pow_cc : RegisterIndex → ConstantIndex8 → ConstantIndex8 → OpCode
  bit_and_rr : RegisterIndex → RegisterIndex → RegisterIndex → OpCode
  bit_and_rc : RegisterIndex → RegisterIndex → ConstantIndex8 → OpCode
  bit_and_cr : RegisterIndex → ConstantIndex8 → RegisterIndex → OpCode
  bit_and_cc : RegisterIndex → ConstantIndex8 → ConstantIndex8 → OpCode
  bit_or_rr : RegisterIndex → RegisterIndex → RegisterIndex → OpCode
  bit_or_rc : RegisterIndex → RegisterIndex → ConstantIndex8 → OpCode
  bit_or_cr : RegisterIndex → ConstantIndex8 → RegisterIndex → OpCode
  bit_or_cc : RegisterIndex → ConstantIndex8 → ConstantIndex8 → OpCode
  bit_xor_rr : RegisterIndex → RegisterIndex → RegisterIndex → OpCode
  bit_xor_rc : RegisterIndex → RegisterIndex → ConstantIndex8 → OpCode
  bit_xor_cr : RegisterIndex → ConstantIndex8 → RegisterIndex → OpCode
  bit_xor_cc : RegisterIndex → ConstantIndex8 → ConstantIndex8 → OpCode
  shift_left_rr : RegisterIndex → RegisterIndex → RegisterIndex → OpCode
  shift_left_rc : RegisterIndex → RegisterIndex → ConstantIndex8 → OpCode
  shift_left_cr : RegisterIndex → ConstantIndex8 → RegisterIndex → OpCode
  shift_left_cc : RegisterIndex → ConstantIndex8 → ConstantIndex8 → OpCode
  shift_right_rr : RegisterIndex → RegisterIndex → RegisterIndex → OpCode
  shift_right_rc : RegisterIndex → RegisterIndex → ConstantIndex8 → OpCode
  shift_right_cr : RegisterIndex → ConstantIndex8 → RegisterIndex → OpCode
  shift_right_cc : RegisterIndex → ConstantIndex8 → ConstantIndex8 → OpCode
  bit_not : RegisterIndex → RegisterIndex → OpCode
