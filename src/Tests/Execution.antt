-- ===== src/Tests/Execution.antt =====
-- The parts of the processor at concrete registers.
use dspic33e_sim.Prelude.{◌/◌}
use dspic33e_sim.Prelude.{ℕ, ◌+◌, ◌-◌, ◌*◌, ◌%◌, ◌^◌, ◌<◌, ◌≡◌, refl, arith, min, max}
use dspic33e_sim.Prelude.{true, false, not, ◌&&◌, ◌||◌, ◌==◌, ◌!=◌, ltb, leb, bit_and}
use dspic33e_sim.Prelude.{some, u16, ◌<<<◌, ◌>>>◌}
use dspic33e_sim.Device.State.{Dspic33, blank, blank_soft_trap}
use dspic33e_sim.Device.Memory.{raw_write_word}
use dspic33e_sim.Execution.Alu.Compare.{compared, signed_lt, compare_branches}
use dspic33e_sim.Execution.Branch.{branch_condition, compare_control_taken, less_than}
use dspic33e_sim.Execution.Branch.Control.{
  control_operand, control_byte_mode, control_condition, compare_control_branches,
}
use dspic33e_sim.Execution.Address.{
  stored_word, modulo_address, modulo_start, modulo_end, modulo_addressing_enabled,
  bit_reversed_address, mapped_data_address, OperandResolution, resolve_operand_address,
  bit_reversed_addressing_enabled, pseudo_linear_addressing_enabled, pseudo_linear_terminal_page,
}
use dspic33e_sim.Execution.Address.Modulo.{around, modulo_forward}
use dspic33e_sim.Execution.Address.Reversed.{reversed, bit_reversed_address_adds}
use dspic33e_sim.Execution.Address.Linear.{page_after, resolve_operand_address_linear}
use dspic33e_sim.Execution.Accumulator.{
  store_accumulator_result, saturation_minimum, saturation_maximum,
  accumulator_store_value_with_rounding,
}
use dspic33e_sim.Execution.Accumulator.Saturation.{signed_place, store_accumulator_result_saturates}
use dspic33e_sim.Execution.Accumulator.Rounding.{round_half_even, accumulator_store_value_rounds}
use dspic33e_sim.Execution.Divide.{execute_divide, divisor_of, dividend_of}
use dspic33e_sim.Execution.Divide.Unsigned.{IsDividing, execute_divide_unsigned}
use dspic33e_sim.Execution.Alu.{flag_carry}
use dspic33e_sim.Execution.Alu.Flags.{flag}
use dspic33e_sim.Execution.Decimal.{execute_decimal_adjust}
use dspic33e_sim.Execution.Decimal.Sum.{IsDecimal, decimal, added, execute_decimal_adjust_adds}
use dspic33e_sim.Execution.Traps.{schedule_soft_trap, trap_service, trap_conflict, conflict_reset}
use dspic33e_sim.Execution.Traps.Pending.{IsDistinct, schedule_soft_trap-IsDistinct}
use dspic33e_sim.Execution.Traps.Select.{IsDecided, trap_service-IsDecided}

-- 5 and 7 as words.
compare_branches_example :
    (branch_condition (compared blank 5 7 false) 0x02 ≡ some (5 == 7))
    × (branch_condition (compared blank 5 7 false) 0x0a ≡ some (5 != 7))
    × (branch_condition (compared blank 5 7 false) 0x01 ≡ some (leb 7 5))
    × (branch_condition (compared blank 5 7 false) 0x09 ≡ some (ltb 5 7))
    × (branch_condition (compared blank 5 7 false) 0x0e ≡ some (ltb 7 5))
    × (branch_condition (compared blank 5 7 false) 0x06 ≡ some (leb 5 7))
    × (branch_condition (compared blank 5 7 false) 0x05 ≡ some (signed_lt false 5 7))
    × (branch_condition (compared blank 5 7 false) 0x0d ≡ some (not (signed_lt false 5 7)))
    × (branch_condition (compared blank 5 7 false) 0x04 ≡ some (5 == 7 || signed_lt false 5 7))
    × (branch_condition (compared blank 5 7 false) 0x0c
        ≡ some (5 != 7 && not (signed_lt false 5 7)))
compare_branches_example = compare_branches blank 5 7 false (omega arith) (omega arith)

-- Registers that hold their numbers.
abbrev numbered : Dspic33
numbered = record blank { w = λ i. min i 15 }

compare_control_branches_example :
    branch_condition
      (compared numbered
        (control_operand numbered (control_byte_mode 0xe68803) (bit_and (0xe68803 >>> 11) 0x0f))
        (control_operand numbered (control_byte_mode 0xe68803) (bit_and 0xe68803 0x0f))
        (control_byte_mode 0xe68803))
      (control_condition less_than)
    ≡ some (compare_control_taken numbered 0xe68803 less_than)
compare_control_branches_example =
    compare_control_branches numbered 0xe68803 less_than (λ reg. omega arith)

-- A modulo buffer from 0x1100 to 0x110f for register 1.
abbrev with_buffer : Dspic33
with_buffer =
    raw_write_word (raw_write_word (raw_write_word blank 0x0046 0x8001) 0x0048 0x1100) 0x004a 0x110f

modulo_forward_example :
    modulo_address with_buffer 1 (0x110e + 2) 2 false
    ≡ around
        (modulo_start with_buffer false)
        (modulo_end with_buffer false - modulo_start with_buffer false + 1)
        0x110e
        2
unfolding raw_write_word modulo_addressing_enabled stored_word
modulo_forward_example =
    modulo_forward with_buffer 1 false 0x110e 2 refl (omega arith) (omega arith) (omega arith)
      (omega arith) (omega arith)

bit_reversed_address_adds_example :
    (reversed 15 (bit_reversed_address blank 0x1002)
      ≡ (reversed 15 0x1002 + reversed 15 (u16 (stored_word blank 0x0050 <<< 1))) % 2 ^ 15)
    × (bit_reversed_address blank 0x1002 % 2 ≡ 0x1002 % 2)
bit_reversed_address_adds_example = bit_reversed_address_adds blank 0x1002

abbrev upper_address : ℕ
upper_address = 0x8123

abbrev program_page : ℕ
program_page = 0x0201

-- A pointer to the last word of page 1.
abbrev at_page_end : Dspic33
at_page_end = record blank { dswpag = 1; w = λ i. 0xfffe }

abbrev crossing : OperandResolution
crossing = record {
  address = 0xfffe;
  effective_address = 0xfffe;
  updated_register = 0x8000;
  access_register = 0xfffe;
  access_data_page = 1;
  updated_data_page = 2;
  wrapped = true;
  updates_register = true;
  paged_addressing_enabled = true;
  updates_data_page = true;
  unimplemented_data_page = false;
}

crosses : resolve_operand_address at_page_end at_page_end.w 3 2 0 2 true ≡ some crossing
unfolding resolve_operand_address modulo_address pseudo_linear_addressing_enabled
    bit_reversed_addressing_enabled stored_word modulo_addressing_enabled mapped_data_address
    pseudo_linear_terminal_page
crosses = refl

resolve_operand_address_linear_example :
    mapped_data_address crossing.updated_register (page_after at_page_end.dswpag crossing) true
    ≡ crossing.address + 2
unfolding modulo_addressing_enabled stored_word bit_reversed_addressing_enabled
resolve_operand_address_linear_example =
    resolve_operand_address_linear at_page_end at_page_end.w 2 0 2 refl refl (omega arith)
      (omega arith) (omega arith) (omega arith) (omega arith) (omega arith) (omega arith) crossing
      crosses

-- Saturation of accumulator A in 32 bits.
abbrev saturating : Dspic33
saturating = record blank { corcon = 0x0080 }

store_accumulator_result_saturates_example :
    signed_place ((store_accumulator_result saturating 0 0x123456789).accumulator 0)
    ≡ min
        (max (signed_place 0x123456789) (signed_place (saturation_minimum saturating)))
        (signed_place (saturation_maximum saturating))
store_accumulator_result_saturates_example =
    store_accumulator_result_saturates saturating 0 0x123456789 refl (omega arith)

accumulator_store_value_rounds_example :
    accumulator_store_value_with_rounding blank 0x00018000 true false ≡ round_half_even 0x00018000
accumulator_store_value_rounds_example =
    accumulator_store_value_rounds blank 0x00018000 (omega arith)

-- 15 divided by 4, the registers of their numbers.
numbered-IsDividing : IsDividing numbered 0xd88784
numbered-IsDividing = record {
  divisor_pos = omega arith;
  divisor_lt = omega arith;
  last_round = refl;
}

execute_divide_unsigned_example :
    (divisor_of numbered 0xd88784 * (execute_divide numbered 0xd88784).w 0
        + (execute_divide numbered 0xd88784).w 1
      ≡ dividend_of numbered 0xd88784)
    × ((execute_divide numbered 0xd88784).w 1 < divisor_of numbered 0xd88784)
execute_divide_unsigned_example =
    execute_divide_unsigned numbered 0xd88784 numbered-IsDividing refl (omega arith)

-- A loop at 0x200 with three rounds to go back for, that is to end after the next one.
abbrev ending_do : Dspic33
ending_do = record blank {
  do_depth = 1;
  do_count = λ i. 3;
  do_terminate = λ i. 2;
  do_start = λ i. 0x0200;
}

-- No trap waits.
blank-IsDistinct : IsDistinct blank.pending_soft_traps
blank-IsDistinct = record { same_slot = λ i j i-lt j-lt i-on j-on same. ground (arith, i-on) }

schedule_soft_trap-IsDistinct_example :
    IsDistinct (schedule_soft_trap blank 4 0x0c 11 2).pending_soft_traps
schedule_soft_trap-IsDistinct_example =
    schedule_soft_trap-IsDistinct blank 4 0x0c 11 2 blank-IsDistinct

-- A math error and a generic soft trap wait.
abbrev two_traps : Dspic33
two_traps = record blank {
  pending_soft_traps =
      λ i. record blank_soft_trap { is_active = ltb i 2; trap = 4 + 2 * i; priority = 11 - 2 * i };
}

trap_service-IsDecided_example : IsDecided two_traps (trap_service two_traps)
trap_service-IsDecided_example = trap_service-IsDecided two_traps

-- A hard trap that comes up while the processor serves one of priority 14 resets it.
abbrev conflicting : Dspic33
conflicting = record blank {
  corcon = 0x0008;
  sr = 0x00c0;
  pending_soft_traps =
      λ i. record blank_soft_trap { is_active = ltb i 2; trap = 2 + i; priority = 13 + 2 * i };
}

conflicting-resets : trap_service conflicting ≡ conflict_reset
unfolding trap_service trap_conflict
conflicting-resets = refl

-- 47 and 85 in decimal, in register 3.
first-IsDecimal : IsDecimal 4 7
first-IsDecimal = record { tens_lt = omega arith; ones_lt = omega arith }

second-IsDecimal : IsDecimal 8 5
second-IsDecimal = record { tens_lt = omega arith; ones_lt = omega arith }

execute_decimal_adjust_adds_example :
    ((execute_decimal_adjust (added blank 3 (decimal 4 7) (decimal 8 5)) 0xfd4003).w 3 % 0x100
      ≡ decimal (132 / 10 % 10) (132 % 10))
    × (flag
          (execute_decimal_adjust (added blank 3 (decimal 4 7) (decimal 8 5)) 0xfd4003).sr
          flag_carry
        ≡ leb 100 132)
execute_decimal_adjust_adds_example =
    execute_decimal_adjust_adds blank 0xfd4003 4 7 8 5 (omega arith) first-IsDecimal
      second-IsDecimal

-- After a comparison at 0x200, in front of an instruction of one word.
abbrev comparing : Dspic33
comparing = record numbered { pc = 0x0202 }
