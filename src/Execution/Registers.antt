-- ===== src/Execution/Registers.antt =====
-- Working registers and the marks that an instruction leaves on them, state.c of
-- src/architecture/dspic33/execution.
use dspic33e_sim.Prelude.{ℕ, ◌+◌, Bool, true, false, ◌&&◌, ◌||◌, not}
use dspic33e_sim.Prelude.{bit_and, bit_or, ltb, ◌==◌, if◌then◌else◌, u16, ◌<<<◌}
use dspic33e_sim.Device.State.{Dspic33, update}

-- The registers of the working register array that an instruction has written.
abbrev pub note_register_write : Dspic33 → ℕ → ℕ
note_register_write cpu reg =
    if cpu.instruction_active
    then u16 (bit_or cpu.instruction_working_register_writes (u16 (1 <<< reg)))
    else cpu.instruction_working_register_writes

-- `dspic33_internal_write_working_register`
unfoldable pub write_working_register : Dspic33 → ℕ → ℕ → Dspic33
write_working_register cpu reg value = record cpu {
  w = update cpu.w reg (if reg == 15 then bit_and value 0xfffe else value);
  initialized_working_registers = u16 (bit_or cpu.initialized_working_registers (u16 (1 <<< reg)));
  instruction_working_register_writes = note_register_write cpu reg;
}

-- `dspic33_internal_write_working_register_byte`
unfoldable pub write_working_register_byte : Dspic33 → ℕ → Bool → ℕ → Dspic33
write_working_register_byte cpu reg high value =
    let shift : ℕ = if high then 8 else 0 in
    let mask : ℕ = if high then 0x00ff else 0xff00 in
    let merged = u16 (bit_or (bit_and (cpu.w reg) mask) (value <<< shift)) in
    record cpu {
      w = update cpu.w reg (if reg == 15 then bit_and merged 0xfffe else merged);
      instruction_working_register_writes = note_register_write cpu reg;
    }

-- `dspic33_internal_record_source_address_register`
unfoldable pub record_source_address_register : Dspic33 → ℕ → Dspic33
record_source_address_register cpu reg =
    if cpu.instruction_active
    then record cpu {
      instruction_source_address_registers =
          u16 (bit_or cpu.instruction_source_address_registers (u16 (1 <<< reg)));
    }
    else cpu

-- `dspic33_set_working_register`
unfoldable pub set_working_register : Dspic33 → ℕ → ℕ → Dspic33
set_working_register cpu reg value =
    if ltb reg 16 then write_working_register cpu reg value else cpu

-- The first error of an instruction notes where to return to.
abbrev pub first_address_error : Dspic33 → Dspic33
first_address_error cpu =
    if cpu.address_error
    then cpu
    else record cpu { address_error = true; address_error_return = cpu.pc }

-- `dspic33_internal_raise_program_target_error`
unfoldable pub raise_program_target_error : Dspic33 → ℕ → Dspic33
raise_program_target_error cpu return_pc = record cpu {
  address_error = true;
  address_error_return = return_pc;
  address_error_access_allowed = false;
  address_error_working_state_completed = true;
  address_error_control_state_completed = true;
}

-- `dspic33_internal_raise_program_read_error`
unfoldable pub raise_program_read_error : Dspic33 → Dspic33
raise_program_read_error cpu = record (first_address_error cpu) {
  address_error_access_allowed = false;
  address_error_working_state_completed = true;
  address_error_control_state_completed = true;
}

-- `dspic33_internal_check_data_alignment`, with its result.
unfoldable pub check_data_alignment : Dspic33 → ℕ → Dspic33 × Bool
check_data_alignment cpu address =
    if not cpu.instruction_active || bit_and address 1 == 0
    then (cpu, true)
    else (record (first_address_error cpu) { address_error_access_allowed = false }, false)

-- `dspic33_internal_raise_data_page_error`
unfoldable pub raise_data_page_error : Dspic33 → Dspic33
raise_data_page_error cpu = record cpu {
  address_error = true;
  address_error_return = if cpu.address_error then cpu.address_error_return else cpu.pc;
  address_error_access_allowed =
      if cpu.address_error then cpu.address_error_access_allowed else true;
  address_error_working_state_completed = true;
}

-- `dspic33_internal_instruction_rmw_write_matches`: the bytes written meet the bytes read.
unfoldable pub instruction_rmw_write_matches : Dspic33 → ℕ → ℕ → Bool
instruction_rmw_write_matches cpu address width =
    cpu.instruction_rmw
    && cpu.instruction_rmw_read_valid
    && ltb cpu.instruction_rmw_read_address (address + width)
    && ltb address (cpu.instruction_rmw_read_address + cpu.instruction_rmw_read_width)
