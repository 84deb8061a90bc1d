-- ===== src/Execution/BitSkip.antt =====
-- The bit tests that skip, in `dspic33_internal_execute_bit` of
-- src/architecture/dspic33/execution/addressing.c, and their dispatch in traps.c. The byte or word
-- that is read, from the data bus or a register, is an argument.
use dspic33e_sim.Prelude.{ℕ, Bool, ◌&&◌, ◌||◌, not}
use dspic33e_sim.Prelude.{Option, none, some, bit_and, ◌==◌, ◌!=◌, if◌then◌else◌, u8, u16}
use dspic33e_sim.Prelude.{◌<<<◌, ◌>>>◌}
use dspic33e_sim.Execution.Encoding.{bit_encoding_valid}

-- The bit that is tested; kind 5, which takes it from a register, does not skip.
unfoldable pub tested_mask : ℕ → ℕ
tested_mask opcode =
    let bit =
      if bit_and opcode 0x080000 != 0
      then bit_and (opcode >>> 13) 0x07
      else bit_and (opcode >>> 12) 0x0f in
    u16 (1 <<< bit)

-- Whether the skip of a kind of instruction is taken; the other kinds do not skip.
unfoldable pub bit_skip_taken : ℕ → ℕ → ℕ → Option Bool
bit_skip_taken kind value mask =
    let set = bit_and value mask != 0 in
    if kind == 6 || kind == 7 then some ((kind == 6 && set) || (kind == 7 && not set)) else none

-- What the machine decides on as it comes to an instruction; one whose encoding is not valid resets
-- it instead.
unfoldable pub bit_skip : ℕ → ℕ → Option Bool
bit_skip opcode value =
    if bit_and opcode 0xf00000 == 0xa00000 && bit_encoding_valid opcode
    then bit_skip_taken (bit_and (u8 (opcode >>> 16)) 0x07) value (tested_mask opcode)
    else none
