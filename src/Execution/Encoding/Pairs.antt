-- ===== src/Execution/Encoding/Pairs.antt =====
-- A double word that is divided is a pair of registers.
use dspic33e_sim.Prelude.{ℕ, ◌+◌, ◌*◌, ◌<◌, ◌≡◌, arith}
use dspic33e_sim.Prelude.{true, false, ◌==◌, ◌!=◌, bit_and, ◌>>>◌, u8}
use dspic33e_sim.Bits.{bit_or_fields}
use dspic33e_sim.Device.State.{Dspic33}
use dspic33e_sim.Execution.Divide.{dividend_of}
use dspic33e_sim.Execution.Encoding.{divide_encoding_valid}

-- The dividend of a valid double-word division of the family 0xd8 is the word of an even register
-- and the word of the register above it.
pub dividend_of_pair :
    (cpu : Dspic33) (opcode : ℕ)
    → divide_encoding_valid opcode ≡ true
    → (u8 (opcode >>> 16) == 0xd9) ≡ false
    → (bit_and opcode 0x000040 != 0) ≡ true
    → ((reg : ℕ) → cpu.w reg < 0x10000)
    → let low = bit_and (opcode >>> 7) 0x0f in
      dividend_of cpu opcode ≡ cpu.w (low + 1) * 0x10000 + cpu.w low
unfolding divide_encoding_valid
dividend_of_pair cpu opcode valid family double words =
    let low = bit_and (opcode >>> 7) 0x0f in
    let pair : bit_and (opcode >>> 11) 0x0f ≡ low + 1 = ground (arith, valid, family, double) in
    let low_lt = words low in
    let high_lt = words (low + 1) in
    let joined = bit_or_fields 16 (cpu.w (low + 1)) (cpu.w low) low_lt in
    rw (double, pair) (ground (arith, joined, low_lt, high_lt))
