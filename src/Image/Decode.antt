-- ===== src/Image/Decode.antt =====
-- The image's decoder and the machine's agree on lengths and branches.
use dspic33e_sim.Prelude.{ℕ, ◌≡◌, refl, arith}
use dspic33e_sim.Prelude.{
  Bool, true, false, not, Bool-cases, inl, inr, ◌||◌, ◌&&◌, ◌==◌, leb, bit_and, u8, ◌>>>◌,
}
use dspic33e_sim.Prelude.{Option, none, some}
use dspic33e_sim.Bits.{bit_and_mask}
use dspic33e_sim.Device.State.{Dspic33}
use dspic33e_sim.Image.Define.{conditional_branch}
use dspic33e_sim.Image.Define
use dspic33e_sim.Execution.Encoding.{bit_encoding_valid}
use dspic33e_sim.Execution.BitSkip.{bit_skip, bit_skip_taken}
use dspic33e_sim.Execution.Branch.{
  relative_branch_condition, branch_condition, compare_control_kind, instruction_length,
}

-- The program counter moves by the length that the image's decoder steps by.
pub instruction_length_agrees :
    (opcode : ℕ) → Define.instruction_length opcode ≡ instruction_length opcode
unfolding instruction_length Define.instruction_length
instruction_length_agrees opcode = ground arith

abbrev pub is_there {ℓ} : {A : Type ℓ} → Option A → Bool
is_there none = false
is_there (some a) = true

-- BRA, the branch that is always taken, is not a conditional one.
abbrev pub is_unconditional : ℕ → Bool
is_unconditional opcode =
    bit_and opcode 0xf00000 == 0x300000 && bit_and (u8 (opcode >>> 16)) 15 == 7

branch_condition-is_there :
    (cpu : Dspic33) (condition : ℕ) → is_there (branch_condition cpu condition) ≡ leb condition 14
unfolding branch_condition
branch_condition-is_there cpu condition = ground arith

compare_control_kind-is_there :
    (opcode : ℕ)
    → is_there (compare_control_kind opcode) ≡ (
        bit_and opcode 0xff8000 == 0xe78000
        || bit_and opcode 0xff8000 == 0xe70000
        || bit_and opcode 0xff8000 == 0xe60000
        || bit_and opcode 0xff8000 == 0xe68000)
unfolding compare_control_kind
compare_control_kind-is_there opcode = ground arith

bit_skip-is_there :
    (opcode value : ℕ)
    → (bit_and opcode 0xf00000 ≡ 0xa00000 → bit_encoding_valid opcode ≡ true)
    → is_there (bit_skip opcode value)
      ≡ (bit_and opcode 0xf00000 == 0xa00000 && leb 6 (bit_and (u8 (opcode >>> 16)) 7))
unfolding bit_skip bit_skip_taken
bit_skip-is_there opcode value valid =
    let kind = bit_and_mask 3 (u8 (opcode >>> 16)) in ground (arith, valid)

-- The branches that the image counts on are those that the machine decides on as it runs: the
-- relative ones that have a condition, in any state of its flags, the comparisons that branch or
-- skip, and the bit tests that skip, whatever value is tested. A bit operation must have a valid
-- encoding; the machine is reset by the others, which the image counts too.
pub conditional_branch_agrees :
    (cpu : Dspic33) (opcode value : ℕ)
    → (bit_and opcode 0xf00000 ≡ 0xa00000 → bit_encoding_valid opcode ≡ true)
    → conditional_branch opcode ≡ (
        (is_there (relative_branch_condition cpu opcode) && not (is_unconditional opcode))
        || is_there (compare_control_kind opcode)
        || is_there (bit_skip opcode value))
unfolding conditional_branch relative_branch_condition
conditional_branch_agrees cpu opcode value valid =
    let family = u8 (opcode >>> 16) in
    let low = bit_and_mask 4 family in
    rw (compare_control_kind-is_there opcode, bit_skip-is_there opcode value valid)
      (elim (Bool-cases (leb 0x0c family && leb family 0x0f)) [
        | inl flags ↦ rw flags (ground (arith, flags, low))
        | inr other ↦ elim (Bool-cases (bit_and opcode 0xf00000 == 0x300000)) [
          | inl condition ↦
              rw (other, condition, branch_condition-is_there cpu (bit_and family 15))
                (ground arith)
          | inr neither ↦ rw (other, neither) refl
        ]
      ])
