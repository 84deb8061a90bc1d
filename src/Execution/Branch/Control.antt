-- ===== src/Execution/Branch/Control.antt =====
-- The instructions that compare and branch at once, against a comparison and a branch.
use mathlib.Core.Path.{ap₂}
use dspic33e_sim.Prelude.{ℕ, ◌+◌, ◌-◌, ◌≤◌, ◌<◌, ◌≡◌, sym, ap, ◌∙◌, arith}
use dspic33e_sim.Prelude.{Bool, true, false, ◌&&◌, not, some}
use dspic33e_sim.Prelude.{bit_and, leb, ◌==◌, ◌!=◌, if◌then◌else◌, ◌>>>◌}
use dspic33e_sim.Bits.{bit_and_mask}
use dspic33e_sim.Device.State.{Dspic33}
use dspic33e_sim.Execution.Alu.{width_mask, sign_mask, i32_lt}
use dspic33e_sim.Execution.Alu.Flags.{sign_bit, width_mask_lem}
use dspic33e_sim.Execution.Alu.Compare.{signed_lt, compared, compare_branches}
use dspic33e_sim.Execution.Branch.{
  CompareControlKind, equal, not_equal, greater_than, less_than, branch_condition,
  compare_control_taken, signed_compare_operand,
}

-- The branch that asks what an instruction of the kind asks.
abbrev pub control_condition : CompareControlKind → ℕ
control_condition equal = 0x02
control_condition not_equal = 0x0a
control_condition greater_than = 0x0c
control_condition less_than = 0x05

-- The operands of the comparison.
abbrev pub control_byte_mode : ℕ → Bool
control_byte_mode opcode = bit_and opcode 0x000400 != 0

abbrev pub control_operand : Dspic33 → Bool → ℕ → ℕ
control_operand cpu byte_mode reg = if byte_mode then bit_and (cpu.w reg) 0x00ff else cpu.w reg

operand_lem :
    (byte_mode : Bool) (v : ℕ)
    → v ≤ width_mask byte_mode
    → signed_compare_operand v byte_mode
      ≡ (if leb (sign_mask byte_mode) v then v + (0xffffffff - width_mask byte_mode) else v)
operand_lem true v le = ground (arith, width_mask_lem true v le, sign_bit true v le)
operand_lem false v le = ground (arith, width_mask_lem false v le, sign_bit false v le)

signed_order :
    (byte_mode : Bool) (a b : ℕ)
    → a ≤ width_mask byte_mode
    → b ≤ width_mask byte_mode
    → i32_lt
        (if leb (sign_mask byte_mode) a then a + (0xffffffff - width_mask byte_mode) else a)
        (if leb (sign_mask byte_mode) b then b + (0xffffffff - width_mask byte_mode) else b)
      ≡ signed_lt byte_mode a b
signed_order true a b a-le b-le = ground arith
signed_order false a b a-le b-le = ground arith

operand_order :
    (byte_mode : Bool) (a b : ℕ)
    → a ≤ width_mask byte_mode
    → b ≤ width_mask byte_mode
    → i32_lt (signed_compare_operand a byte_mode) (signed_compare_operand b byte_mode)
      ≡ signed_lt byte_mode a b
operand_order byte_mode a b a-le b-le =
    ap₂ i32_lt (operand_lem byte_mode a a-le) (operand_lem byte_mode b b-le)
    ∙ signed_order byte_mode a b a-le b-le

control_operand-le :
    (cpu : Dspic33) (byte_mode : Bool) (reg : ℕ)
    → cpu.w reg < 0x10000
    → control_operand cpu byte_mode reg ≤ width_mask byte_mode
control_operand-le cpu true reg lt = omega (arith, bit_and_mask 8 (cpu.w reg))
control_operand-le cpu false reg lt = omega arith

signed_gt :
    (byte_mode : Bool) (a b : ℕ)
    → a ≤ width_mask byte_mode
    → b ≤ width_mask byte_mode
    → (not (a == b) && not (signed_lt byte_mode a b)) ≡ signed_lt byte_mode b a
signed_gt true a b a-le b-le = ground arith
signed_gt false a b a-le b-le = ground arith

-- An instruction that compares two registers and branches takes the branch exactly if the
-- comparison followed by the branch of its kind does.
pub compare_control_branches :
    (cpu : Dspic33) (opcode : ℕ) (kind : CompareControlKind)
    → ((reg : ℕ) → cpu.w reg < 0x10000)
    → branch_condition
        (compared cpu
          (control_operand cpu (control_byte_mode opcode) (bit_and (opcode >>> 11) 0x0f))
          (control_operand cpu (control_byte_mode opcode) (bit_and opcode 0x0f))
          (control_byte_mode opcode))
        (control_condition kind)
      ≡ some (compare_control_taken cpu opcode kind)
unfolding compare_control_taken
compare_control_branches cpu opcode equal words =
    let byte_mode = control_byte_mode opcode in
    (compare_branches cpu _ _ byte_mode (control_operand-le cpu byte_mode _ (words _))
      (control_operand-le cpu byte_mode _ (words _))).0
compare_control_branches cpu opcode not_equal words =
    let byte_mode = control_byte_mode opcode in
    let (eq, ne, geu, ltu, gtu, leu, lt, ge, le, gt) =
      compare_branches cpu _ _ byte_mode (control_operand-le cpu byte_mode _ (words _))
        (control_operand-le cpu byte_mode _ (words _)) in
    ne
compare_control_branches cpu opcode greater_than words =
    let byte_mode = control_byte_mode opcode in
    let left-le = control_operand-le cpu byte_mode (bit_and (opcode >>> 11) 0x0f) (words _) in
    let right-le = control_operand-le cpu byte_mode (bit_and opcode 0x0f) (words _) in
    let (eq, ne, geu, ltu, gtu, leu, lt, ge, le, gt) =
      compare_branches cpu _ _ byte_mode left-le right-le in
    gt
    ∙ ap some (
        signed_gt byte_mode _ _ left-le right-le
        ∙ sym (operand_order byte_mode _ _ right-le left-le))
compare_control_branches cpu opcode less_than words =
    let byte_mode = control_byte_mode opcode in
    let left-le = control_operand-le cpu byte_mode (bit_and (opcode >>> 11) 0x0f) (words _) in
    let right-le = control_operand-le cpu byte_mode (bit_and opcode 0x0f) (words _) in
    let (eq, ne, geu, ltu, gtu, leu, lt, ge, le, gt) =
      compare_branches cpu _ _ byte_mode left-le right-le in
    lt ∙ ap some (sym (operand_order byte_mode _ _ left-le right-le))
