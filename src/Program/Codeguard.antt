-- ===== src/Program/Codeguard.antt =====
-- Code protection, `dspic33_internal_codeguard_configuration` to
-- `dspic33_internal_read_cpu_program_word` of src/architecture/dspic33/execution/state.c.
use dspic33e_sim.Prelude.{ℕ, ◌-◌, ◌<◌, ◌≡◌, arith, Bool, true, false, ◌&&◌, ◌||◌, not}
use dspic33e_sim.Prelude.{bool_eq, bit_and, ltb, ◌==◌, ◌!=◌, if◌then◌else◌}
use dspic33e_sim.Device.State.{Dspic33}
use dspic33e_sim.Program.{
  auxiliary_program_address, auxiliary_program_limit, persistent_program_tagged_address,
  persistent_program_base, device_program_range_implemented, read_program_word,
}

abbrev pub codeguard_general_configuration_offset : ℕ
codeguard_general_configuration_offset = 0x04

abbrev pub codeguard_auxiliary_configuration_offset : ℕ
codeguard_auxiliary_configuration_offset = 0x10

-- `dspic33_internal_codeguard_configuration`
abbrev pub codeguard_configuration : Dspic33 → Bool → ℕ
codeguard_configuration cpu is_auxiliary = cpu.configuration (
    if is_auxiliary
    then codeguard_auxiliary_configuration_offset
    else codeguard_general_configuration_offset)

abbrev pub codeguard_write_protected : ℕ → Bool
codeguard_write_protected configuration = bit_and configuration 0x01 == 0

-- `dspic33_internal_codeguard_high_security`
abbrev pub codeguard_high_security : ℕ → Bool
codeguard_high_security configuration =
    let security_level = bit_and configuration 0x03 in
    let required_key : ℕ = if security_level == 0x03 then 0 else 0x30 in
    bit_and security_level 0x02 == 0 || bit_and configuration 0x30 != required_key

-- `dspic33_internal_codeguard_programming_allowed`
unfoldable pub codeguard_programming_allowed : Dspic33 → ℕ → Bool
codeguard_programming_allowed cpu target =
    let is_auxiliary_target = auxiliary_program_address target in
    let codeguard_value = codeguard_configuration cpu is_auxiliary_target in
    if codeguard_write_protected codeguard_value
    then false
    else if codeguard_high_security codeguard_value
    then (if not is_auxiliary_target && bit_and target 0x00fff800 == 0
        then false
        else bool_eq cpu.nvm.auxiliary_origin is_auxiliary_target)
    else true

-- The address that `codeguard_program_read_allowed` looks at, once its tag is taken off.
abbrev pub untagged : ℕ → ℕ
untagged target =
    if persistent_program_tagged_address target then target - persistent_program_base else target

unfoldable pub codeguard_program_read_allowed : Dspic33 → ℕ → Bool
codeguard_program_read_allowed cpu tagged_target =
    let target = untagged tagged_target in
    if not cpu.instruction_active || not (device_program_range_implemented cpu target 2)
    then true
    else (let is_auxiliary_target = auxiliary_program_address target in
        bool_eq (auxiliary_program_address cpu.current_instruction_pc) is_auxiliary_target
        || not (codeguard_high_security (codeguard_configuration cpu is_auxiliary_target)))

-- The test of `dspic33_codeguard_admit_program_flow`.
unfoldable pub program_flow_restricted : Dspic33 → ℕ → ℕ → Bool
program_flow_restricted cpu origin target =
    not (auxiliary_program_address origin)
    && auxiliary_program_address target
    && ltb target (auxiliary_program_limit - 64)
    && codeguard_high_security (codeguard_configuration cpu true)

-- `dspic33_internal_read_cpu_program_word`
unfoldable pub read_cpu_program_word : Dspic33 → ℕ → ℕ
read_cpu_program_word cpu address =
    if codeguard_program_read_allowed cpu address then read_program_word cpu address else 0

-- An instruction of the general segment reads 0 at every even address of an auxiliary segment of
-- high security, and what is there if the segment is not of high security.
pub read_cpu_program_word_guarded :
    (cpu : Dspic33) (address : ℕ)
    → cpu.instruction_active ≡ true
    → auxiliary_program_address cpu.current_instruction_pc ≡ false
    → auxiliary_program_address address ≡ true
    → address < auxiliary_program_limit - 1
    → read_cpu_program_word cpu address ≡ (
        if codeguard_high_security (codeguard_configuration cpu true)
        then 0
        else read_program_word cpu address)
unfolding read_cpu_program_word codeguard_program_read_allowed
read_cpu_program_word_guarded cpu address on origin target lt = ground arith
