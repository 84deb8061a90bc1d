-- ===== src/Program/Nvm/Protects.antt =====
-- A write of a configuration register takes no protection off a segment.
use dspic33e_sim.Prelude.{ℕ, ◌+◌, ◌-◌, ◌*◌, ◌%◌, min, ◌≡◌, refl, ◌∙◌, arith, get_or}
use dspic33e_sim.Prelude.{Bool, true, false, Bool-cases, ◌⊎◌, inl, inr, ◌==◌, some}
use dspic33e_sim.Prelude.{Option-cases, bit_and, bit_or, u8}
use dspic33e_sim.Bits.{bit_and-parity, bit_or-parity, bit_and_one}
use dspic33e_sim.Device.State.{Dspic33, update}
use dspic33e_sim.Program.{configuration_register_index, configuration_base}
use dspic33e_sim.Program.Codeguard.{codeguard_configuration, codeguard_write_protected}
use dspic33e_sim.Program.Nvm.{
  programmed_configuration, write_configuration, configuration_program_masks,
  auxiliary_guard_closed,
}

-- The write protection bit of a codeguard register can only be cleared.
codeguard_byte : ℕ → ℕ → ℕ
codeguard_byte current latch =
    bit_or (bit_or (bit_and current 204) (bit_and latch 48)) (bit_and (bit_and current latch) 3)

codeguard_byte-parity :
    (current latch : ℕ) → codeguard_byte current latch % 2 ≡ min (current % 2) (latch % 2)
unfolding codeguard_byte
codeguard_byte-parity current latch =
    bit_or-parity (bit_or (bit_and current 204) (bit_and latch 48))
      (bit_and (bit_and current latch) 3)
    ∙ rw
        (
          bit_or-parity (bit_and current 204) (bit_and latch 48),
          bit_and-parity current 204,
          bit_and-parity latch 48,
          bit_and-parity (bit_and current latch) 3,
          bit_and-parity current latch,
        )
        (omega arith)

-- The registers of the two segments, by their number.
register_number :
    (address index : ℕ)
    → configuration_register_index address ≡ some index
    → address - configuration_base ≡ 4 + index * 2
register_number address index h = ground (arith, h, bit_and_one address)

protected_byte :
    (index current latch : ℕ)
    → (index ≡ 0) ⊎ (index ≡ 6)
    → codeguard_write_protected current ≡ true
    → codeguard_write_protected
        (programmed_configuration index (get_or configuration_program_masks index 0) current latch)
      ≡ true
unfolding codeguard_byte
protected_byte index current latch which closed =
    let parity = codeguard_byte-parity current latch in
    let before : current % 2 ≡ 0 = ground (arith, closed, bit_and_one current) in
    let after : bit_and (codeguard_byte current latch) 1 ≡ 0 =
      bit_and_one (codeguard_byte current latch) ∙ parity ∙ omega (arith, before) in
    let test : (bit_and (codeguard_byte current latch) 1 == 0) ≡ true = rw after refl in
    elim which [ inl zeroth ↦ rw zeroth test | inr sixth ↦ rw sixth test ]

protected_update :
    (cpu : Dspic33) (index address : ℕ) (is_auxiliary : Bool) (latch : ℕ)
    → address - configuration_base ≡ 4 + index * 2
    → codeguard_write_protected (codeguard_configuration cpu is_auxiliary) ≡ true
    → let offset = address - configuration_base in
      let written =
        programmed_configuration index
          (get_or configuration_program_masks index 0)
          (cpu.configuration offset)
          latch in
      codeguard_write_protected (
        codeguard_configuration
          (record cpu { configuration = update cpu.configuration offset written })
          is_auxiliary)
      ≡ true
protected_update cpu index address true latch number closed =
    elim (Bool-cases (address - configuration_base == 0x10)) [
      | inl here ↦
          let offset : address - configuration_base ≡ 16 = ground (arith, here) in
          rw offset (protected_byte index (cpu.configuration 16) latch (inr (omega arith)) closed)
      | inr elsewhere ↦ rw elsewhere closed
    ]
protected_update cpu index address false latch number closed =
    elim (Bool-cases (address - configuration_base == 4)) [
      | inl here ↦
          let offset : address - configuration_base ≡ 4 = ground (arith, here) in
          rw offset (protected_byte index (cpu.configuration 4) latch (inl (omega arith)) closed)
      | inr elsewhere ↦ rw elsewhere closed
    ]

-- The write leaves the machine as it is, or changes one register of it.
abbrev written : Dspic33 → ℕ → Dspic33
written cpu index =
    let offset = cpu.nvm.address - configuration_base in
    record cpu {
      configuration = update cpu.configuration offset (
          programmed_configuration index (get_or configuration_program_masks index 0)
            (cpu.configuration offset) (u8 (cpu.nvm.latches 0)));
    }

write_configuration-cases :
    (cpu : Dspic33)
    → ((write_configuration cpu).0 ≡ cpu)
      ⊎ ((index : ℕ) × (configuration_register_index cpu.nvm.address ≡ some index)
          × ((write_configuration cpu).0 ≡ written cpu index))
unfolding write_configuration
write_configuration-cases cpu = elim (Option-cases (configuration_register_index cpu.nvm.address)) [
  | inl nothing ↦ inl (rw (write_configuration, nothing) refl)
  | inr (index, h) ↦ elim (Bool-cases (auxiliary_guard_closed cpu)) [
    | inl kept ↦ inl (rw (write_configuration, h, kept) refl)
    | inr writes ↦ inr (index, h, rw (write_configuration, h, writes) refl)
  ]
]

-- A configuration register that is written takes no write protection off either segment.
pub write_configuration_protects :
    (cpu : Dspic33) (is_auxiliary : Bool)
    → codeguard_write_protected (codeguard_configuration cpu is_auxiliary) ≡ true
    → codeguard_write_protected (codeguard_configuration (write_configuration cpu).0 is_auxiliary)
      ≡ true
write_configuration_protects cpu is_auxiliary closed = elim (write_configuration-cases cpu) [
  | inl kept ↦ rw kept closed
  | inr (index, h, put) ↦ rw put (
      protected_update cpu index cpu.nvm.address is_auxiliary (u8 (cpu.nvm.latches 0))
        (register_number cpu.nvm.address index h) closed)
]
