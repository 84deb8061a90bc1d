-- ===== src/Execution/Address/Linear.antt =====
-- A pointer that counts over the end of a data page goes on in the next page.
use dspic33e_sim.Prelude.{ℕ, ◌+◌, ◌-◌, ◌≤◌, ◌<◌, ◌≡◌, refl, sym, ap, ◌∙◌, arith}
use dspic33e_sim.Prelude.{true, false, leb, if◌then◌else◌}
use dspic33e_sim.Prelude.{some, bit_or, u16, u32}
use dspic33e_sim.Bits.{bit_and_mask, bit_or_fields, bit_or_comm}
use dspic33e_sim.Device.State.{Dspic33}
use dspic33e_sim.Execution.Address.Mapped.{mapped_sum, mapped_data_address_lem}
use dspic33e_sim.Execution.Address.{
  OperandResolution, resolve_operand_address, bit_reversed_addressing_enabled, modulo_address,
  modulo_addressing_enabled, mapped_data_address, pseudo_linear_addressing_enabled,
  pseudo_linear_terminal_page,
}

-- The page that the register is in after the access.
abbrev pub page_after : ℕ → OperandResolution → ℕ
page_after page resolution =
    if resolution.updates_data_page then resolution.updated_data_page else page

module _ (cpu : Dspic33) (registers : ℕ → ℕ) (reg offset_reg width : ℕ)
    (plain : modulo_addressing_enabled cpu reg false ≡ false)
    (straight : bit_reversed_addressing_enabled cpu 3 reg width true ≡ false) (reg-lt : reg < 14)
    (upper : 0x8000 ≤ registers reg) (word : registers reg < 0x10000) (width-lt : width < 0x8000)
    (width-pos : 0 < width) (page-pos : 0 < cpu.dswpag) (page-lt : cpu.dswpag < 0x1ff) where
  unwrapped : (address : ℕ) → modulo_address cpu reg address width false ≡ u16 address
  unfolding modulo_address
  unwrapped address = rw plain refl

  next_register :
      (resolution : OperandResolution)
      → resolve_operand_address cpu registers 3 reg offset_reg width true ≡ some resolution
      → (resolution.updated_register ≡ (
          if leb (registers reg + width) 0xffff
          then registers reg + width
          else bit_or (registers reg + width - 0x10000) 0x8000))
        × (page_after cpu.dswpag resolution
            ≡ (if leb (registers reg + width) 0xffff then cpu.dswpag else cpu.dswpag + 1))
  unfolding resolve_operand_address pseudo_linear_addressing_enabled pseudo_linear_terminal_page
  next_register resolution h = ground (
    arith,
    h,
    unwrapped (u32 (registers reg + width)),
    bit_and_mask 15 (registers reg + width - 0x10000),
  )

  mapped_access :
      (resolution : OperandResolution)
      → resolve_operand_address cpu registers 3 reg offset_reg width true ≡ some resolution
      → resolution.address ≡ mapped_data_address (registers reg) cpu.dswpag true
  unfolding resolve_operand_address pseudo_linear_addressing_enabled pseudo_linear_terminal_page
  mapped_access resolution h = ground (arith, h)

  next_sum :
      (next page : ℕ)
      → next ≡ (
          if leb (registers reg + width) 0xffff
          then registers reg + width
          else bit_or (registers reg + width - 0x10000) 0x8000)
      → page ≡ (if leb (registers reg + width) 0xffff then cpu.dswpag else cpu.dswpag + 1)
      → mapped_sum next page true ≡ mapped_sum (registers reg) cpu.dswpag true + width
  next_sum next page to_next to_page = ground (
    arith,
    bit_or_comm (registers reg + width - 0x10000) 0x8000,
    bit_or_fields 15 1 (registers reg + width - 0x10000),
  )

  -- A write through a register below 14 that counts up by `width` after the access, 0 < `width` and
  -- `width` < 0x8000, with neither modulo nor bit-reversed addressing of that register, in the
  -- upper half of the address space and in a page from 1 to 0x1fe: the register and the page then
  -- stand for the data address `width` above the one that was written.
  pub resolve_operand_address_linear :
      (resolution : OperandResolution)
      → resolve_operand_address cpu registers 3 reg offset_reg width true ≡ some resolution
      → mapped_data_address resolution.updated_register (page_after cpu.dswpag resolution) true
        ≡ resolution.address + width
  resolve_operand_address_linear resolution h =
      let (to_next, to_page) = next_register resolution h in
      let page_le : page_after cpu.dswpag resolution < 0x200 = ground arith in
      mapped_data_address_lem _ _ true page_le
      ∙ next_sum _ _ to_next to_page
      ∙ ap (λ t. t + width)
          (sym (mapped_data_address_lem (registers reg) cpu.dswpag true (omega arith))
            ∙ sym (mapped_access resolution h))
