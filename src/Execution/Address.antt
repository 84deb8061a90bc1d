-- ===== src/Execution/Address.antt =====
-- Operand addresses, `stored_word` to `dspic33_internal_following_operand_address` of
-- src/architecture/dspic33/execution/state.c. An `int32_t` is in two's complement.
pub mod Modulo
pub mod Page
pub mod Reversed
pub mod Mapped
pub mod Linear
use dspic33e_sim.Prelude.{ℕ, zero, suc, ◌+◌, ◌-◌, ◌*◌, ◌/◌, ◌%◌, ◌^◌, Bool, true, false}
use dspic33e_sim.Prelude.{◌&&◌, ◌||◌, not, Option, none, some, List, [], ◌∷◌, get_or}
use dspic33e_sim.Prelude.{bit_and, bit_or, ltb, leb, ◌==◌, ◌!=◌, if◌then◌else◌, to_nat}
use dspic33e_sim.Prelude.{u8, u16, u32, ◌<<<◌, ◌>>>◌}
use dspic33e_sim.Device.State.{Dspic33}
use dspic33e_sim.Execution.Alu.{i16, i32_lt}
use dspic33e_sim.Execution.Registers.{raise_data_page_error}

abbrev pub psv_address : ℕ
psv_address = 0x01000000

abbrev pub psv_high_byte : ℕ
psv_high_byte = 0x02000000

-- `stored_word`; `data` has a byte behind each address that is read.
unfoldable pub stored_word : Dspic33 → ℕ → ℕ
stored_word cpu address = u16 (bit_or (cpu.data_bytes address) (cpu.data_bytes (address + 1) <<< 8))

-- The bounds of the modulo buffer of X or Y space.
abbrev pub modulo_start : Dspic33 → Bool → ℕ
modulo_start cpu y_space = stored_word cpu (if y_space then 0x004c else 0x0048)

abbrev pub modulo_end : Dspic33 → Bool → ℕ
modulo_end cpu y_space = stored_word cpu (if y_space then 0x004e else 0x004a)

-- `modulo_addressing_enabled`
unfoldable pub modulo_addressing_enabled : Dspic33 → ℕ → Bool → Bool
modulo_addressing_enabled cpu reg y_space =
    let modcon = stored_word cpu 0x0046 in
    let enable : ℕ = if y_space then 0x4000 else 0x8000 in
    let selector = bit_and (modcon >>> (if y_space then 4 else 0)) 0x0f in
    bit_and modcon enable != 0
    && selector != 15
    && selector == reg
    && leb (modulo_start cpu y_space) (modulo_end cpu y_space)

-- The difference of two numbers of 32 bits.
abbrev pub minus32 : ℕ → ℕ → ℕ
minus32 a b = u32 (a + (0x100000000 - b))

-- The address after the buffer's bounds are looked at.
abbrev pub modulo_wrap : ℕ → ℕ → ℕ → ℕ → ℕ
modulo_wrap start end_ address delta =
    let length = u32 (minus32 end_ start + 1) in
    if i32_lt 0 delta && i32_lt end_ address && leb (minus32 address end_) length
    then u16 (minus32 (minus32 (start + address) end_) 1)
    else if i32_lt delta 0 && i32_lt address start && leb (minus32 start address) length
    then u16 (minus32 end_ (minus32 start address) + 1)
    else u16 address

-- `dspic33_internal_modulo_address`; `address` and `delta` are of type `int32_t`.
unfoldable pub modulo_address : Dspic33 → ℕ → ℕ → ℕ → Bool → ℕ
modulo_address cpu reg address delta y_space =
    if not (modulo_addressing_enabled cpu reg y_space) || delta == 0
    then u16 address
    else modulo_wrap (modulo_start cpu y_space) (modulo_end cpu y_space) address delta

-- `bit_reversed_addressing_enabled`
unfoldable pub bit_reversed_addressing_enabled : Dspic33 → ℕ → ℕ → ℕ → Bool → Bool
bit_reversed_addressing_enabled cpu mode reg width write =
    let selector = bit_and (stored_word cpu 0x0046 >>> 8) 0x0f in
    write
    && width == 2
    && (mode == 3 || mode == 5)
    && bit_and (stored_word cpu 0x0050) 0x8000 != 0
    && selector != 15
    && selector == reg

-- The carry and the result of the loop of `bit_reversed_address`.
pub record Reversal : Type 0 where
  pub result : ℕ
  pub carry : ℕ

abbrev pub has_bit : ℕ → ℕ → ℕ
has_bit x bit = to_nat (bit_and x (2 ^ bit) != 0)

-- One round of the loop, at `bit`.
abbrev pub reversal_round : ℕ → ℕ → ℕ → Reversal → Reversal
reversal_round address modifier bit before =
    let sum = has_bit address bit + has_bit modifier bit + before.carry in
    record {
      result = if bit_and sum 1 != 0 then bit_or before.result (2 ^ bit) else before.result;
      carry = sum / 2;
    }

-- The state after `n` rounds, from bit 15 on.
unfoldable pub reversal_rounds : ℕ → ℕ → ℕ → Reversal
reversal_rounds address modifier zero = record { result = bit_and address 1; carry = 0 }
reversal_rounds address modifier (suc n) =
    reversal_round address modifier (15 - n) (reversal_rounds address modifier n)

-- `bit_reversed_address`
unfoldable pub bit_reversed_address : Dspic33 → ℕ → ℕ
bit_reversed_address cpu address =
    (reversal_rounds address (u16 (stored_word cpu 0x0050 <<< 1)) 15).result

-- `pseudo_linear_addressing_enabled`
unfoldable pub pseudo_linear_addressing_enabled : Dspic33 → ℕ → ℕ → Bool → Bool
pseudo_linear_addressing_enabled cpu mode reg bit_reversed =
    leb 2 mode
    && leb mode 5
    && ltb reg 14
    && not bit_reversed
    && not (modulo_addressing_enabled cpu reg false)

-- `pseudo_linear_terminal_page`
unfoldable pub pseudo_linear_terminal_page : ℕ → Bool → Bool → Bool
pseudo_linear_terminal_page page increment write =
    if increment
    then page == 0x01ff || (not write && page == 0x03ff)
    else page == 0x0001 || (not write && page == 0x0200)

-- `dspic33_internal_mapped_data_address`
unfoldable pub mapped_data_address : ℕ → ℕ → Bool → ℕ
mapped_data_address address page write =
    if not write && leb 0x0200 page
    then bit_or
        (bit_or (bit_or psv_address (if bit_and page 0x0100 != 0 then psv_high_byte else 0))
          (bit_and page 0x00ff <<< 15))
        (bit_and address 0x7fff)
    else bit_or (u32 (page <<< 15)) (bit_and address 0x7fff)

-- `OperandResolution`
pub record OperandResolution : Type 0 where
  pub address : ℕ
  pub effective_address : ℕ  -- int32_t
  pub updated_register : ℕ
  pub access_register : ℕ
  pub access_data_page : ℕ
  pub updated_data_page : ℕ
  pub wrapped : Bool
  pub updates_register : Bool
  pub paged_addressing_enabled : Bool
  pub updates_data_page : Bool
  pub unimplemented_data_page : Bool

abbrev pub blank_resolution : OperandResolution
blank_resolution = record {
  address = 0;
  effective_address = 0;
  updated_register = 0;
  access_register = 0;
  access_data_page = 0;
  updated_data_page = 0;
  wrapped = false;
  updates_register = false;
  paged_addressing_enabled = false;
  updates_data_page = false;
  unimplemented_data_page = false;
}

abbrev pub negated : ℕ → ℕ
negated n = u32 (0x100000000 - n)

-- `delta` and `adjusted_address` of the modes 2 to 5; the odd ones count up.
abbrev pub operand_delta : ℕ → ℕ → ℕ
operand_delta mode width = if mode == 3 || mode == 5 then width else negated width

abbrev pub adjusted_address : (ℕ → ℕ) → ℕ → ℕ → ℕ → ℕ
adjusted_address registers mode reg width = u32 (registers reg + operand_delta mode width)

abbrev pub out_of_word : ℕ → Bool
out_of_word address = i32_lt address 0 || i32_lt 0xffff address

-- The register after the modes 2 to 5.
abbrev pub updated_operand : Dspic33 → (ℕ → ℕ) → ℕ → ℕ → ℕ → Bool → ℕ
updated_operand cpu registers mode reg width bit_reversed =
    if bit_reversed
    then bit_reversed_address cpu (registers reg)
    else modulo_address cpu reg (adjusted_address registers mode reg width)
        (operand_delta mode width) false

-- The modes 2 and 3, which change the register after the access.
abbrev pub resolve_post : Dspic33 → (ℕ → ℕ) → ℕ → ℕ → ℕ → Bool → OperandResolution
resolve_post cpu registers mode reg width bit_reversed = record blank_resolution {
  effective_address = registers reg;
  address = u16 (registers reg);
  wrapped = out_of_word (adjusted_address registers mode reg width);
  updated_register = updated_operand cpu registers mode reg width bit_reversed;
  updates_register = true;
}

-- The modes 4 and 5, which change it before.
abbrev pub resolve_pre : Dspic33 → (ℕ → ℕ) → ℕ → ℕ → ℕ → Bool → OperandResolution
resolve_pre cpu registers mode reg width bit_reversed =
    let adjusted = adjusted_address registers mode reg width in
    let updated = updated_operand cpu registers mode reg width bit_reversed in
    record blank_resolution {
      wrapped = out_of_word adjusted;
      effective_address = if bit_reversed then registers reg else adjusted;
      updated_register = updated;
      updates_register = true;
      address =
          if bit_reversed then u16 (registers reg) else if reg == 15 then u16 adjusted else updated;
    }

-- The modes 6 and 7, with an offset register.
abbrev pub resolve_offset : Dspic33 → (ℕ → ℕ) → ℕ → ℕ → ℕ → OperandResolution
resolve_offset cpu registers reg offset_reg data_page =
    let delta = i16 (registers offset_reg) in
    let effective = u32 (registers reg + delta) in
    let address = modulo_address cpu reg effective delta false in
    let stays_paged =
      data_page != 0
      && leb 0x8000 (registers reg)
      && (i32_lt effective 0x8000 || i32_lt 0xffff effective)
      && not (modulo_addressing_enabled cpu reg false)
      && (ltb reg 14 || (reg == 14 && bit_and cpu.corcon 0x0004 == 0)) in
    record blank_resolution {
      effective_address = effective;
      wrapped = out_of_word effective;
      address = if stays_paged then bit_or address 0x8000 else address;
    }

abbrev pub resolve_mode : Dspic33 → (ℕ → ℕ) → ℕ → ℕ → ℕ → ℕ → ℕ → Bool → OperandResolution
resolve_mode cpu registers mode reg offset_reg width data_page bit_reversed =
    if mode == 1
    then record blank_resolution {
      effective_address = registers reg;
      address = u16 (registers reg);
    }
    else if mode == 2 || mode == 3
    then resolve_post cpu registers mode reg width bit_reversed
    else if mode == 4 || mode == 5
    then resolve_pre cpu registers mode reg width bit_reversed
    else resolve_offset cpu registers reg offset_reg data_page

-- The update of a register leaves the upper half of the address space, so that the data page
-- follows it.
abbrev pub page_transition : Dspic33 → (ℕ → ℕ) → ℕ → ℕ → ℕ → ℕ → Bool → OperandResolution → Bool
page_transition cpu registers mode reg width data_page bit_reversed resolution =
    let adjusted = adjusted_address registers mode reg width in
    data_page != 0
    && resolution.updates_register
    && leb 0x8000 (registers reg)
    && pseudo_linear_addressing_enabled cpu mode reg bit_reversed
    && (if mode == 3 || mode == 5 then i32_lt 0xffff adjusted else i32_lt adjusted 0x8000)

-- The page and the register after such an update; the last page of a space stays.
abbrev pub cross_page : (ℕ → ℕ) → ℕ → ℕ → ℕ → ℕ → Bool → OperandResolution → OperandResolution
cross_page registers mode reg width data_page write resolution =
    let increment = mode == 3 || mode == 5 in
    let offset = bit_and (u16 (adjusted_address registers mode reg width)) 0x7fff in
    let terminal = pseudo_linear_terminal_page data_page increment write in
    let updated_register = if terminal then offset else bit_or offset 0x8000 in
    let updated_data_page =
      if terminal
      then data_page
      else if increment
      then u16 (data_page + 1)
      else u16 (data_page - 1) in
    record resolution {
      updated_register = updated_register;
      updated_data_page = updated_data_page;
      updates_data_page = not terminal;
      access_register =
          if mode == 4 || mode == 5 then updated_register else resolution.access_register;
      access_data_page =
          if mode == 4 || mode == 5 then updated_data_page else resolution.access_data_page;
    }

-- The data address behind the access register.
abbrev pub map_access : Dspic33 → ℕ → Bool → OperandResolution → OperandResolution
map_access cpu reg write resolution =
    let paged = not ((reg == 14 || reg == 15) && bit_and cpu.corcon 0x0004 != 0) in
    let is_mapped = leb 0x8000 resolution.access_register && paged in
    record resolution {
      paged_addressing_enabled = paged;
      unimplemented_data_page = is_mapped && resolution.access_data_page == 0;
      address =
          if is_mapped
          then mapped_data_address resolution.access_register resolution.access_data_page write
          else resolution.access_register;
    }

-- `dspic33_internal_resolve_operand_address`, with `none` for false.
unfoldable pub resolve_operand_address :
    Dspic33 → (ℕ → ℕ) → ℕ → ℕ → ℕ → ℕ → Bool → Option OperandResolution
resolve_operand_address cpu registers mode reg offset_reg width write =
    let bit_reversed = bit_reversed_addressing_enabled cpu mode reg width write in
    let data_page = if write then cpu.dswpag else cpu.dsrpag in
    let by_mode = resolve_mode cpu registers mode reg offset_reg width data_page bit_reversed in
    let accessed : OperandResolution = record by_mode {
      access_register = u16 by_mode.address;
      access_data_page = data_page;
    } in
    let crossed =
      if page_transition cpu registers mode reg width data_page bit_reversed accessed
      then cross_page registers mode reg width data_page write accessed
      else accessed in
    if mode == 0 then none else some (map_access cpu reg write crossed)

-- `dspic33_internal_following_operand_address`: the machine, and the address if there is one.
unfoldable pub following_operand_address : Dspic33 → OperandResolution → Bool → Dspic33 × Option ℕ
following_operand_address cpu resolution write =
    let next = resolution.access_register + 2 in
    if ltb 0xffff next
    then (raise_data_page_error cpu, none)
    else if resolution.paged_addressing_enabled && leb 0x8000 next
    then (
      if resolution.access_data_page == 0 then raise_data_page_error cpu else cpu,
      some (mapped_data_address (u16 next) resolution.access_data_page write),
    )
    else (cpu, some (u16 next))

-- `dspic33_internal_dsp_prefetch_updates`, as `int32_t`.
abbrev pub dsp_prefetch_updates : List ℕ
dsp_prefetch_updates =
    0 ∷ 2 ∷ 4 ∷ 6 ∷ 0 ∷ 0xfffffffa ∷ 0xfffffffc ∷ 0xfffffffe ∷ 0 ∷ 2 ∷ 4 ∷ 6 ∷ 0 ∷ 0xfffffffa
    ∷ 0xfffffffc ∷ 0xfffffffe ∷ []
