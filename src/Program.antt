-- ===== src/Program.antt =====
-- The program memory of src/architecture/dspic33/execution/state.c and reset.c: which addresses a
-- device implements, the words behind them, and the loading of a firmware image's words.
pub mod Memory
pub mod Codeguard
pub mod Nvm
use mathlib.Core.Option
use dspic33e_sim.Prelude.{ℕ, ◌+◌, ◌-◌, ◌*◌, ◌/◌, Bool, true, false, ◌%◌, ◌&&◌, ◌||◌, not}
use dspic33e_sim.Prelude.{Option, none, some}
use dspic33e_sim.Prelude.{bit_and, ltb, leb, ◌==◌, ◌!=◌, if◌then◌else◌, u8, ◌>>>◌}
use dspic33e_sim.Device.State.{Dspic33, update}
use dspic33e_sim.Device.Profile.{profile}

abbrev pub program_limit : ℕ
program_limit = 0x55800

abbrev pub auxiliary_program_base : ℕ
auxiliary_program_base = 0x7fc000

abbrev pub auxiliary_program_limit : ℕ
auxiliary_program_limit = 0x800000

abbrev pub persistent_program_base : ℕ
persistent_program_base = 0x1000000

abbrev pub persistent_program_limit : ℕ
persistent_program_limit = 0x1010000

abbrev pub write_latch_base : ℕ
write_latch_base = 0xfa0000

abbrev pub write_latch_limit : ℕ
write_latch_limit = 0xfa0100

abbrev pub configuration_base : ℕ
configuration_base = 0xf80000

abbrev pub configuration_size : ℕ
configuration_size = 0x14

abbrev pub persistent_program_physical_base : ℕ
persistent_program_physical_base = 0x2000

abbrev pub persistent_program_physical_limit : ℕ
persistent_program_physical_limit = 0x5000

-- `dspic33_program_range_implemented`
abbrev pub program_range_implemented : ℕ → ℕ → Bool
program_range_implemented address size =
    (ltb address program_limit && leb size (program_limit - address))
    || (leb auxiliary_program_base address
        && ltb address auxiliary_program_limit
        && leb size (auxiliary_program_limit - address))

-- `dspic33_device_program_range_implemented`; each device has a profile.
abbrev pub device_program_range_implemented : Dspic33 → ℕ → ℕ → Bool
device_program_range_implemented cpu address size =
    let limit = (profile cpu.device).program_limit in
    (ltb address limit && leb size (limit - address))
    || (leb auxiliary_program_base address
        && ltb address auxiliary_program_limit
        && leb size (auxiliary_program_limit - address))

-- `dspic33_internal_program_target_requires_address_error`
abbrev pub program_target_requires_address_error : Dspic33 → ℕ → Bool
program_target_requires_address_error cpu address =
    ltb address auxiliary_program_limit && not (device_program_range_implemented cpu address 2)

-- `dspic33_internal_auxiliary_program_address`
abbrev pub auxiliary_program_address : ℕ → Bool
auxiliary_program_address address =
    leb auxiliary_program_base address && ltb address auxiliary_program_limit

abbrev pub persistent_program_tagged_address : ℕ → Bool
persistent_program_tagged_address address =
    leb persistent_program_base address && ltb address persistent_program_limit

abbrev pub persistent_program_physical_address : ℕ → Bool
persistent_program_physical_address address =
    leb persistent_program_physical_base address && ltb address persistent_program_physical_limit

abbrev pub persistent_program_index : ℕ → ℕ
persistent_program_index address =
    (if leb persistent_program_base address then address - persistent_program_base else address) / 2

-- `dspic33_internal_configuration_register_index`, with `none` for false.
abbrev pub configuration_register_index : ℕ → Option ℕ
configuration_register_index address =
    if ltb address (configuration_base + 4)
      || ltb (configuration_base + 0x12) address
      || bit_and address 1 != 0
    then none
    else if ltb (u8 ((address - configuration_base - 4) / 2)) 8
    then some (u8 ((address - configuration_base - 4) / 2))
    else none

-- The word of the machine's memories that a `uint32_t*` into them points to.
pub data Location : Type 0 where
  program auxiliary persistent : ℕ → Location

abbrev pub word_at : Dspic33 → Location → ℕ
word_at cpu (program i) = cpu.program i
word_at cpu (auxiliary i) = cpu.auxiliary_program i
word_at cpu (persistent i) = cpu.persistent_program i

abbrev pub put_word : Dspic33 → Location → ℕ → Dspic33
put_word cpu (program i) word = record cpu { program = update cpu.program i word }
put_word cpu (auxiliary i) word = record cpu {
  auxiliary_program = update cpu.auxiliary_program i word;
}
put_word cpu (persistent i) word = record cpu {
  persistent_program = update cpu.persistent_program i word;
}

-- `dspic33_internal_writable_program_word`, with `none` for NULL.
unfoldable pub writable_program_word : Dspic33 → ℕ → Option Location
writable_program_word cpu address =
    if persistent_program_physical_address address
    then some (persistent (persistent_program_index address))
    else if device_program_range_implemented cpu address 2 && ltb address program_limit
    then some (program (address / 2))
    else if auxiliary_program_address address
    then some (auxiliary ((address - auxiliary_program_base) / 2))
    else if persistent_program_tagged_address address
    then some (persistent (persistent_program_index address))
    else none

-- `dspic33_read_program_word`
unfoldable pub read_program_word : Dspic33 → ℕ → ℕ
read_program_word cpu address =
    if persistent_program_physical_address address
    then bit_and (cpu.persistent_program (persistent_program_index address)) 0xffffff
    else if device_program_range_implemented cpu address 2 && ltb address program_limit
    then bit_and (cpu.program (address / 2)) 0xffffff
    else if auxiliary_program_address address
    then bit_and (cpu.auxiliary_program ((address - auxiliary_program_base) / 2)) 0xffffff
    else if address == configuration_base || address == configuration_base + 2
    then 0
    else elim (configuration_register_index address) [
      | some index ↦ cpu.configuration (4 + index * 2)
      | none ↦
          if address == 0xff0000
          then (profile cpu.device).device_id >>> 16
          else if address == 0xff0002
          then 0x004002
          else if persistent_program_tagged_address address
          then bit_and (cpu.persistent_program (persistent_program_index address)) 0xffffff
          else if leb write_latch_base address && ltb address write_latch_limit
          then bit_and (cpu.write_latches ((address - write_latch_base) / 2)) 0xffffff
          else 0xffffff
    ]

-- `dspic33_load_program_word`, with `none` for false.
unfoldable pub load_program_word : Dspic33 → ℕ → ℕ → Option Dspic33
load_program_word cpu address word =
    if bit_and address 1 != 0
    then none
    else Option.map (λ location. put_word cpu location (bit_and word 0xffffff))
        (writable_program_word cpu address)

-- `dspic33_load_configuration_word`, with `none` for false.
unfoldable pub load_configuration_word : Dspic33 → ℕ → ℕ → Option Dspic33
load_configuration_word cpu address word =
    let offset = address - configuration_base in
    if ltb address configuration_base || bit_and address 1 != 0
    then none
    else if ltb (configuration_size - 2) offset
    then none
    else some (record cpu {
      configuration =
          update (update cpu.configuration offset (u8 word)) (offset + 1) (u8 (word >>> 8));
    })

-- `dspic33_read_program_byte`
unfoldable pub read_program_byte : Dspic33 → ℕ → ℕ
read_program_byte cpu address =
    u8 (read_program_word cpu (address - address % 2) >>> (bit_and address 1 * 8))

-- `dspic33_read_configuration_byte`
unfoldable pub read_configuration_byte : Dspic33 → ℕ → ℕ
read_configuration_byte cpu address =
    if ltb address configuration_base || leb (configuration_base + configuration_size) address
    then 0xff
    else cpu.configuration (address - configuration_base)
