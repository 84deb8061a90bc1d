-- ===== src/Image/Binary.antt =====
-- Binary images and the callers of the ELF loader, src/image/dspic33_firmware_image.c.
pub mod Step
pub mod Loads
use dspic33e_sim.Prelude.{ℕ, zero, suc, ◌+◌, ◌-◌, ◌/◌, Bool, true, false, ◌&&◌, ◌||◌, not}
use dspic33e_sim.Prelude.{Option, none, some, List, bit_and, bit_or, ltb, ◌==◌, ◌!=◌}
use dspic33e_sim.Prelude.{if◌then◌else◌, uint32_max, ◌<<<◌, u32}
use dspic33e_sim.Device.State.{Dspic33}
use dspic33e_sim.Coverage.{Coverage}
use dspic33e_sim.Program.{
  device_program_range_implemented, load_program_word, load_configuration_word,
}
use dspic33e_sim.Image.{ElfImage, Checked, invalid, valid, read_u32, elf_image_open_data}
use dspic33e_sim.Image.Load.{is_configuration, elf_image_load_program, Loaded}
use dspic33e_sim.Image.Symbol.{elf_image_symbol}
use dspic33e_sim.Image.Define.{elf_image_create_coverage}

-- The outcome of a loader: the machine, and the entry address where it succeeds.
pub record Entered : Type 0 where
  pub machine : Dspic33
  pub entry : Option ℕ

-- The word of a binary image: three bytes of the four.
unfoldable pub binary_word : (ℕ → ℕ) → ℕ → ℕ
binary_word bytes byte_offset =
    bit_or (bit_or (bytes byte_offset) (bytes (byte_offset + 1) <<< 8))
      (bytes (byte_offset + 2) <<< 16)

-- What the loop of `dspic33_load_binary_data` does with a word, with `none` for false.
unfoldable pub load_binary_word : Dspic33 → ℕ → ℕ → Option Dspic33
load_binary_word cpu program_address program_word =
    if program_word == 0x00ffffff
    then some cpu
    else if is_configuration program_address
    then load_configuration_word cpu program_address program_word
    else if not (device_program_range_implemented cpu program_address 2)
    then none
    else load_program_word cpu program_address program_word

-- The loop, with `words` words left from `byte_offset` on, the entry address in hand.
unfoldable pub load_binary_words : (ℕ → ℕ) → ℕ → ℕ → ℕ → Dspic33 → Entered
load_binary_words bytes load_address byte_offset zero cpu = record {
  machine = cpu;
  entry = some (load_address / 2);
}
load_binary_words bytes load_address byte_offset (suc words) cpu =
    elim (load_binary_word cpu ((load_address + byte_offset) / 2) (binary_word bytes byte_offset)) [
      | none ↦ record { machine = cpu; entry = none }
      | some after ↦ load_binary_words bytes load_address (byte_offset + 4) words after
    ]

-- `dspic33_load_binary_data`, of a machine and data that are there. No sum passes `UINT32_MAX`,
-- by the last guard.
unfoldable pub load_binary_data : Dspic33 → (ℕ → ℕ) → ℕ → ℕ → Entered
load_binary_data cpu bytes image_size load_address =
    if image_size == 0
      || bit_and image_size 3 != 0
      || bit_and load_address 3 != 0
      || ltb (uint32_max - load_address) image_size
    then record { machine = cpu; entry = none }
    else load_binary_words bytes load_address 0 (image_size / 4) cpu

-- `dspic33_load_elf_data`, of a machine that is there.
unfoldable pub load_elf_data : Dspic33 → (ℕ → ℕ) → ℕ → Entered
load_elf_data cpu image_data image_size = elim (elf_image_open_data image_data image_size) [
  | invalid message ↦ record { machine = cpu; entry = none }
  | valid image ↦
      let loaded = elf_image_load_program image cpu in
      record {
        machine = loaded.machine;
        entry = elim loaded.failure [ some message ↦ none | none ↦ some (read_u32 image.bytes 24) ];
      }
]

-- `dspic33_elf_symbol_data`, of a name that is there, with `none` for false.
unfoldable pub elf_symbol_data : (ℕ → ℕ) → ℕ → List ℕ → Option ℕ
elf_symbol_data image_data image_size name = elim (elf_image_open_data image_data image_size) [
  | invalid message ↦ none
  | valid image ↦ elim (elf_image_symbol image name) [
    | invalid message ↦ none
    | valid address ↦ some address
  ]
]

-- `dspic33_coverage_create_elf_data`, with `none` for NULL.
unfoldable pub coverage_create_elf_data : (ℕ → Bool) → (ℕ → ℕ) → ℕ → Option Coverage
coverage_create_elf_data calloc image_data image_size =
    elim (elf_image_open_data image_data image_size) [
      | invalid message ↦ none
      | valid image ↦ elim (elf_image_create_coverage calloc image) [
        | invalid message ↦ none
        | valid coverage ↦ some coverage
      ]
    ]
