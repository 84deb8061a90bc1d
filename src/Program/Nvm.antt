-- ===== src/Program/Nvm.antt =====
-- The end of an operation on the program memory, `dspic33_complete_nvm` of
-- src/architecture/dspic33/execution/reset.c.
pub mod Clears
pub mod Protects
use dspic33e_sim.Prelude.{ℕ, zero, suc, ◌+◌, ◌-◌, ◌*◌, ◌/◌, ◌≡◌, refl, sym, ap, ◌∙◌, arith}
use dspic33e_sim.Prelude.{Bool, true, false, ◌&&◌, ◌||◌, not, Option, none, some, inl, inr}
use dspic33e_sim.Prelude.{bit_and, bit_or, ltb, leb, ◌==◌, ◌!=◌, if◌then◌else◌, u8}
use dspic33e_sim.Prelude.{List, [], ◌∷◌, get_or}
use dspic33e_sim.Device.State.{Dspic33, update}
use dspic33e_sim.Program.{Location, word_at, put_word, writable_program_word}
use dspic33e_sim.Program.{persistent_program_physical_base, persistent_program_physical_limit}
use dspic33e_sim.Program.{configuration_base, configuration_register_index}
use dspic33e_sim.Program.Codeguard.{
  codeguard_programming_allowed, codeguard_general_configuration_offset,
  codeguard_auxiliary_configuration_offset,
}

-- DSPIC33_PROGRAM_WORDS, DSPIC33_AUXILIARY_PROGRAM_WORDS and DSPIC33_WRITE_LATCH_WORDS.
abbrev program_words : ℕ
program_words = 0x2ac00

abbrev auxiliary_program_words : ℕ
auxiliary_program_words = 0x2000

abbrev pub write_latch_words : ℕ
write_latch_words = 128

-- `erase_program_words` of the `count` words from `first` on.
abbrev pub erase_program_words : (ℕ → ℕ) → ℕ → ℕ → ℕ → ℕ
erase_program_words words first count i =
    if leb first i && ltb i (first + count) then 0xffffff else words i

abbrev pub program_at : Dspic33 → Option Location → ℕ → Dspic33
program_at cpu none latch = cpu
program_at cpu (some destination) latch =
    put_word cpu destination (bit_and (word_at cpu destination) latch)

abbrev pub erase_at : Dspic33 → Option Location → Dspic33
erase_at cpu none = cpu
erase_at cpu (some destination) = put_word cpu destination 0xffffff

-- The machine after `n` rounds of the last loop.
unfoldable pub program_row : Dspic33 → ℕ → ℕ → Dspic33
program_row cpu target zero = cpu
program_row cpu target (suc n) =
    let before = program_row cpu target n in
    program_at before (writable_program_word before (target + n * 2)) (before.nvm.latches n)

-- The machine after `n` rounds of the loop that erases a page.
unfoldable pub erase_page : Dspic33 → ℕ → ℕ → Dspic33
erase_page cpu target zero = cpu
erase_page cpu target (suc n) =
    let before = erase_page cpu target n in
    erase_at before (writable_program_word before (target + n * 2))

-- The target of an operation and the words that it writes.
abbrev pub nvm_target : Dspic33 → ℕ
nvm_target cpu =
    let operation = bit_and cpu.nvm.control 0x000f in
    let target = cpu.nvm.address in
    if operation == 1
    then bit_and target 0x00fffffc
    else if operation == 2
    then bit_and target 0x00ffff00
    else bit_and target 0x00fff800

-- The operations of `dspic33_complete_nvm` on the program, all but 0.
unfoldable pub complete_program_nvm : Dspic33 → Dspic33
complete_program_nvm cpu =
    let operation = bit_and cpu.nvm.control 0x000f in
    let target = nvm_target cpu in
    if operation == 0x0a
    then (if cpu.nvm.auxiliary_origin then cpu else record cpu {
      auxiliary_program = erase_program_words cpu.auxiliary_program 0 auxiliary_program_words;
      configuration = update (update cpu.configuration 0x10 0xcf) 0x11 0xff;
    })
    else if operation == 0x0d
    then (if not cpu.nvm.auxiliary_origin then cpu else record cpu {
      program = erase_program_words cpu.program 0 program_words;
      persistent_program =
          erase_program_words cpu.persistent_program (persistent_program_physical_base / 2)
            ((persistent_program_physical_limit - persistent_program_physical_base) / 2);
      configuration = update (update cpu.configuration 4 0xcf) 5 0xff;
    })
    else if operation == 1
    then (if codeguard_programming_allowed cpu target then program_row cpu target 2 else cpu)
    else if operation == 2
    then (if codeguard_programming_allowed cpu target
        then program_row cpu target write_latch_words
        else cpu)
    else if operation == 3
    then (if codeguard_programming_allowed cpu target then erase_page cpu target 0x400 else cpu)
    else cpu

-- The byte that the write of configuration register `index` leaves, under its program mask.
abbrev pub programmed_configuration : ℕ → ℕ → ℕ → ℕ → ℕ
programmed_configuration index mask current latch =
    if index == 0 || index == 6
    then bit_or (bit_or (bit_and current (0xff - mask)) (bit_and latch 0x30))
        (bit_and (bit_and current latch) 0x03)
    else bit_or (bit_and current (0xff - mask)) (bit_and latch mask)

-- dspic33_internal_configuration_program_masks
abbrev pub configuration_program_masks : List ℕ
configuration_program_masks = 0x33 ∷ 0x87 ∷ 0xe7 ∷ 0xff ∷ 0x3f ∷ 0xf7 ∷ 0x33 ∷ 0xff ∷ []

-- The guard on the codeguard register of the auxiliary segment.
abbrev pub auxiliary_guard_closed : Dspic33 → Bool
auxiliary_guard_closed cpu =
    cpu.nvm.address == configuration_base + codeguard_auxiliary_configuration_offset
    && (bit_and (cpu.configuration codeguard_general_configuration_offset) 0x33 != 0x03
        || bit_and (cpu.configuration codeguard_auxiliary_configuration_offset) 0x33 != 0x03)

-- The operation 0, the write of a configuration register: the machine, and the address and the
-- former byte that `dspic33_device_configuration_changed` is then called with.
unfoldable pub write_configuration : Dspic33 → Dspic33 × Option (ℕ × ℕ)
write_configuration cpu =
    let target = cpu.nvm.address in
    let offset = target - configuration_base in
    let current = cpu.configuration offset in
    elim (configuration_register_index target) [
      | none ↦ (cpu, none)
      | some index ↦
          let mask = get_or configuration_program_masks index 0 in
          let written = programmed_configuration index mask current (u8 (cpu.nvm.latches 0)) in
          if auxiliary_guard_closed cpu then (cpu, none) else (
            record cpu { configuration = update cpu.configuration offset written },
            some (target, current),
          )
    ]

-- `dspic33_complete_nvm`, with the call of `dspic33_device_configuration_changed` that it makes.
unfoldable pub complete_nvm : Dspic33 → Dspic33 × Option (ℕ × ℕ)
complete_nvm cpu =
    if bit_and cpu.nvm.control 0x000f == 0
    then write_configuration cpu
    else (complete_program_nvm cpu, none)
