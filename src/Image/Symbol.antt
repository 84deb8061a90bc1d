-- ===== src/Image/Symbol.antt =====
-- The address of a symbol, `elf_image_symbol` of src/image/elf_image.c. The name that is asked for
-- is the list of its characters, without the NUL at its end.
use dspic33e_sim.Prelude.{ℕ, zero, suc, ◌+◌, ◌-◌, ◌/◌, ◌%◌, Bool, false, ◌&&◌, ◌||◌, not}
use dspic33e_sim.Prelude.{Option, none, some, List, [], ◌∷◌, leb, ◌==◌, if◌then◌else◌}
use dspic33e_sim.Image.{
  ElfImage, ElfSection, symbol_not_found, Checked, invalid, valid, read_u16, read_u32, range_valid,
  section_table, read_section, elf_section_symtab, elf_section_strtab, elf_symbol_size,
  elf_section_undefined,
}

-- `strcmp` of the string at an offset and a name.
unfoldable pub name_at : (ℕ → ℕ) → ℕ → List ℕ → Bool
name_at bytes start [] = bytes start == 0
name_at bytes start (character ∷ rest) = bytes start == character && name_at bytes (start + 1) rest

-- `memchr` for a NUL.
unfoldable pub has_nul : (ℕ → ℕ) → ℕ → ℕ → Bool
has_nul bytes start zero = false
has_nul bytes start (suc count) = bytes start == 0 || has_nul bytes (start + 1) count

-- `symbol_name_matches`
unfoldable pub symbol_name_matches : (ℕ → ℕ) → ℕ → List ℕ → Bool
symbol_name_matches bytes start requested =
    name_at bytes start requested || (bytes start == 0x5f && name_at bytes (start + 1) requested)

-- The entry at an offset has the name that is asked for.
unfoldable pub entry_matches : ElfImage → ElfSection → ℕ → List ℕ → Bool
entry_matches image string_table symbol_entry name =
    let string_offset = read_u32 image.bytes symbol_entry in
    let symbol_section = read_u16 image.bytes (symbol_entry + 14) in
    let symbol_name = string_table.file_offset + string_offset in
    if symbol_section == elf_section_undefined || leb string_table.byte_size string_offset
    then false
    else if not (has_nul image.bytes symbol_name (string_table.byte_size - string_offset))
    then false
    else symbol_name_matches image.bytes symbol_name name

-- The loop over a table's entries, with `entries` of them left from `symbol_entry` on.
unfoldable pub find_entry : ElfImage → ElfSection → ℕ → ℕ → List ℕ → Option ℕ
find_entry image string_table symbol_entry zero name = none
find_entry image string_table symbol_entry (suc entries) name =
    let rest = find_entry image string_table (symbol_entry + elf_symbol_size) entries name in
    if entry_matches image string_table symbol_entry name
    then some (read_u32 image.bytes (symbol_entry + 4))
    else rest

abbrev pub is_symbol_table : ElfImage → ElfSection → ℕ → Bool
is_symbol_table image symbol_table section_count =
    symbol_table.kind == elf_section_symtab
    && symbol_table.entry_size == elf_symbol_size
    && symbol_table.byte_size % elf_symbol_size == 0
    && not (leb section_count symbol_table.linked_section)
    && range_valid image.size symbol_table.file_offset symbol_table.byte_size

abbrev pub is_string_table : ElfImage → ElfSection → Bool
is_string_table image string_table =
    string_table.kind == elf_section_strtab
    && range_valid image.size string_table.file_offset string_table.byte_size

-- What a section has of the name.
unfoldable pub find_in_section : ElfImage → ℕ → ℕ → ℕ → List ℕ → Option ℕ
find_in_section image table_offset section_count section_index name =
    let symbol_table = read_section image table_offset section_index in
    let string_table = read_section image table_offset symbol_table.linked_section in
    if is_symbol_table image symbol_table section_count
    then if is_string_table image string_table
      then find_entry image string_table symbol_table.file_offset
          (symbol_table.byte_size / elf_symbol_size) name
      else none
    else none

-- The loop over the sections, with `sections` of them left from `section_index` on.
unfoldable pub find_symbol : ElfImage → ℕ → ℕ → ℕ → ℕ → List ℕ → Option ℕ
find_symbol image table_offset section_count section_index zero name = none
find_symbol image table_offset section_count section_index (suc sections) name =
    let rest = find_symbol image table_offset section_count (section_index + 1) sections name in
    elim (find_in_section image table_offset section_count section_index name) [
      | some address ↦ some address
      | none ↦ rest
    ]

-- `elf_image_symbol`
unfoldable pub elf_image_symbol : ElfImage → List ℕ → Checked ℕ
elf_image_symbol image name = elim (section_table image) [
  | invalid message ↦ invalid message
  | valid (table_offset, section_count) ↦
      elim (find_symbol image table_offset section_count 0 section_count name) [
        | some address ↦ valid address
        | none ↦ invalid symbol_not_found
      ]
]
