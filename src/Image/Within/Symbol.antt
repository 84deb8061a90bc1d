-- ===== src/Image/Within/Symbol.antt =====
-- Looking a symbol up reads nothing past the end of the file.
use dspic33e_sim.Prelude.{ℕ, zero, suc, ◌+◌, ◌-◌, ◌*◌, ◌/◌, ◌≤◌, ◌<◌, ◌≡◌, refl, arith}
use dspic33e_sim.Prelude.{true, Bool-cases, inl, inr, leb}
use dspic33e_sim.Prelude.{Option-cases, List, [], ◌∷◌, ◌==◌}
use dspic33e_sim.Image.{
  ElfImage, ElfSection, Checked, invalid, valid, read_u32, range_valid, section_table, read_section,
}
use dspic33e_sim.Image.Symbol.{
  name_at, has_nul, symbol_name_matches, entry_matches, find_entry, is_symbol_table,
  is_string_table, find_in_section, find_symbol, elf_image_symbol,
}
use dspic33e_sim.Image.Within.{
  with_bytes, SameBelow, read_u16-within, read_u32-within, range_valid-inside, section_table-within,
  read_section-within,
}

-- A C string: no character of it is NUL.
pub data IsText : List ℕ → Type 0 where
  ended : IsText []
  more : {character : ℕ} {rest : List ℕ} → 0 < character → IsText rest → IsText (character ∷ rest)

has_nul-within :
    (size : ℕ) (other bytes : ℕ → ℕ) (start count : ℕ)
    → SameBelow size other bytes
    → start + count ≤ size
    → has_nul other start count ≡ has_nul bytes start count
unfolding has_nul
has_nul-within size other bytes start zero same inside = refl
has_nul-within size other bytes start (suc count) same inside =
    rw
      (
        same start (omega arith),
        has_nul-within size other bytes (start + 1) count same (omega arith),
      )
      refl

-- A comparison ends at the NUL of the string, if not before.
name_at-within :
    (size : ℕ) (other bytes : ℕ → ℕ) (start count : ℕ) (name : List ℕ)
    → SameBelow size other bytes
    → start + count ≤ size
    → has_nul bytes start count ≡ true
    → IsText name
    → name_at other start name ≡ name_at bytes start name
unfolding name_at has_nul
name_at-within size other bytes start zero name same inside ends text = ground (arith, ends)
name_at-within size other bytes start (suc count) [] same inside ends text =
    rw (same start (omega arith)) refl
name_at-within size other bytes start (suc count) (c ∷ rest) same inside ends (more some_c text) =
    elim (Bool-cases (bytes start == c)) [
      | inl is_c ↦
          let later : has_nul bytes (start + 1) count ≡ true = ground (arith, ends, is_c) in
          let tail =
            name_at-within size other bytes (start + 1) count rest same (omega arith) later text in
          rw (same start (omega arith), tail) refl
      | inr other_c ↦ rw (same start (omega arith), other_c) refl
    ]

symbol_name_matches-within :
    (size : ℕ) (other bytes : ℕ → ℕ) (start count : ℕ) (name : List ℕ)
    → SameBelow size other bytes
    → start + count ≤ size
    → has_nul bytes start count ≡ true
    → IsText name
    → symbol_name_matches other start name ≡ symbol_name_matches bytes start name
unfolding symbol_name_matches has_nul
symbol_name_matches-within size other bytes start zero name same inside ends text =
    ground (arith, ends)
symbol_name_matches-within size other bytes start (suc count) name same inside ends text =
    let whole = name_at-within size other bytes start (suc count) name same inside ends text in
    elim (Bool-cases (bytes start == 0x5f)) [
      | inl underscore ↦
          let later : has_nul bytes (start + 1) count ≡ true = ground (arith, ends, underscore) in
          let tail =
            name_at-within size other bytes (start + 1) count name same (omega arith) later text in
          rw (whole, same start (omega arith), tail) refl
      | inr none_such ↦ rw (whole, same start (omega arith), none_such) refl
    ]

entry_matches-within :
    (image : ElfImage) (other : ℕ → ℕ) (string_table : ElfSection) (symbol_entry : ℕ)
    (name : List ℕ)
    → SameBelow image.size other image.bytes
    → symbol_entry + 16 ≤ image.size
    → range_valid image.size string_table.file_offset string_table.byte_size ≡ true
    → IsText name
    → entry_matches (with_bytes image other) string_table symbol_entry name
      ≡ entry_matches image string_table symbol_entry name
unfolding entry_matches
entry_matches-within image other string_table symbol_entry name same inside strings text =
    let size = image.size in
    let bytes = image.bytes in
    let string_offset = read_u32 bytes symbol_entry in
    let start = string_table.file_offset + string_offset in
    let count = string_table.byte_size - string_offset in
    let offset = read_u32-within size other bytes symbol_entry same (omega arith) in
    let section = read_u16-within size other bytes (symbol_entry + 14) same (omega arith) in
    let table_end =
      range_valid-inside size string_table.file_offset string_table.byte_size strings in
    elim (Bool-cases (leb string_table.byte_size string_offset)) [
      | inl past ↦ rw (offset, section) (ground (arith, past))
      | inr before ↦
          let string_end : start + count ≤ size = ground (arith, before, table_end) in
          let nul = has_nul-within size other bytes start count same string_end in
          elim (Bool-cases (has_nul bytes start count)) [
            | inl ends ↦
                let matches =
                  symbol_name_matches-within size other bytes start count name same string_end ends
                    text in
                rw (offset, section, nul, matches) refl
            | inr endless ↦ rw (offset, section, nul, endless) refl
          ]
    ]

find_entry-within :
    (image : ElfImage) (other : ℕ → ℕ) (string_table : ElfSection) (symbol_entry entries : ℕ)
    (name : List ℕ)
    → SameBelow image.size other image.bytes
    → symbol_entry + entries * 16 ≤ image.size
    → range_valid image.size string_table.file_offset string_table.byte_size ≡ true
    → IsText name
    → find_entry (with_bytes image other) string_table symbol_entry entries name
      ≡ find_entry image string_table symbol_entry entries name
unfolding find_entry
find_entry-within image other string_table symbol_entry zero name same inside strings text = refl
find_entry-within image other string_table symbol_entry (suc entries) name same inside strings
      text =
    let here =
      entry_matches-within image other string_table symbol_entry name same (omega arith) strings
        text in
    let there =
      find_entry-within image other string_table (symbol_entry + 16) entries name same (omega arith)
        strings text in
    let address =
      read_u32-within image.size other image.bytes (symbol_entry + 4) same (omega arith) in
    rw (here, there, address) refl

find_in_section-within :
    (image : ElfImage) (other : ℕ → ℕ) (table count index : ℕ) (name : List ℕ)
    → SameBelow image.size other image.bytes
    → section_table image ≡ valid (table, count)
    → index < count
    → IsText name
    → find_in_section (with_bytes image other) table count index name
      ≡ find_in_section image table count index name
unfolding find_in_section
find_in_section-within image other table count index name same h lt text =
    let symbols = read_section image table index in
    let linked = symbols.linked_section in
    let strings = read_section image table linked in
    let entry = read_section-within image other table count index same h lt in
    elim (Bool-cases (is_symbol_table image symbols count)) [
      | inr neither ↦ rw (entry, neither) refl
      | inl is_table ↦
          let linked_lt : linked < count = ground (arith, is_table) in
          let link = read_section-within image other table count linked same h linked_lt in
          let inside : symbols.file_offset + symbols.byte_size ≤ image.size =
            range_valid-inside image.size symbols.file_offset symbols.byte_size
              (ground (arith, is_table)) in
          elim (Bool-cases (is_string_table image strings)) [
            | inr neither ↦ rw (entry, link, is_table, neither) refl
            | inl is_strings ↦
                let found =
                  find_entry-within image other strings symbols.file_offset (symbols.byte_size / 16)
                    name same (omega arith) (ground (arith, is_strings)) text in
                rw (entry, link, is_table, is_strings) found
          ]
    ]

find_symbol-within :
    (image : ElfImage) (other : ℕ → ℕ) (table count index sections : ℕ) (name : List ℕ)
    → SameBelow image.size other image.bytes
    → section_table image ≡ valid (table, count)
    → index + sections ≡ count
    → IsText name
    → find_symbol (with_bytes image other) table count index sections name
      ≡ find_symbol image table count index sections name
unfolding find_symbol
find_symbol-within image other table count index zero name same h total text = refl
find_symbol-within image other table count index (suc sections) name same h total text =
    let here =
      find_in_section-within image other table count index name same h (omega arith) text in
    let there =
      find_symbol-within image other table count (index + 1) sections name same h (omega arith)
        text in
    elim (Option-cases (find_in_section image table count index name)) [
      | inl nothing ↦ rw (find_symbol, here, find_symbol, nothing) there
      | inr (address, found) ↦ rw (find_symbol, here, find_symbol, found) refl
    ]

symbol-within :
    (image : ElfImage) (other : ℕ → ℕ) (name : List ℕ) (table : Checked (ℕ × ℕ))
    → SameBelow image.size other image.bytes
    → IsText name
    → section_table image ≡ table
    → elf_image_symbol (with_bytes image other) name ≡ elf_image_symbol image name
unfolding elf_image_symbol
symbol-within image other name (invalid message) same text h =
    rw (elf_image_symbol, section_table-within image other same, elf_image_symbol, h) refl
symbol-within image other name (valid (table, count)) same text h =
    let found = find_symbol-within image other table count 0 count name same h (omega arith) text in
    rw (elf_image_symbol, section_table-within image other same, elf_image_symbol, h, found) refl

-- The address of a symbol, or that there is none, depends on no byte past the end of the image, of
-- a malformed image too.
pub elf_image_symbol-within :
    (image : ElfImage) (other : ℕ → ℕ) (name : List ℕ)
    → SameBelow image.size other image.bytes
    → IsText name
    → elf_image_symbol (with_bytes image other) name ≡ elf_image_symbol image name
elf_image_symbol-within image other name same text =
    symbol-within image other name (section_table image) same text refl
