-- ===== src/Image/Binary/Loads.antt =====
-- A binary image that is loaded is in the program memory, word for word.
use dspic33e_sim.Prelude.{
  ℕ, zero, suc, ◌+◌, ◌*◌, ◌/◌, ◌%◌, ◌≤◌, ◌<◌, ◌≡◌, refl, sym, ap, ◌∙◌, arith,
}
use dspic33e_sim.Prelude.{true, Bool-cases, inl, inr, ◌==◌}
use dspic33e_sim.Prelude.{none, some, Option-cases, if◌then◌else◌}
use dspic33e_sim.Bits.{bit_and_mask}
use dspic33e_sim.Device.State.{Dspic33}
use dspic33e_sim.Program.{read_program_word}
use dspic33e_sim.Image.Binary.{binary_word, load_binary_word, load_binary_words, load_binary_data}
use dspic33e_sim.Image.Binary.Step.{
  is_implemented, is_implemented-device, load_binary_word-read_ne, load_binary_word-read,
  load_binary_word-device,
}

load_binary_words-step :
    (bytes : ℕ → ℕ) (load_address byte_offset words : ℕ) (cpu after : Dspic33)
    → load_binary_word cpu ((load_address + byte_offset) / 2) (binary_word bytes byte_offset)
      ≡ some after
    → load_binary_words bytes load_address byte_offset (suc words) cpu
      ≡ load_binary_words bytes load_address (byte_offset + 4) words after
unfolding load_binary_words
load_binary_words-step bytes load_address byte_offset words cpu after done =
    rw (load_binary_words, done) refl

load_binary_words-refused :
    (bytes : ℕ → ℕ) (load_address byte_offset words : ℕ) (cpu : Dspic33)
    → load_binary_word cpu ((load_address + byte_offset) / 2) (binary_word bytes byte_offset) ≡ none
    → load_binary_words bytes load_address byte_offset (suc words) cpu
      ≡ record { machine = cpu; entry = none }
unfolding load_binary_words
load_binary_words-refused bytes load_address byte_offset words cpu refused =
    rw (load_binary_words, refused) refl

-- What is left to load leaves the words below it alone.
load_binary_words-below :
    (bytes : ℕ → ℕ) (load_address byte_offset words : ℕ) (cpu : Dspic33) (other : ℕ)
    → is_implemented cpu other ≡ true
    → other % 2 ≡ 0
    → other < (load_address + byte_offset) / 2
    → read_program_word (load_binary_words bytes load_address byte_offset words cpu).machine other
      ≡ read_program_word cpu other
unfolding load_binary_words
load_binary_words-below bytes load_address byte_offset zero cpu other implemented even lt = refl
load_binary_words-below bytes load_address byte_offset (suc words) cpu other implemented even lt =
    let address = (load_address + byte_offset) / 2 in
    let word = binary_word bytes byte_offset in
    elim (Option-cases (load_binary_word cpu address word)) [
      | inl refused ↦
          rw (load_binary_words-refused bytes load_address byte_offset words cpu refused) refl
      | inr (after, done) ↦
          let kept = load_binary_word-device cpu after address word done in
          rw (load_binary_words-step bytes load_address byte_offset words cpu after done) (
            load_binary_words-below bytes load_address (byte_offset + 4) words after other
              (is_implemented-device cpu after other kept implemented) even (omega arith)
            ∙ load_binary_word-read_ne cpu after address word other done implemented even
                (λ same. omega (arith, same)))
    ]

-- What a loaded word is, of the machine before it.
abbrev pub loaded_word : Dspic33 → ℕ → ℕ → ℕ
loaded_word cpu address word =
    if word == 0x00ffffff then read_program_word cpu address else word % 0x1000000

-- Where the loader succeeds, each word that it loads is read at its address.
load_binary_words-read :
    (bytes : ℕ → ℕ) (load_address byte_offset words target : ℕ) (cpu : Dspic33) (entry : ℕ)
    → (load_binary_words bytes load_address byte_offset words cpu).entry ≡ some entry
    → byte_offset ≤ target
    → target < byte_offset + words * 4
    → load_address % 4 ≡ 0
    → byte_offset % 4 ≡ 0
    → target % 4 ≡ 0
    → is_implemented cpu ((load_address + target) / 2) ≡ true
    → read_program_word
        (load_binary_words bytes load_address byte_offset words cpu).machine
        ((load_address + target) / 2)
      ≡ loaded_word cpu ((load_address + target) / 2) (binary_word bytes target)
load_binary_words-read bytes load_address byte_offset zero target cpu entry h le lt base aligned
      even implemented =
    absurd (omega (arith, le, lt))
load_binary_words-read bytes load_address byte_offset (suc words) target cpu entry h le lt base
      aligned even implemented =
    let address = (load_address + byte_offset) / 2 in
    let there = (load_address + target) / 2 in
    let word = binary_word bytes byte_offset in
    elim (Option-cases (load_binary_word cpu address word)) [
      | inl refused ↦
          let nothing : none ≡ some entry =
            sym (
              ap (λ o. o.entry)
                (load_binary_words-refused bytes load_address byte_offset words cpu refused))
            ∙ h in
          ground (arith, nothing)
      | inr (after, done) ↦
          let step = load_binary_words-step bytes load_address byte_offset words cpu after done in
          let kept = load_binary_word-device cpu after address word done in
          let still = is_implemented-device cpu after there kept implemented in
          let there_even : there % 2 ≡ 0 = omega arith in
          elim (Bool-cases (byte_offset == target)) [
            | inl same ↦
                let here : byte_offset ≡ target = ground (arith, same) in
                let done_here =
                  load_binary_word-read cpu after address word done (rw here implemented) in
                rw step (
                  load_binary_words-below bytes load_address (byte_offset + 4) words after there
                    still there_even (omega arith)
                  ∙ rw (sym here) done_here)
            | inr other ↦
                let later : byte_offset + 4 ≤ target = ground (arith, other) in
                let elsewhere =
                  load_binary_word-read_ne cpu after address word there done implemented there_even
                    (λ same. omega (arith, same)) in
                rw step (
                  load_binary_words-read bytes load_address (byte_offset + 4) words target after
                    entry (sym (ap (λ o. o.entry) step) ∙ h) later (omega arith) base (omega arith)
                    even still
                  ∙ ap
                      (λ old.
                        if binary_word bytes target == 0x00ffffff
                        then old
                        else binary_word bytes target % 0x1000000)
                      elsewhere)
          ]
    ]

load_binary_data-accepted :
    (cpu : Dspic33) (bytes : ℕ → ℕ) (image_size load_address entry : ℕ)
    → (load_binary_data cpu bytes image_size load_address).entry ≡ some entry
    → (image_size % 4 ≡ 0)
      × (load_address % 4 ≡ 0)
      × (load_binary_data cpu bytes image_size load_address
          ≡ load_binary_words bytes load_address 0 (image_size / 4) cpu)
unfolding load_binary_data
load_binary_data-accepted cpu bytes image_size load_address entry h =
    ground (arith, h, bit_and_mask 2 image_size, bit_and_mask 2 load_address)

-- A binary image that the loader accepts is in the program memory: at the address of each word of
-- it that the device implements, the machine reads the word, or what it read there before, where
-- the word is that of erased memory.
pub load_binary_data_reads :
    (cpu : Dspic33) (bytes : ℕ → ℕ) (image_size load_address target entry : ℕ)
    → (load_binary_data cpu bytes image_size load_address).entry ≡ some entry
    → target < image_size
    → target % 4 ≡ 0
    → is_implemented cpu ((load_address + target) / 2) ≡ true
    → read_program_word
        (load_binary_data cpu bytes image_size load_address).machine
        ((load_address + target) / 2)
      ≡ loaded_word cpu ((load_address + target) / 2) (binary_word bytes target)
load_binary_data_reads cpu bytes image_size load_address target entry h lt even implemented =
    let (whole, base, accepted) =
      load_binary_data-accepted cpu bytes image_size load_address entry h in
    rw accepted (
      load_binary_words-read bytes load_address 0 (image_size / 4) target cpu entry
        (sym (ap (λ o. o.entry) accepted) ∙ h) (omega arith) (omega arith) base (omega arith) even
        implemented)
