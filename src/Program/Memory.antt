-- ===== src/Program/Memory.antt =====
-- What is loaded into the program memory is read back.
use mathlib.Core.Option
use dspic33e_sim.Prelude.{ℕ, ◌%◌, ◌<◌, ◌≡◌, ◌≢◌, refl, sym, ap, ◌∙◌, arith}
use dspic33e_sim.Prelude.{none, some, Option-cases, inl, inr, ◌⊎◌, bit_and}
use dspic33e_sim.Bits.{bit_and_mask, bit_and_one}
use dspic33e_sim.Device.State.{Dspic33}
use dspic33e_sim.Program.{
  Location, program, auxiliary, persistent, word_at, put_word, writable_program_word,
}
use dspic33e_sim.Program.{read_program_word, load_program_word, persistent_program_base}

-- The memory that a writable address reaches is the one that a read of the address sees.
pub read_at_writable :
    (cpu : Dspic33) (address : ℕ) (l : Location)
    → writable_program_word cpu address ≡ some l
    → read_program_word cpu address ≡ bit_and (word_at cpu l) 0xffffff
unfolding read_program_word writable_program_word
read_at_writable cpu address l h = ground (arith, h)

-- A write of a word leaves the device, and so the place of every address, as it is.
pub writable-put_word :
    (cpu : Dspic33) (l : Location) (word address : ℕ)
    → writable_program_word (put_word cpu l word) address ≡ writable_program_word cpu address
unfolding writable_program_word
writable-put_word cpu (program i) word address = refl
writable-put_word cpu (auxiliary i) word address = refl
writable-put_word cpu (persistent i) word address = refl

pub word_at-put_word :
    (cpu : Dspic33) (l : Location) (word : ℕ) → word_at (put_word cpu l word) l ≡ word
word_at-put_word cpu (program i) word = ground arith
word_at-put_word cpu (auxiliary i) word = ground arith
word_at-put_word cpu (persistent i) word = ground arith

pub word_at-put_word_ne :
    (cpu : Dspic33) (l other : Location) (word : ℕ)
    → other ≢ l
    → word_at (put_word cpu l word) other ≡ word_at cpu other
word_at-put_word_ne cpu (program i) (program j) word ne = ground arith
word_at-put_word_ne cpu (program i) (auxiliary j) word ne = refl
word_at-put_word_ne cpu (program i) (persistent j) word ne = refl
word_at-put_word_ne cpu (auxiliary i) (program j) word ne = refl
word_at-put_word_ne cpu (auxiliary i) (auxiliary j) word ne = ground arith
word_at-put_word_ne cpu (auxiliary i) (persistent j) word ne = refl
word_at-put_word_ne cpu (persistent i) (program j) word ne = refl
word_at-put_word_ne cpu (persistent i) (auxiliary j) word ne = refl
word_at-put_word_ne cpu (persistent i) (persistent j) word ne = ground arith

pub Location-cases : (l m : Location) → (l ≡ m) ⊎ (l ≢ m)
Location-cases (program i) (program j) = ground arith
Location-cases (program i) (auxiliary j) = ground arith
Location-cases (program i) (persistent j) = ground arith
Location-cases (auxiliary i) (program j) = ground arith
Location-cases (auxiliary i) (auxiliary j) = ground arith
Location-cases (auxiliary i) (persistent j) = ground arith
Location-cases (persistent i) (program j) = ground arith
Location-cases (persistent i) (auxiliary j) = ground arith
Location-cases (persistent i) (persistent j) = ground arith

-- A word that is loaded goes to the place of its address, which is even.
load_program_word-put :
    (cpu loaded : Dspic33) (address word : ℕ)
    → load_program_word cpu address word ≡ some loaded
    → (l : Location) × (writable_program_word cpu address ≡ some l)
      × (loaded ≡ put_word cpu l (bit_and word 0xffffff))
      × (bit_and address 1 ≡ 0)
unfolding load_program_word
load_program_word-put cpu loaded address word h =
    let even : bit_and address 1 ≡ 0 = ground arith in
    let moved : Option.map (λ l. put_word cpu l (bit_and word 0xffffff))
          (writable_program_word cpu address)
        ≡ some loaded =
      ground arith in
    let (l, there, put) = (Option.map-eq-some_iff _ _).0 moved in (l, there, sym put, even)

-- A word that was loaded is read back at its address, cut to 24 bits.
pub read-load_program_word :
    (cpu loaded : Dspic33) (address word : ℕ)
    → load_program_word cpu address word ≡ some loaded
    → read_program_word loaded address ≡ word % 0x1000000
read-load_program_word cpu loaded address word h =
    let (l, there, put, even) = load_program_word-put cpu loaded address word h in
    let kept : writable_program_word loaded address ≡ some l =
      rw put (writable-put_word cpu l (bit_and word 0xffffff) address ∙ there) in
    read_at_writable loaded address l kept
    ∙ rw put (
        rw (word_at-put_word cpu l (bit_and word 0xffffff)) (
          bit_and_mask 24 (bit_and word 0xffffff)
          ∙ ap (λ x. x % 0x1000000) (bit_and_mask 24 word)
          ∙ omega arith))

-- Distinct even addresses below the tagged ones have distinct places.
writable-injective :
    (cpu : Dspic33) (a b : ℕ) (l : Location)
    → writable_program_word cpu a ≡ some l
    → writable_program_word cpu b ≡ some l
    → a < persistent_program_base
    → b < persistent_program_base
    → a % 2 ≡ 0
    → b % 2 ≡ 0
    → a ≡ b
unfolding writable_program_word
writable-injective cpu a b l ha hb a-lt b-lt a-even b-even = ground arith

read-put_nowhere :
    (cpu : Dspic33) (l : Location) (word address : ℕ)
    → writable_program_word cpu address ≡ none
    → read_program_word (put_word cpu l word) address ≡ read_program_word cpu address
unfolding read_program_word writable_program_word
read-put_nowhere cpu (program i) word address h = ground (arith, h)
read-put_nowhere cpu (auxiliary i) word address h = ground (arith, h)
read-put_nowhere cpu (persistent i) word address h = ground (arith, h)

read-put_elsewhere :
    (cpu : Dspic33) (l other : Location) (word address : ℕ)
    → writable_program_word cpu address ≡ some other
    → other ≢ l
    → read_program_word (put_word cpu l word) address ≡ read_program_word cpu address
read-put_elsewhere cpu l other word address there ne =
    read_at_writable (put_word cpu l word) address other
      (writable-put_word cpu l word address ∙ there)
    ∙ ap (λ x. bit_and x 0xffffff) (word_at-put_word_ne cpu l other word ne)
    ∙ sym (read_at_writable cpu address other there)

-- A word that is loaded at an address below the tagged ones leaves what is read at another even
-- address there as it was.
pub read-load_program_word_ne :
    (cpu loaded : Dspic33) (address other word : ℕ)
    → load_program_word cpu address word ≡ some loaded
    → address < persistent_program_base
    → other < persistent_program_base
    → other % 2 ≡ 0
    → address ≢ other
    → read_program_word loaded other ≡ read_program_word cpu other
read-load_program_word_ne cpu loaded address other word h lt other-lt other-even ne =
    let (l, there, put, even) = load_program_word-put cpu loaded address word h in
    rw put (elim (Option-cases (writable_program_word cpu other)) [
      | inl nowhere ↦ read-put_nowhere cpu l (bit_and word 0xffffff) other nowhere
      | inr (m, elsewhere) ↦
          read-put_elsewhere cpu l m (bit_and word 0xffffff) other elsewhere (λ same. ne (
            writable-injective cpu address other l there (elsewhere ∙ ap some same) lt other-lt
              (omega (arith, bit_and_one address)) other-even))
    ])

put_word-device :
    (cpu : Dspic33) (l : Location) (word : ℕ) → (put_word cpu l word).device ≡ cpu.device
put_word-device cpu (program i) word = refl
put_word-device cpu (auxiliary i) word = refl
put_word-device cpu (persistent i) word = refl

pub load_program_word-device :
    (cpu loaded : Dspic33) (address word : ℕ)
    → load_program_word cpu address word ≡ some loaded
    → loaded.device ≡ cpu.device
load_program_word-device cpu loaded address word h =
    let (l, there, put, even) = load_program_word-put cpu loaded address word h in
    ap (λ c. c.device) put ∙ put_word-device cpu l (bit_and word 0xffffff)
