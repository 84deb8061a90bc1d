-- ===== src/Program/Nvm/Clears.antt =====
-- Programming only clears bits of the program memory.
use dspic33e_sim.Prelude.{ℕ, zero, suc, ◌≡◌, sym, ap, ◌∙◌, arith, ◌⊎◌, inl, inr}
use dspic33e_sim.Prelude.{Option, none, some, bit_and, Bool-cases}
use dspic33e_sim.Bits.{bit_and_self, bit_and_comm, bit_and_assoc}
use dspic33e_sim.Device.State.{Dspic33}
use dspic33e_sim.Program.{Location, word_at}
use dspic33e_sim.Program.Memory.{Location-cases, word_at-put_word, word_at-put_word_ne}
use dspic33e_sim.Program.Codeguard.{codeguard_programming_allowed}
use dspic33e_sim.Program.Nvm.{
  program_at, program_row, complete_program_nvm, nvm_target, write_latch_words,
}

-- The bits of `a` are among those of `b`.
abbrev pub IsWithin : ℕ → ℕ → Type 0
IsWithin a b = bit_and a b ≡ a

IsWithin-trans : (a b c : ℕ) → IsWithin a b → IsWithin b c → IsWithin a c
IsWithin-trans a b c ab bc =
    ap (λ x. bit_and x c) (sym ab) ∙ bit_and_assoc a b c ∙ ap (bit_and a) bc ∙ ab

IsWithin-and : (a latch : ℕ) → IsWithin (bit_and a latch) a
IsWithin-and a latch =
    bit_and_comm (bit_and a latch) a
    ∙ sym (bit_and_assoc a a latch)
    ∙ ap (λ x. bit_and x latch) (bit_and_self a)

program_at-IsWithin :
    (cpu : Dspic33) (o : Option Location) (latch : ℕ) (l : Location)
    → IsWithin (word_at (program_at cpu o latch) l) (word_at cpu l)
program_at-IsWithin cpu none latch l = bit_and_self (word_at cpu l)
program_at-IsWithin cpu (some d) latch l = elim (Location-cases l d) [
  | inl same ↦ rw same (
      rw (word_at-put_word cpu d (bit_and (word_at cpu d) latch))
        (IsWithin-and (word_at cpu d) latch))
  | inr ne ↦
      rw (word_at-put_word_ne cpu d l (bit_and (word_at cpu d) latch) ne)
        (bit_and_self (word_at cpu l))
]

program_row-IsWithin :
    (cpu : Dspic33) (target n : ℕ) (l : Location)
    → IsWithin (word_at (program_row cpu target n) l) (word_at cpu l)
unfolding program_row
program_row-IsWithin cpu target zero l = bit_and_self (word_at cpu l)
program_row-IsWithin cpu target (suc n) l =
    IsWithin-trans _ _ _ (program_at-IsWithin (program_row cpu target n) _ _ l)
      (program_row-IsWithin cpu target n l)

programs :
    (cpu : Dspic33)
    → (bit_and cpu.nvm.control 0x000f ≡ 1) ⊎ (bit_and cpu.nvm.control 0x000f ≡ 2)
    → (complete_program_nvm cpu ≡ cpu)
      ⊎ ((n : ℕ) × (complete_program_nvm cpu ≡ program_row cpu (nvm_target cpu) n))
unfolding complete_program_nvm
programs cpu op = elim (Bool-cases (codeguard_programming_allowed cpu (nvm_target cpu))) [
  | inl allowed ↦ elim op [
    | inl pair ↦ inr (2, ground arith)
    | inr row ↦ inr (write_latch_words, ground arith)
  ]
  | inr guarded ↦ inl (ground arith)
]

-- A double word or a row that is programmed gains no bit anywhere in the three program memories.
pub complete_program_nvm-IsWithin :
    (cpu : Dspic33) (l : Location)
    → (bit_and cpu.nvm.control 0x000f ≡ 1) ⊎ (bit_and cpu.nvm.control 0x000f ≡ 2)
    → IsWithin (word_at (complete_program_nvm cpu) l) (word_at cpu l)
complete_program_nvm-IsWithin cpu l op = elim (programs cpu op) [
  | inl same ↦ rw same (bit_and_self (word_at cpu l))
  | inr (n, row) ↦ rw row (program_row-IsWithin cpu (nvm_target cpu) n l)
]
