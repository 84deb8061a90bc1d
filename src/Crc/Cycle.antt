-- ===== src/Crc/Cycle.antt =====
-- A clock cycle of the CRC module: two rounds, of which the register keeps the remainder.
use native.Mathlib.Nat.{pow-le-pow_right, mod-eq_of_lt}
use dspic33e_sim.Prelude.{
  ℕ, zero, suc, ◌+◌, ◌-◌, ◌*◌, ◌/◌, ◌%◌, ◌^◌, ◌≤◌, ◌<◌, ◌≡◌, refl, sym, ap, ◌∙◌, arith,
}
use dspic33e_sim.Prelude.{◌==◌, Bool-cases, inl, inr, ==_iff}
use dspic33e_sim.Prelude.{bit_and, u16, u32, ◌<<<◌, ◌>>>◌}
use dspic33e_sim.Bits.{bit_or_fields, bit_or_comm, bit_and_mask}
use dspic33e_sim.Device.State.{Dspic33, Crc}
use dspic33e_sim.Device.Memory.{
  raw_word, raw_write_word, raw_word-raw_write_word, raw_word-raw_write_word_ne,
}
use dspic33e_sim.Crc.{shift_loop, bit_done, shift_bit, crc_shift_bits, crc_shift_register, with_crc}
use dspic33e_sim.Crc.{crc_write_shift_register, crc_width_mask, crc_shift_low, crc_shift_high}
use dspic33e_sim.Crc.Division.{IsLoaded, width_mask_lem}
use dspic33e_sim.Crc.Shift.{shift_loop-IsLoaded}

shift_loop-stop :
    (n : ℕ) (crc : Crc) (r : ℕ) → crc.bits_remaining ≡ 0 → shift_loop n crc r ≡ (crc, r)
unfolding shift_loop
shift_loop-stop zero crc r none_left = refl
shift_loop-stop (suc n) crc r none_left = rw none_left

-- Rounds in two portions are the rounds in one.
pub shift_loop-add :
    (m n : ℕ) (crc : Crc) (r : ℕ)
    → shift_loop (m + n) crc r ≡ shift_loop n (shift_loop m crc r).0 (shift_loop m crc r).1
unfolding shift_loop
shift_loop-add zero n crc r = let same : 0 + n ≡ n = omega arith in rw same
shift_loop-add (suc m) n crc r =
    let next : suc m + n ≡ suc (m + n) = omega arith in
    elim (Bool-cases (crc.bits_remaining == 0)) [
      | inl stops ↦
          rw (next, stops) (sym (shift_loop-stop n crc r ((==_iff crc.bits_remaining 0).0 stops)))
      | inr goes_on ↦ rw (next, goes_on) (shift_loop-add m n (bit_done crc) (shift_bit crc r))
    ]

-- What is written into the register's two halves is read back.
crc_register_roundtrip :
    (cpu : Dspic33) (v : ℕ)
    → v < 4294967296
    → crc_shift_register (crc_write_shift_register cpu v) ≡ v
unfolding crc_shift_register crc_write_shift_register
crc_register_roundtrip cpu v lt =
    let low = raw_write_word cpu crc_shift_low (u16 v) in
    let high_half : raw_word (raw_write_word low crc_shift_high (u16 (v >>> 16))) crc_shift_high
        ≡ v / 65536 =
      raw_word-raw_write_word low crc_shift_high (u16 (v >>> 16)) (omega arith) ∙ omega arith in
    let low_half : raw_word (raw_write_word low crc_shift_high (u16 (v >>> 16))) crc_shift_low
        ≡ v % 65536 =
      raw_word-raw_write_word_ne low crc_shift_high crc_shift_low (u16 (v >>> 16)) (omega arith)
        (omega arith) (omega arith) (omega arith) (omega arith)
      ∙ raw_word-raw_write_word cpu crc_shift_low (u16 v) (omega arith)
      ∙ omega arith in
    let shifted : u32 ((v / 65536) <<< 16) ≡ v / 65536 * 2 ^ 16 = omega arith in
    rw (low_half, high_half, shifted)
      (bit_or_comm (v % 65536) (v / 65536 * 2 ^ 16)
        ∙ bit_or_fields 16 (v / 65536) (v % 65536) (omega arith)
        ∙ omega arith)

-- What the width of the polynomial leaves of the register.
abbrev pub crc_remainder : Dspic33 → ℕ
crc_remainder cpu = bit_and (crc_shift_register cpu) (crc_width_mask cpu.io.crc.polynomial_width)

masked : (w r : ℕ) → w ≤ 32 → r < 2 ^ w → bit_and r (crc_width_mask w) ≡ r
masked w r le lt = rw (width_mask_lem w le, bit_and_mask w r) (mod-eq_of_lt lt)

pub crc_shift_bits-crc :
    (cpu : Dspic33) → (crc_shift_bits cpu).io.crc ≡ (shift_loop 2 cpu.io.crc (crc_remainder cpu)).0
unfolding crc_shift_bits crc_write_shift_register raw_write_word
crc_shift_bits-crc cpu = refl

crc_shift_bits-register :
    (cpu : Dspic33)
    → (shift_loop 2 cpu.io.crc (crc_remainder cpu)).1 < 4294967296
    → crc_shift_register (crc_shift_bits cpu) ≡ (shift_loop 2 cpu.io.crc (crc_remainder cpu)).1
unfolding crc_shift_bits
crc_shift_bits-register cpu lt =
    let (crc, r) = shift_loop 2 cpu.io.crc (crc_remainder cpu) in
    crc_register_roundtrip (with_crc cpu crc) r lt

-- A cycle leaves in the register the remainder of two rounds, or of one for the last bit of a
-- word, and counts them; the word and the divisor stay. The settings must be those of a word being
-- shifted.
pub crc_shift_bits_rounds :
    (cpu : Dspic33)
    → IsLoaded cpu.io.crc (crc_remainder cpu)
    → cpu.io.crc.bits_remaining < 256
    → (crc_remainder (crc_shift_bits cpu) ≡ (shift_loop 2 cpu.io.crc (crc_remainder cpu)).1)
      × ((crc_shift_bits cpu).io.crc
          ≡ record cpu.io.crc { bits_remaining = cpu.io.crc.bits_remaining - 2 })
crc_shift_bits_rounds cpu set lt =
    let w = cpu.io.crc.polynomial_width in
    let (crc, r) = shift_loop 2 cpu.io.crc (crc_remainder cpu) in
    let (set', same) = shift_loop-IsLoaded 2 cpu.io.crc (crc_remainder cpu) set lt in
    let width : crc.polynomial_width ≡ w = ap (λ c. c.polynomial_width) same in
    let small : r < 2 ^ w = rw width at set'.remainder-lt in
    let bound : 2 ^ w ≤ 2 ^ 32 =
      pow-le-pow_right {n = 2} (omega arith) {i = w} {j = 32} set.width-le in
    let stored = crc_shift_bits-register cpu (omega arith) in
    (
      rw (stored, crc_shift_bits-crc cpu, width) (masked w r set.width-le small),
      crc_shift_bits-crc cpu ∙ same,
    )
