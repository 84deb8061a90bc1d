-- ===== src/Crc/Load.antt =====
-- `crc_load_shift_data` takes the first word that waits in the CRC module.
use native.Mathlib.Nat.{mod-lt, one-le-pow}
use mathlib.Core.Path.{subst}
use dspic33e_sim.Prelude.{ℕ, suc, ◌+◌, ◌%◌, ◌^◌, ◌≤◌, ◌<◌, ◌≡◌, refl, sym, ap, ◌∙◌, arith}
use dspic33e_sim.Prelude.{◌∷◌}
use dspic33e_sim.Prelude.{bit_and, u8, ◌>>>◌}
use dspic33e_sim.Bits.{bit_and_mask, bit_and-le}
use dspic33e_sim.Device.State.{Dspic33, Crc}
use dspic33e_sim.Device.Memory.{raw_word}
use dspic33e_sim.Crc.{crc_take_word, crc_load_shift_data}
use dspic33e_sim.Crc.{
  crc_width_mask, crc_data_width, crc_polynomial_width, crc_config, crc_shift_register,
}
use dspic33e_sim.Crc.Division.{IsLoaded, width_mask_lem}
use dspic33e_sim.Crc.Cycle.{crc_remainder}
use dspic33e_sim.Crc.Frame.{crc_load_shift_data-crc}
use dspic33e_sim.Crc.Fifo.{ring, waiting, IsBuffer, ring-first}

pub crc_take_word-fields :
    (cpu : Dspic33)
    → ((crc_take_word cpu).shift_data ≡ cpu.io.crc.words cpu.io.crc.head)
      × ((crc_take_word cpu).words ≡ cpu.io.crc.words)
      × ((crc_take_word cpu).head ≡ u8 ((cpu.io.crc.head + 1) % 16))
      × ((crc_take_word cpu).count ≡ u8 (cpu.io.crc.count + 255))
      × ((crc_take_word cpu).bits_remaining ≡ crc_data_width cpu)
unfolding crc_take_word
crc_take_word-fields cpu = (refl, refl, refl, refl, refl)

pub crc_data_width-le : (cpu : Dspic33) → (0 < crc_data_width cpu) × (crc_data_width cpu ≤ 32)
unfolding crc_data_width
crc_data_width-le cpu = omega (arith, bit_and-le (raw_word cpu crc_config >>> 8) 0x001f)

crc_polynomial_width-le :
    (cpu : Dspic33) → (0 < crc_polynomial_width cpu) × (crc_polynomial_width cpu ≤ 32)
unfolding crc_polynomial_width
crc_polynomial_width-le cpu = omega (arith, bit_and-le (raw_word cpu crc_config) 0x001f)

-- What a mask leaves fits in its width.
masked-lt : (w x : ℕ) → w ≤ 32 → bit_and x (crc_width_mask w) < 2 ^ w
masked-lt w x le =
    rw (width_mask_lem w le, bit_and_mask w x) (mod-lt x (one-le-pow w 2 (omega arith)))

crc_take_word-IsLoaded :
    (cpu : Dspic33) (x : ℕ)
    → IsLoaded (crc_take_word cpu) (bit_and x (crc_width_mask (crc_take_word cpu).polynomial_width))
unfolding crc_take_word
crc_take_word-IsLoaded cpu x =
    let (width_pos, width_le) = crc_polynomial_width-le cpu in
    record {
      some_width = width_pos;
      width-le = width_le;
      polynomial-lt = masked-lt (crc_polynomial_width cpu) _ width_le;
      remainder-lt = masked-lt (crc_polynomial_width cpu) x width_le;
    }

-- What `crc_load_shift_data` takes is the first word of the queue; the rest waits on, the indices
-- stay in bounds, and the settings are those of a word being shifted, of at most 32 bits.
pub crc_load_shift_data_takes :
    (cpu : Dspic33)
    → IsBuffer cpu.io.crc
    → 0 < cpu.io.crc.count
    → (waiting cpu.io.crc
        ≡ (crc_load_shift_data cpu).io.crc.shift_data ∷ waiting (crc_load_shift_data cpu).io.crc)
      × IsBuffer (crc_load_shift_data cpu).io.crc
      × IsLoaded (crc_load_shift_data cpu).io.crc (crc_remainder (crc_load_shift_data cpu))
      × (0 < (crc_load_shift_data cpu).io.crc.bits_remaining)
      × ((crc_load_shift_data cpu).io.crc.bits_remaining ≤ 32)
crc_load_shift_data_takes cpu buffer some_word =
    let same = crc_load_shift_data-crc cpu in
    let (shift_data, words, head, count, bits) = crc_take_word-fields cpu in
    let (data_pos, data_le) = crc_data_width-le cpu in
    let less : cpu.io.crc.count ≡ suc (u8 (cpu.io.crc.count + 255)) = omega arith in
    (
      rw (same, shift_data, words, head, count)
          (ap (ring cpu.io.crc.words cpu.io.crc.head) less
            ∙ ring-first cpu.io.crc.words cpu.io.crc.head (u8 (cpu.io.crc.count + 255))
                buffer.head-lt),
      rw same (record { head-lt = omega (arith, head); count-le = omega (arith, count) }),
      subst
          (λ (c : Crc). IsLoaded c (
            bit_and (crc_shift_register (crc_load_shift_data cpu))
              (crc_width_mask c.polynomial_width)))
          (sym same) (crc_take_word-IsLoaded cpu (crc_shift_register (crc_load_shift_data cpu))),
      rw (same, bits) data_pos,
      rw (same, bits) data_le,
    )
