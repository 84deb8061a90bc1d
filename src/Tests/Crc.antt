-- ===== src/Tests/Crc.antt =====
-- The CRC module on concrete words.
use dspic33e_sim.Prelude.{
  ℕ, ◌*◌, ◌^◌, ◌≤◌, ◌<◌, ◌≡◌, ◌⊎◌, Bool, true, false, refl, arith, if◌then◌else◌,
}
use dspic33e_sim.Prelude.{bit_and, bit_or, bit_xor, [], ◌∷◌, ◌++◌, ltb}
use dspic33e_sim.Device.State.{Dspic33, Crc, update, blank, blank_crc}
use dspic33e_sim.Device.Memory.{raw_word, raw_write_word}
use dspic33e_sim.Crc.{
  shift_loop, shift_bit, feedback_bit, input_bit, crc_width_mask, with_crc, crc_push,
  crc_load_shift_data,
}
use dspic33e_sim.Crc.{crc_capacity, crc_data_width, crc_control}
use dspic33e_sim.Crc.{run_crc, crc_paused, crc_enable, crc_go}
use dspic33e_sim.Crc.Division.{times, quotient, divisor, IsLoaded}
use dspic33e_sim.Crc.Word.{word_divides}
use dspic33e_sim.Crc.Cycle.{crc_remainder}
use dspic33e_sim.Crc.Fifo.{crc_push_appends, waiting, IsBuffer}
use dspic33e_sim.Crc.Load.{crc_load_shift_data_takes}
use dspic33e_sim.Crc.Run.{run_crc_progress, pending}

abbrev any_memory : ℕ → Bool
any_memory n = true

-- The byte 0x31 and the polynomial x^16 + x^12 + x^5 + 1.
abbrev one_byte : Crc
one_byte = record blank_crc {
  shift_data = 0x31;
  polynomial = 0x1021;
  data_width = 8;
  polynomial_width = 16;
  bits_remaining = 8;
}

one_byte-IsLoaded : IsLoaded one_byte 0xffff
one_byte-IsLoaded = record {
  some_width = omega arith;
  width-le = omega arith;
  polynomial-lt = omega arith;
  remainder-lt = omega arith;
}

-- The CRC-16-CCITT of the byte.
ccitt : (shift_loop 8 one_byte 0xffff).1 ≡ 0xc782
unfolding shift_loop shift_bit feedback_bit input_bit crc_width_mask
ccitt = refl

word_divides_example :
    bit_xor (times (divisor one_byte) (quotient 8 one_byte 0xffff)) (shift_loop 8 one_byte 0xffff).1
    ≡ bit_xor (0xffff * 2 ^ 8) (0x31 * 2 ^ 16)
word_divides_example =
    word_divides one_byte 0xffff one_byte-IsLoaded (omega arith) refl (omega arith)

abbrev byte_loaded : Dspic33
byte_loaded = with_crc blank one_byte

-- Two words wait, the second in the cell behind the ring's end.
abbrev two_words : Dspic33
two_words =
    with_crc blank
      (record blank_crc { words = update (update (λ i. 0) 15 0xa5) 0 0x5a; head = 15; count = 2 })

two_words-IsBuffer : IsBuffer two_words.io.crc
two_words-IsBuffer = record { head-lt = omega arith; count-le = omega arith }

crc_push_appends_example :
    (waiting (crc_push any_memory two_words 0x31).io.crc ≡ (
      if ltb two_words.io.crc.count (crc_capacity two_words)
      then waiting two_words.io.crc
        ++ (bit_and 0x31 (crc_width_mask (crc_data_width two_words)) ∷ [])
      else waiting two_words.io.crc))
    × IsBuffer (crc_push any_memory two_words 0x31).io.crc
crc_push_appends_example = crc_push_appends any_memory two_words 0x31 two_words-IsBuffer

crc_load_shift_data_takes_example :
    (waiting two_words.io.crc
      ≡ (crc_load_shift_data two_words).io.crc.shift_data
        ∷ waiting (crc_load_shift_data two_words).io.crc)
    × IsBuffer (crc_load_shift_data two_words).io.crc
    × IsLoaded
        (crc_load_shift_data two_words).io.crc
        (crc_remainder (crc_load_shift_data two_words))
    × (0 < (crc_load_shift_data two_words).io.crc.bits_remaining)
    × ((crc_load_shift_data two_words).io.crc.bits_remaining ≤ 32)
crc_load_shift_data_takes_example =
    crc_load_shift_data_takes two_words two_words-IsBuffer (omega arith)

-- The module runs.
abbrev started : Dspic33
started =
    raw_write_word (with_crc two_words (record two_words.io.crc { active = true })) crc_control
      (bit_or crc_enable crc_go)

run_crc_progress_example :
    ((run_crc any_memory started 0).io.crc.active ≡ false)
    ⊎ (pending (run_crc any_memory started 0).io.crc < pending started.io.crc)
unfolding crc_paused raw_word raw_write_word
run_crc_progress_example =
    run_crc_progress any_memory started 0 (record { head-lt = omega arith; count-le = omega arith })
      (omega arith) refl
