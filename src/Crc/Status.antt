-- ===== src/Crc/Status.antt =====
-- The status bits of CRCCON1 that `dspic33_device_internal_crc_refresh_status` keeps.
use mathlib.Core.Path.{ap₂}
use dspic33e_sim.Prelude.{ℕ, ◌*◌, ◌^◌, ◌≤◌, ◌<◌, ◌≡◌, refl, ap, ◌∙◌, arith, ◌==◌, leb}
use dspic33e_sim.Prelude.{Bool, true, false, bit_and, bit_or, u16, not16, if◌then◌else◌, ◌<<<◌}
use dspic33e_sim.Bits.{
  bit_and_shift, bit_and_fields, bit_and_mask, bit_or-lt, bit_and-le, bit_and-bit_or, bit_or-zero,
}
use dspic33e_sim.Bits.{masked_put, masked_kept, bit_and_comm}
use dspic33e_sim.Device.State.{Dspic33}
use dspic33e_sim.Device.Memory.{raw_word, raw_word-raw_write_word}
use dspic33e_sim.Crc.{
  crc_refresh_status, crc_status, crc_capacity, crc_control, crc_full, crc_empty,
  crc_word_count_mask,
}
use dspic33e_sim.Crc.Fifo.{IsBuffer}

-- The bits that a refresh keeps.
abbrev pub kept_bits : ℕ
kept_bits = not16 (bit_or (bit_or crc_word_count_mask crc_full) crc_empty)

-- The status word as the `|` of its three parts.
status_lem :
    (cpu : Dspic33)
    → cpu.io.crc.count ≤ 16
    → crc_status cpu
      ≡ bit_or
          (bit_or (cpu.io.crc.count * 2 ^ 8) (if cpu.io.crc.count == 0 then crc_empty else 0))
          (if leb (crc_capacity cpu) cpu.io.crc.count then crc_full else 0)
unfolding crc_status
status_lem cpu le =
    let count : u16 (cpu.io.crc.count <<< 8) ≡ cpu.io.crc.count * 2 ^ 8 = omega arith in
    rw count (
      parts (cpu.io.crc.count * 2 ^ 8) (cpu.io.crc.count == 0)
        (leb (crc_capacity cpu) cpu.io.crc.count))
  where
    parts :
        (c : ℕ) (e f : Bool)
        → (if f
            then bit_or (if e then bit_or c crc_empty else c) crc_full
            else (if e then bit_or c crc_empty else c))
          ≡ bit_or (bit_or c (if e then crc_empty else 0)) (if f then crc_full else 0)
    parts c false false = rw (bit_or-zero c, bit_or-zero c)
    parts c false true = rw (bit_or-zero c)
    parts c true false = rw (bit_or-zero (bit_or c crc_empty))
    parts c true true = refl

-- The parts do not overlap.
module _ (c : ℕ) (le : c ≤ 16) where
  abbrev three : Bool → Bool → ℕ
  three e f = bit_or (bit_or (c * 2 ^ 8) (if e then crc_empty else 0)) (if f then crc_full else 0)

  count_low : (m : ℕ) → m < 2 ^ 8 → bit_and (c * 2 ^ 8) m ≡ 0
  count_low m lt = bit_and_fields 8 c m lt

  three-empty : (e f : Bool) → bit_and (three e f) crc_empty ≡ (if e then crc_empty else 0)
  three-empty e f =
      rw (bit_and-bit_or, bit_and-bit_or, count_low crc_empty (omega arith)) (each e f)
    where
      each :
          (e f : Bool)
          → bit_or
              (bit_or 0 (bit_and (if e then crc_empty else 0) crc_empty))
              (bit_and (if f then crc_full else 0) crc_empty)
            ≡ (if e then crc_empty else 0)
      each false false = refl
      each false true = refl
      each true false = refl
      each true true = refl

  three-full : (e f : Bool) → bit_and (three e f) crc_full ≡ (if f then crc_full else 0)
  three-full e f = rw (bit_and-bit_or, bit_and-bit_or, count_low crc_full (omega arith)) (each e f)
    where
      each :
          (e f : Bool)
          → bit_or
              (bit_or 0 (bit_and (if e then crc_empty else 0) crc_full))
              (bit_and (if f then crc_full else 0) crc_full)
            ≡ (if f then crc_full else 0)
      each false false = refl
      each false true = refl
      each true false = refl
      each true true = refl

  count_high : (k : ℕ) → bit_and (c * 2 ^ 8) (k * 2 ^ 8) ≡ bit_and c k * 2 ^ 8
  count_high k = bit_and_shift 8 c k

  count_field : bit_and (c * 2 ^ 8) crc_word_count_mask ≡ c * 2 ^ 8
  count_field = omega (arith, count_high 0x1f, bit_and_mask 5 c)

  -- The bits that are kept are those above and below the fields.
  count_kept : bit_and (c * 2 ^ 8) kept_bits ≡ 0
  count_kept =
      let above : bit_and (0xe0 * 2 ^ 8) (c * 2 ^ 8) ≡ 0 =
        bit_and_comm (0xe0 * 2 ^ 8) (c * 2 ^ 8)
        ∙ omega (arith, count_high 0xe0, bit_and_comm c 0xe0, bit_and_fields 5 7 c (omega arith)) in
      let below : bit_and 0x3f (c * 2 ^ 8) ≡ 0 =
        bit_and_comm 0x3f (c * 2 ^ 8) ∙ count_low 0x3f (omega arith) in
      bit_and_comm (c * 2 ^ 8) kept_bits
      ∙ bit_and-bit_or (0xe0 * 2 ^ 8) 0x3f (c * 2 ^ 8)
      ∙ ap₂ bit_or above below

  three-count : (e f : Bool) → bit_and (three e f) crc_word_count_mask ≡ c * 2 ^ 8
  three-count e f = rw (bit_and-bit_or, bit_and-bit_or, count_field) (each e f)
    where
      each :
          (e f : Bool)
          → bit_or
              (bit_or (c * 2 ^ 8) (bit_and (if e then crc_empty else 0) crc_word_count_mask))
              (bit_and (if f then crc_full else 0) crc_word_count_mask)
            ≡ c * 2 ^ 8
      each false false = rw (bit_or-zero, bit_or-zero)
      each false true = rw (bit_or-zero, bit_or-zero)
      each true false = rw (bit_or-zero, bit_or-zero)
      each true true = rw (bit_or-zero, bit_or-zero)

  three-kept : (e f : Bool) → bit_and (three e f) kept_bits ≡ 0
  three-kept e f = rw (bit_and-bit_or, bit_and-bit_or, count_kept) (each e f)
    where
      each :
          (e f : Bool)
          → bit_or
              (bit_or 0 (bit_and (if e then crc_empty else 0) kept_bits))
              (bit_and (if f then crc_full else 0) kept_bits)
            ≡ 0
      each false false = refl
      each false true = refl
      each true false = refl
      each true true = refl

  three-lt : (e f : Bool) → three e f < 2 ^ 16
  three-lt e f = bit_or-lt 16 _ _ (bit_or-lt 16 _ _ (omega arith) (empty_lt e)) (full_lt f)
    where
      empty_lt : (e : Bool) → (if e then crc_empty else 0) < 2 ^ 16
      empty_lt e = ground arith

      full_lt : (f : Bool) → (if f then crc_full else 0) < 2 ^ 16
      full_lt f = ground arith

refreshed :
    (cpu : Dspic33) (le : cpu.io.crc.count ≤ 16)
    → raw_word (crc_refresh_status cpu) crc_control
      ≡ bit_or (bit_and (raw_word cpu crc_control) kept_bits) (
          three cpu.io.crc.count le
            (cpu.io.crc.count == 0)
            (leb (crc_capacity cpu) cpu.io.crc.count))
unfolding crc_refresh_status
refreshed cpu le =
    let put =
      three cpu.io.crc.count le (cpu.io.crc.count == 0) (leb (crc_capacity cpu) cpu.io.crc.count) in
    let old = bit_and (raw_word cpu crc_control) kept_bits in
    let small : bit_or old put < 2 ^ 16 =
      bit_or-lt 16 old put (omega (arith, bit_and-le (raw_word cpu crc_control) kept_bits)) (
        three-lt cpu.io.crc.count le (cpu.io.crc.count == 0)
          (leb (crc_capacity cpu) cpu.io.crc.count)) in
    raw_word-raw_write_word cpu crc_control (u16 (bit_or old (crc_status cpu))) (omega arith)
    ∙ ap (λ t. u16 (u16 (bit_or old t))) (status_lem cpu le)
    ∙ omega arith

-- A refresh leaves in CRCCON1 the number of words that wait, whether there are none, whether there
-- is no room for another, and every other bit as it was.
pub crc_refresh_status_fields :
    (cpu : Dspic33)
    → IsBuffer cpu.io.crc
    → (bit_and (raw_word (crc_refresh_status cpu) crc_control) crc_word_count_mask
        ≡ cpu.io.crc.count * 256)
      × (bit_and (raw_word (crc_refresh_status cpu) crc_control) crc_empty
          ≡ (if cpu.io.crc.count == 0 then crc_empty else 0))
      × (bit_and (raw_word (crc_refresh_status cpu) crc_control) crc_full
          ≡ (if leb (crc_capacity cpu) cpu.io.crc.count then crc_full else 0))
      × (bit_and (raw_word (crc_refresh_status cpu) crc_control) kept_bits
          ≡ bit_and (raw_word cpu crc_control) kept_bits)
crc_refresh_status_fields cpu buffer =
    let c = cpu.io.crc.count in
    let e = c == 0 in
    let f = leb (crc_capacity cpu) c in
    let old = raw_word cpu crc_control in
    let le = buffer.count-le in
    rw (refreshed cpu le) (
      masked_put old kept_bits (three c le e f) crc_word_count_mask refl ∙ three-count c le e f,
      masked_put old kept_bits (three c le e f) crc_empty refl ∙ three-empty c le e f,
      masked_put old kept_bits (three c le e f) crc_full refl ∙ three-full c le e f,
      masked_kept old kept_bits (three c le e f) kept_bits refl (three-kept c le e f),
    )
