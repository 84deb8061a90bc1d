-- ===== src/Rtcc/Alarm.antt =====
-- The alarm of rtcc.c: what its mask compares, and how often it rings.
use dspic33e_sim.Prelude.{
  ℕ, zero, suc, ◌-◌, ◌*◌, ◌/◌, ◌%◌, ◌^◌, ◌≤◌, ◌<◌, ◌≡◌, ◌≢◌, refl, sym, ap, ◌∙◌, arith, true, false,
}
use dspic33e_sim.Prelude.{◌&&◌, ◌==◌, ◌!=◌, u8, u16, bit_or, bit_and, ◌>>>◌}
use dspic33e_sim.Bits.{
  bit_or_fields, bit_and_mask, split_by_masks, bit_and_assoc, bit_and-le, bit_or-zero, bit_and-zero,
}
use dspic33e_sim.Device.State.{Rtcc}
use dspic33e_sim.Rtcc.Clock.{
  rtcc_fields_match, rtcc_alarm_repeat, rtcc_alarm_chime, rtcc_alarm_enable,
}

-- A mask that compares more fields matches only where one that compares fewer does. Mask 7, the
-- weekly alarm, is not among the coarser ones, since the monthly and yearly alarms ignore the
-- weekday.
pub fields_match-coarser :
    (rtcc : Rtcc) (coarse fine : ℕ)
    → 2 ≤ coarse
    → coarse < fine
    → fine ≤ 9
    → coarse ≢ 7
    → rtcc_fields_match rtcc fine ≡ true
    → rtcc_fields_match rtcc coarse ≡ true
unfolding rtcc_fields_match
fields_match-coarser rtcc coarse fine low lt high weekly match = ground arith

-- The yearly alarm matches exactly if the second, the minute, the hour, the day and the month are
-- those of the alarm.
pub fields_match-yearly :
    (rtcc : Rtcc)
    → rtcc_fields_match rtcc 9 ≡ (
        u8 (rtcc.calendar 0) == u8 (rtcc.alarm 0)
        && u8 (rtcc.calendar 0 >>> 8) == u8 (rtcc.alarm 0 >>> 8)
        && u8 (rtcc.calendar 1) == u8 (rtcc.alarm 1)
        && u8 (rtcc.calendar 2) == u8 (rtcc.alarm 2)
        && u8 (rtcc.calendar 2 >>> 8) == u8 (rtcc.alarm 2 >>> 8))
unfolding rtcc_fields_match
fields_match-yearly rtcc = ground arith

-- ALCFGRPT after `n` alarms.
unfoldable pub after_alarms : ℕ → ℕ → ℕ
after_alarms zero control = control
after_alarms (suc n) control = after_alarms n (rtcc_alarm_repeat control)

high_byte : (c : ℕ) → c < 65536 → bit_and c 0xff00 ≡ c / 256 * 2 ^ 8
high_byte c lt =
    omega (arith, split_by_masks 16 c 0xff00 0x00ff (omega arith) refl refl, bit_and_mask 8 c)

-- With repeats left, an alarm takes one.
repeat-less :
    (c : ℕ) → c < 65536 → bit_and c rtcc_alarm_chime ≡ 0 → 0 < c % 256 → rtcc_alarm_repeat c ≡ c - 1
unfolding rtcc_alarm_repeat
repeat-less c lt chime some_left =
    ground (arith, high_byte c lt, bit_or_fields 8 (c / 256) (c % 256 - 1) (omega arith))

-- A mask of the high byte reads only the high byte.
high_mask :
    (c d m : ℕ)
    → c < 65536
    → d < 65536
    → bit_and 0xff00 m ≡ m
    → c / 256 ≡ d / 256
    → bit_and c m ≡ bit_and d m
high_mask c d m c_lt d_lt high same =
    ap (bit_and c) (sym high)
    ∙ sym (bit_and_assoc c 0xff00 m)
    ∙ ap (λ t. bit_and t m) (omega (arith, high_byte c c_lt, high_byte d d_lt, same))
    ∙ bit_and_assoc d 0xff00 m
    ∙ ap (bit_and d) high

-- At the last alarm the alarm is switched off.
repeat-last :
    (c : ℕ)
    → bit_and c rtcc_alarm_chime ≡ 0
    → c % 256 ≡ 0
    → bit_and (rtcc_alarm_repeat c) rtcc_alarm_enable ≡ 0
unfolding rtcc_alarm_repeat
repeat-last c chime none_left =
    let left = bit_and (bit_and c 0x7fff) 0xff00 in
    let small : u16 (bit_or left 0) ≡ left =
      omega (arith, bit_or-zero left, bit_and-le (bit_and c 0x7fff) 0xff00) in
    let off : bit_and left rtcc_alarm_enable ≡ 0 =
      bit_and_assoc (bit_and c 0x7fff) 0xff00 0x8000
      ∙ bit_and_assoc c 0x7fff 0x8000
      ∙ bit_and-zero c in
    let silent : (bit_and c rtcc_alarm_chime != 0) ≡ false = ground arith in
    let over : (u8 c == 0) ≡ true = ground arith in rw (silent, over, none_left, small) off

-- Without CHIME, as many alarms as ALCFGRPT has repeats left take one repeat each, and leave the
-- alarm switched on or off as it was.
pub alarms_counted :
    (n c : ℕ)
    → c < 65536
    → bit_and c rtcc_alarm_chime ≡ 0
    → n ≤ c % 256
    → (after_alarms n c ≡ c - n)
      × (bit_and (after_alarms n c) rtcc_alarm_enable ≡ bit_and c rtcc_alarm_enable)
unfolding after_alarms
alarms_counted zero c lt chime le = (omega arith, refl)
alarms_counted (suc n) c lt chime le =
    let next = repeat-less c lt chime (omega arith) in
    let silent = high_mask (c - 1) c rtcc_alarm_chime (omega arith) lt refl (omega arith) in
    let on = high_mask (c - 1) c rtcc_alarm_enable (omega arith) lt refl (omega arith) in
    let (count, enable) = alarms_counted n (c - 1) (omega arith) (silent ∙ chime) (omega arith) in
    rw next (omega (arith, count), enable ∙ on)

-- Without CHIME and with `n` repeats left, the alarm after `n` more switches the alarm off.
pub alarms_stop :
    (n c : ℕ)
    → c < 65536
    → bit_and c rtcc_alarm_chime ≡ 0
    → c % 256 ≡ n
    → bit_and (after_alarms (suc n) c) rtcc_alarm_enable ≡ 0
unfolding after_alarms
alarms_stop zero c lt chime none_left = repeat-last c chime none_left
alarms_stop (suc n) c lt chime left =
    let next = repeat-less c lt chime (omega arith) in
    let silent = high_mask (c - 1) c rtcc_alarm_chime (omega arith) lt refl (omega arith) in
    rw next (alarms_stop n (c - 1) (omega arith) (silent ∙ chime) (omega arith))
