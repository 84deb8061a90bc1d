-- ===== src/Tests/Timers.antt =====
-- A timer of 16 bits with the period 99.
use dspic33e_sim.Prelude.{◌≡◌, refl, arith, inl}
use dspic33e_sim.Timers.{timer_prescale, advance_counter}
use dspic33e_sim.Timers.Ticks.{single_ticks}
use dspic33e_sim.Timers.Advance.{advance_counter_ticks}

-- From 90 on, 250 ticks match at the 9th, the 109th and the 209th.
three_matches : advance_counter 90 99 65535 250 ≡ record { counter_value = 40; period_matches = 3 }
unfolding advance_counter
three_matches = refl

-- A counter above its period runs to the end of its width first.
wraps_first : advance_counter 65530 99 65535 7 ≡ record { counter_value = 1; period_matches = 0 }
unfolding advance_counter
wraps_first = refl

slowest : timer_prescale 0x8030 ≡ 256
unfolding timer_prescale
slowest = refl

advance_counter_ticks_example : advance_counter 90 99 65535 250 ≡ single_ticks 90 99 65535 250
advance_counter_ticks_example =
    advance_counter_ticks 90 99 65535 250 (inl refl) (omega arith) (omega arith) (omega arith)
