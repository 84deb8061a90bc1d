-- ===== src/Device/Pps.antt =====
-- Remappable pins: the sorted table of common.c and its binary search in
-- control/input_capture.c (both under src/device/dspic33ep_mu).
use dspic33e_sim.Prelude.{ℕ, zero, suc, ◌+◌, ◌-◌, ◌/◌, ◌^◌, bit_and, Bool, false}
use dspic33e_sim.Prelude.{List, [], ◌∷◌, Option, none, some, get_or, ltb, ◌==◌}
use dspic33e_sim.Prelude.{◌!=◌, ◌||◌, if◌then◌else◌, u16}
use dspic33e_sim.Device.Profile.{Device, gpio_port_mask}

-- `Dspic33PpsPin`.
pub record PpsPin : Type 0 where
  pub pin : ℕ
  pub port : ℕ
  pub bit : ℕ

abbrev entry : ℕ → ℕ → ℕ → PpsPin
entry p port b = record { pin = p; port = port; bit = b }

abbrev pub pps_pins : List PpsPin
pps_pins =
    entry 16 0 0
    ∷ entry 17 0 1
    ∷ entry 18 0 2
    ∷ entry 19 0 3
    ∷ entry 20 0 4
    ∷ entry 21 0 5
    ∷ entry 22 0 6
    ∷ entry 23 0 7
    ∷ entry 30 0 14
    ∷ entry 31 0 15
    ∷ entry 32 1 0
    ∷ entry 33 1 1
    ∷ entry 34 1 2
    ∷ entry 35 1 3
    ∷ entry 36 1 4
    ∷ entry 37 1 5
    ∷ entry 38 1 6
    ∷ entry 39 1 7
    ∷ entry 40 1 8
    ∷ entry 41 1 9
    ∷ entry 42 1 10
    ∷ entry 43 1 11
    ∷ entry 44 1 12
    ∷ entry 45 1 13
    ∷ entry 46 1 14
    ∷ entry 47 1 15
    ∷ entry 49 2 1
    ∷ entry 50 2 2
    ∷ entry 51 2 3
    ∷ entry 52 2 4
    ∷ entry 60 2 12
    ∷ entry 61 2 13
    ∷ entry 62 2 14
    ∷ entry 64 3 0
    ∷ entry 65 3 1
    ∷ entry 66 3 2
    ∷ entry 67 3 3
    ∷ entry 68 3 4
    ∷ entry 69 3 5
    ∷ entry 70 3 6
    ∷ entry 71 3 7
    ∷ entry 72 3 8
    ∷ entry 73 3 9
    ∷ entry 74 3 10
    ∷ entry 75 3 11
    ∷ entry 76 3 12
    ∷ entry 77 3 13
    ∷ entry 78 3 14
    ∷ entry 79 3 15
    ∷ entry 80 4 0
    ∷ entry 81 4 1
    ∷ entry 82 4 2
    ∷ entry 83 4 3
    ∷ entry 84 4 4
    ∷ entry 85 4 5
    ∷ entry 86 4 6
    ∷ entry 87 4 7
    ∷ entry 88 4 8
    ∷ entry 89 4 9
    ∷ entry 96 5 0
    ∷ entry 97 5 1
    ∷ entry 98 5 2
    ∷ entry 99 5 3
    ∷ entry 100 5 4
    ∷ entry 101 5 5
    ∷ entry 104 5 8
    ∷ entry 108 5 12
    ∷ entry 109 5 13
    ∷ entry 112 6 0
    ∷ entry 113 6 1
    ∷ entry 118 6 6
    ∷ entry 119 6 7
    ∷ entry 120 6 8
    ∷ entry 121 6 9
    ∷ entry 124 6 12
    ∷ entry 125 6 13
    ∷ entry 126 6 14
    ∷ entry 127 6 15
    ∷ []

abbrev no_pin : PpsPin
no_pin = entry 0 0 0

-- The loop over `search_start` and `search_count`, which at least halves the count.
pub pps_search : ℕ → ℕ → ℕ → ℕ → ℕ
pps_search zero pin start count = start
pps_search (suc fuel) pin start count =
    let step = count / 2 in
    let candidate = start + step in
    let right = pps_search fuel pin (candidate + 1) (count - (step + 1)) in
    let left = pps_search fuel pin start step in
    let below = ltb (get_or pps_pins candidate no_pin).pin pin in
    if count == 0 then start else if below then right else left

unfoldable pub pps_pin : ℕ → Option PpsPin
unfolding pps_search
pps_pin pin =
    let start = pps_search 78 pin 0 78 in
    let found = get_or pps_pins start no_pin in
    if start == 78 || found.pin != pin then none else some found

unfoldable pub pps_pin_bonded : Device → ℕ → Bool
unfolding pps_pin gpio_port_mask
pps_pin_bonded device pin = elim (pps_pin pin) [
  | none ↦ false
  | some p ↦ bit_and (gpio_port_mask device p.port) (u16 (2 ^ p.bit)) != 0
]
