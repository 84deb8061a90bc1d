-- ===== src/Image/Binary/Step.antt =====
-- What a word of a binary image changes in the program memory.
use mathlib.Core.Option
use dspic33e_sim.Prelude.{ℕ, ◌+◌, ◌-◌, ◌%◌, ◌≤◌, ◌<◌, ◌≡◌, ◌≢◌, sym, ap, ◌∙◌, arith}
use dspic33e_sim.Prelude.{Bool, true, Bool-cases, inl, inr, ◌==◌}
use dspic33e_sim.Prelude.{some, if◌then◌else◌, u8, ◌>>>◌}
use dspic33e_sim.Device.State.{Dspic33, update}
use dspic33e_sim.Device.Profile.{
  Device, profile, dev_256mu806, dev_256mu810, dev_256mu814, dev_512mu810, dev_512mu814,
}
use dspic33e_sim.Program.{
  device_program_range_implemented, load_configuration_word, read_program_word,
  persistent_program_base, configuration_base,
}
use dspic33e_sim.Program.Memory.{
  read-load_program_word, read-load_program_word_ne, load_program_word-device,
}
use dspic33e_sim.Image.Load.{is_configuration}
use dspic33e_sim.Image.Binary.{load_binary_word}

abbrev pub is_implemented : Dspic33 → ℕ → Bool
is_implemented cpu address = device_program_range_implemented cpu address 2

profile-limit : (device : Device) → (profile device).program_limit ≤ 0x55800
profile-limit dev_256mu806 = omega arith
profile-limit dev_256mu810 = omega arith
profile-limit dev_256mu814 = omega arith
profile-limit dev_512mu810 = omega arith
profile-limit dev_512mu814 = omega arith

-- The configuration is not in the program memory.
read-configuration :
    (cpu : Dspic33) (changed : ℕ → ℕ) (other : ℕ)
    → is_implemented cpu other ≡ true
    → read_program_word (record cpu { configuration = changed }) other ≡ read_program_word cpu other
unfolding read_program_word
read-configuration cpu changed other implemented =
    let limit = profile-limit cpu.device in ground (arith, implemented, limit)

load_configuration_word-changed :
    (cpu after : Dspic33) (address word : ℕ)
    → load_configuration_word cpu address word ≡ some after
    → (changed : ℕ → ℕ) × (record cpu { configuration = changed } ≡ after)
unfolding load_configuration_word
load_configuration_word-changed cpu after address word h =
    let offset = address - configuration_base in
    (
      update (update cpu.configuration offset (u8 word)) (offset + 1) (u8 (word >>> 8)),
      ground (arith, h),
    )

load_configuration_word-device :
    (cpu after : Dspic33) (address word : ℕ)
    → load_configuration_word cpu address word ≡ some after
    → after.device ≡ cpu.device
unfolding load_configuration_word
load_configuration_word-device cpu after address word h = ground (arith, h)

-- A step of the loader leaves what is read at another even address as it was.
pub load_binary_word-read_ne :
    (cpu after : Dspic33) (address word other : ℕ)
    → load_binary_word cpu address word ≡ some after
    → is_implemented cpu other ≡ true
    → other % 2 ≡ 0
    → address ≢ other
    → read_program_word after other ≡ read_program_word cpu other
unfolding load_binary_word
load_binary_word-read_ne cpu after address word other h implemented even ne =
    elim (Bool-cases (word == 0x00ffffff)) [
      | inl erased ↦
          let same : some cpu ≡ some after = ground (arith, h, erased) in
          ap (λ c. read_program_word c other) (sym (Option.some-injective _ _ same))
      | inr written ↦ elim (Bool-cases (is_configuration address)) [
        | inl configures ↦
            let (changed, put) =
              load_configuration_word-changed cpu after address word (ground (arith, h)) in
            ap (λ c. read_program_word c other) (sym put)
            ∙ read-configuration cpu changed other implemented
        | inr programs ↦
            let low : address < persistent_program_base = ground (arith, h, implemented) in
            read-load_program_word_ne cpu after address other word (ground (arith, h)) low
              (ground (arith, implemented)) even ne
      ]
    ]

-- What a word of the image leaves at its own address.
pub load_binary_word-read :
    (cpu after : Dspic33) (address word : ℕ)
    → load_binary_word cpu address word ≡ some after
    → is_implemented cpu address ≡ true
    → read_program_word after address
      ≡ (if word == 0x00ffffff then read_program_word cpu address else word % 0x1000000)
unfolding load_binary_word
load_binary_word-read cpu after address word h implemented =
    elim (Bool-cases (word == 0x00ffffff)) [
      | inl erased ↦
          let same : some cpu ≡ some after = ground (arith, h, erased) in
          rw erased (ap (λ c. read_program_word c address) (sym (Option.some-injective _ _ same)))
      | inr written ↦
          rw written
            (read-load_program_word cpu after address word (ground (arith, h, implemented)))
    ]

pub load_binary_word-device :
    (cpu after : Dspic33) (address word : ℕ)
    → load_binary_word cpu address word ≡ some after
    → after.device ≡ cpu.device
unfolding load_binary_word
load_binary_word-device cpu after address word h = elim (Bool-cases (word == 0x00ffffff)) [
  | inl erased ↦
      let same : some cpu ≡ some after = ground (arith, h, erased) in
      ap (λ c. c.device) (sym (Option.some-injective _ _ same))
  | inr written ↦ elim (Bool-cases (is_configuration address)) [
    | inl configures ↦ load_configuration_word-device cpu after address word (ground (arith, h))
    | inr programs ↦ load_program_word-device cpu after address word (ground (arith, h))
  ]
]

pub is_implemented-device :
    (cpu after : Dspic33) (address : ℕ)
    → after.device ≡ cpu.device
    → is_implemented cpu address ≡ true
    → is_implemented after address ≡ true
is_implemented-device cpu after address same implemented = rw same implemented
