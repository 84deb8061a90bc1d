-- ===== src/Device/Memory.antt =====
-- The register file as 16-bit words: `dspic33_device_internal_raw_word` and
-- `dspic33_device_internal_raw_write_word` of src/device/dspic33ep_mu/common.c.
use dspic33e_sim.Prelude.{ℕ, ◌+◌, ◌*◌, ◌/◌, ◌%◌, ◌^◌, ◌<◌, ◌≡◌, ◌≢◌, arith, bit_or}
use dspic33e_sim.Prelude.{u8, u16, ◌<<<◌, ◌>>>◌}
use dspic33e_sim.Bits.{bit_or_fields, bit_or_comm}
use dspic33e_sim.Device.State.{Dspic33, update}

unfoldable pub raw_word : Dspic33 → ℕ → ℕ
raw_word cpu address =
    u16 (bit_or (cpu.data_bytes address) (cpu.data_bytes (u16 (address + 1)) <<< 8))

unfoldable pub raw_write_word : Dspic33 → ℕ → ℕ → Dspic33
raw_write_word cpu address value = record cpu {
  data_bytes =
      update (update cpu.data_bytes address (u8 value)) (u16 (address + 1)) (u8 (value >>> 8));
}

-- Every cell of the memory holds a byte.
abbrev pub IsBytes : Dspic33 → Type 0
IsBytes cpu = (a : ℕ) → cpu.data_bytes a < 256

word_as_sum : (lo hi : ℕ) → lo < 256 → bit_or lo (hi * 2 ^ 8) ≡ hi * 256 + lo
word_as_sum lo hi h = omega (arith, bit_or_comm lo (hi * 2 ^ 8), bit_or_fields 8 hi lo h)

pub raw_word-lt : (cpu : Dspic33) (a : ℕ) → raw_word cpu a < 65536
unfolding raw_word
raw_word-lt cpu a = omega arith

pub raw_write_word-IsBytes :
    (cpu : Dspic33) (a v : ℕ) → IsBytes cpu → IsBytes (raw_write_word cpu a v)
unfolding raw_write_word
raw_write_word-IsBytes cpu a v h b = ground (arith, h b)

-- A word that was written is read back, cut to 16 bits.
pub raw_word-raw_write_word :
    (cpu : Dspic33) (a v : ℕ) → a < 65536 → raw_word (raw_write_word cpu a v) a ≡ v % 65536
unfolding raw_word raw_write_word
raw_word-raw_write_word cpu a v h = ground (arith, word_as_sum (v % 256) (v / 256 % 256))

-- A write at one even address leaves the word at another as it was.
pub raw_word-raw_write_word_ne :
    (cpu : Dspic33) (a b v : ℕ)
    → a % 2 ≡ 0
    → b % 2 ≡ 0
    → a < 65536
    → b < 65536
    → a ≢ b
    → raw_word (raw_write_word cpu a v) b ≡ raw_word cpu b
unfolding raw_word raw_write_word
raw_word-raw_write_word_ne cpu a b v ha hb la lb ne = ground arith
