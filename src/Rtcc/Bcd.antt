-- ===== src/Rtcc/Bcd.antt =====
-- Packed decimal numbers: encoding and decoding are inverse, and what is encoded is valid.
use dspic33e_sim.Prelude.{ℕ, ◌+◌, ◌*◌, ◌/◌, ◌%◌, ◌≤◌, ◌<◌, ◌≡◌, arith, true, ◌&&◌}
use dspic33e_sim.Prelude.{leb}
use dspic33e_sim.Bits.{bit_or_fields, bit_and_mask}
use dspic33e_sim.Rtcc.Calendar.{rtcc_bcd_decode, rtcc_bcd_encode, rtcc_bcd_valid}

pub encode_lem : (v : ℕ) → v < 100 → rtcc_bcd_encode v ≡ v / 10 * 16 + v % 10
unfolding rtcc_bcd_encode
encode_lem v lt = omega (arith, bit_or_fields 4 (v / 10) (v % 10) (omega arith))

pub decode_lem : (b : ℕ) → b < 256 → rtcc_bcd_decode b ≡ b / 16 * 10 + b % 16
unfolding rtcc_bcd_decode
decode_lem b lt = omega (arith, bit_and_mask 4 b)

-- Decoding undoes encoding of a number below 100.
pub decode-encode : (v : ℕ) → v < 100 → rtcc_bcd_decode (rtcc_bcd_encode v) ≡ v
decode-encode v lt =
    omega (arith, encode_lem v lt, decode_lem (rtcc_bcd_encode v) (omega (arith, encode_lem v lt)))

-- A byte is valid between two bounds of at most 99 exactly if it is the code of a number between
-- them.
pub bcd_valid_lem :
    (b minimum maximum : ℕ)
    → b < 256
    → maximum < 100
    → rtcc_bcd_valid b minimum maximum ≡ (
        leb minimum (rtcc_bcd_decode b)
        && leb (rtcc_bcd_decode b) maximum
        && leb (b % 16) 9
        && leb (b / 16) 9)
unfolding rtcc_bcd_valid
bcd_valid_lem b minimum maximum lt max_lt = ground (arith, bit_and_mask 4 b)

-- Encoding undoes decoding of a valid byte.
pub encode-decode :
    (b minimum maximum : ℕ)
    → b < 256
    → rtcc_bcd_valid b minimum maximum ≡ true
    → rtcc_bcd_encode (rtcc_bcd_decode b) ≡ b
unfolding rtcc_bcd_valid
encode-decode b minimum maximum lt valid =
    ground (arith, bit_and_mask 4 b, decode_lem b lt, encode_lem (rtcc_bcd_decode b))

pub encode-IsValid :
    (v minimum maximum : ℕ)
    → v < 100
    → minimum ≤ v
    → v ≤ maximum
    → rtcc_bcd_valid (rtcc_bcd_encode v) minimum maximum ≡ true
unfolding rtcc_bcd_valid
encode-IsValid v minimum maximum lt ge le =
    ground (arith, encode_lem v lt, decode-encode v lt, bit_and_mask 4 (rtcc_bcd_encode v))
