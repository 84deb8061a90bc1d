-- ===== src/Crc/Word.antt =====
-- A whole word through the shift register of the CRC module, in either order of its bits.
use native.Mathlib.Nat.{
  pow-suc, one-le-pow, mod-lt, mod-eq_of_lt, div-add-mod, mul-add-mod_self_left,
}
use native.Mathlib.Nat.{div-div-eq-div-mul}
use dspic33e_sim.Prelude.{
  ℕ, zero, suc, ◌+◌, ◌-◌, ◌*◌, ◌/◌, ◌%◌, ◌^◌, ◌≤◌, ◌<◌, ◌≡◌, refl, sym, ap, ◌∙◌, arith,
}
use dspic33e_sim.Prelude.{Bool, true, false, List, [], ◌∷◌, to_nat}
use dspic33e_sim.Prelude.{bit_xor, u8}
use dspic33e_sim.Bits.{bit_and_one}
use dspic33e_sim.Device.State.{Crc}
use dspic33e_sim.Crc.{shift_loop, bit_done, input_bit}
use dspic33e_sim.Crc.Division.{
  times, value, data_bit, message, length-message, quotient, divisor, IsLoaded,
}
use dspic33e_sim.Crc.Shift.{shift_loop_divides}

-- The number of which the list has the binary digits, lowest first.
unfoldable pub value_low : List Bool → ℕ
value_low [] = 0
value_low (b ∷ bs) = to_nat b + value_low bs * 2

bit_times : (c d : ℕ) → c < 2 → c * d ≤ d
bit_times zero d lt = omega arith
bit_times (suc zero) d lt = omega arith
bit_times (suc (suc c)) d lt = absurd (omega arith)

mod_low : (d x : ℕ) → 0 < d → x % (d * 2) ≡ x % 2 + x / 2 % d * 2
mod_low d x pos =
    let q = x / 2 / d in
    let low : x / 2 % d < d = mod-lt (x / 2) pos in
    let whole : x ≡ d * 2 * q + (x % 2 + x / 2 % d * 2) = omega (arith, div-add-mod (x / 2) d) in
    ap (λ t. t % (d * 2)) whole
    ∙ mul-add-mod_self_left (d * 2) q (x % 2 + x / 2 % d * 2)
    ∙ mod-eq_of_lt (omega arith)

mod_high : (d x : ℕ) → 0 < d → x % (d * 2) ≡ x / d % 2 * d + x % d
mod_high d x pos =
    let q = x / d in
    let c = q % 2 in
    let low : x % d < d = mod-lt x pos in
    let whole : x ≡ d * 2 * (q / 2) + (c * d + x % d) =
      omega (arith, div-add-mod x d, ap (λ (t : ℕ). d * t) (div-add-mod q 2)) in
    let fits : c * d + x % d < d * 2 = omega (arith, bit_times (q % 2) d (omega arith)) in
    ap (λ t. t % (d * 2)) whole
    ∙ mul-add-mod_self_left (d * 2) (q / 2) (c * d + x % d)
    ∙ mod-eq_of_lt fits

data_bit-lem : (crc : Crc) → to_nat (data_bit crc) ≡ crc.shift_data / 2 ^ input_bit crc % 2
unfolding data_bit
data_bit-lem crc = ground (arith, bit_and_one (crc.shift_data / 2 ^ input_bit crc))

input_bit-big :
    (crc : Crc) → crc.little_endian ≡ false → input_bit crc ≡ u8 (crc.bits_remaining + 255)
unfolding input_bit
input_bit-big crc big = rw big

input_bit-little :
    (crc : Crc)
    → crc.little_endian ≡ true
    → input_bit crc ≡ u8 (crc.data_width + 256 - crc.bits_remaining)
unfolding input_bit
input_bit-little crc little = rw little

message_big :
    (n : ℕ) (crc : Crc)
    → crc.little_endian ≡ false
    → crc.bits_remaining ≡ n
    → n < 256
    → value (message n crc) ≡ crc.shift_data % 2 ^ n
unfolding message value
message_big zero crc big same lt = omega arith
message_big (suc n) crc big same lt =
    let bits : u8 (crc.bits_remaining + 255) ≡ n = omega (arith, same) in
    let position : input_bit crc ≡ n = input_bit-big crc big ∙ bits in
    let digit = rw position at (data_bit-lem crc) in
    rw (length-message n (bit_done crc), digit, message_big n (bit_done crc) big bits (omega arith))
      (sym (mod_high (2 ^ n) crc.shift_data (one-le-pow n 2 (omega arith)))
        ∙ ap (λ t. crc.shift_data % t) (sym (pow-suc 2 n)))

message_little :
    (n : ℕ) (crc : Crc)
    → crc.little_endian ≡ true
    → crc.bits_remaining ≡ n
    → n ≤ crc.data_width
    → crc.data_width < 256
    → value_low (message n crc) ≡ crc.shift_data / 2 ^ (crc.data_width - n) % 2 ^ n
unfolding message value_low
message_little zero crc little same le lt = omega arith
message_little (suc n) crc little same le lt =
    let k = crc.data_width - suc n in
    let x = crc.shift_data / 2 ^ k in
    let bits : u8 (crc.bits_remaining + 255) ≡ n = omega (arith, same) in
    let position : input_bit crc ≡ k = input_bit-little crc little ∙ omega (arith, same) in
    let digit = rw position at (data_bit-lem crc) in
    let next : crc.data_width - n ≡ suc k = omega arith in
    let rest : crc.shift_data / 2 ^ (crc.data_width - n) ≡ x / 2 =
      ap (λ t. crc.shift_data / 2 ^ t) next
      ∙ ap (λ t. crc.shift_data / t) (pow-suc 2 k)
      ∙ sym (div-div-eq-div-mul crc.shift_data (2 ^ k) 2) in
    rw (digit, message_little n (bit_done crc) little bits (omega arith) lt, rest)
      (sym (mod_low (2 ^ n) x (one-le-pow n 2 (omega arith))) ∙ ap (λ t. x % t) (sym (pow-suc 2 n)))

-- A word whose bits go in from the highest on: the register and the word, which follows it, are the
-- quotient times the divisor and the new remainder. The word must fit in its width, of at most
-- 255 bits, and the register in the divisor's.
pub word_divides :
    (crc : Crc) (r : ℕ)
    → IsLoaded crc r
    → crc.bits_remaining < 256
    → crc.little_endian ≡ false
    → crc.shift_data < 2 ^ crc.bits_remaining
    → bit_xor
        (times (divisor crc) (quotient crc.bits_remaining crc r))
        (shift_loop crc.bits_remaining crc r).1
      ≡ bit_xor (r * 2 ^ crc.bits_remaining) (crc.shift_data * 2 ^ crc.polynomial_width)
word_divides crc r set lt big fits =
    let n = crc.bits_remaining in
    shift_loop_divides n crc r set (omega arith) lt
    ∙ ap (λ (t : ℕ). bit_xor (r * 2 ^ n) (t * 2 ^ crc.polynomial_width))
        (message_big n crc big refl lt ∙ mod-eq_of_lt fits)

-- With the other order set, the bits that go in, read lowest first, are the word.
pub word_reversed :
    (crc : Crc)
    → crc.bits_remaining ≡ crc.data_width
    → crc.data_width < 256
    → crc.little_endian ≡ true
    → crc.shift_data < 2 ^ crc.data_width
    → value_low (message crc.data_width crc) ≡ crc.shift_data
word_reversed crc whole lt little fits =
    let none_left : crc.data_width - crc.data_width ≡ 0 = omega arith in
    let all : crc.shift_data / 2 ^ (crc.data_width - crc.data_width) ≡ crc.shift_data =
      ap (λ t. crc.shift_data / 2 ^ t) none_left ∙ omega arith in
    message_little crc.data_width crc little whole (omega arith) lt
    ∙ ap (λ t. t % 2 ^ crc.data_width) all
    ∙ mod-eq_of_lt fits
