-- ===== src/Bits/Masks.antt =====
-- Masks and fields: `&` with a mask as a remainder, `|` of disjoint parts as a sum.
use native.Mathlib.Nat.{pow-suc, one-le-pow, div-add-mod, mod-lt, mod-eq_of_lt}
use dspic33e_sim.Prelude.{ℕ, zero, suc, ◌+◌, ◌-◌, ◌*◌, ◌/◌, ◌%◌, ◌^◌, ◌<◌, ◌≡◌, ap, sym, ◌∙◌, arith}
use mathlib.Core.Path.{ap₂, ◌≡⟨◌⟩◌, ◌∎}
use dspic33e_sim.Prelude.{bit_and, bit_or, bit_xor}
use dspic33e_sim.Bits.Digits.{bit_and_digit, bit_or_digit, bit_xor_digit}
use dspic33e_sim.Bits.Laws.{bit_or-add-bit_and, bit_xor-add-bit_and, bit_and-zero, bit_and_comm}
use dspic33e_sim.Bits.Laws.{
  bit_and-bit_or, bit_and_assoc, bit_or-zero, zero-bit_or, zero-bit_and, bit_and_self,
}

-- Parts with no common digit add up.
pub bit_or-disjoint : (a b : ℕ) → bit_and a b ≡ 0 → bit_or a b ≡ a + b
bit_or-disjoint a b h = omega (arith, bit_or-add-bit_and a b)

mul-two-pow : (q k : ℕ) → q * 2 ^ suc k ≡ 2 * (q * 2 ^ k)
mul-two-pow q k = omega (arith, ap (λ (t : ℕ). q * t) (pow-suc 2 k))

-- The mask of `k` ones cuts `k` digits off.
low_part : (k q r : ℕ) → r < 2 ^ k → bit_and (q * 2 ^ k + r) (2 ^ k - 1) ≡ r
low_part zero q r h = rw bit_and-zero (omega arith)
low_part (suc k) q r h =
    let twice : 2 ^ suc k ≡ 2 * 2 ^ k = omega (arith, pow-suc 2 k) in
    let some_digits : 0 < 2 ^ k = one-le-pow k 2 (omega arith) in
    let mask_half : (2 ^ suc k - 1) / 2 ≡ 2 ^ k - 1 = omega arith in
    let half : (q * 2 ^ suc k + r) / 2 ≡ q * 2 ^ k + r / 2 = omega (arith, mul-two-pow q k) in
    omega (
      arith,
      mul-two-pow q k,
      bit_and_digit (q * 2 ^ suc k + r) (2 ^ suc k - 1),
      ap₂ bit_and half mask_half,
      low_part k q (r / 2) (omega arith),
    )

-- `a & (2 ^ k - 1)` is the remainder.
pub bit_and_mask : (k a : ℕ) → bit_and a (2 ^ k - 1) ≡ a % 2 ^ k
bit_and_mask k a =
    let some_digits : 0 < 2 ^ k = one-le-pow k 2 (omega arith) in
    let parts : a / 2 ^ k * 2 ^ k + a % 2 ^ k ≡ a = omega (arith, div-add-mod a (2 ^ k)) in
    ap (λ t. bit_and t (2 ^ k - 1)) (sym parts)
    ∙ low_part k (a / 2 ^ k) (a % 2 ^ k) (mod-lt a some_digits)

-- A field of `k` digits under a shifted number shares no digit with it.
pub bit_and_fields : (k q r : ℕ) → r < 2 ^ k → bit_and (q * 2 ^ k) r ≡ 0
bit_and_fields zero q r h = let nothing : r ≡ 0 = omega arith in rw nothing (bit_and-zero _)
bit_and_fields (suc k) q r h =
    let halved : q * 2 ^ suc k / 2 ≡ q * 2 ^ k = omega (arith, mul-two-pow q k) in
    omega (
      arith,
      mul-two-pow q k,
      bit_and_digit (q * 2 ^ suc k) r,
      ap (λ (t : ℕ). bit_and t (r / 2)) halved,
      bit_and_fields k q (r / 2) (omega (arith, pow-suc 2 k)),
    )

-- `(q << k) | r` is a sum when `r` fits `k` digits.
pub bit_or_fields : (k q r : ℕ) → r < 2 ^ k → bit_or (q * 2 ^ k) r ≡ q * 2 ^ k + r
bit_or_fields k q r h = bit_or-disjoint (q * 2 ^ k) r (bit_and_fields k q r h)

pub bit_or-lt : (k a b : ℕ) → a < 2 ^ k → b < 2 ^ k → bit_or a b < 2 ^ k
bit_or-lt zero a b ha hb = omega (arith, bit_or-add-bit_and a b)
bit_or-lt (suc k) a b ha hb =
    let twice : 2 ^ suc k ≡ 2 * 2 ^ k = omega (arith, pow-suc 2 k) in
    omega (arith, bit_or_digit a b, bit_or-lt k (a / 2) (b / 2) (omega arith) (omega arith))

pub bit_xor-lt : (k a b : ℕ) → a < 2 ^ k → b < 2 ^ k → bit_xor a b < 2 ^ k
bit_xor-lt zero a b ha hb = omega (arith, bit_xor-add-bit_and a b)
bit_xor-lt (suc k) a b ha hb =
    let twice : 2 ^ suc k ≡ 2 * 2 ^ k = omega (arith, pow-suc 2 k) in
    omega (arith, bit_xor_digit a b, bit_xor-lt k (a / 2) (b / 2) (omega arith) (omega arith))

-- After `(x & keep) | put` a mask sees what both leave of it.
pub masked_update :
    (x keep put m : ℕ)
    → bit_and (bit_or (bit_and x keep) put) m ≡ bit_or (bit_and x (bit_and keep m)) (bit_and put m)
masked_update x keep put m = rw (bit_and-bit_or, bit_and_assoc)

-- A mask that `keep` clears sees only `put`.
pub masked_put :
    (x keep put m : ℕ)
    → bit_and keep m ≡ 0
    → bit_and (bit_or (bit_and x keep) put) m ≡ bit_and put m
masked_put x keep put m h = rw (masked_update, h, bit_and-zero, zero-bit_or)

-- A mask that `keep` keeps and that `put` does not touch sees only `x`.
pub masked_kept :
    (x keep put m : ℕ)
    → bit_and keep m ≡ m
    → bit_and put m ≡ 0
    → bit_and (bit_or (bit_and x keep) put) m ≡ bit_and x m
masked_kept x keep put m h k = rw (masked_update, h, k, bit_or-zero)

-- Parts that two apart masks leave of one number are apart.
parts_apart : (x m m' : ℕ) → bit_and m m' ≡ 0 → bit_and (bit_and m x) (bit_and m' x) ≡ 0
parts_apart x m m' apart =
    bit_and (bit_and m x) (bit_and m' x)
    ≡⟨ bit_and_assoc m x (bit_and m' x) ⟩ bit_and m (bit_and x (bit_and m' x))
    ≡⟨ ap (bit_and m) (bit_and_comm x (bit_and m' x)) ⟩ bit_and m (bit_and (bit_and m' x) x)
    ≡⟨ ap (bit_and m) (bit_and_assoc m' x x) ⟩ bit_and m (bit_and m' (bit_and x x))
    ≡⟨ ap (λ t. bit_and m (bit_and m' t)) (bit_and_self x) ⟩ bit_and m (bit_and m' x)
    ≡⟨ sym (bit_and_assoc m m' x) ⟩ bit_and (bit_and m m') x
    ≡⟨ ap (λ t. bit_and t x) apart ∙ zero-bit_and x ⟩ 0 ∎

-- The two parts that complementary masks leave make up the number.
pub split_by_masks :
    (k x m m' : ℕ)
    → x < 2 ^ k
    → bit_or m m' ≡ 2 ^ k - 1
    → bit_and m m' ≡ 0
    → bit_and x m + bit_and x m' ≡ x
split_by_masks k x m m' h full apart =
    let whole : bit_and (bit_or m m') x ≡ x =
      rw full (bit_and_comm (2 ^ k - 1) x ∙ bit_and_mask k x ∙ mod-eq_of_lt h) in
    omega (
      arith,
      whole,
      bit_and-bit_or m m' x,
      bit_or-disjoint (bit_and m x) (bit_and m' x) (parts_apart x m m' apart),
      bit_and_comm m x,
      bit_and_comm m' x,
    )
