-- ===== src/Rtcc/Pointer.antt =====
-- The pointer of the windows of rtcc.c.
use mathlib.Core.Path.{ap₂}
use dspic33e_sim.Prelude.{ℕ, ◌-◌, ◌*◌, ◌/◌, ◌≤◌, ◌<◌, ◌≡◌, ◌≢◌, ◌⊎◌, refl, ◌∙◌, arith, true}
use dspic33e_sim.Prelude.{◌!=◌, inl, inr, u16, bit_or, bit_and, not16, ◌>>>◌}
use dspic33e_sim.Bits.{
  bit_and-le, bit_or-lt, masked_put, masked_kept, bit_and_bit, bit_and_comm, bit_and-bit_or,
}
use dspic33e_sim.Device.State.{Dspic33}
use dspic33e_sim.Device.Memory.{raw_word, raw_word-raw_write_word}
use dspic33e_sim.Rtcc.Clock.{rtcc_pointer_mask}
use dspic33e_sim.Rtcc.Window.{rtcc_decrement_pointer}

-- The pointer of a window, a field of two bits.
abbrev pub pointer_of : ℕ → ℕ
pointer_of control = bit_and control rtcc_pointer_mask / 256

pointer_values :
    (c : ℕ)
    → (bit_and c rtcc_pointer_mask ≡ 0)
      ⊎ (bit_and c rtcc_pointer_mask ≡ 256)
      ⊎ (bit_and c rtcc_pointer_mask ≡ 512)
      ⊎ (bit_and c rtcc_pointer_mask ≡ 768)
pointer_values c =
    let low = bit_and c 0x100 in
    let high = bit_and c 0x200 in
    let parts : bit_and c rtcc_pointer_mask ≡ bit_or low high =
      bit_and_comm c 0x300
      ∙ bit_and-bit_or 0x100 0x200 c
      ∙ ap₂ bit_or (bit_and_comm 0x100 c) (bit_and_comm 0x200 c) in
    rw parts (each low high (bit_and_bit 8 c) (bit_and_bit 9 c))
  where
    each :
        (low high : ℕ)
        → (low ≡ 0) ⊎ (low ≡ 256)
        → (high ≡ 0) ⊎ (high ≡ 512)
        → (bit_or low high ≡ 0)
          ⊎ (bit_or low high ≡ 256)
          ⊎ (bit_or low high ≡ 512)
          ⊎ (bit_or low high ≡ 768)
    each low high (inl p) (inl q) = inl (rw (p, q))
    each low high (inr p) (inl q) = inr (inl (rw (p, q)))
    each low high (inl p) (inr q) = inr (inr (inl (rw (p, q))))
    each low high (inr p) (inr q) = inr (inr (inr (rw (p, q))))

-- The word with another pointer.
repointed-lt : (c put : ℕ) → put < 65536 → bit_or (bit_and c (not16 rtcc_pointer_mask)) put < 65536
repointed-lt c put lt = bit_or-lt 16 _ _ (omega (arith, bit_and-le c (not16 rtcc_pointer_mask))) lt

module _ (cpu : Dspic33) (address p : ℕ) (lt : address < 65536) (fits : p ≤ 3) where
  abbrev before : ℕ
  before = raw_word cpu address

  decremented :
      bit_and before rtcc_pointer_mask ≡ p * 256
      → p ≢ 0
      → raw_word (rtcc_decrement_pointer cpu address rtcc_pointer_mask) address
        ≡ bit_or (bit_and before (not16 rtcc_pointer_mask)) ((p - 1) * 256)
  unfolding rtcc_decrement_pointer
  decremented pointer some =
      let shifted : u16 (bit_and before rtcc_pointer_mask >>> 8) ≡ p = omega (arith, pointer) in
      let positive : (p != 0) ≡ true = ground arith in
      rw (shifted, positive)
        (raw_word-raw_write_word cpu address _ lt
          ∙ omega (arith, repointed-lt before ((p - 1) * 256) (omega arith)))

pointer_stays :
    (cpu : Dspic33) (address : ℕ)
    → bit_and (raw_word cpu address) rtcc_pointer_mask ≡ 0
    → rtcc_decrement_pointer cpu address rtcc_pointer_mask ≡ cpu
unfolding rtcc_decrement_pointer
pointer_stays cpu address none_left = rw none_left

-- An access takes one from the window's pointer, if it is not 0, and leaves the other bits of the
-- control register as they were.
pub decrement_pointer_lem :
    (cpu : Dspic33) (address : ℕ)
    → address < 65536
    → (pointer_of (raw_word (rtcc_decrement_pointer cpu address rtcc_pointer_mask) address)
        ≡ pointer_of (raw_word cpu address) - 1)
      × (bit_and
            (raw_word (rtcc_decrement_pointer cpu address rtcc_pointer_mask) address)
            (not16 rtcc_pointer_mask)
          ≡ bit_and (raw_word cpu address) (not16 rtcc_pointer_mask))
decrement_pointer_lem cpu address lt = elim (pointer_values (raw_word cpu address)) [
  | inl none_left ↦ rw (stays none_left) (omega (arith, none_left), refl)
  | inr (inl one) ↦ falls 1 (omega arith) one (omega arith) refl refl
  | inr (inr (inl two)) ↦ falls 2 (omega arith) two (omega arith) refl refl
  | inr (inr (inr three)) ↦ falls 3 (omega arith) three (omega arith) refl refl
]
  where
    old : ℕ
    old = raw_word cpu address

    stays :
        bit_and old rtcc_pointer_mask ≡ 0
        → rtcc_decrement_pointer cpu address rtcc_pointer_mask ≡ cpu
    stays none_left = pointer_stays cpu address none_left

    falls :
        (p : ℕ)
        → p ≤ 3
        → bit_and old rtcc_pointer_mask ≡ p * 256
        → p ≢ 0
        → bit_and ((p - 1) * 256) (not16 rtcc_pointer_mask) ≡ 0
        → bit_and ((p - 1) * 256) rtcc_pointer_mask ≡ (p - 1) * 256
        → (pointer_of (raw_word (rtcc_decrement_pointer cpu address rtcc_pointer_mask) address)
            ≡ pointer_of old - 1)
          × (bit_and
                (raw_word (rtcc_decrement_pointer cpu address rtcc_pointer_mask) address)
                (not16 rtcc_pointer_mask)
              ≡ bit_and old (not16 rtcc_pointer_mask))
    falls p le pointer some apart inside = rw (decremented cpu address p lt le pointer some) (
      omega (
        arith,
        masked_put old (not16 rtcc_pointer_mask) ((p - 1) * 256) rtcc_pointer_mask refl,
        inside,
        pointer,
      ),
      masked_kept old (not16 rtcc_pointer_mask) ((p - 1) * 256) (not16 rtcc_pointer_mask) refl
          apart,
    )
