-- ===== src/Crc/Fifo.antt =====
-- The words that wait in the CRC module are a queue, and the status register tells its length.
use mathlib.Core.Path.{ap₂}
use dspic33e_sim.Prelude.{ℕ, zero, suc, ◌+◌, ◌%◌, ◌≤◌, ◌<◌, ◌≡◌, refl, ap, ◌∙◌, arith}
use dspic33e_sim.Prelude.{Bool, true, false, Bool-cases, inl, inr, List, [], ◌∷◌, ◌++◌, ltb, leb}
use dspic33e_sim.Prelude.{bit_and, u8, if◌then◌else◌}
use dspic33e_sim.Device.State.{Dspic33, Io, Crc, update}
use dspic33e_sim.Crc.{crc_push, crc_refresh_status}
use dspic33e_sim.Crc.{crc_width_mask, crc_data_width, crc_capacity, with_crc}
use dspic33e_sim.Crc.Frame.{crc_refresh_status-io, crc_start_if_ready-buffer}

-- The words in `n` cells of the ring from `head` on.
unfoldable pub ring : (ℕ → ℕ) → ℕ → ℕ → List ℕ
ring words head zero = []
ring words head (suc n) = words (head % 16) ∷ ring words (head + 1) n

-- The words that wait, oldest first.
abbrev pub waiting : Crc → List ℕ
waiting crc = ring crc.words crc.head crc.count

-- The buffer's indices are in bounds.
pub record IsBuffer (crc : Crc) : Type 0 where
  pub head-lt : crc.head < 16
  pub count-le : crc.count ≤ 16

-- A write behind the last of `n` cells adds its word at the end.
other_cell :
    (words : ℕ → ℕ) (head n w : ℕ)
    → 0 < n
    → n < 16
    → update words ((head + n) % 16) w (head % 16) ≡ words (head % 16)
other_cell words head n w pos lt = ground arith

ring-append :
    (words : ℕ → ℕ) (head n w : ℕ)
    → n < 16
    → ring (update words ((head + n) % 16) w) head (suc n) ≡ ring words head n ++ (w ∷ [])
unfolding ring
ring-append words head zero w lt =
    let same : (head + 0) % 16 ≡ head % 16 = omega arith in
    rw same (ap (λ x. x ∷ []) (ground arith))
ring-append words head (suc n) w lt =
    let place : (head + suc n) % 16 ≡ (head + 1 + n) % 16 = omega arith in
    ap₂ (◌∷◌) (other_cell words head (suc n) w (omega arith) lt) (
      ap (λ i. ring (update words i w) (head + 1) (suc n)) place
      ∙ ring-append words (head + 1) n w (omega arith))

ring-same : (words : ℕ → ℕ) (h k n : ℕ) → h % 16 ≡ k % 16 → ring words h n ≡ ring words k n
unfolding ring
ring-same words h k zero same = refl
ring-same words h k (suc n) same =
    ap₂ (◌∷◌) (ap words same) (ring-same words (h + 1) (k + 1) n (omega arith))

-- The first word of a ring and the others.
pub ring-first :
    (words : ℕ → ℕ) (head n : ℕ)
    → head < 16
    → ring words head (suc n) ≡ words head ∷ ring words (u8 ((head + 1) % 16)) n
unfolding ring
ring-first words head n lt =
    ap₂ (◌∷◌) (ap words (omega arith))
      (ring-same words (head + 1) (u8 ((head + 1) % 16)) n (omega arith))

crc_capacity-le : (cpu : Dspic33) → crc_capacity cpu ≤ 16
unfolding crc_capacity
crc_capacity-le cpu = ground arith

crc_push-full :
    (realloc : ℕ → Bool) (cpu : Dspic33) (v : ℕ)
    → leb (crc_capacity cpu) cpu.io.crc.count ≡ true
    → crc_push realloc cpu v ≡ cpu
unfolding crc_push
crc_push-full realloc cpu v full = rw full

-- The word and its cell.
abbrev pushed_word : Dspic33 → ℕ → ℕ
pushed_word cpu v = bit_and v (crc_width_mask (crc_data_width cpu))

abbrev pushed_cell : Crc → ℕ
pushed_cell crc = u8 ((crc.head + crc.count) % 16)

crc_push-free :
    (realloc : ℕ → Bool) (cpu : Dspic33) (v : ℕ)
    → leb (crc_capacity cpu) cpu.io.crc.count ≡ false
    → ((crc_push realloc cpu v).io.crc.words
        ≡ update cpu.io.crc.words (pushed_cell cpu.io.crc) (pushed_word cpu v))
      × ((crc_push realloc cpu v).io.crc.head ≡ cpu.io.crc.head)
      × ((crc_push realloc cpu v).io.crc.count ≡ u8 (cpu.io.crc.count + 1))
unfolding crc_push
crc_push-free realloc cpu v free =
    let crc = cpu.io.crc in
    let pushed = with_crc cpu (record crc {
      words = update crc.words (pushed_cell crc) (pushed_word cpu v);
      count = u8 (crc.count + 1);
    }) in
    let (words, head, count) = crc_start_if_ready-buffer realloc (crc_refresh_status pushed) in
    let same = crc_refresh_status-io pushed in
    rw free (
      words ∙ ap (λ (io : Io). io.crc.words) same,
      head ∙ ap (λ (io : Io). io.crc.head) same,
      count ∙ ap (λ (io : Io). io.crc.count) same,
    )

-- A word that is pushed goes to the end of the queue, cut to the data width, if there is room, and
-- nowhere otherwise; the indices stay in bounds.
pub crc_push_appends :
    (realloc : ℕ → Bool) (cpu : Dspic33) (v : ℕ)
    → IsBuffer cpu.io.crc
    → (waiting (crc_push realloc cpu v).io.crc ≡ (
        if ltb cpu.io.crc.count (crc_capacity cpu)
        then waiting cpu.io.crc ++ (bit_and v (crc_width_mask (crc_data_width cpu)) ∷ [])
        else waiting cpu.io.crc))
      × IsBuffer (crc_push realloc cpu v).io.crc
crc_push_appends realloc cpu v buffer = elim (Bool-cases (leb (crc_capacity cpu) crc.count)) [
  | inl full ↦
      let no_room : ltb crc.count (crc_capacity cpu) ≡ false = ground arith in
      rw (crc_push-full realloc cpu v full, no_room) (refl, buffer)
  | inr free ↦
      let room : ltb crc.count (crc_capacity cpu) ≡ true = ground arith in
      let (words, head, count) = crc_push-free realloc cpu v free in
      let few : crc.count < 16 = ground (arith, crc_capacity-le cpu) in
      let more : u8 (crc.count + 1) ≡ suc crc.count = omega arith in
      let cell : pushed_cell crc ≡ (crc.head + crc.count) % 16 = omega arith in
      (
        rw (words, head, count, more, cell, room)
            (ring-append crc.words crc.head crc.count (pushed_word cpu v) few),
        record { head-lt = rw head buffer.head-lt; count-le = omega (arith, count) },
      )
]
  where
    crc : Crc
    crc = cpu.io.crc
