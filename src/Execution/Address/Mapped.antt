-- ===== src/Execution/Address/Mapped.antt =====
-- The extended data space: a page and an address in the upper half of the space.
use dspic33e_sim.Prelude.{ℕ, ◌+◌, ◌*◌, ◌%◌, ◌^◌, ◌≤◌, ◌<◌, ◌≡◌, sym, ap, ◌∙◌, arith}
use dspic33e_sim.Prelude.{Bool, true, false, ltb, leb, ◌!=◌, if◌then◌else◌, bit_and, bit_or}
use dspic33e_sim.Bits.{bit_and_mask, bit_or_fields, bit_and_assoc}
use dspic33e_sim.Execution.Alu.Flags.{high_bit}
use dspic33e_sim.Execution.Address.{mapped_data_address}

-- The pages that the register for reads or the one for writes can hold.
abbrev pub page_limit : Bool → ℕ
page_limit write = if write then 0x0200 else 0x0400

-- The mapped address as a sum.
abbrev pub mapped_sum : ℕ → ℕ → Bool → ℕ
mapped_sum address page write =
    if ltb page 0x0200
    then page * 0x8000 + address % 0x8000
    else (if ltb (page % 0x0200) 0x0100 then 0x1000000 else 0x3000000)
      + page % 0x0100 * 0x8000
      + address % 0x8000

low_page :
    (address page : ℕ)
    → page < 0x0400
    → bit_or (page * 2 ^ 15 % 0x100000000) (bit_and address 0x7fff)
      ≡ page * 0x8000 + address % 0x8000
low_page address page lt =
    let low = bit_and_mask 15 address in
    let fields = bit_or_fields 15 page (bit_and address 0x7fff) (omega arith) in
    let whole : page * 2 ^ 15 % 0x100000000 ≡ page * 2 ^ 15 = omega arith in rw whole (omega arith)

high_page :
    (space address page : ℕ)
    → bit_or (bit_or (space * 2 ^ 24) (bit_and page 0x00ff * 2 ^ 15)) (bit_and address 0x7fff)
      ≡ space * 0x1000000 + page % 0x0100 * 0x8000 + address % 0x8000
high_page space address page =
    let low = bit_and_mask 15 address in
    let byte = bit_and_mask 8 page in
    let upper = bit_or_fields 24 space (bit_and page 0x00ff * 2 ^ 15) (omega arith) in
    let fields =
      bit_or_fields 15 (space * 512 + bit_and page 0x00ff) (bit_and address 0x7fff) (omega arith) in
    let shape : space * 2 ^ 24 + bit_and page 0x00ff * 2 ^ 15
        ≡ (space * 512 + bit_and page 0x00ff) * 2 ^ 15 =
      omega arith in
    rw (upper, shape) (omega arith)

page_bit : (page : ℕ) → (bit_and page 0x0100 != 0) ≡ leb 0x0100 (page % 0x0200)
page_bit page =
    let part : bit_and page 0x0100 ≡ bit_and (page % 0x0200) 0x0100 =
      sym (bit_and_assoc page 0x01ff 0x0100) ∙ ap (λ t. bit_and t 0x0100) (bit_and_mask 9 page) in
    ground (arith, part, high_bit 8 (page % 0x0200) (omega arith))

pub mapped_data_address_lem :
    (address page : ℕ) (write : Bool)
    → page < page_limit write
    → mapped_data_address address page write ≡ mapped_sum address page write
unfolding mapped_data_address
mapped_data_address_lem address page true lt = ground (arith, low_page address page (omega arith))
mapped_data_address_lem address page false lt = ground (
  arith,
  page_bit page,
  low_page address page lt,
  high_page 1 address page,
  high_page 3 address page,
)

-- Two accesses of one kind through the upper half of the address space reach the same place only
-- if they use the same address and the same page.
pub mapped_data_address-injective :
    (a b p q : ℕ) (write : Bool)
    → 0x8000 ≤ a
    → a < 0x10000
    → 0x8000 ≤ b
    → b < 0x10000
    → p < page_limit write
    → q < page_limit write
    → mapped_data_address a p write ≡ mapped_data_address b q write
    → (a ≡ b) × (p ≡ q)
mapped_data_address-injective a b p q write a-ge a-lt b-ge b-lt p-lt q-lt same =
    let sums : mapped_sum a p write ≡ mapped_sum b q write =
      sym (mapped_data_address_lem a p write p-lt)
      ∙ same
      ∙ mapped_data_address_lem b q write q-lt in
    mapped_sum-injective a b p q write a-ge a-lt b-ge b-lt p-lt q-lt sums
  where
    mapped_sum-injective :
        (a b p q : ℕ) (write : Bool)
        → 0x8000 ≤ a
        → a < 0x10000
        → 0x8000 ≤ b
        → b < 0x10000
        → p < page_limit write
        → q < page_limit write
        → mapped_sum a p write ≡ mapped_sum b q write
        → (a ≡ b) × (p ≡ q)
    mapped_sum-injective a b p q true a-ge a-lt b-ge b-lt p-lt q-lt same = ground arith
    mapped_sum-injective a b p q false a-ge a-lt b-ge b-lt p-lt q-lt same = ground arith
