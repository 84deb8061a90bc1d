-- ===== src/Coverage/Range.antt =====
-- Which addresses have a slot, and which slot.
use dspic33e_sim.Prelude.{ℕ, ◌+◌, ◌*◌, ◌/◌, ◌%◌, ◌<◌, ◌≡◌, arith, some}
use dspic33e_sim.Bits.{bit_and_one}
use dspic33e_sim.Coverage.{Coverage, coverage_slot}

-- The slot of an address lies in the array, and tells the address: it is even, in the range, and
-- twice the slot above the start of the range. The range must start and end at even addresses.
pub coverage_slot_lem :
    (c : Coverage) (address slot : ℕ)
    → c.address % 2 ≡ 0
    → c.size % 2 ≡ 0
    → coverage_slot c address ≡ some slot
    → (slot < c.size / 2) × (address ≡ c.address + 2 * slot)
unfolding coverage_slot
coverage_slot_lem c address slot even_start even_size found = ground (arith, bit_and_one address)

-- Each even address of the range has a slot.
pub coverage_slot_total :
    (c : Coverage) (slot : ℕ)
    → c.address % 2 ≡ 0
    → c.size % 2 ≡ 0
    → slot < c.size / 2
    → coverage_slot c (c.address + 2 * slot) ≡ some slot
unfolding coverage_slot
coverage_slot_total c slot even_start even_size lt =
    ground (arith, bit_and_one (c.address + 2 * slot))

-- In any case the slot lies in the array of a range of even size.
pub slot-lt :
    (c : Coverage) (address slot : ℕ)
    → c.address % 2 ≡ 0
    → c.size % 2 ≡ 0
    → coverage_slot c address ≡ some slot
    → slot < c.size / 2
slot-lt c address slot even_start even_size found =
    (coverage_slot_lem c address slot even_start even_size found).0
