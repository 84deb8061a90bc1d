-- ===== src/Events/Heap.antt =====
-- The heap property, and that the two loops restore it round a hole.
pub mod Up
pub mod Down
use dspic33e_sim.Prelude.{ℕ, ◌+◌, ◌-◌, ◌*◌, ◌/◌, ◌≤◌, ◌<◌, ◌≡◌, ◌≢◌, Bool, arith}
use dspic33e_sim.Device.State.{Event}
use dspic33e_sim.Events.Order.{NotAfter, IsUniform}

abbrev pub parent : ℕ → ℕ
parent j = (j - 1) / 2

-- In the part of the array whose parents stand at `low` or above, no event comes before its
-- parent.
abbrev pub IsHeapFrom : ℕ → ℕ → (ℕ → Event) → Type 0
IsHeapFrom low n items =
    (j : ℕ) → 0 < j → j < n → low ≤ parent j → NotAfter (items (parent j)) (items j)

abbrev pub IsHeap : ℕ → (ℕ → Event) → Type 0
IsHeap n items = (j : ℕ) → 0 < j → j < n → NotAfter (items (parent j)) (items j)

abbrev pub AllUniform : (ℕ → Bool) → ℕ → (ℕ → Event) → Type 0
AllUniform kind n items = (j : ℕ) → j < n → IsUniform kind (items j)
