-- ===== src/Events/Loops.antt =====
-- The order of events, and the loops that move an event up or down the heap.
use dspic33e_sim.Prelude.{ℕ, zero, suc, ◌+◌, ◌-◌, ◌*◌, ◌/◌, ◌%◌, Bool, true, false, ◌&&◌}
use dspic33e_sim.Prelude.{ltb, leb, ◌==◌, ◌!=◌, bool_eq, if◌then◌else◌, not}
use dspic33e_sim.Device.State.{Event, EventQueue, EventType, update}

abbrev pub is_dma : EventType → Bool
is_dma EventType.dma = true
is_dma kind = false

-- Between two DMA sources completions come first, then the lower channel; DSPIC33_DMA_COUNT is 15.
unfoldable pub source_less : ℕ → ℕ → Bool
source_less left right =
    let left_is_completion = leb 15 left in
    let right_is_completion = leb 15 right in
    if not (bool_eq left_is_completion right_is_completion)
    then left_is_completion
    else ltb (left % 15) (right % 15)

-- `event_less`.
unfoldable pub event_less : Event → Event → Bool
unfolding source_less
event_less left right =
    if not (bool_eq left.paused right.paused)
    then not left.paused
    else if left.cycle != right.cycle
    then ltb left.cycle right.cycle
    else if is_dma left.kind && is_dma right.kind && left.source != right.source
    then source_less left.source right.source
    else ltb left.sequence right.sequence

-- The loop of `schedule_event`: the hole at `index` moves up while `event` comes before its
-- parent. The index falls, so that it serves as the fuel.
unfoldable pub sift_up : ℕ → Event → ℕ → (ℕ → Event) → ℕ × (ℕ → Event)
sift_up zero event index items = (index, items)
sift_up (suc fuel) event index items =
    let parent = (index - 1) / 2 in
    let rise = sift_up fuel event parent (update items index (items parent)) in
    if index == 0
    then (index, items)
    else if not (event_less event (items parent))
    then (index, items)
    else rise

-- The child that both loops below look at: the right one if it exists and comes first.
unfoldable pub first_child : ℕ → ℕ → (ℕ → Event) → ℕ
first_child count index items =
    let left = index * 2 + 1 in
    if ltb (left + 1) count && event_less (items (left + 1)) (items left) then left + 1 else left

-- The inner loop of `dspic33_reorder_events`, which stands in `event_pop` once more. The index
-- grows below `count`, so that the count is fuel enough.
unfoldable pub sift_down : ℕ → Event → ℕ → ℕ → (ℕ → Event) → ℕ × (ℕ → Event)
unfolding first_child
sift_down zero event count index items = (index, items)
sift_down (suc fuel) event count index items =
    let child = first_child count index items in
    let sink = sift_down fuel event count child (update items index (items child)) in
    if not (ltb (index * 2 + 1) count)
    then (index, items)
    else if not (event_less (items child) event)
    then (index, items)
    else sink

-- One round of the outer loop of `dspic33_reorder_events`, at the node `index`.
unfoldable pub settle : ℕ → ℕ → (ℕ → Event) → ℕ → Event
unfolding sift_down
settle count index items =
    let event = items index in
    let (hole, moved) = sift_down count event count index items in update moved hole event

-- The outer loop, from `parent` down to 1.
unfoldable pub settle_all : ℕ → ℕ → (ℕ → Event) → ℕ → Event
unfolding settle
settle_all count zero items = items
settle_all count (suc parent) items = settle_all count parent (settle count parent items)

-- `dspic33_reorder_events`.
unfoldable pub reorder_events : EventQueue → EventQueue
unfolding settle_all
reorder_events queue =
    if ltb queue.count 2
    then queue
    else record queue { items = settle_all queue.count (queue.count / 2) queue.items }

-- `dspic33_device_internal_event_pop`, called with `count` at least 1.
unfoldable pub event_pop : EventQueue → Event × EventQueue
unfolding sift_down
event_pop queue =
    let count = queue.count - 1 in
    let last = queue.items count in
    let (hole, moved) = sift_down count last count 0 queue.items in
    (
      queue.items 0,
      record queue {
        items = if count != 0 then update moved hole last else queue.items;
        count = count;
      },
    )
