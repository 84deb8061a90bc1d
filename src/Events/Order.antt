-- ===== src/Events/Order.antt =====
-- When `event_less` orders events: it is asymmetric, and transitive on the events of which each
-- cycle has only DMA events or none.
use dspic33e_sim.Prelude.{refl, ℕ, ◌+◌, ◌%◌, ◌<◌, ◌≡◌, Bool, true, false, arith, ltb, ◌!=◌}
use dspic33e_sim.Prelude.{if◌then◌else◌, to_nat, ◌&&◌, ap, sym, ◌∙◌}
use dspic33e_sim.Device.State.{Event}
use dspic33e_sim.Events.Loops.{event_less, source_less, is_dma}

-- `a` does not come after `b`.
abbrev pub NotAfter : Event → Event → Type 0
NotAfter a b = event_less b a ≡ false

-- One stage of a lexicographic order.
lex : ℕ → ℕ → Bool → Bool
lex a b rest = if a != b then ltb a b else rest

lex_asym : (a b : ℕ) (r s : Bool) → (r ≡ true → s ≡ false) → lex a b r ≡ true → lex b a s ≡ false
unfolding lex
lex_asym a b r s k h = ground arith

lex_trans :
    (a b c : ℕ) (r s t : Bool)
    → (a ≡ b → b ≡ c → r ≡ false → s ≡ false → t ≡ false)
    → lex b a r ≡ false
    → lex c b s ≡ false
    → lex c a t ≡ false
unfolding lex
lex_trans a b c r s t k p q = ground arith

source_less_asym : (s t : ℕ) → source_less s t ≡ true → source_less t s ≡ false
unfolding source_less
source_less_asym s t h = ground arith

-- Between sources of events in the queue the order is that of the remainders.
source_key : ℕ → ℕ
source_key s = (s + 15) % 30

source_less_lem : (s t : ℕ) → s < 30 → t < 30 → source_less s t ≡ ltb (source_key s) (source_key t)
unfolding source_less source_key
source_less_lem s t hs ht = ground arith

-- Past `paused` and `cycle`.
same_cycle : Event → Event → Bool
same_cycle a b =
    if is_dma a.kind && is_dma b.kind && a.source != b.source
    then source_less a.source b.source
    else ltb a.sequence b.sequence

event_less-lex :
    (a b : Event)
    → event_less a b
      ≡ lex (to_nat a.paused) (to_nat b.paused) (lex a.cycle b.cycle (same_cycle a b))
unfolding event_less lex same_cycle
event_less-lex a b = ground arith

same_cycle_asym : (a b : Event) → same_cycle a b ≡ true → same_cycle b a ≡ false
unfolding same_cycle
same_cycle_asym a b h = ground (arith, source_less_asym a.source b.source)

pub event_less_asym : (a b : Event) → event_less a b ≡ true → NotAfter a b
event_less_asym a b h =
    rw (event_less-lex b a)
      (lex_asym _ _ _ _ (lex_asym _ _ _ _ (same_cycle_asym a b)) (rw (event_less-lex a b) at h))

-- At each cycle all events are DMA events or none is, and `kind` says which; the source of a DMA
-- event is a channel, below 15, or the completion of one, below 30. Other events have any source.
pub record IsUniform (kind : ℕ → Bool) (e : Event) : Type 0 where
  pub kind_of_cycle : is_dma e.kind ≡ kind e.cycle
  pub source-lt : is_dma e.kind ≡ true → e.source < 30

same_cycle_trans :
    (b : Bool) (x y z : Event)
    → is_dma x.kind ≡ b
    → is_dma y.kind ≡ b
    → is_dma z.kind ≡ b
    → (b ≡ true → x.source < 30)
    → (b ≡ true → y.source < 30)
    → (b ≡ true → z.source < 30)
    → same_cycle y x ≡ false
    → same_cycle z y ≡ false
    → same_cycle z x ≡ false
unfolding same_cycle source_key
same_cycle_trans false x y z kx ky kz sx sy sz p q = ground arith
same_cycle_trans true x y z kx ky kz sx sy sz p q =
    let x-lt = sx refl in
    let y-lt = sy refl in
    let z-lt = sz refl in
    ground (
      arith,
      source_less_lem y.source x.source y-lt x-lt,
      source_less_lem z.source y.source z-lt y-lt,
      source_less_lem z.source x.source z-lt x-lt,
    )

-- On such events the order is transitive.
pub IsUniform-trans :
    (kind : ℕ → Bool) (a b c : Event)
    → IsUniform kind a
    → IsUniform kind b
    → IsUniform kind c
    → NotAfter a b
    → NotAfter b c
    → NotAfter a c
IsUniform-trans kind a b c ha hb hc p q = rw (event_less-lex c a) (
    lex_trans _ _ _ _ _ _ (λ _ _. lex_trans _ _ _ _ _ _ at_one_cycle) (rw (event_less-lex b a) at p)
      (rw (event_less-lex c b) at q))
  where
    at_one_cycle :
        a.cycle ≡ b.cycle
        → b.cycle ≡ c.cycle
        → same_cycle b a ≡ false
        → same_cycle c b ≡ false
        → same_cycle c a ≡ false
    at_one_cycle e f =
        let ka : is_dma a.kind ≡ kind a.cycle = ha.kind_of_cycle in
        let kb : is_dma b.kind ≡ kind a.cycle = hb.kind_of_cycle ∙ ap kind (sym e) in
        let kc : is_dma c.kind ≡ kind a.cycle =
          hc.kind_of_cycle ∙ ap kind (sym f) ∙ ap kind (sym e) in
        same_cycle_trans (kind a.cycle) a b c ka kb kc (λ dma. ha.source-lt (ka ∙ dma))
          (λ dma. hb.source-lt (kb ∙ dma)) (λ dma. hc.source-lt (kc ∙ dma))

-- Whenever a non-DMA event of a cycle was queued between two DMA events of it, of which the later
-- one has the lower channel, each of the three comes before the next one round.
pub event_less_cyclic :
    (a b c : Event)
    → (a.paused ≡ b.paused) × (b.paused ≡ c.paused)
    → (a.cycle ≡ b.cycle) × (b.cycle ≡ c.cycle)
    → (is_dma a.kind ≡ true) × (is_dma b.kind ≡ false) × (is_dma c.kind ≡ true)
    → (a.sequence < b.sequence) × (b.sequence < c.sequence)
    → (c.source < a.source) × (a.source < 15)
    → (event_less a b ≡ true) × (event_less b c ≡ true) × (event_less c a ≡ true)
unfolding event_less
event_less_cyclic a b c paused cycles kinds order sources = ground arith
