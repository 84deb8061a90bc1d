-- ===== src/Events/Queue/Uniform.antt =====
-- Uniformity is a property of the events held, and not of their places.
use dspic33e_sim.Prelude.{ℕ, zero, suc, ◌≡◌, Bool, false, arith, refl, not, ◌&&◌, ◌||◌}
use dspic33e_sim.Prelude.{◌==◌, ltb, bool_eq, Bool-cases, inl, inr, ==_iff}
use dspic33e_sim.Device.State.{Event}
use dspic33e_sim.Events.Loops.{is_dma}
use dspic33e_sim.Events.Order.{IsUniform}
use dspic33e_sim.Events.Heap.{AllUniform}
use dspic33e_sim.Events.Held.{held, held-suc}

pub odd_one : (ℕ → Bool) → Event → Bool
odd_one kind e =
    not (bool_eq (is_dma e.kind) (kind e.cycle) && (not (is_dma e.kind) || ltb e.source 30))

pub IsUniform-odd_one : (kind : ℕ → Bool) (e : Event) → IsUniform kind e → odd_one kind e ≡ false
unfolding odd_one
IsUniform-odd_one kind e u = elim (Bool-cases (is_dma e.kind)) [
  | inl dma ↦ ground (arith, u.kind_of_cycle, u.source-lt dma)
  | inr other ↦ ground (arith, u.kind_of_cycle, other)
]

odd_one-IsUniform : (kind : ℕ → Bool) (e : Event) → odd_one kind e ≡ false → IsUniform kind e
unfolding odd_one
odd_one-IsUniform kind e h = record {
  kind_of_cycle = ground arith;
  source-lt = λ dma. ground (arith, dma);
}

module _ (kind : ℕ → Bool) (items : ℕ → Event) where
  pub held-uniform : (n : ℕ) → AllUniform kind n items → held (odd_one kind) items n ≡ 0
  unfolding held
  held-uniform zero all = refl
  held-uniform (suc n) all = ground (
    arith,
    IsUniform-odd_one kind (items n) (all n (omega arith)),
    held-uniform n (λ j lt. all j (omega arith)),
  )

  pub uniform-held : (n : ℕ) → held (odd_one kind) items n ≡ 0 → AllUniform kind n items
  uniform-held zero h j lt = absurd (omega arith)
  uniform-held (suc n) h j lt = elim (Bool-cases (j == n)) [
    | inl top ↦
        rw ((==_iff j n).0 top)
          (odd_one-IsUniform kind (items n) (ground (arith, held-suc (odd_one kind) items n)))
    | inr lower ↦ uniform-held n (ground (arith, held-suc (odd_one kind) items n)) j (ground arith)
  ]
