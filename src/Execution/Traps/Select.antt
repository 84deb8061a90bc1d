-- ===== src/Execution/Traps/Select.antt =====
-- What is done about the soft traps that wait: a reset, or the entry of the first of the highest
-- priority.
use mathlib.Core.Path.{subst}
use dspic33e_sim.Prelude.{ℕ, zero, suc, ◌≤◌, ◌<◌, ◌≡◌, refl, sym, arith}
use dspic33e_sim.Prelude.{Bool, true, false, true≢false, Bool-cases, inl, inr, ◌==◌, ◌&&◌, ltb}
use dspic33e_sim.Prelude.{Option, none, some, if◌then◌else◌}
use dspic33e_sim.Device.State.{Dspic33}
use dspic33e_sim.Execution.Traps.{
  ready_above, current_trap_priority, select_trap, conflicts, trap_conflict, TrapService,
  conflict_reset, no_service, enter_trap, trap_service,
}

-- The trap in a slot is ready and above what the processor does.
abbrev pub is_ready : Dspic33 → ℕ → Bool
is_ready cpu index = ready_above (cpu.pending_soft_traps index) (current_trap_priority cpu)

abbrev pub trap_priority : Dspic33 → ℕ → ℕ
trap_priority cpu index = (cpu.pending_soft_traps index).priority

-- Of the first `n` slots, `index` is the first of those ready with the highest priority.
pub record IsFirst (cpu : Dspic33) (n index : ℕ) : Type 0 where
  pub in_range : index < n
  pub ready : is_ready cpu index ≡ true
  pub highest :
      (j : ℕ) → j < n → is_ready cpu j ≡ true → trap_priority cpu j ≤ trap_priority cpu index
  pub first :
      (j : ℕ) → j < index → is_ready cpu j ≡ true → trap_priority cpu j < trap_priority cpu index

abbrev pub IsSelected : Dspic33 → ℕ → Option ℕ → Type 0
IsSelected cpu n none = (j : ℕ) → j < n → is_ready cpu j ≡ false
IsSelected cpu n (some index) = IsFirst cpu n index

-- The choice after one more slot.
choice : Dspic33 → ℕ → Option ℕ → Option ℕ
choice cpu n none = if is_ready cpu n then some n else none
choice cpu n (some selected) =
    if is_ready cpu n && ltb (trap_priority cpu selected) (trap_priority cpu n)
    then some n
    else some selected

select_trap-suc :
    (cpu : Dspic33) (n : ℕ) (o : Option ℕ)
    → select_trap cpu n ≡ o
    → select_trap cpu (suc n) ≡ choice cpu n o
unfolding select_trap choice
select_trap-suc cpu n none h = rw h refl
select_trap-suc cpu n (some k) h = rw h refl

choice-IsSelected :
    (cpu : Dspic33) (n : ℕ) (o : Option ℕ)
    → IsSelected cpu n o
    → IsSelected cpu (suc n) (choice cpu n o)
unfolding choice
choice-IsSelected cpu n none nobody = elim (Bool-cases (is_ready cpu n)) [
  | inl ready ↦ rw ready (record {
    in_range = omega arith;
    ready = ready;
    highest = λ j lt on. elim (Bool-cases (j == n)) [
      | inl same ↦ ground arith
      | inr other ↦ ground (arith, nobody j)
    ];
    first = λ j lt on. ground (arith, nobody j);
  })
  | inr waits ↦ rw waits (λ j lt. elim (Bool-cases (j == n)) [
    | inl same ↦ ground arith
    | inr other ↦ nobody j (ground arith)
  ])
]
choice-IsSelected cpu n (some k) best =
    elim (Bool-cases (is_ready cpu n && ltb (trap_priority cpu k) (trap_priority cpu n))) [
      | inl better ↦ rw better (record {
        in_range = omega arith;
        ready = ground arith;
        highest = λ j lt on. elim (Bool-cases (j == n)) [
          | inl same ↦ ground arith
          | inr other ↦ ground (arith, best.highest j)
        ];
        first = λ j lt on. ground (arith, best.highest j);
      })
      | inr worse ↦ rw worse (record {
        in_range = ground (arith, best.in_range);
        ready = best.ready;
        highest = λ j lt on. elim (Bool-cases (j == n)) [
          | inl same ↦ ground arith
          | inr other ↦ best.highest j (ground arith) on
        ];
        first = best.first;
      })
    ]

selected : (cpu : Dspic33) (n : ℕ) → IsSelected cpu n (select_trap cpu n)
unfolding select_trap
selected cpu zero = λ j lt. absurd (omega arith)
selected cpu (suc n) =
    let best = choice-IsSelected cpu n (select_trap cpu n) (selected cpu n) in
    subst (IsSelected cpu (suc n)) (sym (select_trap-suc cpu n (select_trap cpu n) refl)) best

no_conflict :
    (cpu : Dspic33) (n : ℕ)
    → trap_conflict cpu n ≡ false
    → (j : ℕ) → j < n
    → conflicts cpu (cpu.pending_soft_traps j) ≡ false
unfolding trap_conflict
no_conflict cpu zero none_before j lt = absurd (omega arith)
no_conflict cpu (suc n) none_before j lt = elim (Bool-cases (j == n)) [
  | inl same ↦ ground (arith, none_before)
  | inr other ↦ no_conflict cpu n (ground (arith, none_before)) j (ground arith)
]

some_conflict :
    (cpu : Dspic33) (n : ℕ)
    → trap_conflict cpu n ≡ true
    → (j : ℕ) × ((j < n) × (conflicts cpu (cpu.pending_soft_traps j) ≡ true))
unfolding trap_conflict
some_conflict cpu zero found = absurd (true≢false (sym found))
some_conflict cpu (suc n) found = elim (Bool-cases (trap_conflict cpu n)) [
  | inl before ↦
      let (j, (lt, conflict)) = some_conflict cpu n before in (j, (omega arith, conflict))
  | inr here ↦ (n, (omega arith, ground (arith, found, here)))
]

abbrev pub NoConflict : Dspic33 → Type 0
NoConflict cpu = (j : ℕ) → j < 4 → conflicts cpu (cpu.pending_soft_traps j) ≡ false

-- What each outcome says of the four slots.
abbrev pub IsDecided : Dspic33 → TrapService → Type 0
IsDecided cpu conflict_reset =
    (j : ℕ) × ((j < 4) × (conflicts cpu (cpu.pending_soft_traps j) ≡ true))
IsDecided cpu no_service = NoConflict cpu × IsSelected cpu 4 none
IsDecided cpu (enter_trap index) = NoConflict cpu × IsSelected cpu 4 (some index)

decided :
    (cpu : Dspic33) (o : Option ℕ)
    → NoConflict cpu
    → IsSelected cpu 4 o
    → IsDecided cpu (elim o [ none ↦ no_service | some index ↦ enter_trap index ])
decided cpu none quiet nobody = (quiet, nobody)
decided cpu (some index) quiet best = (quiet, best)

-- The processor is reset only if one of the four slots has a hard trap, of priority 13 or above,
-- that is due below the present priority. Otherwise no slot has one, and the trap that is entered
-- is due and above the present priority; none that is has a higher priority, and none in an earlier
-- slot the same. If no trap is entered either, none is due above the present priority.
pub trap_service-IsDecided : (cpu : Dspic33) → IsDecided cpu (trap_service cpu)
unfolding trap_service
trap_service-IsDecided cpu = elim (Bool-cases (trap_conflict cpu 4)) [
  | inl conflict ↦ rw conflict (some_conflict cpu 4 conflict)
  | inr quiet ↦
      rw quiet (decided cpu (select_trap cpu 4) (no_conflict cpu 4 quiet) (selected cpu 4))
]
