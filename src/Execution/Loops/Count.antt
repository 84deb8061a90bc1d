-- ===== src/Execution/Loops/Count.antt =====
-- A DO loop goes round as often as its count says, or less often if it is asked to end.
use dspic33e_sim.Prelude.{ℕ, zero, suc, ◌+◌, ◌<◌, ◌≡◌, min}
use dspic33e_sim.Prelude.{◌==◌, if◌then◌else◌}
use dspic33e_sim.Device.State.{Dspic33}
use dspic33e_sim.Execution.Loops.{complete_do_loop_iteration}

-- The machine after the body has come to its end `n` times; the body itself leaves the loop's
-- registers alone.
unfoldable pub iterations : ℕ → Dspic33 → Dspic33
iterations zero cpu = cpu
iterations (suc n) cpu = iterations n (complete_do_loop_iteration cpu)

-- The innermost of `depth + 1` loops, with its count and the request to end it: 1 in this round, 2
-- in the next one.
pub record IsLooping (depth count terminate : ℕ) (cpu : Dspic33) : Type 0 where
  pub inside : cpu.do_depth ≡ depth + 1
  pub shallow : depth < 4
  pub counted : cpu.do_count depth ≡ count
  pub requested : cpu.do_terminate depth ≡ terminate

-- How often the loop goes back to its start.
unfoldable pub rounds_left : ℕ → ℕ → ℕ
rounds_left count terminate =
    if terminate == 1 then 0 else if terminate == 2 then min count 1 else count

-- The request after one more round.
abbrev later : ℕ → ℕ
later terminate = if terminate == 2 then 1 else terminate
