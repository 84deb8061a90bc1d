-- ===== src/Execution/Branch/Complement.antt =====
-- The conditions of branches come in pairs.
use dspic33e_sim.Prelude.{ℕ, ◌+◌, ◌<◌, ◌≡◌, arith, not}
use mathlib.Core.Option
use dspic33e_sim.Device.State.{Dspic33}
use dspic33e_sim.Execution.Branch.{branch_condition}

-- Condition `8 + c` asks for the opposite of condition `c`, for every `c` below 7.
pub branch_condition_opposite :
    (cpu : Dspic33) (c : ℕ)
    → c < 7
    → branch_condition cpu (8 + c) ≡ Option.map not (branch_condition cpu c)
unfolding branch_condition
branch_condition_opposite cpu c lt = ground arith
