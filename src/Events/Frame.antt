-- ===== src/Events/Frame.antt =====
-- Scheduling an event leaves the peripherals alone.
use dspic33e_sim.Prelude.{ℕ, ◌≡◌, Bool, arith}
use dspic33e_sim.Device.State.{Dspic33, EventType}
use dspic33e_sim.Events.{schedule, schedule_event}

pub schedule-io :
    (realloc : ℕ → Bool) (cpu : Dspic33) (kind : EventType) (source value delay : ℕ)
    → (schedule realloc cpu kind source value delay).1.io ≡ cpu.io
unfolding schedule schedule_event
schedule-io realloc cpu kind source value delay = ground arith
