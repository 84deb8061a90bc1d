-- ===== src/Execution/Loops.antt =====
-- The DO loops, `complete_do_loop_iteration` of src/architecture/dspic33/execution/run.c.
pub mod Count
use dspic33e_sim.Prelude.{ℕ, ◌+◌, ◌-◌, Bool, true, false, ◌&&◌}
use dspic33e_sim.Prelude.{bit_and, bit_or, ◌==◌, ◌!=◌, if◌then◌else◌, u8, u16, not16, ◌<<<◌}
use dspic33e_sim.Device.State.{Dspic33, update}

-- The innermost loop goes round again.
abbrev pub again : Dspic33 → ℕ → Dspic33
again cpu depth =
    let count = cpu.do_count depth - 1 in
    record cpu {
      do_count = update cpu.do_count depth count;
      do_terminate =
          if cpu.do_terminate depth == 2 then update cpu.do_terminate depth 1 else cpu.do_terminate;
      dcount = count;
      pc = cpu.do_start depth;
    }

-- The innermost loop ends, and the one around it, if there is one, is the innermost.
abbrev pub leave : Dspic33 → ℕ → Dspic33
leave cpu depth =
    let outside : Dspic33 = record cpu {
      do_terminate = update cpu.do_terminate depth 0;
      do_depth = depth;
      corcon = u16 (bit_or (bit_and cpu.corcon (not16 0x0700)) (depth <<< 8));
    } in
    if depth == 0
    then record outside { dostart = 0; doend = 0; dcount = 0; sr = bit_and cpu.sr 0xfdff }
    else record outside {
      dostart = cpu.do_start (depth - 1);
      doend = cpu.do_end (depth - 1);
      dcount = cpu.do_count (depth - 1);
    }

-- `complete_do_loop_iteration`
unfoldable pub complete_do_loop_iteration : Dspic33 → Dspic33
complete_do_loop_iteration cpu =
    let depth = u8 (cpu.do_depth + 255) in
    if cpu.do_count depth != 0 && cpu.do_terminate depth != 1
    then again cpu depth
    else leave cpu depth
