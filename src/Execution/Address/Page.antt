-- ===== src/Execution/Address/Page.antt =====
-- What it takes for an access to go on in another data page.
use dspic33e_sim.Prelude.{ℕ, ◌+◌, ◌-◌, ◌≤◌, ◌<◌, ◌≡◌, ◌≢◌}
use dspic33e_sim.Prelude.{Bool, false, if◌then◌else◌}
use dspic33e_sim.Prelude.{u16, ◌==◌, ◌||◌}
use dspic33e_sim.Device.State.{Dspic33}
use dspic33e_sim.Execution.Address.{
  OperandResolution, bit_reversed_addressing_enabled, modulo_addressing_enabled,
  pseudo_linear_terminal_page,
}

abbrev pub data_page : Dspic33 → Bool → ℕ
data_page cpu write = if write then cpu.dswpag else cpu.dsrpag

-- In a resolution that changes the page, `page` was the page before.
pub record IsCrossing (cpu : Dspic33) (registers : ℕ → ℕ) (mode reg width page : ℕ) (write : Bool)
    (resolution : OperandResolution) : Type 0 where
  pub paged : page ≢ 0
  pub counts : (2 ≤ mode) × (mode ≤ 5)
  pub pointer : reg < 14
  pub plain : modulo_addressing_enabled cpu reg false ≡ false
  pub straight : bit_reversed_addressing_enabled cpu mode reg width write ≡ false
  pub upper : 0x8000 ≤ registers reg
  pub neighbour :
      resolution.updated_data_page
      ≡ (if mode == 3 || mode == 5 then u16 (page + 1) else u16 (page - 1))
  pub inner : pseudo_linear_terminal_page page (mode == 3 || mode == 5) write ≡ false
