-- ===== src/Rtcc/Window.antt =====
-- The register windows of rtcc.c: one address shows the calendar or the alarm word by word, and
-- the pointer to the word falls with each access.
use dspic33e_sim.Prelude.{
  ℕ, ◌+◌, ◌-◌, ◌*◌, Bool, true, false, ◌&&◌, ◌||◌, not, List, [], ◌∷◌, get_or,
}
use dspic33e_sim.Prelude.{
  bit_and, bit_or, ltb, ◌==◌, ◌!=◌, bool_eq, if◌then◌else◌, u8, u16, u32, u64,
}
use dspic33e_sim.Prelude.{not16, uint64_max, ◌>>>◌, ◌<<<◌}
use dspic33e_sim.Device.State.{Dspic33, Rtcc, EventType, StopReason, update}
use dspic33e_sim.Device.Memory.{raw_word, raw_write_word}
use dspic33e_sim.Events.{schedule}
use dspic33e_sim.Interrupts.{instruction_cycles}
use dspic33e_sim.Rtcc.Clock.{
  with_rtcc, rtcc_set_status, rtcc_control, rtcc_alarm_control, rtcc_pointer_mask,
}
use dspic33e_sim.Rtcc.Clock.{
  rtcc_write_enable, rtcc_enable, rtcc_pmd_address, rtcc_pmd, rtcc_event_pmd_source,
}
use dspic33e_sim.Rtcc.Clock.{rtcc_alarm_value, rtcc_value}

abbrev pub rtcc_calendar_masks : List ℕ
rtcc_calendar_masks = 0x7f7f ∷ 0x073f ∷ 0x1f3f ∷ 0x00ff ∷ []

abbrev pub rtcc_alarm_masks : List ℕ
rtcc_alarm_masks = 0x7f7f ∷ 0x073f ∷ 0x1f3f ∷ []

-- `dspic33_device_internal_nvm_key_authorized`.
unfoldable pub nvm_key_authorized : Dspic33 → Bool
nvm_key_authorized cpu =
    cpu.nvm.key_stage == 2
    && cpu.nvm.key_instruction != uint64_max
    && cpu.instructions == u64 (cpu.nvm.key_instruction + 1)
    && cpu.interrupt_count == cpu.nvm.key_interrupt_count
    && cpu.trap_count == cpu.nvm.key_trap_count

-- `rtcc_decrement_pointer`.
unfoldable pub rtcc_decrement_pointer : Dspic33 → ℕ → ℕ → Dspic33
rtcc_decrement_pointer cpu control_address pointer_mask =
    let control_value = raw_word cpu control_address in
    let pointer = u16 (bit_and control_value pointer_mask >>> 8) in
    if pointer != 0
    then raw_write_word cpu control_address
        (u16 (bit_or (bit_and control_value (not16 pointer_mask)) ((pointer - 1) <<< 8)))
    else cpu

-- `rtcc_read_complete`.
unfoldable pub rtcc_read_complete : Dspic33 → ℕ → Bool
rtcc_read_complete cpu address =
    not cpu.io.cpu_read_valid
    || cpu.io.cpu_read_width == 1
    || address == cpu.io.cpu_read_address + 1

-- The control register of a window, whose pointer mask is the same in both.
abbrev pub rtcc_control_address : Bool → ℕ
rtcc_control_address is_alarm = if is_alarm then rtcc_alarm_control else rtcc_control

abbrev pub rtcc_window_index : Dspic33 → Bool → ℕ
rtcc_window_index cpu is_alarm =
    u16 (bit_and (raw_word cpu (rtcc_control_address is_alarm)) rtcc_pointer_mask >>> 8)

abbrev pub rtcc_window_mask : Bool → ℕ → ℕ
rtcc_window_mask is_alarm index =
    if is_alarm
    then (if ltb index 3 then get_or rtcc_alarm_masks index 0 else 0)
    else get_or rtcc_calendar_masks index 0

abbrev pub rtcc_window_value : Rtcc → Bool → ℕ → ℕ
rtcc_window_value rtcc is_alarm index =
    if is_alarm then (if ltb index 3 then rtcc.alarm index else 0) else rtcc.calendar index

-- `dspic33_device_internal_rtcc_read_window`.
unfoldable pub rtcc_read_window : Dspic33 → ℕ → Bool → ℕ × Dspic33
unfolding rtcc_decrement_pointer
rtcc_read_window cpu address is_alarm =
    let index = rtcc_window_index cpu is_alarm in
    let value = rtcc_window_value cpu.io.rtcc is_alarm index in
    let window_byte =
      u8 (bit_and value (rtcc_window_mask is_alarm index) >>> (bit_and address 1 * 8)) in
    (
      window_byte,
      if rtcc_read_complete cpu address
          then rtcc_decrement_pointer cpu (rtcc_control_address is_alarm) rtcc_pointer_mask
          else cpu,
    )

-- `rtcc_write_width`.
unfoldable pub rtcc_write_width : Dspic33 → ℕ
rtcc_write_width cpu =
    if cpu.io.dma_transfer_active
    then cpu.io.dma_transfer_width
    else if cpu.io.cpu_write_valid
    then cpu.io.cpu_write_width
    else 1

-- `rtcc_window_write_value`.
unfoldable pub rtcc_window_write_value : Dspic33 → ℕ → ℕ → ℕ
unfolding rtcc_write_width
rtcc_window_write_value cpu address previous_value =
    if rtcc_write_width cpu == 2
    then raw_word cpu (u16 (bit_and address 0xfffe))
    else if bit_and address 1 != 0
    then u16 (bit_or (bit_and previous_value 0x00ff) (cpu.data_bytes address <<< 8))
    else u16 (bit_or (bit_and previous_value 0xff00) (cpu.data_bytes address))

-- `rtcc_write_decrements_pointer`.
unfoldable pub rtcc_write_decrements_pointer : Dspic33 → ℕ → Bool
unfolding rtcc_write_width
rtcc_write_decrements_pointer cpu address = rtcc_write_width cpu == 2 || bit_and address 1 != 0

-- What `update_rtcc_window` stores when writes are enabled.
unfoldable pub rtcc_store_window : Dspic33 → Bool → ℕ → ℕ → Dspic33
rtcc_store_window cpu is_alarm index value =
    let rtcc = cpu.io.rtcc in
    let masked = bit_and value (rtcc_window_mask is_alarm index) in
    if is_alarm
    then (if ltb index 3
        then with_rtcc cpu (record rtcc { alarm = update rtcc.alarm index masked })
        else cpu)
    else if index == 0
    then rtcc_set_status
        (with_rtcc cpu (record rtcc {
          calendar = update rtcc.calendar index masked;
          prescaler = 0;
          calibration_pending = false;
        }))
        0
    else with_rtcc cpu (record rtcc { calendar = update rtcc.calendar index masked })

-- `update_rtcc_window`.
unfoldable pub update_rtcc_window : Dspic33 → ℕ → Bool → Dspic33
unfolding rtcc_store_window rtcc_window_write_value rtcc_write_decrements_pointer
    rtcc_decrement_pointer
update_rtcc_window cpu address is_alarm =
    let index = rtcc_window_index cpu is_alarm in
    let previous_value = rtcc_window_value cpu.io.rtcc is_alarm index in
    let value = rtcc_window_write_value cpu address previous_value in
    let stored =
      if bit_and (raw_word cpu rtcc_control) rtcc_write_enable != 0
      then rtcc_store_window cpu is_alarm index value
      else cpu in
    let cleared = raw_write_word stored (u16 (bit_and address 0xfffe)) 0 in
    if rtcc_write_decrements_pointer cleared address
    then rtcc_decrement_pointer cleared (rtcc_control_address is_alarm) rtcc_pointer_mask
    else cleared

-- `update_rtcc_control`: WREN needs the unlock sequence, and ON needs WREN.
unfoldable pub update_rtcc_control : Dspic33 → ℕ → Dspic33
update_rtcc_control cpu previous_control =
    let control_value = raw_word cpu rtcc_control in
    let previous_write_enable = bit_and previous_control rtcc_write_enable != 0 in
    let requested_write_enable = bit_and control_value rtcc_write_enable != 0 in
    let opening = not previous_write_enable && requested_write_enable in
    let locked =
      not (nvm_key_authorized cpu)
      || not cpu.instruction_active
      || cpu.current_instruction_cycles != 1 in
    let granted =
      if opening && locked
      then bit_and control_value (not16 rtcc_write_enable)
      else control_value in
    let guarded =
      if not previous_write_enable
      then u16 (bit_or (bit_and granted (not16 rtcc_enable)) (bit_and previous_control rtcc_enable))
      else granted in
    let used = if opening then record cpu { nvm = record cpu.nvm { key_stage = 0 } } else cpu in
    raw_write_word used rtcc_control guarded

module _ (realloc : ℕ → Bool) where
  -- `update_rtcc_pmd`.
  unfoldable pub update_rtcc_pmd : Dspic33 → ℕ → Dspic33
  update_rtcc_pmd cpu previous_pmd =
      let disabled = bit_and (raw_word cpu rtcc_pmd_address) rtcc_pmd != 0 in
      let generation = u16 (cpu.io.rtcc.pmd_generation + 1) in
      let counted = with_rtcc cpu (record cpu.io.rtcc { pmd_generation = generation }) in
      let (scheduled, queued) =
        schedule realloc counted EventType.rtcc rtcc_event_pmd_source
          (bit_or (u32 (generation <<< 1)) (if disabled then 1 else 0))
          (instruction_cycles counted 1) in
      let restored = raw_write_word queued rtcc_pmd_address previous_pmd in
      if bool_eq (bit_and previous_pmd rtcc_pmd != 0) disabled
      then cpu
      else if not scheduled
      then record (with_rtcc restored (record restored.io.rtcc {
        pmd_generation = u16 (restored.io.rtcc.pmd_generation + 1);
      })) { stop_reason = StopReason.event_queue_error }
      else queued

  -- `dspic33_device_internal_update_rtcc_register`.
  unfoldable pub update_rtcc_register : Dspic33 → ℕ → ℕ → Dspic33
  unfolding update_rtcc_pmd update_rtcc_window update_rtcc_control
  update_rtcc_register cpu address previous_value =
      let register_address = u16 (bit_and address 0xfffe) in
      if register_address == rtcc_pmd_address
      then update_rtcc_pmd cpu previous_value
      else if ltb register_address rtcc_alarm_value || ltb rtcc_control register_address
      then cpu
      else if cpu.io.rtcc.pmd_disabled
      then raw_write_word cpu register_address previous_value
      else if register_address == rtcc_alarm_value
      then update_rtcc_window cpu address true
      else if register_address == rtcc_value
      then update_rtcc_window cpu address false
      else if register_address == rtcc_control
      then update_rtcc_control cpu previous_value
      else cpu
