-- ===== src/Device/State.antt =====
-- `struct Dspic33` of src/architecture/dspic33/internal.h and the structures that it holds, of
-- include/dspic33.h. Arrays are functions of the index. A field that no modelled function reads
-- or writes is left out.
use dspic33e_sim.Prelude.{ℕ, Bool, true, false, ◌==◌, if◌then◌else◌}
use dspic33e_sim.Device.Profile.{Device, dev_512mu810}

-- `Dspic33EventType`.
pub data EventType : Type 0 where
  interrupt timer timer_gate timer_interrupt timer_pmd dma adc adc_pmd : EventType
  pwm_fault pwm_current_limit pwm_dead_time pwm_sync pwm_pmd : EventType
  uart spi spi_select i2c can usb usb_pmd nvm crc pmp : EventType
  input_capture output_compare output_compare_fault comparator rtcc qei dci : EventType
  aux_pll oscillator platform_pmd : EventType

-- `Dspic33Event`; `kind` is the field `type`.
pub record Event : Type 0 where
  pub cycle : ℕ  -- uint64_t
  pub sequence : ℕ  -- uint64_t
  pub paused_remaining : ℕ
  pub value : ℕ  -- uint32_t
  pub source : ℕ  -- uint16_t
  pub kind : EventType
  pub paused : Bool
  pub external : Bool

-- `Dspic33EventQueue`. The array holds `capacity` events, of which the first `count` are queued.
pub record EventQueue : Type 0 where
  pub items : ℕ → Event
  pub count : ℕ
  pub capacity : ℕ
  pub sequence : ℕ  -- uint64_t

-- `Dspic33Crc`.
pub record Crc : Type 0 where
  pub words : ℕ → ℕ
  pub data_latch : ℕ
  pub shift_data : ℕ
  pub polynomial : ℕ
  pub generation : ℕ  -- uint16_t
  pub pmd_generation : ℕ  -- uint16_t
  pub head : ℕ
  pub count : ℕ
  pub data_width : ℕ
  pub polynomial_width : ℕ
  pub bits_remaining : ℕ
  pub little_endian : Bool
  pub active : Bool
  pub pmd_disabled : Bool

-- `Dspic33Rtcc`.
pub record Rtcc : Type 0 where
  pub calendar : ℕ → ℕ
  pub alarm : ℕ → ℕ
  pub prescaler : ℕ  -- uint16_t
  pub pmd_generation : ℕ  -- uint16_t
  pub alarm_output : Bool
  pub pmd_disabled : Bool
  pub calibration_pending : Bool

-- `Dspic33Nvm`: the operation on the program memory and its unlock sequence.
pub record Nvm : Type 0 where
  pub address : ℕ
  pub latches : ℕ → ℕ
  pub control : ℕ
  pub auxiliary_origin : Bool
  pub key_stage : ℕ
  pub key_instruction : ℕ
  pub key_interrupt_count : ℕ
  pub key_trap_count : ℕ

-- `Dspic33Io`.
pub record Io : Type 0 where
  pub crc : Crc
  pub rtcc : Rtcc
  pub cpu_read_valid : Bool
  pub cpu_read_width : ℕ
  pub cpu_read_address : ℕ
  pub cpu_write_valid : Bool
  pub cpu_write_width : ℕ
  pub dma_transfer_active : Bool
  pub dma_transfer_width : ℕ
  pub timer_pmd_disabled : ℕ

-- `Dspic33PowerState`.
pub data PowerState : Type 0 where
  active sleep idle : PowerState

abbrev pub is_sleep : PowerState → Bool
is_sleep sleep = true
is_sleep state = false

abbrev pub is_idle : PowerState → Bool
is_idle idle = true
is_idle state = false

-- `Dspic33PendingSoftTrap`; `is_active` is the field `active`.
pub record PendingSoftTrap : Type 0 where
  pub vector : ℕ
  pub trap : ℕ
  pub priority : ℕ
  pub delay : ℕ
  pub is_active : Bool
  pub auxiliary_program : Bool

-- `Dspic33StopReason`.
pub data StopReason : Type 0 where
  running returned stopped sleeping idling halted trapped unsupported_instruction : StopReason
  program_bounds instruction_limit event_queue_error silicon_result_undefined : StopReason

pub record Dspic33 : Type 0 where
  pub device : Device
  pub program : ℕ → ℕ
  pub auxiliary_program : ℕ → ℕ
  pub persistent_program : ℕ → ℕ
  pub write_latches : ℕ → ℕ
  pub data_bytes : ℕ → ℕ  -- `data`, a byte at each address
  pub initialized_data : ℕ → ℕ
  pub configuration : ℕ → ℕ
  pub w : ℕ → ℕ
  pub initialized_working_registers : ℕ
  pub accumulator : ℕ → ℕ  -- int64_t in two's complement
  pub pc : ℕ
  pub sr : ℕ
  pub corcon : ℕ
  pub rcount : ℕ
  pub dcount : ℕ
  pub dostart : ℕ
  pub doend : ℕ
  pub tblpag : ℕ
  pub dsrpag : ℕ
  pub dswpag : ℕ
  pub disicnt : ℕ
  pub interrupt_depth : ℕ
  pub repeat_active : ℕ
  pub do_depth : ℕ
  pub do_start : ℕ → ℕ
  pub do_end : ℕ → ℕ
  pub do_count : ℕ → ℕ
  pub do_terminate : ℕ → ℕ
  pub nested_do_interrupt_cycle : ℕ
  pub nested_do_interrupt_end : ℕ
  pub nested_do_extra_decrement_end : ℕ
  pub nested_do_interrupt_depth : ℕ
  pub nested_do_interrupt_priority : ℕ
  pub nested_do_extra_decrement_depth : ℕ
  pub nested_do_interrupt_armed : Bool
  pub instruction_rmw : Bool
  pub instruction_rmw_read_valid : Bool
  pub instruction_rmw_read_address : ℕ
  pub instruction_rmw_read_width : ℕ
  pub var_write_domains : ℕ → ℕ
  pub uninitialized_data_read_count : ℕ
  pub first_uninitialized_data_read : ℕ
  pub instructions : ℕ
  pub cycles : ℕ
  pub device_cycles : ℕ
  pub interrupt_count : ℕ
  pub trap_count : ℕ
  pub pending_soft_traps : ℕ → PendingSoftTrap
  pub address_error_return : ℕ
  pub current_instruction_pc : ℕ
  pub instruction_active : Bool
  pub instruction_advancing : Bool
  pub interrupt_entry_active : Bool
  pub current_instruction_cycles : ℕ
  pub instruction_working_register_writes : ℕ
  pub instruction_source_address_registers : ℕ
  pub address_error : Bool
  pub address_error_access_allowed : Bool
  pub address_error_working_state_completed : Bool
  pub address_error_control_state_completed : Bool
  pub sequential_program_hole_pc : ℕ
  pub async_events_enabled : Bool
  pub interrupt_deferred : ℕ → ℕ
  pub gie_disable_deferred : ℕ
  pub nvm : Nvm
  pub events : EventQueue
  pub io : Io
  pub power_state : PowerState
  pub stop_reason : StopReason

-- A write into an array.
abbrev pub update {ℓ} : {A : Type ℓ} → (ℕ → A) → ℕ → A → ℕ → A
update f i v j = if i == j then v else f j

-- State that holds nothing, for tests.
abbrev pub blank_event : Event
blank_event = record {
  cycle = 0;
  sequence = 0;
  paused_remaining = 0;
  value = 0;
  source = 0;
  kind = interrupt;
  paused = false;
  external = false;
}

abbrev pub blank_crc : Crc
blank_crc = record {
  words = λ i. 0;
  data_latch = 0;
  shift_data = 0;
  polynomial = 0;
  generation = 0;
  pmd_generation = 0;
  head = 0;
  count = 0;
  data_width = 0;
  polynomial_width = 0;
  bits_remaining = 0;
  little_endian = false;
  active = false;
  pmd_disabled = false;
}

abbrev pub blank_rtcc : Rtcc
blank_rtcc = record {
  calendar = λ i. 0;
  alarm = λ i. 0;
  prescaler = 0;
  pmd_generation = 0;
  alarm_output = false;
  pmd_disabled = false;
  calibration_pending = false;
}

abbrev pub blank_io : Io
blank_io = record {
  crc = blank_crc;
  rtcc = blank_rtcc;
  cpu_read_valid = false;
  cpu_read_width = 0;
  cpu_read_address = 0;
  cpu_write_valid = false;
  cpu_write_width = 0;
  dma_transfer_active = false;
  dma_transfer_width = 0;
  timer_pmd_disabled = 0;
}

abbrev pub blank_soft_trap : PendingSoftTrap
blank_soft_trap = record {
  vector = 0;
  trap = 0;
  priority = 0;
  delay = 0;
  is_active = false;
  auxiliary_program = false;
}

abbrev pub blank_nvm : Nvm
blank_nvm = record {
  address = 0;
  latches = λ i. 0xffffff;
  control = 0;
  auxiliary_origin = false;
  key_stage = 0;
  key_instruction = 0;
  key_interrupt_count = 0;
  key_trap_count = 0;
}

abbrev pub blank : Dspic33
blank = record {
  device = dev_512mu810;
  program = λ i. 0xffffff;
  auxiliary_program = λ i. 0xffffff;
  persistent_program = λ i. 0xffffff;
  write_latches = λ i. 0xffffff;
  data_bytes = λ a. 0;
  initialized_data = λ a. 0;
  configuration = λ i. 0;
  w = λ i. 0;
  initialized_working_registers = 0;
  accumulator = λ i. 0;
  pc = 0;
  sr = 0;
  corcon = 0;
  rcount = 0;
  dcount = 0;
  dostart = 0;
  doend = 0;
  tblpag = 0;
  dsrpag = 0;
  dswpag = 0;
  disicnt = 0;
  interrupt_depth = 0;
  repeat_active = 0;
  do_depth = 0;
  do_start = λ i. 0;
  do_end = λ i. 0;
  do_count = λ i. 0;
  do_terminate = λ i. 0;
  nested_do_interrupt_cycle = 0;
  nested_do_interrupt_end = 0;
  nested_do_extra_decrement_end = 0;
  nested_do_interrupt_depth = 0;
  nested_do_interrupt_priority = 0;
  nested_do_extra_decrement_depth = 0;
  nested_do_interrupt_armed = false;
  instruction_rmw = false;
  instruction_rmw_read_valid = false;
  instruction_rmw_read_address = 0;
  instruction_rmw_read_width = 0;
  var_write_domains = λ i. 0;
  uninitialized_data_read_count = 0;
  first_uninitialized_data_read = 0;
  instructions = 0;
  cycles = 0;
  device_cycles = 0;
  interrupt_count = 0;
  trap_count = 0;
  pending_soft_traps = λ i. blank_soft_trap;
  address_error_return = 0;
  current_instruction_pc = 0;
  instruction_active = false;
  instruction_advancing = false;
  interrupt_entry_active = false;
  current_instruction_cycles = 0;
  instruction_working_register_writes = 0;
  instruction_source_address_registers = 0;
  address_error = false;
  address_error_access_allowed = false;
  address_error_working_state_completed = false;
  address_error_control_state_completed = false;
  sequential_program_hole_pc = 0;
  async_events_enabled = true;
  interrupt_deferred = λ i. 0;
  gie_disable_deferred = 0;
  nvm = blank_nvm;
  events = record { items = λ i. blank_event; count = 0; capacity = 0; sequence = 0 };
  io = blank_io;
  power_state = active;
  stop_reason = running;
}
