-- ===== src/Lib.antt =====
-- A model of the core of a simulator for the dsPIC33EP microcontrollers, with the theorems that
-- make it correct.
--
-- The program keeps the whole machine in one structure, `struct Dspic33` of
-- src/architecture/dspic33/internal.h. Peripherals schedule events in a queue by device cycle, the
-- queue hands each event to its peripheral when its cycle has come, and a peripheral raises
-- interrupts by setting flags in the register file, from which the processor chooses the one to
-- serve.
--
-- Prelude, Bits
--   Names that every module shares, C's unsigned integers as native numbers with the wrap-around
--   written out, lists by index, and the laws of `&`, `|` and `^` at variables.
-- Device
--   include/dspic33.h, src/architecture/dspic33/internal.h and src/device/dspic33ep_mu/data.c and
--   common.c. `Device.State` has the structures as records; a field that no modelled function reads
--   or writes is left out. `Device.Memory` has the register file: a word is two bytes, and the
--   address of the second wraps. `Device.Profile` and `Device.Pps` have the tables of the devices.
-- Events
--   src/device/dspic33ep_mu/memory/dma/runtime.c, `event_less` to
--   `dspic33_device_internal_event_pop`. An array is a function of the index. `realloc` is a
--   parameter of the model: whether an array of `n` events can be had. The three loops that move
--   events up and down the heap are `sift_up`, `sift_down` and `settle_all`; their fuel is the index,
--   which falls, and the number of events, which the index stays below, so that it never runs out:
--   the theorems on the heap would not hold otherwise.
--   `event_less` is a lexicographic order only on events of which each cycle has only DMA events or
--   none, and whose DMA events have a source below 30, that is a channel and a phase. `IsUniform` says
--   both; the source of an event of another kind is free. `Events.Order` shows what happens when a
--   cycle mixes them.
-- Interrupts
--   The same file, `dspic33_raise_interrupt` to `dspic33_device_interrupt_pending`, and
--   `dspic33_device_instruction_cycles` of src/device/dspic33ep_mu/runtime.c. A loop over interrupts
--   is the state after its first `n` rounds.
-- Crc
--   src/device/dspic33ep_mu/memory/crc.c. `Crc.Division` describes what a CRC is, division of
--   polynomials over two elements, with a number for the coefficients; the modules beside it show
--   that the shift register divides, that the buffer is a bounded queue, and that a message ends.
-- Rtcc
--   src/device/dspic33ep_mu/timing/rtcc.c: `Rtcc.Calendar`, `Rtcc.Clock` and `Rtcc.Window` have the
--   functions. `Rtcc.Date` describes a date by the number of days since the century began.
-- Coverage
--   src/architecture/dspic33/coverage.c. `calloc` is a parameter: whether so many bytes can be had. A
--   null pointer is not modelled, nor are the percentages of `dspic33_coverage_result`.
-- Timers
--   src/device/dspic33ep_mu/timing/timers.c, the prescaler and `advance_counter`; `Timers.Ticks` has one
--   tick at a time.
-- Program
--   src/architecture/dspic33/execution/state.c and reset.c: which addresses a device implements, the
--   words behind them, and the loading of words. A pointer into one of the machine's arrays is a
--   `Location`. `Program.Codeguard` has the code protection and `Program.Nvm` the end of an operation
--   on the program memory; the call of `dspic33_device_configuration_changed` that the write of a
--   configuration register makes is a value that `complete_nvm` returns.
-- Image
--   src/image/elf_image.c and dspic33_firmware_image.c, for images that are in memory. A file is an
--   array of bytes and a size; a message of `set_error` is a constructor. A loader that fails half way
--   leaves what it has loaded, so that its result has the machine in any case. The loop over the
--   instructions of a section runs on fuel, a round for each four bytes of the section and one
--   more; `out_of_fuel` is a result of its own, and `Image.Fuel` shows that it does not come up.
--   `Image.Within` has what is read of an image, `Image.Decode` compares its decoder with the
--   machine's.
-- Execution
--   src/architecture/dspic33/execution: `Registers` and `Address` (state.c), `Alu` and `Branch`
--   (addressing.c), `Accumulator` (state.c and instructions.c), `Divide` and `Traps` (traps.c and
--   instructions.c), `Decimal` and `Encoding` (instructions.c), `Cycles` (traps.c), `Loops`
--   (run.c), `BitSkip` (addressing.c and traps.c), whose argument is the byte or word that a bit
--   test has read. `Traps` has the decision of `dspic33_internal_service_pending_soft_trap`, the
--   reset of a hardware trap conflict, the entry of one of the slots or nothing; the reset and the
--   entry are not modelled, nor are the cycles that `dspic33_step` adds to those of an instruction
--   for waits and dependencies. A signed integer of C is the natural number of its two's
--   complement: `i32_lt` and `i64_lt` compare them, and negation, division and shifts are written
--   out. The loops over the four slots of soft traps, over the bits of a pointer and over the
--   sections of an image are structural recursion on the number of rounds.
-- Tests
--   The model at concrete inputs.
--
-- What is not modelled: the instructions that go through the data bus, the entry of traps and the
-- resets, the transfers of the DMA channels, the other peripherals and the dispatch of events to them,
-- the opening of files, and the program that reads the command line.
pub mod Prelude
pub mod Bits
pub mod Device
pub mod Events
pub mod Interrupts
pub mod Crc
pub mod Rtcc
pub mod Timers
pub mod Program
pub mod Execution
pub mod Image
pub mod Tests
pub mod Coverage
