-- ===== src/Tests.antt =====
-- Runs of the model at concrete inputs.
pub mod Events
pub mod Clock
pub mod Crc
pub mod Interrupts
pub mod Coverage
pub mod Timers
pub mod Image
pub mod Program
pub mod Execution
