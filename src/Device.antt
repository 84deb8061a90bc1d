-- ===== src/Device.antt =====
-- The parts of the simulated microcontroller that the modules below share: `struct Dspic33`
-- (src/architecture/dspic33/internal.h) with the fields that the modelled code reads or writes,
-- the register file and the device profiles.
pub mod State
pub mod Memory
pub mod Profile
pub mod Pps
