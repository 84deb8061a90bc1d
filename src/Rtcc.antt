-- ===== src/Rtcc.antt =====
-- The real-time clock and calendar, src/device/dspic33ep_mu/timing/rtcc.c.
pub mod Calendar
pub mod Clock
pub mod Window
pub mod Bcd
pub mod Date
pub mod Second
pub mod Increment
pub mod Alarm
pub mod Lock
pub mod Pointer
pub mod Edge
