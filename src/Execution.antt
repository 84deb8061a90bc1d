-- ===== src/Execution.antt =====
-- The instructions of src/architecture/dspic33/execution: the working registers, the flags and the
-- accumulators, operand addresses, branches, traps and loops.
pub mod Registers
pub mod Traps
pub mod Alu
pub mod BitSkip
pub mod Branch
pub mod Address
pub mod Accumulator
pub mod Divide
pub mod Decimal
pub mod Loops
pub mod Cycles
pub mod Encoding
