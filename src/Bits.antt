-- ===== src/Bits.antt =====
-- Laws of `&`, `|` and `^` at variables: each is a recursion on binary digits, and a law that
-- holds of one digit holds of the numbers.
mod Digits
mod Laws
mod Masks
mod OneBit
mod Xor
mod Shift
pub use Laws.*
pub use Masks.*
pub use OneBit.*
pub use Digits.*
pub use Xor.*
pub use Shift.*
