-- ===== src/Base/Bits.antt =====
-- `&`, `|`, `^` digit by digit: the laws of the lowest bit, masks, complements and single bits.
mod Step
pub mod Laws
pub use Step.*
