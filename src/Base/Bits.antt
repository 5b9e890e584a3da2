-- ===== src/Base/Bits.antt =====
-- Laws of the bit operations at every width: masks and fields as arithmetic, and single bits.
mod Step
mod Single
pub use Step.*
pub use Single.*
