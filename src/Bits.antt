-- ===== src/Bits.antt =====
-- Laws of `&`, `|` and `^` at variables: low masks, disjoint fields, and bounds.
pub mod Digit
pub mod Field
pub mod Bound
pub mod Slice
