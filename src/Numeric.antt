-- ===== src/Numeric.antt =====
-- The number helpers of libbench: pow2.c, log2.c and prime.c.
pub mod Pow2
pub mod Prime
mod Tests
