-- ===== src/Datalab.antt =====
-- lab1-datalab: the bit puzzles of bits.c, the functions of tests.c, and the harness of btest.c.
pub mod Puzzles
pub mod Reference
pub mod Logic
pub mod Arithmetic
pub mod Parity
pub mod Agreement
pub mod Harness
