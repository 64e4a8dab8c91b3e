-- ===== src/Tests.antt =====
-- Tests on concrete inputs and instances of the theorems.
mod Puzzles
mod Allocator
mod Checks
mod Harness
mod Timing
mod Neighbours
mod Shell
mod Images
