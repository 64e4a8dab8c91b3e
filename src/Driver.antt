-- ===== src/Driver.antt =====
-- lab6-malloclab/mdriver.c: trace files, the runs of a trace, and the checks that they make.
pub mod Ranges
pub mod Valid
pub mod Utilisation
pub mod Speed
pub mod Trace
