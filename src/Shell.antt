-- ===== src/Shell.antt =====
-- lab5-shell-lab: the shell. The job list, the command line, and the control of jobs.
pub mod Jobs
pub mod Line
pub mod Control
