-- ===== src/Replicate.antt =====
-- replicate.c: replaying a trace, or simulating its replay.
-- Busy waiting for the time of a call, messages and the binding to a processor are not modelled.
pub mod World
pub mod Tables
pub mod Files
pub mod Transfer
pub mod Names
pub mod Special
pub mod Loop
pub mod Quiet
pub mod Views
mod Tests
