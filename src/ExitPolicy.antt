-- ===== src/ExitPolicy.antt =====
-- exit_policy.py: the destinations that a relay allows exiting to.
pub mod Rule
pub mod Match
pub mod Policy
pub mod Micro
mod Tests
