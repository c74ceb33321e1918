-- ===== src/Gates.antt =====
-- se_support/support/gate_policy.py: the gates of the gates condition. `Policy` holds the data, `Runners`
-- the gates, `Run` the two policy runs, and the other children what holds of them.
pub mod Policy
pub mod Files
pub mod Runners
pub mod Run
pub mod Outcomes
pub mod Delta
mod Tests
