-- ===== src/Broker.antt =====
-- room/broker.py: the trusted credential broker. `Spec`, `State`, `Dispatch` and `Http` hold the
-- program, the others what is proved of it.
pub mod Spec
pub mod State
pub mod Dispatch
pub mod Admission
pub mod Outcomes
pub mod Refusals
pub mod Steps
pub mod JobRules
pub mod Writes
pub mod Links
pub mod Quotas
pub mod Closing
pub mod Exposure
pub mod Http
pub mod Sent
pub mod Surface
pub mod Billing
pub mod QuotaReport
