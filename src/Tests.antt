-- ===== src/Tests.antt =====
-- Runs of the code at concrete inputs, and each theorem at one of them.
pub mod BrokerRun
pub mod RoomRun
pub mod Payloads
pub mod Slots
pub mod SubmissionRun
pub mod SummaryRun
pub mod Bundles
pub mod GatewayRun
pub mod SealRun
pub mod FilesRun
pub mod EndpointRun
pub mod NetworkRun
