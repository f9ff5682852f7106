-- ===== src/Gateway.antt =====
-- room/inference_gateway.py, the gateway through which an agent reaches its provider.
pub mod Route
pub mod Providers
pub mod Headers
pub mod Usage
pub mod Timing
pub mod Forward
pub mod Status
pub mod Recorded
