-- ===== src/Examples.antt =====
-- The theorems at concrete inputs.
pub mod Data
mod History
mod Delivery
mod Viewer
mod Names
mod Evidence
mod Lifecycle
mod Platform
