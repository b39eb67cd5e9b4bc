-- ===== src/Api.antt =====
-- api/main.py: the HTTP API over the engine. `Flows` is its topology, `Narrative` its sentence on a verdict,
-- `Scenarios` its console, `Metrics`, `Advice` and `Pods` its numbers; the other children are their proofs.
pub mod Flows
pub mod Topology
pub mod Narrative
pub mod Narration
pub mod Scenarios
pub mod Console
pub mod Metrics
pub mod Sums
pub mod Advice
pub mod Cards
pub mod Pods
pub mod Heated
pub mod Hottest
