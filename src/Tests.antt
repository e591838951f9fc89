-- ===== src/Tests.antt =====
-- Runs of the models on small files, and the theorems at work on them.
pub mod Data
mod ReaderRuns
mod SinkRuns
mod CallRuns
mod RoundTripRuns
mod BufferRuns
mod PatchRuns
mod ThunkRuns
mod TracingRuns
mod AgentRuns
