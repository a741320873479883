-- ===== src/Agent.antt =====
-- The recording agent (agent/agent.py).
pub mod Egress
pub mod Waiting
pub mod Entrypoint
pub mod EgressLaws
pub mod Delays
pub mod WaitingLaws
pub mod RecordingLaws
mod Tests
