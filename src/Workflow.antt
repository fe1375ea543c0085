-- ===== src/Workflow.antt =====
-- packages/core/src/workflow.ts: durable workflows by deterministic replay, over the in-memory store.
pub mod Types
pub mod Replay
pub mod Engine
pub mod Determinism
pub mod Repeat
pub mod Passes
