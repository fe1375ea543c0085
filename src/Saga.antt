-- ===== src/Saga.antt =====
-- packages/core/src/saga.ts: a saga over any ledger and the in-memory saga store. A step's action
-- and its compensation ride the ledger through `run`; they are given, as `execute` is, by what
-- their n-th call comes to, and write nothing to the ledger or the store themselves.
pub mod Types
pub mod Undo
pub mod Engine
pub mod Rollback
pub mod Forward
