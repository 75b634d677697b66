-- ===== src/ContextDelta.antt =====
-- The cache of prompt contexts (.codex/hooks/shared/context_delta.py).
pub mod Cache
pub mod Fingerprint
pub mod Claims
pub mod Finalize
pub mod Pruned
pub mod Safe
pub mod Held
pub mod Finalized
pub mod Reuse
pub mod Missed
pub mod Exclusive
pub mod Tests
