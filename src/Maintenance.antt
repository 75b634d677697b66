-- ===== src/Maintenance.antt =====
-- The queue of deferred memory maintenance (.codex/hooks/shared/maintenance_queue.py).
pub mod Host
pub mod Trim
pub mod Job
pub mod Enqueue
pub mod Claim
pub mod Complete
pub mod Retries
pub mod Invariant
pub mod Steps
pub mod Settings
pub mod Budget
pub mod Settle
pub mod Runs
pub mod Bounds
pub mod Tests
