-- ===== src/Metrics.antt =====
-- The accounting of writes: .codex/hooks/shared/persistence_metrics.py.
mod Accumulator
mod Totals
mod Tests
