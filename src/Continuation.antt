-- ===== src/Continuation.antt =====
-- The budget of continuations: .codex/hooks/shared/continuation_budget.py.
mod State
mod Reserve
mod Entries
mod Grants
mod Runs
mod Evidence
mod Tests
