-- ===== src/AgentBudget.antt =====
-- The budget of delegated work (.codex/hooks/shared/agent_budget.py).
pub mod Ledger
pub mod Decision
pub mod Accounting
pub mod Limits
pub mod Bounds
pub mod Packet
pub mod Fits
pub mod Given
pub mod Cuts
pub mod Tests
pub mod PacketTests
