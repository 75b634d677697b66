-- ===== src/Routing.antt =====
-- The policy for new subagents: .codex/hooks/shared/subagent_routing.py.
mod Request
mod Lane
mod Override
mod Choose
mod Resolve
mod Guards
mod Efforts
mod Choices
mod Identity
mod Errors
mod Tests
