-- ===== src/Lib.antt =====
-- Codex Ralph Vault Loop: a safety and memory layer for coding sessions. Hooks append to a queue of
-- deferred maintenance, which a runner drains, record progress in a journalled store, and ask a
-- budget before they delegate.
--
-- Base, Json and Python hold what all files share: Boolean tests on native numbers, lists,
-- integers, texts; decoded JSON values, dictionaries and Python's `==`; results that may raise,
-- conversions, and the record `Library` of those calls of the standard library that every theorem
-- takes as they come (SHA-256, the text of a value, number parsing, the tables of Unicode).
--
-- Maintenance models .codex/hooks/shared/maintenance_queue.py over decoded JSON: Host (settings,
-- `_load`, `_quarantine`, `_atomic_json`), Trim (`_trim_jobs`), Job (`_descriptor`,
-- `_job_from_dict`), Enqueue (`enqueue_maintenance`), Claim (`claim_jobs`), Complete
-- (`complete_job`). Invariant, Steps, Retries, Budget, Settle, Bounds and Runs hold the proofs.
-- Times are whole microseconds; a call takes the clock, the environment and the outcome of each
-- publication from a record `Host`. Its loops need no fuel: each follows a list.
--
-- Store models .codex/hooks/shared/implementation_store/: Checked (the exceptions, and blocks of
-- calls that stay shut in proofs), Fields, State and Validate (the field validators, the snapshot and
-- `validate_state` of schema.py), Event and Record (`_state_patch`, `validate_event`), Journal (the hash chain, the
-- cursor, `_state_after_event`, `_reconcile_state` and `_reconstruct_state` of store.py), Update
-- (`_apply_update`, `_material_state_patch`, the payloads), Build (`_build_event`), Manifest
-- (`validate_manifest`, `_manifest_candidate`), Files (io.py), Disk (the reads under a lock) and
-- RecordEvent (`record_event`). Values, Reads, Chain, Patch, Cursor, Advance, Recovery, Reconcile,
-- Pointers, Discovery, Growth, Journaling and Success hold the proofs. A validated snapshot, record or
-- manifest is a record type, and `state_dict`, `event_dict` and `manifest_dict` are its
-- dictionaries. A file is its decoded content; a record `Host` says how each write ends: done, not
-- done, done with an error, or a torn line. The classifier of sensitive texts (`is_red`) is a
-- parameter. Emission is the ledger of context emissions (`claim_context_emission`,
-- `has_context_emission`, `validate_context_ledger_record`); a claim takes the ledger twice, as it
-- was before the lock and as it is under it. Fixed, Claims, Once, Reread and Repeat hold its proofs.
-- Not modelled: the metadata of a write, path and symlink checks (a flag of the host), and the
-- operations register_plan, append_unplanned_commit and replay_plan.
--
-- AgentBudget models .codex/hooks/shared/agent_budget.py: Ledger (`normalize_ledger`), Decision
-- (`budget_decision`, with `classify_model` and `is_progress_maintenance` of runtime_profile.py),
-- Accounting (`record_spawn`, `record_result`, `record_failure`) and Packet (`packet_bytes`,
-- `bounded_packet`). Limits, Bounds, Fits, Given and Cuts hold the proofs;
-- Given writes out what a request puts into a packet. The loop that shrinks a packet
-- has the packet's weight as its fuel: the lengths of its texts and the number of its files, of
-- which every round takes some away. Not modelled: `task_signature`.
--
-- Routing models .codex/hooks/shared/subagent_routing.py: Request (the validation of a request),
-- Lane (`_base_route`, `_sol_effort`, `_spawn_arguments`), Override (`_selected_override`,
-- `_active_analysis_status`, `_apply_override`), Choose (the steps of `resolve_subagent_routing` up to
-- its phase policy) and Resolve (the whole of it, with the fields of its fingerprint). Guards, Efforts, Choices, Identity and Errors hold the proofs. Not
-- modelled: the reminder text of `session_routing_context`.
--
-- Metrics models .codex/hooks/shared/persistence_metrics.py: the results of writers and
-- `WriteAccumulator`. Totals compares the accumulator with sums over all
-- reports, of what each report says by a specification of its own.
--
-- Continuation models .codex/hooks/shared/continuation_budget.py, with the scope and the lifetime of
-- stop_scope.py: State (`_load`, `_trim`, `_atomic_json`) and Reserve (`_reserve_at`, `reserve` with
-- its fallback). Entries, Grants, Runs and Evidence hold the proofs. Not modelled: `append_event`,
-- the symlink checks (flags), and the hashing of a scope.
--
-- ContextDelta models .codex/hooks/shared/context_delta.py: Cache (the settings, `_safe_id`, `_prune`,
-- `_load`, `_write`), Fingerprint (`context_fingerprint`, and `TaskSignature` of task_signature.py),
-- Claims (`claim`) and Finalize (`finalize`, `discard`). A call takes the clock and the outcome of its
-- publication from a record `Process`, whose `Runtime` all calls share. Pruned, Safe, Held, Finalized,
-- Reuse, Missed and Exclusive hold the proofs. Not modelled: the checks of paths and links (outcomes
-- of a call) and `signature_from_prompt`.
pub mod Base
pub mod Json
pub mod Python
pub mod AgentBudget
pub mod ContextDelta
pub mod Continuation
pub mod Maintenance
pub mod Metrics
pub mod Routing
pub mod Store
