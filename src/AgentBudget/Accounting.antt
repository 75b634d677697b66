-- ===== src/AgentBudget/Accounting.antt =====
-- `record_spawn`, `record_result` and `record_failure` of agent_budget.py, and the ledger as it is
-- stored between calls.
use codex_ralph_vault_loop.Base.{
  ℕ, suc, ◌+◌, ◌-◌, ◌*◌, min, List, [], ◌∷◌, String, ◌==◌, is_empty, take_last, snoc, ltb,
  if◌then◌else◌,
}
use codex_ralph_vault_loop.Base.Int.{ℤ, pos}
use codex_ralph_vault_loop.Json.{Json, int, text, Dict, dict}
use codex_ralph_vault_loop.Python.{Library}
use codex_ralph_vault_loop.Store.Fields.{is_one_of}
use codex_ralph_vault_loop.Store.State.{texts}
use codex_ralph_vault_loop.AgentBudget.Ledger.{
  Ledger, max_task_jobs, max_task_advisors, max_brief_bytes, max_result_bytes, max_codes,
  max_threads, max_depth, bounded_text, safe_code, ints, normalize_ledger,
}

-- The dictionary of a ledger.
abbrev pub ledger_dict : Ledger → Dict
ledger_dict l = dict (
    ("schema_version", int (pos 1))
    ∷ ("task_signature", text l.task_signature)
    ∷ ("max_threads", int (pos max_threads))
    ∷ ("max_depth", int (pos max_depth))
    ∷ ("agents_started", int (pos l.agents_started))
    ∷ ("advisors_started", int (pos l.advisors_started))
    ∷ ("workers_started", int (pos l.workers_started))
    ∷ ("worker_reserved_jobs", int (pos l.worker_reserved_jobs))
    ∷ ("reserved_jobs", int (pos l.reserved_jobs))
    ∷ ("reasons", texts l.reasons)
    ∷ ("failure_fingerprints", texts l.failure_fingerprints)
    ∷ ("bytes_sent", int (pos l.bytes_sent))
    ∷ ("bytes_received", int (pos l.bytes_received))
    ∷ ("timestamps", texts l.timestamps)
    ∷ ("updated_at", text l.updated_at)
    ∷ [])

-- What is reported of a start or of a completion; an empty text stands for none.
pub record Usage : Type 0 where
  pub reason : String
  pub bytes_sent : Json
  pub bytes_received : Json
  pub timestamp : String

-- The counts of a child that has started.
abbrev started : String → Ledger → Ledger
started kind l = record l {
  agents_started =
      if ltb l.agents_started max_task_jobs then suc l.agents_started else l.agents_started;
  advisors_started =
      if kind == "advisor"
      then min max_task_advisors (l.advisors_started + 1)
      else l.advisors_started;
  workers_started =
      if kind == "worker" then min max_task_jobs (l.workers_started + 1) else l.workers_started;
  worker_reserved_jobs =
      if kind == "worker" then l.worker_reserved_jobs - 1 else l.worker_reserved_jobs;
  reserved_jobs = l.reserved_jobs - 1;
}

-- A code at the end of a list that keeps its last ones.
abbrev pub with_code : String → List String → List String
with_code code codes = if is_empty code then codes else take_last max_codes (snoc codes code)

module _ (py : Library) where
  abbrev pub with_timestamp : String → List String → List String
  with_timestamp timestamp stamps =
      if is_empty timestamp
      then stamps
      else take_last max_codes (snoc stamps (bounded_text py (text timestamp) 48))

  abbrev received : Json → ℕ → ℕ
  received bytes n = min (max_result_bytes * max_task_jobs) (n + ints py 2147483647 bytes)

  abbrev sent : Json → ℕ → ℕ
  sent bytes n = min (max_brief_bytes * max_task_jobs) (n + ints py 2147483647 bytes)

  -- The code of a reason, or no text where there is none.
  abbrev reason_code : String → String
  reason_code reason = if is_empty reason then "" else safe_code py "reason" (text reason)

  -- `record_spawn`
  unfoldable pub record_spawn : Dict → String → ℤ → String → Usage → Ledger
  record_spawn d signature now kind u =
      let l =
        started (py.lower (bounded_text py (text kind) 32)) (normalize_ledger py d signature now) in
      record l {
        reasons = with_code (reason_code u.reason) l.reasons;
        bytes_sent = sent u.bytes_sent l.bytes_sent;
        bytes_received = received u.bytes_received l.bytes_received;
        timestamps = with_timestamp u.timestamp l.timestamps;
      }

  -- `record_result`
  unfoldable pub record_result : Dict → String → ℤ → Json → String → Ledger
  record_result d signature now bytes timestamp =
      let l = normalize_ledger py d signature now in
      record l {
        bytes_received = received bytes l.bytes_received;
        timestamps = with_timestamp timestamp l.timestamps;
      }

  -- `record_failure`
  unfoldable pub record_failure : Dict → String → ℤ → String → Ledger
  record_failure d signature now fingerprint =
      let l = normalize_ledger py d signature now in
      let code = safe_code py "failure" (text fingerprint) in
      record l {
        failure_fingerprints =
            if is_one_of l.failure_fingerprints code
            then l.failure_fingerprints
            else with_code code l.failure_fingerprints;
      }
