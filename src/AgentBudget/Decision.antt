-- ===== src/AgentBudget/Decision.antt =====
-- `budget_decision`, `record_spawn`, `record_result` and `record_failure` of agent_budget.py.
use codex_ralph_vault_loop.Base.{
  ℕ, ◌+◌, ◌-◌, Bool, true, false, not, ◌&&◌, ◌||◌, List, [], ◌∷◌, map, String, ◌==◌, is_empty,
  or_text, ◌++◌, codes, contains, ends_with, length, eqb, leb, if◌then◌else◌,
}
use codex_ralph_vault_loop.Base.Int.{ℤ}
use codex_ralph_vault_loop.Json.{text, Dict}
use codex_ralph_vault_loop.Python.{Library, strip}
use codex_ralph_vault_loop.Store.Fields.{is_one_of}
use codex_ralph_vault_loop.AgentBudget.Ledger.{
  Ledger, max_depth, max_task_jobs, max_task_advisors, clamp, bounded_text, normalize_ledger,
}

pub record BudgetDecision : Type 0 where
  pub allowed : Bool
  pub reason : String
  pub remaining_jobs : ℕ
  pub remaining_advisors : ℕ

abbrev refused : String → ℕ → ℕ → BudgetDecision
refused reason jobs advisors = record {
  allowed = false;
  reason = reason;
  remaining_jobs = jobs;
  remaining_advisors = advisors;
}

-- A request to start a child.
pub record Spawn : Type 0 where
  pub kind : String
  pub sensitivity : String
  pub executor_model : String
  pub depth : ℤ
  pub independent : Bool
  pub critical_review : Bool
  pub failures : List String
  pub origin : String
  pub intent : String

-- `s.replace("_", "-")`, and `s.replace(" ", "-")` as well for a model
abbrev dashed : ℕ → ℕ
dashed c = if eqb c b'_' then b'-' else c

abbrev spaced : ℕ → ℕ
spaced c = if eqb c b' ' then b'-' else dashed c

abbrev is_codes : List ℕ → List ℕ → Bool
is_codes [] [] = true
is_codes [] (d ∷ ds) = false
is_codes (c ∷ cs) [] = false
is_codes (c ∷ cs) (d ∷ ds) = eqb c d && is_codes cs ds

abbrev is_family : List ℕ → String → String → String → Bool
is_family model name version suffix =
    is_codes model (codes name)
    || (contains (codes version) model || ends_with (codes suffix) model)

-- The texts of a set, each once.
unfoldable pub distinct : List String → List String
distinct [] = []
distinct (s ∷ ss) =
    let rest = distinct ss in if is_empty s || is_one_of rest s then rest else s ∷ rest

-- A single failure is to be looked at first.
abbrev pub is_first_failure : List String → List String → Bool
is_first_failure known new = eqb (length (distinct (known ++ new))) 1

module _ (py : Library) where
  -- `classify_model`
  unfoldable pub classify_model : String → String
  classify_model model =
      let cs = map spaced (codes (py.lower model)) in
      if is_family cs "sol" "gpt-5.6-sol" "-sol"
      then "sol"
      else if is_family cs "luna" "gpt-5.6-luna" "-luna"
      then "luna"
      else if is_family cs "terra" "gpt-5.6-terra" "-terra"
      then "terra"
      else "unknown"

  -- `is_progress_maintenance`
  unfoldable pub is_progress_maintenance : String → String → Bool
  is_progress_maintenance origin intent =
      py.lower (strip py origin) == "implementation-progress"
      && is_codes (map dashed (codes (py.lower (strip py intent)))) (codes "progress-maintenance")

  abbrev pub kind_of : Spawn → String
  kind_of r = py.lower (bounded_text py (text r.kind) 32)

  abbrev pub sensitivity_of : Spawn → String
  sensitivity_of r = or_text (py.upper (bounded_text py (text r.sensitivity) 16)) "GREEN"

  -- The checks on the counts, for the kind of the request.
  unfoldable pub budget_left : Ledger → String → Bool → BudgetDecision
  budget_left l kind independent =
      let jobs = max_task_jobs - (l.agents_started + l.reserved_jobs) in
      let advisors = max_task_advisors - l.advisors_started in
      if eqb jobs 0
      then refused "task-job-budget-exhausted" 0 advisors
      else if kind == "advisor" && eqb advisors 0
      then refused "advisor-budget-exhausted" jobs 0
      else if not independent && kind == "worker"
      then refused "independent-block-required" jobs advisors
      else record {
        allowed = true;
        reason = "budget-available";
        remaining_jobs = jobs;
        remaining_advisors = advisors;
      }

  -- `budget_decision`, for a ledger that is normalized
  unfoldable pub decide_spawn : Ledger → Spawn → BudgetDecision
  decide_spawn l r =
      if is_progress_maintenance r.origin r.intent
      then refused "local-deterministic-progress-maintenance" 0 0
      else if sensitivity_of r == "RED"
      then refused "red-local-only" 0 0
      else if leb max_depth (clamp 2147483647 r.depth)
      then refused "max-depth-reached" 0 (max_task_advisors - l.advisors_started)
      else if not (kind_of r == "worker" || kind_of r == "advisor")
      then refused "unknown-delegation-kind" 0 0
      else if classify_model r.executor_model == "sol"
          && (kind_of r == "advisor" && not r.critical_review)
      then refused "sol-self-supervision-suppressed" 0 0
      else if is_first_failure l.failure_fingerprints r.failures
      then refused "inspect-first-failure-locally" 0 (max_task_advisors - l.advisors_started)
      else budget_left l (kind_of r) r.independent

  unfoldable pub budget_decision : Dict → ℤ → Spawn → BudgetDecision
  budget_decision d now r = decide_spawn (normalize_ledger py d "" now) r
