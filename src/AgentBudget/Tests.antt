-- ===== src/AgentBudget/Tests.antt =====
-- Runs of the agent budget at concrete inputs.
use codex_ralph_vault_loop.Base.{ℕ, ◌+◌, ◌≤◌, ◌≡◌, refl, true, false, none, [], ◌∷◌}
use codex_ralph_vault_loop.Base.Int.{pos}
use codex_ralph_vault_loop.Json.{int, text, Dict, dict, get}
use codex_ralph_vault_loop.Python.{Library}
use codex_ralph_vault_loop.AgentBudget.Ledger.{
  bounded_text, safe_code, ints, filled, normalize_ledger,
}
use codex_ralph_vault_loop.AgentBudget.Decision.{
  Spawn, distinct, classify_model, is_progress_maintenance, budget_left, decide_spawn,
  budget_decision,
}
use codex_ralph_vault_loop.AgentBudget.Accounting.{Usage, record_spawn}
use codex_ralph_vault_loop.AgentBudget.Limits.{
  Attempt, attempt_all, started_of, attempt_all-bound, IsPermitted, budget_decision-IsPermitted,
}
use codex_ralph_vault_loop.AgentBudget.Bounds.{IsBounded, record_spawn-IsBounded}

abbrev pub py : Library
py = record {
  sha256 = λ s. s;
  repr = λ v. "0";
  lower = λ s. s;
  upper = λ s. s;
  dumps = λ v. "";
  float_of = λ s. none;
  int_of = λ s. none;
  is_alnum = λ c. true;
  is_space = λ c. false;
}

abbrev review : Spawn
review = record {
  kind = "worker";
  sensitivity = "GREEN";
  executor_model = "gpt-5.6-luna";
  depth = pos 0;
  independent = true;
  critical_review = false;
  failures = [];
  origin = "user";
  intent = "task";
}

abbrev usage : Usage
usage = record {
  reason = "review";
  bytes_sent = int (pos 40000);
  bytes_received = int (pos 10);
  timestamp = "t1";
}

abbrev attempt : Attempt
attempt = record { spawn = review; usage = usage; now = pos 5 }

abbrev stored_ledger : Dict
stored_ledger = dict (("agents_started", int (pos 1)) ∷ ("advisors_started", text "many") ∷ [])

opened : ℕ
unfolding get bounded_text safe_code ints filled normalize_ledger distinct classify_model
    is_progress_maintenance budget_left decide_spawn budget_decision record_spawn attempt_all
    started_of
opened = 0

-- Of three requests on a ledger with one child, one is allowed.
three : attempt_all py stored_ledger (attempt ∷ attempt ∷ attempt ∷ []) ≡ 1
unfolding opened
three = refl

attempt_all-bound_example :
    attempt_all py stored_ledger (attempt ∷ attempt ∷ attempt ∷ []) + started_of py stored_ledger
    ≤ 2
attempt_all-bound_example = attempt_all-bound py stored_ledger (attempt ∷ attempt ∷ attempt ∷ [])

allows : (budget_decision py stored_ledger (pos 5) review).allowed ≡ true
unfolding opened
allows = refl

budget_decision-IsPermitted_example :
    IsPermitted py (normalize_ledger py stored_ledger "" (pos 5)) review
budget_decision-IsPermitted_example =
    budget_decision-IsPermitted py stored_ledger (pos 5) review allows

record_spawn-IsBounded_example : IsBounded (record_spawn py stored_ledger "" (pos 5) "worker" usage)
record_spawn-IsBounded_example = record_spawn-IsBounded py stored_ledger "" (pos 5) "worker" usage
