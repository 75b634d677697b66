-- ===== src/Routing/Resolve.antt =====
-- `resolve_subagent_routing` of subagent_routing.py, step by step.
use codex_ralph_vault_loop.Base.{
  ℕ, Bool, false, not, ◌&&◌, ◌||◌, none, some, [], ◌∷◌, map, String, take_text, if◌then◌else◌,
}
use codex_ralph_vault_loop.Base.Int.{ℤ, pos, leb_ℤ, max_ℤ}
use codex_ralph_vault_loop.Json.{Json, bool, int, text, arr, obj, Dict, end, of_list, dict}
use codex_ralph_vault_loop.Python.{Library, Result, ok, Exception, ◌>>=◌}
use codex_ralph_vault_loop.AgentBudget.Ledger.{max_task_jobs, max_task_advisors}
use codex_ralph_vault_loop.Routing.Request.{
  ExecutorDefaults, RoutingCapabilities, RoutingRequest, optional_text, optional_int, complexity,
  executor_source,
}
use codex_ralph_vault_loop.Routing.Lane.{
  no_lane, route_text, is_none, is_terra, is_sol, spawn_arguments,
}
use codex_ralph_vault_loop.Routing.Override.{is_missing}
use codex_ralph_vault_loop.Routing.Choose.{
  Facts, Choice, or_error, rejected_again, facts_of, choose, keep_red_local, phase_policy,
  effort_json,
}

-- `str()` of the two dataclasses that the fingerprint holds, and
-- `json.dumps(v, sort_keys=True, separators=(",", ":"))`.
pub record Shown : Type 0 where
  pub encoded : Json → String
  pub executor : ExecutorDefaults → String
  pub capabilities : RoutingCapabilities → String

-- What the last step adds.
pub record Spawning : Type 0 where
  pub choice : Choice
  pub required : Bool
  pub arguments : Dict
  pub worker_budget : ℕ
  pub advisor_budget : ℕ
  pub budget_remaining : ℤ

abbrev unavailable : Facts → Choice → Choice
unavailable f c =
    let reason : String = "platform-spawn-model-effort-unavailable" in
    record {
      lane = no_lane reason;
      effective_override = end;
      error = or_error c.error reason;
      rejections =
          rejected_again f.selected.override f.selected
            (elim (or_error c.error reason) [ none ↦ reason | some e ↦ e ]) c.rejections;
      active_refused = c.active_refused;
    }

-- `max(0, request.budget.remaining)`
abbrev left_over : RoutingRequest → ℤ
left_over r = max_ℤ (pos 0) r.budget.remaining

abbrev pub is_spent : RoutingRequest → Bool
is_spent r = leb_ℤ r.budget.remaining (pos 0)

abbrev with_reason : Choice → String → Choice
with_reason c reason = record c {
  lane = record {
    route = c.lane.route;
    model = c.lane.model;
    mode = c.lane.mode;
    effort = c.lane.effort;
    reason = reason;
  };
}

unfoldable pub is_required : RoutingRequest → Choice → Bool
is_required r c = not (is_none c.lane.route) && (is_terra c.lane.route || not (is_spent r))

unfoldable pub spawning : RoutingRequest → Facts → Choice → Spawning
unfolding is_required
spawning r f c =
    if f.is_progress
    then record {
      choice = c;
      required = false;
      arguments = end;
      worker_budget = 0;
      advisor_budget = 0;
      budget_remaining = pos 0;
    }
    else if not (is_none c.lane.route) && not r.capabilities.spawn_model_effort
    then record {
      choice = unavailable f c;
      required = false;
      arguments = end;
      worker_budget = 0;
      advisor_budget = 0;
      budget_remaining = left_over r;
    }
    else record {
      choice =
          if not (is_none c.lane.route) && is_spent r then with_reason c "budget-exhausted" else c;
      required = is_required r c;
      arguments = spawn_arguments c.lane;
      worker_budget = if is_terra c.lane.route && is_required r c then max_task_jobs else 0;
      advisor_budget = if is_sol c.lane.route && is_required r c then max_task_advisors else 0;
      budget_remaining = left_over r;
    }

-- All steps behind the facts.
unfoldable pub settle : RoutingRequest → Facts → Spawning
unfolding choose keep_red_local phase_policy spawning
settle r f = spawning r f (phase_policy r f (keep_red_local f (choose r f)))

-- The fields that `_fingerprint` hashes.
unfoldable pub fingerprint_fields : Shown → RoutingRequest → Facts → Choice → Dict
fingerprint_fields shown r f c = dict (
    ("raw", int (pos f.raw))
    ∷ ("effective", int (pos f.effective))
    ∷ ("origin", text f.origin)
    ∷ ("intent", text f.intent)
    ∷ ("impact", text (if f.material then "material" else "none"))
    ∷ ("sensitivity", text f.sensitivity)
    ∷ ("executor", text (shown.executor f.executor))
    ∷ ("route", text (route_text c.lane.route))
    ∷ ("model", optional_text c.lane.model)
    ∷ ("mode", text c.lane.mode)
    ∷ ("effort", effort_json c.lane.effort)
    ∷ ("scope", text f.selected.scope)
    ∷ ("requested", obj f.selected.requested)
    ∷ ("effective_override", obj c.effective_override)
    ∷ ("active_ok", bool (is_missing c.active_refused))
    ∷ ("override_error", optional_text c.error)
    ∷ ("override_rejections", obj c.rejections)
    ∷ ("override_expiry", optional_int f.selected.expiry)
    ∷ ("capabilities", text (shown.capabilities r.capabilities))
    ∷ ("explicit_budget", optional_text r.budget.explicit_class)
    ∷ ("independent_block", bool r.independent_block)
    ∷ ("independent_block_count", int r.independent_block_count)
    ∷ ("critical_review", bool r.critical_review)
    ∷ ("failure_fingerprints", arr (of_list (map text r.failure_fingerprints)))
    ∷ ("progress_maintenance", bool f.is_progress)
    ∷ [])

-- A `RoutingDecision`, without its constants; the facts and the choice hold its other fields.
pub record RoutingDecision : Type 0 where
  pub facts : Facts
  pub executor_source : String
  pub choice : Choice
  pub spawn_required : Bool
  pub spawn_arguments : Dict
  pub budget_remaining : ℤ
  pub worker_budget : ℕ
  pub advisor_budget : ℕ
  pub decision_fingerprint : String

abbrev pub decision_of : Library → Shown → RoutingRequest → Facts → Spawning → RoutingDecision
decision_of py shown r f s = record {
  facts = f;
  executor_source = executor_source r.repository_default;
  choice = s.choice;
  spawn_required = s.required;
  spawn_arguments = s.arguments;
  budget_remaining = s.budget_remaining;
  worker_budget = s.worker_budget;
  advisor_budget = s.advisor_budget;
  decision_fingerprint =
      take_text 16 (py.sha256 (shown.encoded (obj (fingerprint_fields shown r f s.choice))));
}

-- `resolve_subagent_routing`
unfoldable pub resolve_subagent_routing :
    Library → Shown → RoutingRequest → Result Exception RoutingDecision
unfolding facts_of settle
resolve_subagent_routing py shown r = do
  raw ← complexity r.raw_complexity
  let f = facts_of py r raw
  ok (decision_of py shown r f (settle r f))
