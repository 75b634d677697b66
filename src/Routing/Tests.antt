-- ===== src/Routing/Tests.antt =====
-- Runs of the routing policy at concrete inputs.
use codex_ralph_vault_loop.Base.{ℕ, ◌≤◌, ◌⊎◌, ◌≡◌, refl, true, false, none, some, []}
use codex_ralph_vault_loop.Base.Int.{pos, ◌<ℤ◌}
use codex_ralph_vault_loop.Json.{bool, get}
use codex_ralph_vault_loop.Python.{Library, ok, err, value_error}
use codex_ralph_vault_loop.AgentBudget.Decision.{distinct, classify_model, is_progress_maintenance}
use codex_ralph_vault_loop.Routing.Request.{
  RoutingRequest, SubagentOverride, complexity, dash, intent_of, origin_of, is_material,
  sensitivity_of,
}
use codex_ralph_vault_loop.Routing.Lane.{
  sol_active_analysis, xhigh, sol_ceiling, route_4_6, route_7_8, route_9_10, base_route, sol_effort,
  spawn_arguments,
}
use codex_ralph_vault_loop.Routing.Override.{
  record_rejection, selected_override, active_refusal, apply_override,
}
use codex_ralph_vault_loop.Routing.Choose.{Facts, facts_of, choose, keep_red_local, phase_policy}
use codex_ralph_vault_loop.Routing.Resolve.{
  Shown, RoutingDecision, is_required, spawning, settle, fingerprint_fields,
  resolve_subagent_routing, decision_of,
}
use codex_ralph_vault_loop.Routing.Guards.{IsGuarded, resolve_subagent_routing-IsGuarded}
use codex_ralph_vault_loop.Routing.Efforts.{LaneFits}
use codex_ralph_vault_loop.Routing.Choices.{resolve_subagent_routing-fits}
use codex_ralph_vault_loop.Routing.Identity.{
  with_remaining, resolve_subagent_routing-same, fingerprint_fields-spent,
}
use codex_ralph_vault_loop.Routing.Errors.{resolve_subagent_routing-cases}

abbrev py : Library
py = record {
  sha256 = λ s. s;
  repr = λ v. "0";
  lower = λ s. s;
  upper = λ s. s;
  dumps = λ v. "";
  float_of = λ s. none;
  int_of = λ s. none;
  is_alnum = λ c. true;
  is_space = λ c. false;
}

abbrev shown : Shown
shown = record { encoded = λ v. "fields"; executor = λ e. e.model; capabilities = λ c. "able" }

abbrev analysis : SubagentOverride
analysis = record {
  model = none;
  reasoning_effort = none;
  route = some "sol-active-analysis";
  expires_at = some (pos 90);
}

abbrev request : RoutingRequest
request = record {
  raw_complexity = pos 9;
  intent = "architecture";
  impact_class = "none";
  sensitivity = "GREEN";
  repository_default = none;
  global_default = record { model = "gpt-5.6-luna"; reasoning_effort = "max" };
  task_override = some analysis;
  session_override = none;
  current_epoch = pos 10;
  capabilities = record { spawn_model_effort = true; active_analysis = true };
  budget = record { remaining = pos 2; explicit_class = some "deep" };
  bounded_scope = true;
  local_verification_available = true;
  hard_gates_pass = true;
  independent_block = false;
  independent_block_count = pos 0;
  critical_review = false;
  failure_fingerprints = [];
  origin = "user";
}

abbrev facts : Facts
facts = facts_of py request 9

abbrev decision : RoutingDecision
decision = decision_of py shown request facts (settle request facts)

abbrev spent : RoutingRequest
spent = with_remaining (pos 1) request

abbrev spent_decision : RoutingDecision
spent_decision =
    decision_of py shown spent (facts_of py spent 9) (settle spent (facts_of py spent 9))

opened : ℕ
unfolding get distinct classify_model is_progress_maintenance complexity dash intent_of origin_of
    is_material sensitivity_of sol_ceiling route_4_6 route_7_8 route_9_10 base_route sol_effort
    spawn_arguments record_rejection selected_override active_refusal apply_override facts_of choose
    keep_red_local phase_policy is_required spawning settle fingerprint_fields
    resolve_subagent_routing
opened = 0

decides : resolve_subagent_routing py shown request ≡ ok decision
unfolding opened
decides = refl

decides_spent : resolve_subagent_routing py shown spent ≡ ok spent_decision
unfolding opened
decides_spent = refl

active_route : decision.choice.lane.route ≡ sol_active_analysis
unfolding opened
active_route = refl

active_effort : decision.choice.lane.effort ≡ some xhigh
unfolding opened
active_effort = refl

is_asked_for : decision.spawn_required ≡ true
unfolding opened
is_asked_for = refl

calm : facts.is_progress ≡ false
unfolding opened
calm = refl

able : active_refusal request facts.effective facts.sensitivity ≡ none
unfolding opened
able = refl

resolve_subagent_routing-IsGuarded_example : IsGuarded request decision
resolve_subagent_routing-IsGuarded_example =
    resolve_subagent_routing-IsGuarded py shown request decides is_asked_for

resolve_subagent_routing-fits_example :
    LaneFits request decision.facts.effective decision.facts.sensitivity decision.choice.lane
resolve_subagent_routing-fits_example = resolve_subagent_routing-fits py shown request decides

resolve_subagent_routing-same_example :
    spent_decision.decision_fingerprint ≡ decision.decision_fingerprint
resolve_subagent_routing-same_example =
    resolve_subagent_routing-same py shown request (pos 1) refl decides decides_spent

fingerprint_fields-spent_example :
    (let r' = with_remaining (pos 0) request in
      (get "active_ok" (fingerprint_fields shown request facts (settle request facts).choice)
        ≡ some (bool true))
      × (get "active_ok" (fingerprint_fields shown r' facts (settle r' facts).choice)
          ≡ some (bool false)))
fingerprint_fields-spent_example = fingerprint_fields-spent shown request facts calm able

resolve_subagent_routing-cases_example :
    ((resolve_subagent_routing py shown request ≡ err value_error)
      × ((request.raw_complexity <ℤ pos 1) ⊎ (pos 10 <ℤ request.raw_complexity)))
    ⊎ ((d : RoutingDecision) × (resolve_subagent_routing py shown request ≡ ok d)
        × (request.raw_complexity ≡ pos d.facts.raw)
        × (1 ≤ d.facts.raw)
        × (d.facts.raw ≤ 10))
resolve_subagent_routing-cases_example = resolve_subagent_routing-cases py shown request
