-- ===== src/Routing/Choose.antt =====
-- The lane that `resolve_subagent_routing` of subagent_routing.py chooses, up to the phase policy.
use codex_ralph_vault_loop.Base.{
  ℕ, Bool, true, false, not, ◌&&◌, Option, none, some, [], ◌∷◌, String, ◌==◌, is_empty, leb,
  if◌then◌else◌,
}
use codex_ralph_vault_loop.Json.{Json, null, text, Dict, end, field, dict}
use codex_ralph_vault_loop.Python.{Library, Result, ok, err}
use codex_ralph_vault_loop.AgentBudget.Decision.{classify_model, is_progress_maintenance}
use codex_ralph_vault_loop.Routing.Request.{
  ExecutorDefaults, SubagentOverride, RoutingRequest, optional_text, executor_defaults, intent_of,
  origin_of, is_material, sensitivity_of,
}
use codex_ralph_vault_loop.Routing.Lane.{
  Effort, Lane, no_lane, route_text, effort_text, is_none, is_terra, is_sol, Evidence, base_route,
}
use codex_ralph_vault_loop.Routing.Override.{
  Selected, record_rejection, selected_override, active_refusal, is_missing, apply_override,
}

abbrev pub effort_json : Option Effort → Json
effort_json none = null
effort_json (some e) = text (effort_text e)

-- The values that the first lines compute.
pub record Facts : Type 0 where
  pub raw : ℕ
  pub effective : ℕ
  pub origin : String
  pub intent : String
  pub material : Bool
  pub sensitivity : String
  pub executor : ExecutorDefaults
  pub family : String
  pub is_progress : Bool
  pub selected : Selected

-- The variables that the steps change.
pub record Choice : Type 0 where
  pub lane : Lane
  pub effective_override : Dict
  pub error : Option String
  pub rejections : Dict
  pub active_refused : Option String

abbrev pub is_red : Facts → Bool
is_red f = f.sensitivity == "RED"

abbrev pub has_keys : Dict → Bool
has_keys end = false
has_keys (field k v d) = true

-- `error or reason`
abbrev pub or_error : Option String → String → Option String
or_error none reason = some reason
or_error (some e) reason = if is_empty e then some reason else some e

-- `_frozen_map({"model": model, "reasoning_effort": effort, "route": route})`
abbrev override_dict : Lane → Dict
override_dict l = dict (
    ("model", optional_text l.model)
    ∷ ("reasoning_effort", effort_json l.effort)
    ∷ ("route", text (route_text l.route))
    ∷ [])

-- A further refusal of the override that was selected, if there is one.
abbrev pub rejected_again : Option SubagentOverride → Selected → String → Dict → Dict
rejected_again none s reason rejections = rejections
rejected_again (some o) s reason rejections =
    record_rejection s.scope s.requested o.expires_at reason rejections

module _ (py : Library) where
  unfoldable pub facts_of : RoutingRequest → ℕ → Facts
  facts_of r raw =
      let origin = origin_of py r.origin in
      let intent = intent_of py r.intent in
      let material = is_material py r.impact_class in
      let executor = executor_defaults r in
      record {
        raw = raw;
        effective = if leb raw 3 && material then 4 else raw;
        origin = origin;
        intent = intent;
        material = material;
        sensitivity = sensitivity_of py r.sensitivity;
        executor = executor;
        family = classify_model py executor.model;
        is_progress = is_progress_maintenance py origin intent;
        selected = selected_override r;
      }

abbrev pub evidence_of : RoutingRequest → Facts → Evidence
evidence_of r f = record {
  intent = f.intent;
  sensitivity = f.sensitivity;
  executor_family = f.family;
  independent_block = r.independent_block;
  critical_review = r.critical_review;
  failure_fingerprints = r.failure_fingerprints;
}

-- The choice before the overrides.
abbrev pub base_choice : RoutingRequest → Facts → Choice
base_choice r f = record {
  lane = base_route f.raw f.effective (evidence_of r f);
  effective_override = end;
  error = f.selected.error;
  rejections = f.selected.rejections;
  active_refused = active_refusal r f.effective f.sensitivity;
}

abbrev progress_reason : Facts → String
progress_reason f =
    if is_red f then "red-local-only" else "local-deterministic-progress-maintenance"

-- The branch of progress maintenance.
abbrev pub progress_choice : Facts → Choice
progress_choice f =
    let reason : String = "local-deterministic-progress-maintenance" in
    let asked = has_keys f.selected.requested in
    record {
      lane = no_lane (progress_reason f);
      effective_override = end;
      error = if asked then some reason else none;
      rejections =
          if asked
          then record_rejection f.selected.scope f.selected.requested f.selected.expiry reason
              f.selected.rejections
          else end;
      active_refused = some (progress_reason f);
    }

abbrev pub routed : Result String Lane → SubagentOverride → Facts → Choice → Choice
routed (err reason) o f c = record c {
  error = some reason;
  rejections =
      record_rejection f.selected.scope f.selected.requested o.expires_at reason c.rejections;
}
routed (ok l) o f c = record c { lane = l; effective_override = override_dict l }

-- The branch of an override without an error.
abbrev pub overridden :
    Option SubagentOverride → Option String → RoutingRequest → Facts → Choice → Choice
overridden (some o) none r f c =
    routed
      (apply_override o f.effective f.sensitivity (is_missing c.active_refused) r.hard_gates_pass) o
      f c
overridden o error r f c = c

unfoldable pub choose : RoutingRequest → Facts → Choice
choose r f =
    if f.is_progress
    then progress_choice f
    else overridden f.selected.override f.selected.error r f (base_choice r f)

-- RED stays local.
unfoldable pub keep_red_local : Facts → Choice → Choice
keep_red_local f c =
    if is_red f && not f.is_progress
    then if has_keys f.selected.requested
      then record {
        lane = no_lane "red-local-only";
        effective_override = end;
        error = some "red-local-only";
        rejections = rejected_again f.selected.override f.selected "red-local-only" c.rejections;
        active_refused = c.active_refused;
      }
      else record c { lane = no_lane "red-local-only"; effective_override = end }
    else c

abbrev pub suppressed : String → String → Choice → Choice
suppressed reason error c = record c {
  lane = no_lane reason;
  effective_override = end;
  error = or_error c.error error;
}

-- The phase policy, to which overrides are subordinate.
unfoldable pub phase_policy : RoutingRequest → Facts → Choice → Choice
phase_policy r f c =
    if not (is_none c.lane.route) && leb f.raw 3
    then suppressed "direct-1-3" "complexity-band-does-not-delegate" c
    else if is_terra c.lane.route && not r.independent_block
    then suppressed "independent-block-required" "independent-block-required" c
    else if is_sol c.lane.route && (f.family == "sol" && not r.critical_review)
    then suppressed "sol-self-supervision-suppressed" "sol-self-supervision-suppressed" c
    else c
