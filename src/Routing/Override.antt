-- ===== src/Routing/Override.antt =====
-- Overrides of subagent_routing.py: `_selected_override`, `_active_analysis_status` and
-- `_apply_override`.
use codex_ralph_vault_loop.Base.{
  ℕ, Bool, true, false, not, ◌&&◌, Option, none, some, String, ◌==◌, ltb, if◌then◌else◌,
}
use codex_ralph_vault_loop.Base.Int.{ℤ, pos, leb_ℤ}
use codex_ralph_vault_loop.Json.{text, obj, Dict, end, field, set}
use codex_ralph_vault_loop.Python.{Result, ok, err}
use codex_ralph_vault_loop.Routing.Request.{
  SubagentOverride, RoutingRequest, optional_int, is_given, given_text,
}
use codex_ralph_vault_loop.Routing.Lane.{
  Route, no_route, terra_implementation, sol_advisor, sol_active_analysis, Effort, Lane,
  terra_model, sol_model, terra_lane, sol_lane, route_of, is_terra, sol_effort,
}

-- A text stored under a key, unless it is `None`.
abbrev put_text : String → Option String → Dict → Dict
put_text k none d = d
put_text k (some s) d = field k (text s) d

-- `requested_values`, whose keys are in order as they are written
abbrev pub requested_values : SubagentOverride → Dict
requested_values o =
    put_text "model" o.model
      (put_text "reasoning_effort" o.reasoning_effort (put_text "route" o.route end))

-- `_record_override_rejection`
unfoldable pub record_rejection : String → Dict → Option ℤ → String → Dict → Dict
record_rejection scope requested expiry reason existing =
    set scope
      (obj (
        field "requested" (obj requested)
          (field "expires_at" (optional_int expiry) (field "reason" (text reason) end))))
      existing

-- What `_selected_override` returns.
pub record Selected : Type 0 where
  pub override : Option SubagentOverride
  pub scope : String
  pub requested : Dict
  pub expiry : Option ℤ
  pub error : Option String
  pub rejections : Dict

abbrev expired_at : Option ℤ → ℤ → Bool
expired_at none epoch = false
expired_at (some z) epoch = leb_ℤ z epoch

abbrev accepted : SubagentOverride → String → Dict → Selected
accepted o scope rejections = record {
  override = some o;
  scope = scope;
  requested = requested_values o;
  expiry = o.expires_at;
  error = none;
  rejections = rejections;
}

abbrev expired : SubagentOverride → String → Dict → Selected
expired o scope rejections = record {
  override = none;
  scope = scope;
  requested = requested_values o;
  expiry = o.expires_at;
  error = some "override-expired";
  rejections = rejections;
}

abbrev reject_expired : SubagentOverride → String → Dict → Dict
reject_expired o scope existing =
    record_rejection scope (requested_values o) o.expires_at "override-expired" existing

-- The session's override, where the task has none.
abbrev session_override : Option SubagentOverride → ℤ → Selected
session_override none epoch = record {
  override = none;
  scope = "none";
  requested = end;
  expiry = none;
  error = none;
  rejections = end;
}
session_override (some session) epoch =
    if expired_at session.expires_at epoch
    then expired session "session" (reject_expired session "session" end)
    else accepted session "session" end

-- The session's override behind a task's that has expired.
abbrev behind_task : SubagentOverride → Option SubagentOverride → ℤ → Selected
behind_task task none epoch = expired task "task" (reject_expired task "task" end)
behind_task task (some session) epoch =
    if expired_at session.expires_at epoch
    then expired task "task" (reject_expired session "session" (reject_expired task "task" end))
    else accepted session "session" (reject_expired task "task" end)

abbrev task_override : Option SubagentOverride → Option SubagentOverride → ℤ → Selected
task_override none session epoch = session_override session epoch
task_override (some task) session epoch =
    if expired_at task.expires_at epoch
    then behind_task task session epoch
    else accepted task "task" end

-- `_selected_override`
unfoldable pub selected_override : RoutingRequest → Selected
unfolding record_rejection
selected_override r = task_override r.task_override r.session_override r.current_epoch

-- `_active_analysis_status`: the reason of a refusal
unfoldable pub active_refusal : RoutingRequest → ℕ → String → Option String
active_refusal r effective sensitivity =
    if sensitivity == "RED"
    then some "red-local-only"
    else if ltb effective 9
    then some "active-analysis-requires-effective-complexity-9"
    else if not r.capabilities.active_analysis
    then some "active-analysis-capability-disabled"
    else if not r.bounded_scope
    then some "active-analysis-requires-bounded-scope"
    else if not r.local_verification_available
    then some "active-analysis-requires-local-verification"
    else if not r.hard_gates_pass
    then some "active-analysis-requires-hard-gates"
    else if not (is_given r.budget.explicit_class)
    then some "active-analysis-requires-explicit-budget"
    else if leb_ℤ r.budget.remaining (pos 0)
    then some "budget-exhausted"
    else none

abbrev pub is_missing : Option String → Bool
is_missing none = true
is_missing (some s) = false

-- `_route_for_model`
abbrev route_for_model : Option String → Option Route
route_for_model none = none
route_for_model (some model) =
    if model == terra_model
    then some terra_implementation
    else if model == sol_model
    then some sol_advisor
    else none

-- `override.route or _route_for_model(override.model)`, if it is in `SUPPORTED_ROUTES`
abbrev pub wanted_route : Option String → Option String → Option Route
wanted_route none model = route_for_model model
wanted_route (some s) model = route_of s

abbrev expected_model : Route → String
expected_model route = if is_terra route then terra_model else sol_model

-- `value in {None, expected}`
abbrev pub is_absent_or : Option String → String → Bool
is_absent_or none expected = true
is_absent_or (some s) expected = s == expected

abbrev sol_mode : Route → String
sol_mode sol_active_analysis = "active-analysis"
sol_mode _ = "advisor"

abbrev sol_reason : Route → String
sol_reason sol_active_analysis = "explicit-active-analysis-override"
sol_reason _ = "explicit-advisor-override"

abbrev is_active : Route → Bool
is_active sol_active_analysis = true
is_active _ = false

abbrev pub sol_override : Route → Result String Effort → Result String Lane
sol_override route (err reason) = err reason
sol_override route (ok effort) = ok (sol_lane route (sol_mode route) effort (sol_reason route))

abbrev pub override_to :
    Option Route → SubagentOverride → ℕ → String → Bool → Bool → Result String Lane
override_to none o effective sensitivity active_ok gates = err "unsupported-subagent-override"
override_to (some no_route) o effective sensitivity active_ok gates =
    err "unsupported-subagent-override"
override_to (some route) o effective sensitivity active_ok gates =
    if not (is_absent_or o.model (expected_model route))
    then err "override-model-route-mismatch"
    else if sensitivity == "RED"
    then err "red-local-only"
    else if is_terra route
    then if not (is_absent_or o.reasoning_effort "high")
      then err "terra-effort-must-be-high"
      else ok (terra_lane "explicit-terra-override")
    else if is_active route && not active_ok
    then err "active-analysis-gates-not-met"
    else sol_override route (sol_effort o.reasoning_effort effective gates)

-- `_apply_override`: a lane, or the reason of a refusal
unfoldable pub apply_override : SubagentOverride → ℕ → String → Bool → Bool → Result String Lane
apply_override o effective sensitivity active_ok hard_gates_pass =
    override_to (wanted_route (given_text o.route) o.model) o effective sensitivity active_ok
      hard_gates_pass
