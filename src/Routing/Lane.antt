-- ===== src/Routing/Lane.antt =====
-- The lanes of subagent_routing.py: `_base_route`, `_sol_effort` and `_spawn_arguments`.
use codex_ralph_vault_loop.Base.{
  ℕ, min, max, Bool, true, false, not, ◌&&◌, ◌||◌, Option, none, some, List, String, ◌==◌, length,
  leb, ltb, eqb, if◌then◌else◌,
}
use codex_ralph_vault_loop.Json.{bool, text, Dict, end, field}
use codex_ralph_vault_loop.Python.{Result, ok, err}
use codex_ralph_vault_loop.AgentBudget.Decision.{distinct}
use codex_ralph_vault_loop.Routing.Request.{given_text}

-- `subagent_route`, `SUPPORTED_ROUTES` and "none"
pub data Route : Type 0 where
  no_route terra_implementation sol_advisor sol_active_analysis : Route

-- The keys of `EFFORT_RANK`.
pub data Effort : Type 0 where
  high xhigh max_effort : Effort

abbrev pub terra_model : String
terra_model = "gpt-5.6-terra"

abbrev pub sol_model : String
sol_model = "gpt-5.6-sol"

abbrev pub route_text : Route → String
route_text no_route = "none"
route_text terra_implementation = "terra-implementation"
route_text sol_advisor = "sol-advisor"
route_text sol_active_analysis = "sol-active-analysis"

abbrev pub effort_text : Effort → String
effort_text high = "high"
effort_text xhigh = "xhigh"
effort_text max_effort = "max"

abbrev pub effort_rank : Effort → ℕ
effort_rank high = 1
effort_rank xhigh = 2
effort_rank max_effort = 3

-- A text as a key of `EFFORT_RANK`, if it is one.
abbrev pub effort_of : String → Option Effort
effort_of s =
    if s == "high"
    then some high
    else if s == "xhigh"
    then some xhigh
    else if s == "max"
    then some max_effort
    else none

-- A text as a member of `SUPPORTED_ROUTES`, if it is one.
abbrev pub route_of : String → Option Route
route_of s =
    if s == "terra-implementation"
    then some terra_implementation
    else if s == "sol-advisor"
    then some sol_advisor
    else if s == "sol-active-analysis"
    then some sol_active_analysis
    else none

abbrev pub is_sol : Route → Bool
is_sol no_route = false
is_sol terra_implementation = false
is_sol sol_advisor = true
is_sol sol_active_analysis = true

abbrev pub is_terra : Route → Bool
is_terra terra_implementation = true
is_terra _ = false

abbrev pub is_none : Route → Bool
is_none no_route = true
is_none _ = false

-- The five variables that the resolution carries along.
pub record Lane : Type 0 where
  pub route : Route
  pub model : Option String
  pub mode : String
  pub effort : Option Effort
  pub reason : String

-- `"none", None, "none", None, reason`
abbrev pub no_lane : String → Lane
no_lane reason = record {
  route = no_route;
  model = none;
  mode = "none";
  effort = none;
  reason = reason;
}

abbrev pub terra_lane : String → Lane
terra_lane reason = record {
  route = terra_implementation;
  model = some terra_model;
  mode = "implementation";
  effort = some high;
  reason = reason;
}

abbrev pub sol_lane : Route → String → Effort → String → Lane
sol_lane route mode effort reason = record {
  route = route;
  model = some sol_model;
  mode = mode;
  effort = some effort;
  reason = reason;
}

-- `SOL_EFFORTS[n]`
abbrev pub sol_efforts : ℕ → Effort
sol_efforts n = if leb n 8 then high else if eqb n 9 then xhigh else max_effort

-- `SOL_EFFORTS[max(8, min(effective, 10))]`
unfoldable pub sol_ceiling : ℕ → Effort
sol_ceiling effective = sol_efforts (max 8 (min effective 10))

-- `intent in DEEP_INTENTS`
abbrev pub is_deep : String → Bool
is_deep intent =
    intent == "architecture"
    || (intent == "claim-adjudication"
        || (intent == "debugging"
            || (intent == "migration"
                || (intent == "security"
                    || (intent == "spec-review" || intent == "high-impact-review")))))

-- What `_base_route` looks at besides the two complexities.
pub record Evidence : Type 0 where
  pub intent : String
  pub sensitivity : String
  pub executor_family : String
  pub independent_block : Bool
  pub critical_review : Bool
  pub failure_fingerprints : List String

-- `_base_route` in the bands 4-6, 7-8 and 9-10
unfoldable pub route_4_6 : Evidence → Lane
route_4_6 e =
    if e.independent_block && e.intent == "implementation"
    then terra_lane "independent-worker-4-6"
    else no_lane "direct-4-6"

unfoldable pub route_7_8 : Evidence → Lane
route_7_8 e =
    if e.independent_block && e.intent == "implementation"
    then terra_lane "independent-worker-7-8"
    else if e.executor_family == "sol" && not e.critical_review
    then no_lane "sol-self-supervision-suppressed"
    else if is_deep e.intent
    then sol_lane sol_advisor "advisor" high "sol-advisor-7-8"
    else no_lane "direct-7-8"

unfoldable pub route_9_10 : ℕ → Evidence → Lane
route_9_10 effective e =
    if leb 9 effective && e.independent_block
    then terra_lane "independent-worker-9-10"
    else if leb 9 effective && is_deep e.intent
    then if e.executor_family == "sol" && not e.critical_review
      then no_lane "sol-self-supervision-suppressed"
      else sol_lane sol_advisor "advisor" (sol_efforts (min effective 10))
          (if eqb effective 9 then "sol-advisor-9" else "sol-advisor-10")
    else no_lane "intent-does-not-qualify-for-automatic-subagent"

-- `_base_route`
unfoldable pub base_route : ℕ → ℕ → Evidence → Lane
base_route raw effective e =
    if e.sensitivity == "RED"
    then no_lane "red-local-only"
    else if leb raw 3
    then no_lane "routine-luna-only"
    else if eqb (length (distinct e.failure_fingerprints)) 1
    then no_lane "inspect-first-failure-locally"
    else if leb 4 effective && leb effective 6
    then route_4_6 e
    else if leb 7 effective && leb effective 8
    then route_7_8 e
    else route_9_10 effective e

abbrev ranked_effort : Effort → Effort → Bool → Result String Effort
ranked_effort effort ceiling hard_gates_pass =
    if ltb (effort_rank ceiling) (effort_rank effort)
    then err "sol-effort-exceeds-effective-complexity"
    else if ltb (effort_rank effort) (effort_rank ceiling) && not hard_gates_pass
    then err "sol-effort-downgrade-requires-hard-gates"
    else ok effort

abbrev known_effort : Option Effort → Effort → Bool → Result String Effort
known_effort none ceiling hard_gates_pass = err "unsupported-sol-effort"
known_effort (some effort) ceiling hard_gates_pass = ranked_effort effort ceiling hard_gates_pass

abbrev requested_effort : Option String → Effort → Bool → Result String Effort
requested_effort none ceiling hard_gates_pass = ranked_effort ceiling ceiling hard_gates_pass
requested_effort (some s) ceiling hard_gates_pass =
    known_effort (effort_of s) ceiling hard_gates_pass

-- `_sol_effort`: an effort, or the error that is returned beside the ceiling
unfoldable pub sol_effort : Option String → ℕ → Bool → Result String Effort
unfolding sol_ceiling
sol_effort requested effective hard_gates_pass =
    requested_effort (given_text requested) (sol_ceiling effective) hard_gates_pass

abbrev pub arguments_of : Option String → Option Effort → Dict
arguments_of (some model) (some effort) = field "agent_type" (text "default") (
    field "fork_context" (bool false)
      (field "model" (text model) (field "reasoning_effort" (text (effort_text effort)) end)))
arguments_of _ _ = end

-- `_spawn_arguments`
unfoldable pub spawn_arguments : Lane → Dict
spawn_arguments l = if is_none l.route then end else arguments_of l.model l.effort
