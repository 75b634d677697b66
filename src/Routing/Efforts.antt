-- ===== src/Routing/Efforts.antt =====
-- The lane that is returned: its model, and an effort within what its complexity allows.
use codex_ralph_vault_loop.Base.{
  ℕ, ◌≤◌, ◌≡◌, refl, subst, Bool, true, false, Option, none, some, String, ◌==◌, arith, leb,
  if-keeps, if-cases, length, if◌then◌else◌, eqb, min, ◌&&◌, not,
}
use codex_ralph_vault_loop.Base.Int.{pos, leb_ℤ}
use codex_ralph_vault_loop.Python.{Result, ok, err}
use codex_ralph_vault_loop.AgentBudget.Decision.{distinct}
use codex_ralph_vault_loop.Routing.Request.{SubagentOverride, RoutingRequest, is_given, given_text}
use codex_ralph_vault_loop.Routing.Lane.{
  Route, no_route, terra_implementation, sol_advisor, sol_active_analysis, Effort, high, Lane,
  terra_model, sol_model, effort_rank, sol_ceiling, Evidence, base_route, route_4_6, route_7_8,
  route_9_10, sol_effort, no_lane, terra_lane, sol_lane, sol_efforts, is_deep,
}
use codex_ralph_vault_loop.Routing.Override.{
  active_refusal, apply_override, sol_override, override_to, is_absent_or, wanted_route,
}

-- What an active analysis wants.
pub record IsAnalysable (r : RoutingRequest) (effective : ℕ) (sensitivity : String) : Type 0 where
  pub is_not_red : (sensitivity == "RED") ≡ false
  pub is_complex : 9 ≤ effective
  pub is_enabled : r.capabilities.active_analysis ≡ true
  pub is_bounded : r.bounded_scope ≡ true
  pub is_verifiable : r.local_verification_available ≡ true
  pub has_gates : r.hard_gates_pass ≡ true
  pub has_class : is_given r.budget.explicit_class ≡ true
  pub has_budget : leb_ℤ r.budget.remaining (pos 0) ≡ false

-- An effort that is at most the ceiling of a complexity, and below it only if the gates pass.
abbrev pub IsAllowed : ℕ → Bool → Option Effort → Type 0
IsAllowed effective gates none = ⊥
IsAllowed effective gates (some e) =
    (effort_rank e ≤ effort_rank (sol_ceiling effective))
    × (gates ≡ false → effort_rank e ≡ effort_rank (sol_ceiling effective))

module _ (r : RoutingRequest) (effective : ℕ) (sensitivity : String) where
  -- The model and the effort that belong to a route.
  abbrev pub Fits : Route → Option String → Option Effort → Type 0
  Fits no_route model effort = (model ≡ none) × (effort ≡ none)
  Fits terra_implementation model effort = (model ≡ some terra_model) × (effort ≡ some high)
  Fits sol_advisor model effort =
      (model ≡ some sol_model) × IsAllowed effective r.hard_gates_pass effort
  Fits sol_active_analysis model effort =
      (model ≡ some sol_model)
      × IsAllowed effective r.hard_gates_pass effort
      × IsAnalysable r effective sensitivity

  pub active_refusal-IsAnalysable :
      active_refusal r effective sensitivity ≡ none → IsAnalysable r effective sensitivity
  unfolding active_refusal
  active_refusal-IsAnalysable h = record {
    is_not_red = ground arith;
    is_complex = ground arith;
    is_enabled = ground arith;
    is_bounded = ground arith;
    is_verifiable = ground arith;
    has_gates = ground arith;
    has_class = ground arith;
    has_budget = ground arith;
  }

-- A lane that fits.
abbrev pub LaneFits : RoutingRequest → ℕ → String → Lane → Type 0
LaneFits r effective sensitivity l = Fits r effective sensitivity l.route l.model l.effort

sol_effort-IsAllowed :
    (requested : Option String) (effective : ℕ) (gates : Bool) {e : Effort}
    → sol_effort requested effective gates ≡ ok e
    → IsAllowed effective gates (some e)
unfolding sol_effort
sol_effort-IsAllowed requested effective gates h = (ground arith, λ q. ground arith)

module _ (r : RoutingRequest) (n : ℕ) (s : String) where
  abbrev Fit : Lane → Type 0
  Fit l = LaneFits r n s l

  no_lane-fits : (reason : String) → Fit (no_lane reason)
  no_lane-fits reason = (refl, refl)

  terra_lane-fits : (reason : String) → Fit (terra_lane reason)
  terra_lane-fits reason = (refl, refl)

  route_4_6-fits : (e : Evidence) → Fit (route_4_6 e)
  unfolding route_4_6
  route_4_6-fits e =
      if-keeps Fit (e.independent_block && e.intent == "implementation")
        (terra_lane "independent-worker-4-6") (no_lane "direct-4-6") (terra_lane-fits "")
        (no_lane-fits "")

  route_7_8-fits : (e : Evidence) → n ≤ 8 → Fit (route_7_8 e)
  unfolding route_7_8 sol_ceiling
  route_7_8-fits e h =
      if-keeps Fit (e.independent_block && e.intent == "implementation")
        (terra_lane "independent-worker-7-8") _ (terra_lane-fits "")
        (if-keeps Fit (e.executor_family == "sol" && not e.critical_review)
          (no_lane "sol-self-supervision-suppressed") _ (no_lane-fits "")
          (if-keeps Fit (is_deep e.intent) (sol_lane sol_advisor "advisor" high "sol-advisor-7-8")
            (no_lane "direct-7-8") (refl, (ground arith, λ q. ground arith)) (no_lane-fits "")))

  route_9_10-fits : (e : Evidence) → 9 ≤ n → Fit (route_9_10 n e)
  unfolding route_9_10 sol_ceiling
  route_9_10-fits e h =
      if-keeps Fit (leb 9 n && e.independent_block) (terra_lane "independent-worker-9-10") _
        (terra_lane-fits "")
        (if-keeps Fit (leb 9 n && is_deep e.intent) _
          (no_lane "intent-does-not-qualify-for-automatic-subagent")
          (if-keeps Fit (e.executor_family == "sol" && not e.critical_review)
            (no_lane "sol-self-supervision-suppressed")
            (sol_lane sol_advisor "advisor" (sol_efforts (min n 10))
              (if eqb n 9 then "sol-advisor-9" else "sol-advisor-10"))
            (no_lane-fits "") (refl, (ground arith, λ q. ground arith)))
          (no_lane-fits ""))

  pub base_route-fits :
      (raw : ℕ) (e : Evidence) → (leb raw 3 ≡ false → raw ≡ n) → Fit (base_route raw n e)
  unfolding base_route
  base_route-fits raw e same =
      if-keeps Fit (e.sensitivity == "RED") (no_lane "red-local-only") _ (no_lane-fits "") (
        if-cases Fit (leb raw 3) (no_lane "routine-luna-only") _ (λ low. no_lane-fits "")
          λ more.
            if-keeps Fit (eqb (length (distinct e.failure_fingerprints)) 1)
              (no_lane "inspect-first-failure-locally") _ (no_lane-fits "")
              (if-cases Fit (leb 4 n && leb n 6) (route_4_6 e) _ (λ low. route_4_6-fits e)
                λ above.
                  if-cases Fit (leb 7 n && leb n 8) (route_7_8 e) (route_9_10 n e)
                    (λ middle. route_7_8-fits e (ground arith))
                    (λ top. let equal = same more in route_9_10-fits e (ground arith))))

  -- A lane that fits, if there is one.
  abbrev pub FitsIfOk : Result String Lane → Type 0
  FitsIfOk (err reason) = Unit
  FitsIfOk (ok l) = Fit l

  advisor-fits :
      (m : Result String Effort)
      → ((e : Effort) → m ≡ ok e → IsAllowed n r.hard_gates_pass (some e))
      → FitsIfOk (sol_override sol_advisor m)
  advisor-fits (err reason) h = tt
  advisor-fits (ok e) h = (refl, h e refl)

  active-fits :
      (m : Result String Effort)
      → ((e : Effort) → m ≡ ok e → IsAllowed n r.hard_gates_pass (some e))
      → IsAnalysable r n s
      → FitsIfOk (sol_override sol_active_analysis m)
  active-fits (err reason) h able = tt
  active-fits (ok e) h able = (refl, h e refl, able)

  module _ (o : SubagentOverride) (active_ok : Bool) where
    allowed :
        (e : Effort)
        → sol_effort o.reasoning_effort n r.hard_gates_pass ≡ ok e
        → IsAllowed n r.hard_gates_pass (some e)
    allowed e h = sol_effort-IsAllowed o.reasoning_effort n r.hard_gates_pass h

    override_to-fits :
        (route : Option Route)
        → (active_ok ≡ true → IsAnalysable r n s)
        → FitsIfOk (override_to route o n s active_ok r.hard_gates_pass)
    override_to-fits none able = tt
    override_to-fits (some no_route) able = tt
    override_to-fits (some terra_implementation) able =
        if-keeps FitsIfOk (not (is_absent_or o.model terra_model)) _ _ tt (
          if-keeps FitsIfOk (s == "RED") _ _ tt (
            if-keeps FitsIfOk (not (is_absent_or o.reasoning_effort "high")) _ _ tt
              (terra_lane-fits "")))
    override_to-fits (some sol_advisor) able =
        if-keeps FitsIfOk (not (is_absent_or o.model sol_model)) _ _ tt
          (if-keeps FitsIfOk (s == "RED") _ _ tt (advisor-fits _ allowed))
    override_to-fits (some sol_active_analysis) able =
        if-keeps FitsIfOk (not (is_absent_or o.model sol_model)) _ _ tt (
          if-keeps FitsIfOk (s == "RED") _ _ tt (
            if-cases FitsIfOk (not active_ok) _ _ (λ q. tt)
              (λ q. active-fits _ allowed (able (ground arith)))))

  pub apply_override-fits :
      (o : SubagentOverride) (active_ok : Bool)
      → (active_ok ≡ true → IsAnalysable r n s)
      → FitsIfOk (apply_override o n s active_ok r.hard_gates_pass)
  unfolding apply_override
  apply_override-fits o active_ok able =
      override_to-fits o active_ok (wanted_route (given_text o.route) o.model) able

  pub FitsIfOk-ok : {m : Result String Lane} {l : Lane} → FitsIfOk m → m ≡ ok l → Fit l
  FitsIfOk-ok {m} h e = subst FitsIfOk e h
