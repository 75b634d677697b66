-- ===== src/Routing/Guards.antt =====
-- What a subagent that is spawned has met.
use codex_ralph_vault_loop.Base.{◌≤◌, ◌≡◌, true, false, ◌==◌, arith, Bool-cases, inl, inr, subst}
use codex_ralph_vault_loop.Base.Int.{pos, leb_ℤ}
use codex_ralph_vault_loop.Python.{Library, ok, bind-eq-ok, ok-injective}
use codex_ralph_vault_loop.Routing.Request.{RoutingRequest, complexity}
use codex_ralph_vault_loop.Routing.Lane.{is_terra, is_sol, is_none, spawn_arguments}
use codex_ralph_vault_loop.Routing.Choose.{
  Facts, Choice, is_red, facts_of, choose, keep_red_local, phase_policy,
}
use codex_ralph_vault_loop.Routing.Resolve.{
  Shown, RoutingDecision, spawning, settle, is_required, resolve_subagent_routing, decision_of,
}

-- The conditions of a spawn, for a request and the decision on it.
pub record IsGuarded (r : RoutingRequest) (d : RoutingDecision) : Type 0 where
  pub is_not_red : is_red d.facts ≡ false
  pub is_not_progress : d.facts.is_progress ≡ false
  pub is_complex : 4 ≤ d.facts.raw
  pub is_independent : is_terra d.choice.lane.route ≡ true → r.independent_block ≡ true
  pub is_no_self_review :
      is_sol d.choice.lane.route ≡ true
      → (d.facts.family == "sol") ≡ true
      → r.critical_review ≡ true
  pub has_budget : is_sol d.choice.lane.route ≡ true → leb_ℤ r.budget.remaining (pos 0) ≡ false
  pub is_supported : r.capabilities.spawn_model_effort ≡ true
  pub has_route : is_none d.choice.lane.route ≡ false
  pub has_arguments : d.spawn_arguments ≡ spawn_arguments d.choice.lane

keep_red_local-none :
    (f : Facts) (c : Choice)
    → is_red f ≡ true
    → f.is_progress ≡ false
    → is_none (keep_red_local f c).lane.route ≡ true
unfolding keep_red_local
keep_red_local-none f c h p = ground arith

phase_policy-none :
    (r : RoutingRequest) (f : Facts) (c : Choice)
    → is_none c.lane.route ≡ true
    → is_none (phase_policy r f c).lane.route ≡ true
unfolding phase_policy
phase_policy-none r f c h = ground arith

-- The phase policy leaves no lane, or one that it allows.
module _ (r : RoutingRequest) (f : Facts) (c : Choice) where
  module _ (kept : is_none (phase_policy r f c).lane.route ≡ false) where
    phase_policy-complex : 4 ≤ f.raw
    unfolding phase_policy
    phase_policy-complex = ground arith

    phase_policy-independent :
        is_terra (phase_policy r f c).lane.route ≡ true → r.independent_block ≡ true
    unfolding phase_policy
    phase_policy-independent h = ground arith

    phase_policy-review :
        is_sol (phase_policy r f c).lane.route ≡ true
        → (f.family == "sol") ≡ true
        → r.critical_review ≡ true
    unfolding phase_policy
    phase_policy-review h q = ground arith

  -- A spawn that is required keeps the route it had, and finds the platform able.
  module _ (required : (spawning r f c).required ≡ true) where
    spawning-progress : f.is_progress ≡ false
    unfolding spawning
    spawning-progress = ground arith

    spawning-supported : r.capabilities.spawn_model_effort ≡ true
    unfolding spawning is_required
    spawning-supported = ground arith

    spawning-route : (spawning r f c).choice.lane.route ≡ c.lane.route
    unfolding spawning is_required
    spawning-route = ground arith

    spawning-has_route : is_none c.lane.route ≡ false
    unfolding spawning is_required
    spawning-has_route = ground arith

    spawning-budget : is_sol c.lane.route ≡ true → leb_ℤ r.budget.remaining (pos 0) ≡ false
    unfolding spawning is_required
    spawning-budget h = ground arith

    spawning-arguments : (spawning r f c).arguments ≡ spawn_arguments (spawning r f c).choice.lane
    unfolding spawning is_required spawn_arguments
    spawning-arguments = ground arith

settle-not_red :
    (r : RoutingRequest) (f : Facts)
    → f.is_progress ≡ false
    → is_none (phase_policy r f (keep_red_local f (choose r f))).lane.route ≡ false
    → is_red f ≡ false
settle-not_red r f p kept = elim (Bool-cases (is_red f)) [
  | inl red ↦
      let none_left =
        phase_policy-none r f (keep_red_local f (choose r f))
          (keep_red_local-none f (choose r f) red p) in
      cc
  | inr other ↦ other
]

module _ (py : Library) (shown : Shown) where
  decision_of-IsGuarded :
      (r : RoutingRequest) (f : Facts)
      → (settle r f).required ≡ true
      → IsGuarded r (decision_of py shown r f (settle r f))
  unfolding settle
  decision_of-IsGuarded r f h =
      let c = phase_policy r f (keep_red_local f (choose r f)) in
      let calm = spawning-progress r f c h in
      let kept = spawning-has_route r f c h in
      let same = spawning-route r f c h in
      record {
        is_not_red = settle-not_red r f calm kept;
        is_not_progress = calm;
        is_complex = phase_policy-complex r f (keep_red_local f (choose r f)) kept;
        is_independent =
            rw same (phase_policy-independent r f (keep_red_local f (choose r f)) kept);
        is_no_self_review = rw same (phase_policy-review r f (keep_red_local f (choose r f)) kept);
        has_budget = rw same (spawning-budget r f c h);
        is_supported = spawning-supported r f c h;
        has_route = rw same kept;
        has_arguments = spawning-arguments r f c h;
      }

  -- A subagent is asked for only if the request is not RED and no progress maintenance, its
  -- complexity is at least 4, the platform can start one, and the route's own conditions hold: an
  -- independent block for a worker; for an advisor some budget, and a critical review where the
  -- executor is Sol itself. The arguments of the spawn are those of the route that is returned.
  pub resolve_subagent_routing-IsGuarded :
      (r : RoutingRequest) {d : RoutingDecision}
      → resolve_subagent_routing py shown r ≡ ok d
      → d.spawn_required ≡ true
      → IsGuarded r d
  unfolding resolve_subagent_routing
  resolve_subagent_routing-IsGuarded r e h =
      let (raw, _, made) = bind-eq-ok (complexity r.raw_complexity) _ e in
      let same = ok-injective made in
      subst (λ d. d.spawn_required ≡ true → IsGuarded r d) same
        (decision_of-IsGuarded r (facts_of py r raw)) h
