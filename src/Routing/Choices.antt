-- ===== src/Routing/Choices.antt =====
-- Each step of the resolution keeps a lane that fits.
use codex_ralph_vault_loop.Base.{
  ℕ, ◌≡◌, refl, subst, true, false, Option, none, some, String, ◌==◌, arith, leb, if-keeps, ◌&&◌,
  not,
}
use codex_ralph_vault_loop.Python.{Library, Result, ok, err, bind-eq-ok, ok-injective}
use codex_ralph_vault_loop.Routing.Request.{SubagentOverride, RoutingRequest, complexity}
use codex_ralph_vault_loop.Routing.Lane.{is_none, is_terra, is_sol, Lane}
use codex_ralph_vault_loop.Routing.Override.{is_missing}
use codex_ralph_vault_loop.Routing.Choose.{
  progress_choice, has_keys, suppressed, base_choice, routed, overridden, Facts, Choice, is_red,
  facts_of, evidence_of, choose, keep_red_local, phase_policy,
}
use codex_ralph_vault_loop.Routing.Resolve.{
  Shown, is_spent, Spawning, RoutingDecision, spawning, settle, resolve_subagent_routing,
}
use codex_ralph_vault_loop.Routing.Efforts.{
  IsAnalysable, LaneFits, active_refusal-IsAnalysable, base_route-fits, apply_override-fits,
  FitsIfOk-ok,
}

-- The choice keeps a lane that fits, and a status of the active analysis that means what it says.
pub record ChoiceFits (r : RoutingRequest) (f : Facts) (c : Choice) : Type 0 where
  pub lane_fits : LaneFits r f.effective f.sensitivity c.lane
  pub is_analysable : is_missing c.active_refused ≡ true → IsAnalysable r f.effective f.sensitivity

-- What the facts say of the two complexities.
abbrev pub IsEven : Facts → Type 0
IsEven f = leb f.raw 3 ≡ false → f.raw ≡ f.effective

module _ (r : RoutingRequest) (f : Facts) where
  base_choice-fits : IsEven f → ChoiceFits r f (base_choice r f)
  base_choice-fits even = record {
    lane_fits = base_route-fits r f.effective f.sensitivity f.raw (evidence_of r f) even;
    is_analysable = λ h. active_refusal-IsAnalysable r f.effective f.sensitivity (missing _ h);
  }
    where
      missing : (o : Option String) → is_missing o ≡ true → o ≡ none
      missing none h = refl
      missing (some x) h = cc

  routed-fits :
      (m : Result String Lane) (o : SubagentOverride) (c : Choice)
      → ((l : Lane) → m ≡ ok l → LaneFits r f.effective f.sensitivity l)
      → ChoiceFits r f c
      → ChoiceFits r f (routed m o f c)
  routed-fits (err reason) o c fits h = record {
    lane_fits = h.lane_fits;
    is_analysable = h.is_analysable;
  }
  routed-fits (ok l) o c fits h = record {
    lane_fits = fits l refl;
    is_analysable = h.is_analysable;
  }

  overridden-fits :
      (selected : Option SubagentOverride) (error : Option String) (c : Choice)
      → ChoiceFits r f c
      → ChoiceFits r f (overridden selected error r f c)
  overridden-fits none error c h = h
  overridden-fits (some o) (some e) c h = h
  overridden-fits (some o) none c h =
      routed-fits _ o c
        (λ l q.
          FitsIfOk-ok r f.effective f.sensitivity
            (apply_override-fits r f.effective f.sensitivity o (is_missing c.active_refused)
              h.is_analysable)
            q)
        h

  choose-fits : IsEven f → ChoiceFits r f (choose r f)
  unfolding choose
  choose-fits even =
      if-keeps (ChoiceFits r f) f.is_progress (progress_choice f) _
        (record { lane_fits = (refl, refl); is_analysable = λ h. cc })
        (overridden-fits f.selected.override f.selected.error _ (base_choice-fits even))

  keep_red_local-fits : (c : Choice) → ChoiceFits r f c → ChoiceFits r f (keep_red_local f c)
  unfolding keep_red_local
  keep_red_local-fits c h =
      if-keeps (ChoiceFits r f) (is_red f && not f.is_progress) _ c
        (if-keeps (ChoiceFits r f) (has_keys f.selected.requested) _ _
          (record { lane_fits = (refl, refl); is_analysable = h.is_analysable })
          (record { lane_fits = (refl, refl); is_analysable = h.is_analysable }))
        h

  suppressed-fits :
      (reason error : String) (c : Choice)
      → ChoiceFits r f c
      → ChoiceFits r f (suppressed reason error c)
  suppressed-fits reason error c h = record {
    lane_fits = (refl, refl);
    is_analysable = h.is_analysable;
  }

  phase_policy-fits : (c : Choice) → ChoiceFits r f c → ChoiceFits r f (phase_policy r f c)
  unfolding phase_policy
  phase_policy-fits c h =
      if-keeps (ChoiceFits r f) (not (is_none c.lane.route) && leb f.raw 3) _ _
        (suppressed-fits "direct-1-3" "complexity-band-does-not-delegate" c h)
        (if-keeps (ChoiceFits r f) (is_terra c.lane.route && not r.independent_block) _ _
          (suppressed-fits "independent-block-required" "independent-block-required" c h)
          (if-keeps (ChoiceFits r f)
            (is_sol c.lane.route && (f.family == "sol" && not r.critical_review)) _ c
            (suppressed-fits "sol-self-supervision-suppressed" "sol-self-supervision-suppressed" c
              h)
            h))

  spawning-fits : (c : Choice) → ChoiceFits r f c → ChoiceFits r f (spawning r f c).choice
  unfolding spawning
  spawning-fits c h =
      if-keeps (λ (s : Spawning). ChoiceFits r f s.choice) f.is_progress _ _ h
        (if-keeps (λ (s : Spawning). ChoiceFits r f s.choice)
          (not (is_none c.lane.route) && not r.capabilities.spawn_model_effort) _ _
          (record { lane_fits = (refl, refl); is_analysable = h.is_analysable })
          (if-keeps (ChoiceFits r f) (not (is_none c.lane.route) && is_spent r) _ c
            (record { lane_fits = h.lane_fits; is_analysable = h.is_analysable }) h))

  settle-fits : IsEven f → ChoiceFits r f (settle r f).choice
  unfolding settle
  settle-fits even =
      spawning-fits (phase_policy r f (keep_red_local f (choose r f)))
        (phase_policy-fits _ (keep_red_local-fits _ (choose-fits even)))

module _ (py : Library) (shown : Shown) where
  facts_of-IsEven : (r : RoutingRequest) (raw : ℕ) → IsEven (facts_of py r raw)
  unfolding facts_of
  facts_of-IsEven r raw h = ground arith

  -- The route that is returned comes with its model and its effort: none without a route, Terra at
  -- high effort for a worker, Sol for an advisor or an active analysis, at an effort that is at
  -- most the ceiling of the effective complexity, and lower only if the hard gates pass. An active
  -- analysis has in addition met its eight conditions.
  pub resolve_subagent_routing-fits :
      (r : RoutingRequest) {d : RoutingDecision}
      → resolve_subagent_routing py shown r ≡ ok d
      → LaneFits r d.facts.effective d.facts.sensitivity d.choice.lane
  unfolding resolve_subagent_routing
  resolve_subagent_routing-fits r e =
      let (raw, _, made) = bind-eq-ok (complexity r.raw_complexity) _ e in
      subst (λ d. LaneFits r d.facts.effective d.facts.sensitivity d.choice.lane)
        (ok-injective made) (settle-fits r (facts_of py r raw) (facts_of-IsEven r raw)).lane_fits
