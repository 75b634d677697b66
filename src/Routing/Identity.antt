-- ===== src/Routing/Identity.antt =====
-- What the remaining budget changes of a decision, and what it does not.
use codex_ralph_vault_loop.Base.{
  ℕ, ◌≡◌, refl, ap, sym, ◌∙◌, true, false, Option, none, some, String, arith, take_text,
  if◌then◌else◌,
}
use codex_ralph_vault_loop.Base.Int.{ℤ, pos, leb_ℤ}
use codex_ralph_vault_loop.Json.{bool, obj, get}
use codex_ralph_vault_loop.Python.{Library, Result, ok, err, bind-eq-ok, ok-injective}
use codex_ralph_vault_loop.Routing.Request.{SubagentOverride, RoutingRequest, complexity}
use codex_ralph_vault_loop.Routing.Lane.{Lane}
use codex_ralph_vault_loop.Routing.Override.{
  active_refusal, is_missing, apply_override, selected_override,
}
use codex_ralph_vault_loop.Routing.Choose.{
  routed, overridden, progress_choice, base_choice, Facts, Choice, facts_of, choose, keep_red_local,
  phase_policy,
}
use codex_ralph_vault_loop.Routing.Resolve.{
  Shown, RoutingDecision, spawning, settle, fingerprint_fields, resolve_subagent_routing,
  decision_of,
}

-- The request with another number of consultations left.
abbrev pub with_remaining : ℤ → RoutingRequest → RoutingRequest
with_remaining z r = record r {
  budget = record { remaining = z; explicit_class = r.budget.explicit_class };
}

active_refusal-same :
    (r : RoutingRequest) (z : ℤ) (effective : ℕ) (sensitivity : String)
    → leb_ℤ z (pos 0) ≡ leb_ℤ r.budget.remaining (pos 0)
    → active_refusal (with_remaining z r) effective sensitivity
      ≡ active_refusal r effective sensitivity
unfolding active_refusal
active_refusal-same r z effective sensitivity h = rw h

overridden-same :
    (r : RoutingRequest) (f : Facts) (z : ℤ) (o : Option SubagentOverride) (error : Option String)
    (c : Choice)
    → overridden o error (with_remaining z r) f c ≡ overridden o error r f c
overridden-same r f z none error c = refl
overridden-same r f z (some o) none c = refl
overridden-same r f z (some o) (some e) c = refl

module _ (r : RoutingRequest) (f : Facts) (z : ℤ)
    (h : leb_ℤ z (pos 0) ≡ leb_ℤ r.budget.remaining (pos 0)) where
  base_choice-same : base_choice (with_remaining z r) f ≡ base_choice r f
  base_choice-same =
      ap (λ refused. record (base_choice r f) { active_refused = refused })
        (active_refusal-same r z f.effective f.sensitivity h)

  choose-same : choose (with_remaining z r) f ≡ choose r f
  unfolding choose
  choose-same =
      ap (λ c. if f.is_progress then progress_choice f else c)
        (overridden-same r f z f.selected.override f.selected.error
            (base_choice (with_remaining z r) f)
          ∙ ap (overridden f.selected.override f.selected.error r f) base_choice-same)

  spawning-same :
      (c : Choice) → (spawning (with_remaining z r) f c).choice ≡ (spawning r f c).choice
  unfolding spawning
  spawning-same c = ground arith

  settle-same : (settle (with_remaining z r) f).choice ≡ (settle r f).choice
  unfolding settle phase_policy
  settle-same =
      spawning-same _
      ∙ ap (λ c. (spawning r f (phase_policy r f (keep_red_local f c))).choice) choose-same

module _ (py : Library) (shown : Shown) where
  -- The decision behind a complexity that is in range.
  abbrev decided : RoutingRequest → ℕ → RoutingDecision
  decided r n = decision_of py shown r (facts_of py r n) (settle r (facts_of py r n))

  module _ (r : RoutingRequest) (z : ℤ)
      (h : leb_ℤ z (pos 0) ≡ leb_ℤ r.budget.remaining (pos 0)) where
    facts_of-same : (n : ℕ) → facts_of py (with_remaining z r) n ≡ facts_of py r n
    unfolding facts_of selected_override
    facts_of-same n = refl

    fingerprint-same :
        (f : Facts)
        → (decision_of py shown
            (with_remaining z r)
            f
            (settle (with_remaining z r) f)).decision_fingerprint
          ≡ (decision_of py shown r f (settle r f)).decision_fingerprint
    unfolding fingerprint_fields
    fingerprint-same f =
        ap (λ c. take_text 16 (py.sha256 (shown.encoded (obj (fingerprint_fields shown r f c)))))
          (settle-same r f z h)

    decided-same :
        (n : ℕ)
        → (decided (with_remaining z r) n).decision_fingerprint ≡ (decided r n).decision_fingerprint
    decided-same n =
        ap
          (λ f.
            (decision_of py shown (with_remaining z r) f
              (settle (with_remaining z r) f)).decision_fingerprint)
          (facts_of-same n)
        ∙ fingerprint-same (facts_of py r n)

  -- Two decisions on requests that differ in the consultations left only, of which some are left in
  -- both or in none, have the same fingerprint.
  pub resolve_subagent_routing-same :
      (r : RoutingRequest) (z : ℤ) {d d' : RoutingDecision}
      → leb_ℤ z (pos 0) ≡ leb_ℤ r.budget.remaining (pos 0)
      → resolve_subagent_routing py shown r ≡ ok d
      → resolve_subagent_routing py shown (with_remaining z r) ≡ ok d'
      → d'.decision_fingerprint ≡ d.decision_fingerprint
  unfolding resolve_subagent_routing
  resolve_subagent_routing-same r z h e e' =
      let (raw, p, made) = bind-eq-ok (complexity r.raw_complexity) _ e in
      let (raw', p', made') = bind-eq-ok (complexity r.raw_complexity) _ e' in
      ap (λ (x : RoutingDecision). x.decision_fingerprint) (sym (ok-injective made'))
      ∙ decided-same r z h raw'
      ∙ ap (λ n. (decided r n).decision_fingerprint) (ok-injective (sym p' ∙ p))
      ∙ ap (λ (x : RoutingDecision). x.decision_fingerprint) (ok-injective made)

-- The refusal of an active analysis as it stands at the end.
module _ (r : RoutingRequest) (f : Facts) where
  overridden-active :
      (o : Option SubagentOverride) (error : Option String) (c : Choice)
      → (overridden o error r f c).active_refused ≡ c.active_refused
  overridden-active none error c = refl
  overridden-active (some o) (some e) c = refl
  overridden-active (some o) none c =
      routed-active
        (apply_override o f.effective f.sensitivity (is_missing c.active_refused) r.hard_gates_pass)
    where
      routed-active : (m : Result String Lane) → (routed m o f c).active_refused ≡ c.active_refused
      routed-active (ok l) = refl
      routed-active (err e) = refl

  settle-active :
      f.is_progress ≡ false
      → (settle r f).choice.active_refused ≡ active_refusal r f.effective f.sensitivity
  unfolding settle choose keep_red_local phase_policy spawning
  settle-active calm =
      ground (arith, overridden-active f.selected.override f.selected.error (base_choice r f))

  active_refusal-spent :
      active_refusal r f.effective f.sensitivity ≡ none
      → active_refusal (with_remaining (pos 0) r) f.effective f.sensitivity
        ≡ some "budget-exhausted"
  unfolding active_refusal
  active_refusal-spent h = ground arith

-- Using up the last consultation changes a field that the fingerprint hashes, where an active
-- analysis was possible.
pub fingerprint_fields-spent :
    (shown : Shown) (r : RoutingRequest) (f : Facts)
    → f.is_progress ≡ false
    → active_refusal r f.effective f.sensitivity ≡ none
    → (let r' = with_remaining (pos 0) r in
        (get "active_ok" (fingerprint_fields shown r f (settle r f).choice) ≡ some (bool true))
        × (get "active_ok" (fingerprint_fields shown r' f (settle r' f).choice)
            ≡ some (bool false)))
unfolding fingerprint_fields get
fingerprint_fields-spent shown r f calm able = (
  ap (λ o. some (bool (is_missing o))) (settle-active r f calm ∙ able),
  ap (λ o. some (bool (is_missing o)))
      (settle-active (with_remaining (pos 0) r) f calm ∙ active_refusal-spent r f able),
)
