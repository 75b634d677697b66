-- ===== src/Routing/Errors.antt =====
-- When the resolution raises.
use codex_ralph_vault_loop.Base.{ℕ, ◌≤◌, ◌≡◌, refl, ◌⊎◌, inl, inr, ◌&&◌, arith, leb, Bool-cases}
use codex_ralph_vault_loop.Base.Int.{ℤ, pos, negsuc, ◌<ℤ◌}
use codex_ralph_vault_loop.Python.{Library, ok, err, value_error}
use codex_ralph_vault_loop.Routing.Request.{RoutingRequest, complexity}
use codex_ralph_vault_loop.Routing.Choose.{facts_of}
use codex_ralph_vault_loop.Routing.Resolve.{
  Shown, RoutingDecision, settle, decision_of, resolve_subagent_routing,
}

-- A complexity is read, or it is refused because it lies outside 1 to 10.
complexity-cases :
    (z : ℤ)
    → ((complexity z ≡ err value_error) × ((z <ℤ pos 1) ⊎ (pos 10 <ℤ z)))
      ⊎ ((n : ℕ) × (complexity z ≡ ok n) × (z ≡ pos n) × (1 ≤ n) × (n ≤ 10))
unfolding complexity
complexity-cases (negsuc n) = inl (refl, inl (omega arith))
complexity-cases (pos n) = elim (Bool-cases (leb 1 n && leb n 10)) [
  | inl h ↦ inr (n, rw h, refl, ground arith, ground arith)
  | inr h ↦ inl (
    rw h,
    elim (Bool-cases (leb 1 n)) [ inl low ↦ inr (ground arith) | inr low ↦ inl (ground arith) ],
  )
]

-- A request is refused with a ValueError if its complexity lies outside 1 to 10, and in no other
-- case: otherwise there is a decision, which holds that complexity.
pub resolve_subagent_routing-cases :
    (py : Library) (shown : Shown) (r : RoutingRequest)
    → ((resolve_subagent_routing py shown r ≡ err value_error)
        × ((r.raw_complexity <ℤ pos 1) ⊎ (pos 10 <ℤ r.raw_complexity)))
      ⊎ ((d : RoutingDecision) × (resolve_subagent_routing py shown r ≡ ok d)
          × (r.raw_complexity ≡ pos d.facts.raw)
          × (1 ≤ d.facts.raw)
          × (d.facts.raw ≤ 10))
unfolding resolve_subagent_routing facts_of
resolve_subagent_routing-cases py shown r = elim (complexity-cases r.raw_complexity) [
  | inl (e, out) ↦ inl (rw e, out)
  | inr (n, e, same, low, high) ↦
      inr (
        decision_of py shown r (facts_of py r n) (settle r (facts_of py r n)),
        rw e,
        same,
        low,
        high,
      )
]
