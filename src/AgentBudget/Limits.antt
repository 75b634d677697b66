-- ===== src/AgentBudget/Limits.antt =====
-- No more children are started than the budget has.
use codex_ralph_vault_loop.Base.{
  ℕ, suc, ◌+◌, ◌≤◌, ◌≡◌, refl, Bool, true, false, ◌||◌, List, [], ◌∷◌, String, ◌==◌, arith,
}
use codex_ralph_vault_loop.Base.Int.{ℤ, pos}
use codex_ralph_vault_loop.Json.{Dict, get}
use codex_ralph_vault_loop.Python.{Library}
use codex_ralph_vault_loop.AgentBudget.Ledger.{Ledger, normalize_ledger, ints, clamp}
use codex_ralph_vault_loop.AgentBudget.Decision.{
  Spawn, decide_spawn, budget_decision, budget_left, kind_of, sensitivity_of,
  is_progress_maintenance, is_first_failure,
}
use codex_ralph_vault_loop.AgentBudget.Accounting.{Usage, ledger_dict, record_spawn}

-- A start that was asked for: the request, its usage, its time.
pub record Attempt : Type 0 where
  pub spawn : Spawn
  pub usage : Usage
  pub now : ℤ

module _ (py : Library) where
  -- The ledger behind a request, which is recorded if it is allowed, and the number of children
  -- that the requests have started.
  unfoldable pub attempt_all : Dict → List Attempt → ℕ
  attempt_all d [] = 0
  attempt_all d (a ∷ rest) = elim (budget_decision py d a.now a.spawn).allowed [
    | true ↦ suc (attempt_all (ledger_dict (record_spawn py d "" a.now a.spawn.kind a.usage)) rest)
    | false ↦ attempt_all d rest
  ]

  -- The children that a ledger counts; the time does not matter.
  unfoldable pub started_of : Dict → ℕ
  started_of d = (normalize_ledger py d "" (pos 0)).agents_started

  budget_left-room :
      (l : Ledger) (kind : String) (independent : Bool)
      → (budget_left py l kind independent).allowed ≡ true
      → suc (l.agents_started + l.reserved_jobs) ≤ 2
  unfolding budget_left
  budget_left-room l kind independent h = ground arith

  decide_spawn-room :
      (l : Ledger) (r : Spawn)
      → (decide_spawn py l r).allowed ≡ true
      → suc (l.agents_started + l.reserved_jobs) ≤ 2
  unfolding decide_spawn
  decide_spawn-room l r h = ground (arith, budget_left-room l (kind_of py r) r.independent)

  started_of-bound : (d : Dict) → started_of d ≤ 2
  unfolding started_of normalize_ledger
  started_of-bound d = ground arith

  started_of-room :
      (d : Dict) (now : ℤ)
      → (let l = normalize_ledger py d "" now in suc (l.agents_started + l.reserved_jobs) ≤ 2)
      → suc (started_of d) ≤ 2
  unfolding started_of normalize_ledger
  started_of-room d now h = ground arith

  -- A start that is recorded is counted when the ledger is read again.
  started_of-record :
      (d : Dict) (now : ℤ) (kind : String) (u : Usage)
      → suc (started_of d) ≤ 2
      → started_of (ledger_dict (record_spawn py d "" now kind u)) ≡ suc (started_of d)
  unfolding started_of record_spawn normalize_ledger ints get
  started_of-record d now kind u room = ground arith

  either :
      (test : Bool) (m n k : ℕ)
      → (test ≡ true → suc m + k ≤ 2)
      → n + k ≤ 2
      → (elim test [ true ↦ suc m | false ↦ n ]) + k ≤ 2
  either true m n k allowed refused = allowed refl
  either false m n k allowed refused = refused

  -- However many starts are asked for, with whatever ledger at first, the allowed ones and those
  -- that the ledger counts are at most two.
  pub attempt_all-bound :
      (d : Dict) (attempts : List Attempt) → attempt_all d attempts + started_of d ≤ 2
  unfolding attempt_all budget_decision
  attempt_all-bound d [] = ground (arith, started_of-bound d)
  attempt_all-bound d (a ∷ rest) =
      let next = ledger_dict (record_spawn py d "" a.now a.spawn.kind a.usage) in
      either (budget_decision py d a.now a.spawn).allowed (attempt_all next rest)
        (attempt_all d rest) (started_of d)
        (λ h.
          let room = decide_spawn-room (normalize_ledger py d "" a.now) a.spawn h in
          let counted =
            started_of-record d a.now a.spawn.kind a.usage (started_of-room d a.now room) in
          let more = attempt_all-bound next rest in ground arith)
        (attempt_all-bound d rest)

-- A request that the budget allows.
pub record IsPermitted (py : Library) (l : Ledger) (r : Spawn) : Type 0 where
  pub has_room : suc (l.agents_started + l.reserved_jobs) ≤ 2
  pub is_not_red : (sensitivity_of py r == "RED") ≡ false
  pub is_not_nested : clamp 2147483647 r.depth ≡ 0
  pub is_not_maintenance : is_progress_maintenance py r.origin r.intent ≡ false
  pub is_known : (kind_of py r == "worker" || kind_of py r == "advisor") ≡ true
  pub is_independent : (kind_of py r == "worker") ≡ true → r.independent ≡ true
  pub is_sole_advisor : (kind_of py r == "advisor") ≡ true → l.advisors_started ≡ 0
  pub is_not_first_failure : is_first_failure l.failure_fingerprints r.failures ≡ false

module _ (py : Library) where
  budget_left-independent :
      (l : Ledger) (kind : String) (independent : Bool)
      → (budget_left py l kind independent).allowed ≡ true
      → (kind == "worker") ≡ true
      → independent ≡ true
  unfolding budget_left
  budget_left-independent l kind independent h q = ground arith

  budget_left-advisor :
      (l : Ledger) (kind : String) (independent : Bool)
      → (budget_left py l kind independent).allowed ≡ true
      → (kind == "advisor") ≡ true
      → l.advisors_started ≤ 1
      → l.advisors_started ≡ 0
  unfolding budget_left
  budget_left-advisor l kind independent h q bound = ground arith

  decide_spawn-left :
      (l : Ledger) (r : Spawn)
      → (decide_spawn py l r).allowed ≡ true
      → (budget_left py l (kind_of py r) r.independent).allowed ≡ true
  unfolding decide_spawn
  decide_spawn-left l r h = ground arith

  advisors-bound : (d : Dict) (now : ℤ) → (normalize_ledger py d "" now).advisors_started ≤ 1
  unfolding normalize_ledger ints
  advisors-bound d now = ground arith

  decide_spawn-IsPermitted :
      (l : Ledger) (r : Spawn)
      → l.advisors_started ≤ 1
      → (decide_spawn py l r).allowed ≡ true
      → IsPermitted py l r
  unfolding decide_spawn
  decide_spawn-IsPermitted l r bound h =
      let left = decide_spawn-left l r h in
      record {
        has_room = decide_spawn-room py l r h;
        is_not_red = ground arith;
        is_not_nested = ground arith;
        is_not_maintenance = ground arith;
        is_known = ground arith;
        is_independent = budget_left-independent l (kind_of py r) r.independent left;
        is_sole_advisor = λ q. budget_left-advisor l (kind_of py r) r.independent left q bound;
        is_not_first_failure = ground arith;
      }

  -- A request that is allowed is permitted by the ledger as it is read.
  pub budget_decision-IsPermitted :
      (d : Dict) (now : ℤ) (r : Spawn)
      → (budget_decision py d now r).allowed ≡ true
      → IsPermitted py (normalize_ledger py d "" now) r
  unfolding budget_decision
  budget_decision-IsPermitted d now r h =
      decide_spawn-IsPermitted (normalize_ledger py d "" now) r (advisors-bound d now) h
