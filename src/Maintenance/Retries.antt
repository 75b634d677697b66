-- ===== src/Maintenance/Retries.antt =====
-- The retry budget of a queued job: it is claimed only while attempts are left.
use codex_ralph_vault_loop.Base.{
  ℕ, ◌≤◌, ◌<◌, ◌≡◌, ◌∙◌, sym, subst, if◌then◌else◌, inl, inr, Bool, true, false, ◌||◌, some, String,
  ◌==◌, arith, Bool-cases,
}
use codex_ralph_vault_loop.Base.Int.{ℤ, pos, max_ℤ, leb_ℤ}
use codex_ralph_vault_loop.Json.{int, text, Dict, get, get_or, dict_laws}
use codex_ralph_vault_loop.Python.{Library, ok, to_int, or_else, ok-injective}
use codex_ralph_vault_loop.Maintenance.Trim.{
  default_max_attempts, has_status, is_stale_lease, recovered, recover,
}

abbrev pub is_claimable : Dict → Bool
is_claimable d = has_status "pending" d || has_status "retryable" d

pub record HasBudget (d : Dict) : Type 0 where
  pub attempts : ℕ
  pub maximum : ℕ
  pub reads_attempts : get "attempts" d ≡ some (int (pos attempts))
  pub reads_maximum : get "max_attempts" d ≡ some (int (pos maximum))
  pub positive : 1 ≤ maximum
  pub within : attempts ≤ maximum
  pub left : is_claimable d ≡ true → attempts < maximum

-- The value of `is_claimable` where the status is known.
pub is_claimable_at :
    (d : Dict) (s : String)
    → get "status" d ≡ some (text s)
    → is_claimable d ≡ (s == "pending" || s == "retryable")
unfolding has_status
is_claimable_at d s e = rw (e, get_or)

module _ (now : ℤ) (d : Dict) (h : HasBudget d) where
  pub dead-HasBudget :
      (d' : Dict)
      → get "attempts" d' ≡ get "attempts" d
      → get "max_attempts" d' ≡ get "max_attempts" d
      → is_claimable d' ≡ false
      → HasBudget d'
  dead-HasBudget d' ea em dead = record {
    attempts = h.attempts;
    maximum = h.maximum;
    reads_attempts = ea ∙ h.reads_attempts;
    reads_maximum = em ∙ h.reads_maximum;
    positive = h.positive;
    within = h.within;
    left = λ c. cc;
  }

  recovered-HasBudget :
      HasBudget (recovered now (max_ℤ (pos 0) (pos h.attempts)) (max_ℤ (pos 1) (pos h.maximum)) d)
  unfolding recovered
  recovered-HasBudget =
      elim (Bool-cases (leb_ℤ (max_ℤ (pos 1) (pos h.maximum)) (max_ℤ (pos 0) (pos h.attempts)))) [
        | inl spent ↦ rw spent (
            dead-HasBudget _ (simp dict_laws) (simp dict_laws)
              (is_claimable_at _ "dead_lettered" (simp dict_laws)))
        | inr more ↦ rw more (record {
          attempts = h.attempts;
          maximum = h.maximum;
          reads_attempts = simp dict_laws h.reads_attempts;
          reads_maximum = simp dict_laws h.reads_maximum;
          positive = h.positive;
          within = h.within;
          left = λ c. ground arith;
        })
      ]

module _ (py : Library) (d : Dict) (h : HasBudget d) where
  reads_or_zero :
      to_int py (or_else (get_or "attempts" (int (pos 0)) d) (int (pos 0))) ≡ ok (pos h.attempts)
  reads_or_zero = rw (h.reads_attempts, get_or) (ground arith)

  reads_or_default :
      to_int py (or_else (get_or "max_attempts" default_max_attempts d) default_max_attempts)
      ≡ ok (pos h.maximum)
  reads_or_default = rw (h.reads_maximum, get_or) (ground (arith, h.positive))

  recover_lem :
      (now : ℤ)
      → recover py now d
        ≡ ok (
            if is_stale_lease py now d
            then recovered now (max_ℤ (pos 0) (pos h.attempts)) (max_ℤ (pos 1) (pos h.maximum)) d
            else d)
  unfolding recover
  recover_lem now = rw (reads_or_zero, reads_or_default) (ground arith)

-- The recovery of a stale lease keeps the budget of a job.
pub recover-HasBudget :
    (py : Library) (now : ℤ) (d d' : Dict) → HasBudget d → recover py now d ≡ ok d' → HasBudget d'
recover-HasBudget py now d d' h e =
    subst HasBudget (ok-injective (sym (recover_lem py d h now) ∙ e)) (go (is_stale_lease py now d))
  where
    go :
        (b : Bool)
        → HasBudget (
            if b
            then recovered now (max_ℤ (pos 0) (pos h.attempts)) (max_ℤ (pos 1) (pos h.maximum)) d
            else d)
    go true = recovered-HasBudget now d h
    go false = h
