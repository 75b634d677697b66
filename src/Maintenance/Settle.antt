-- ===== src/Maintenance/Settle.antt =====
-- What `complete_job` makes of a job whose counts are in order.
use codex_ralph_vault_loop.Base.{
  ◌<◌, ◌*◌, ◌^◌, min, ◌≡◌, ◌∙◌, refl, sym, subst, Bool, true, false, not, ◌||◌, some, String, leb,
  arith, ◌==◌, eq_iff,
}
use codex_ralph_vault_loop.Base.Int.{pos, ◌+ℤ◌}
use codex_ralph_vault_loop.Json.{float, text, Dict, get, set, dict_laws}
use codex_ralph_vault_loop.Python.{Library, ok, ok-injective}
use codex_ralph_vault_loop.Maintenance.Host.{Host}
use codex_ralph_vault_loop.Maintenance.Trim.{no_time}
use codex_ralph_vault_loop.Maintenance.Claim.{backoff}
use codex_ralph_vault_loop.Maintenance.Complete.{
  Outcome, completed, dead_lettered, retried, settle, finish,
}
use codex_ralph_vault_loop.Maintenance.Retries.{is_claimable, is_claimable_at, HasBudget}
use codex_ralph_vault_loop.Maintenance.Budget.{to_int_attempts, to_int_maximum}

-- The status of a job that succeeded, or that failed with no attempt left or some.
abbrev pub next_status : Bool → Bool → String
next_status true spent = "completed"
next_status false true = "dead_lettered"
next_status false false = "retryable"

module _ (py : Library) (host : Host) (o : Outcome) (d : Dict) (h : HasBudget d) where
  abbrev chosen : Bool → Bool → Dict
  chosen true spent = completed d
  chosen false true = dead_lettered py o.error_code d
  chosen false false = retried py host.second_epoch o.error_code (pos h.attempts) d

  abbrev touched : Dict → Dict
  touched d' = set "updated_at" (text host.iso) (set "updated_epoch" (float host.second_epoch) d')

  -- A failure with no attempt left, or that is not to be tried again.
  abbrev pub is_spent : Bool
  is_spent = not o.retryable || leb h.maximum h.attempts

  finish_lem : finish py host o d ≡ ok (touched (chosen o.success is_spent))
  unfolding finish settle
  finish_lem = rw (to_int_attempts py d h, to_int_maximum py d h) (ground arith)

  chosen-status : (s q : Bool) → get "status" (touched (chosen s q)) ≡ some (text (next_status s q))
  unfolding completed dead_lettered retried
  chosen-status true q = simp dict_laws
  chosen-status false true = simp dict_laws
  chosen-status false false = simp dict_laws

  chosen-lease : (s q : Bool) → get "lease_until" (touched (chosen s q)) ≡ some no_time
  unfolding completed dead_lettered retried
  chosen-lease true q = simp dict_laws
  chosen-lease false true = simp dict_laws
  chosen-lease false false = simp dict_laws

  chosen-attempts : (s q : Bool) → get "attempts" (touched (chosen s q)) ≡ get "attempts" d
  unfolding completed dead_lettered retried
  chosen-attempts true q = simp dict_laws
  chosen-attempts false true = simp dict_laws
  chosen-attempts false false = simp dict_laws

  chosen-max_attempts :
      (s q : Bool) → get "max_attempts" (touched (chosen s q)) ≡ get "max_attempts" d
  unfolding completed dead_lettered retried
  chosen-max_attempts true q = simp dict_laws
  chosen-max_attempts false true = simp dict_laws
  chosen-max_attempts false false = simp dict_laws

  chosen-due :
      (s q : Bool)
      → next_status s q ≡ "retryable"
      → get "next_attempt_at" (touched (chosen s q))
        ≡ some (float (host.second_epoch +ℤ pos (min 300 (2 ^ h.attempts) * 1_000_000)))
  unfolding completed dead_lettered retried backoff
  chosen-due true q e = absurd (ground (arith, eq_iff "completed" "retryable"))
  chosen-due false true e = absurd (ground (arith, eq_iff "dead_lettered" "retryable"))
  chosen-due false false e = simp dict_laws

  chosen-HasBudget :
      (s : Bool)
      → (is_spent ≡ false → h.attempts < h.maximum)
      → HasBudget (touched (chosen s is_spent))
  chosen-HasBudget s lt = record {
    attempts = h.attempts;
    maximum = h.maximum;
    reads_attempts = chosen-attempts s is_spent ∙ h.reads_attempts;
    reads_maximum = chosen-max_attempts s is_spent ∙ h.reads_maximum;
    positive = h.positive;
    within = h.within;
    left = λ c.
        only_retryable s is_spent
          (is_claimable_at _ (next_status s is_spent) (chosen-status s is_spent)) c lt;
  }
    where
      only_retryable :
          (s q : Bool)
          → is_claimable (touched (chosen s is_spent))
            ≡ (next_status s q == "pending" || next_status s q == "retryable")
          → is_claimable (touched (chosen s is_spent)) ≡ true
          → (q ≡ false → h.attempts < h.maximum)
          → h.attempts < h.maximum
      only_retryable true q e c lt = cc
      only_retryable false true e c lt = cc
      only_retryable false false e c lt = lt refl

  -- The budget survives a completion.
  pub finish-HasBudget : (d' : Dict) → finish py host o d ≡ ok d' → HasBudget d'
  finish-HasBudget d' e =
      subst HasBudget (ok-injective (sym finish_lem ∙ e))
        (chosen-HasBudget o.success (λ e. ground arith))

  -- A completion returns for a job whose counts are in order: the job is completed on success,
  -- dead-lettered on a failure that is final or has used the last attempt, and retryable else. Its
  -- lease is over, its attempts stay, and a retry waits 2^attempts seconds, at most 300, which are
  -- counted in microseconds.
  pub finish_settles :
      (d' : Dict) × (finish py host o d ≡ ok d')
      × (get "status" d' ≡ some (text (next_status o.success is_spent)))
      × (get "lease_until" d' ≡ some no_time)
      × (get "attempts" d' ≡ get "attempts" d)
      × (next_status o.success is_spent ≡ "retryable"
          → get "next_attempt_at" d'
            ≡ some (float (host.second_epoch +ℤ pos (min 300 (2 ^ h.attempts) * 1_000_000))))
  finish_settles = (
    touched (chosen o.success is_spent),
    finish_lem,
    chosen-status o.success is_spent,
    chosen-lease o.success is_spent,
    chosen-attempts o.success is_spent,
    chosen-due o.success is_spent,
  )
