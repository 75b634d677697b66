-- ===== src/Maintenance/Budget.antt =====
-- The retry budget through every operation of the queue.
use codex_ralph_vault_loop.Base.{
  some-injective, ◌<◌, ◌+◌, ◌≡◌, refl, subst, inl, inr, true, Option, none, some, String,
  Bool-cases, Option-cases, arith,
}
use codex_ralph_vault_loop.Base.Int.{ℤ, pos, ◌≤ℤ◌, ◌+ℤ◌}
use codex_ralph_vault_loop.Json.{int, Dict, get, get_or, dict_laws}
use codex_ralph_vault_loop.Python.{Library, ok, to_int, Result-cases}
use codex_ralph_vault_loop.Maintenance.Host.{Host, max_attempts}
use codex_ralph_vault_loop.Maintenance.Settings.{max_attempts_bounds}
use codex_ralph_vault_loop.Maintenance.Trim.{default_max_attempts}
use codex_ralph_vault_loop.Maintenance.Job.{
  ActiveContext, MaintenanceJob, descriptor, job_record, read_job, job_from_dict,
}
use codex_ralph_vault_loop.Maintenance.Claim
use codex_ralph_vault_loop.Maintenance.Claim.{is_due, leased, claim_one}
use codex_ralph_vault_loop.Maintenance.Retries.{is_claimable_at, HasBudget}

module _ (py : Library) where
  pub descriptor-HasBudget :
      (host : Host) (context : ActiveContext) (reason : String) (payload : Dict)
      → HasBudget (descriptor py host context reason payload)
  unfolding descriptor get
  descriptor-HasBudget host context reason payload = record {
    attempts = 0;
    maximum = max_attempts py host;
    reads_attempts = refl;
    reads_maximum = refl;
    positive = (max_attempts_bounds py host).0;
    within = omega arith;
    left = λ c. (max_attempts_bounds py host).0;
  }

  module _ (d : Dict) (h : HasBudget d) where
    pub to_int_attempts : to_int py (get_or "attempts" (int (pos 0)) d) ≡ ok (pos h.attempts)
    to_int_attempts = rw (h.reads_attempts, get_or)

    pub to_int_maximum :
        to_int py (get_or "max_attempts" default_max_attempts d) ≡ ok (pos h.maximum)
    to_int_maximum = rw (h.reads_maximum, get_or)

    read_job-counts :
        (job : MaintenanceJob)
        → read_job py d ≡ ok job
        → (job.attempts ≡ pos h.attempts) × (job.max_attempts ≡ pos h.maximum)
    unfolding read_job job_record
    read_job-counts job e = ground (arith, to_int_attempts, to_int_maximum, h.positive)

    job_from_dict-counts :
        (job : MaintenanceJob)
        → job_from_dict py d ≡ some job
        → (job.attempts ≡ pos h.attempts) × (job.max_attempts ≡ pos h.maximum)
    unfolding job_from_dict
    job_from_dict-counts job e = ground (arith, read_job-counts job, Result-cases (read_job py d))

    is_due-left : (now : ℤ) → is_due py now d ≡ true → h.attempts < h.maximum
    unfolding is_due
    is_due-left now e = h.left (ground arith)

    leased-HasBudget :
        (host : Host) (lease : Option ℤ)
        → h.attempts < h.maximum
        → HasBudget (leased py host lease (pos h.attempts) d)
    unfolding leased ◌+ℤ◌
    leased-HasBudget host lease lt = record {
      attempts = h.attempts + 1;
      maximum = h.maximum;
      reads_attempts = simp dict_laws (ground arith);
      reads_maximum = simp dict_laws h.reads_maximum;
      positive = h.positive;
      within = omega arith;
      left = λ c.
          cc (is_claimable_at (leased py host lease (pos h.attempts) d) "leased" (simp dict_laws));
    }

  -- A claimed job, as the runner sees it, has had no more attempts than it may.
  abbrev pub IsWithin : MaintenanceJob → Type 0
  IsWithin job = job.attempts ≤ℤ job.max_attempts

  HasBudget-IsWithin :
      (d : Dict) (job : MaintenanceJob) → HasBudget d → job_from_dict py d ≡ some job → IsWithin job
  HasBudget-IsWithin d job h e =
      let (a, m) = job_from_dict-counts d h job e in rw (a, m) (omega (arith, h.within))

  job_or-IsWithin :
      (o : Option MaintenanceJob) (d : Dict) (job : MaintenanceJob)
      → HasBudget d
      → IsWithin job
      → job_from_dict py d ≡ o
      → IsWithin (Claim.job_or o job)
  job_or-IsWithin none d job h w e = w
  job_or-IsWithin (some new) d job h w e = HasBudget-IsWithin d new h e

  pub claim_one-HasBudget :
      (host : Host) (lease : Option ℤ) (d d' : Dict) (job : MaintenanceJob)
      → HasBudget d
      → claim_one py host lease d ≡ some (d', job)
      → HasBudget d' × IsWithin job
  unfolding claim_one
  claim_one-HasBudget host lease d d' job h e = elim (Bool-cases (is_due py host.second_epoch d)) [
    | inl due ↦ elim (Option-cases (job_from_dict py d)) [
      | inl bad ↦ cc (rw (due, bad) at e)
      | inr (old, q) ↦
          let (a, m) = job_from_dict-counts d h old q in
          let new : Dict = leased py host lease old.attempts d in
          let b : HasBudget new =
            rw a (leased-HasBudget d h host lease (is_due-left d h host.second_epoch due)) in
          subst (λ (c : Dict × MaintenanceJob). HasBudget c.0 × IsWithin c.1)
            (some-injective (rw (due, q) at e))
            (
              b,
              job_or-IsWithin (job_from_dict py new) new old b (HasBudget-IsWithin d old h q) refl,
            )
    ]
    | inr early ↦ cc (rw early at e)
  ]
