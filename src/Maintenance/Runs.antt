-- ===== src/Maintenance/Runs.antt =====
-- The queue over time: any sequence of its operations, with any clock, settings and failures.
use codex_ralph_vault_loop.Base.{
  ℕ, zero, suc, ◌≡◌, refl, inl, inr, ◌&&◌, Option, List, [], ◌∷◌, String, All, Bool-cases,
  Option-cases,
}
use codex_ralph_vault_loop.Base.Int.{ℤ}
use codex_ralph_vault_loop.Json.{Json, Dict, get_or}
use codex_ralph_vault_loop.Json.Eq.{json_eq}
use codex_ralph_vault_loop.Python.{Library, Result, ok, err, Exception}
use codex_ralph_vault_loop.Maintenance.Host.{Host, Disk, WriteResult, missing, load, atomic_json}
use codex_ralph_vault_loop.Maintenance.Trim.{trim_jobs}
use codex_ralph_vault_loop.Maintenance.Job.{ActiveContext, MaintenanceJob, descriptor}
use codex_ralph_vault_loop.Maintenance.Enqueue.{jobs_json, stored, enqueue_maintenance}
use codex_ralph_vault_loop.Maintenance.Claim
use codex_ralph_vault_loop.Maintenance.Claim.{claim_limit, claim_one, claim_loop, claim_jobs}
use codex_ralph_vault_loop.Maintenance.Complete.{Outcome, complete_job}
use codex_ralph_vault_loop.Maintenance.Invariant.{Kept, Loaded, load-Loaded, trim_jobs-All}
use codex_ralph_vault_loop.Maintenance.Steps.{enqueue_job-Kept, claim_jobs-Kept, complete_job-Kept}
use codex_ralph_vault_loop.Maintenance.Retries.{HasBudget, recover-HasBudget}
use codex_ralph_vault_loop.Maintenance.Budget.{IsWithin, descriptor-HasBudget, claim_one-HasBudget}
use codex_ralph_vault_loop.Maintenance.Settle.{finish-HasBudget}

-- A call of the queue, by a hook or by the runner.
pub data Call : Type 0 where
  enqueue : ActiveContext → String → Dict → Call
  claim : ℤ → Option ℤ → Call
  complete : String → Outcome → Call

abbrev pub empty_disk : Disk
empty_disk = record { queue = missing; quarantined = [] }

module _ (py : Library) where
  unfoldable pub call : Host → Call → Disk → Disk
  call host (enqueue context reason payload) disk =
      (enqueue_maintenance py host context reason payload disk).1
  call host (claim limit lease) disk = (claim_jobs py host limit lease disk).1
  call host (complete id o) disk = (complete_job py host id o disk).1

  unfoldable pub run : List (Host × Call) → Disk → Disk
  run [] disk = disk
  run ((host, c) ∷ cs) disk = run cs (call host c disk)

  call-Kept :
      (host : Host) (c : Call) (disk : Disk)
      → Kept HasBudget disk.queue
      → Kept HasBudget (call host c disk).queue
  unfolding call enqueue_maintenance
  call-Kept host (enqueue context reason payload) disk k =
      enqueue_job-Kept py HasBudget (recover-HasBudget py) host
        (descriptor py host context reason payload) disk
        (descriptor-HasBudget py host context reason payload) k
  call-Kept host (claim limit lease) disk k =
      claim_jobs-Kept py HasBudget (recover-HasBudget py) host
        (λ l d d' job h e. (claim_one-HasBudget py host l d d' job h e).0) limit lease disk k
  call-Kept host (complete id o) disk k =
      complete_job-Kept py HasBudget (recover-HasBudget py) host o
        (λ d d' h e. finish-HasBudget py host o d h d' e) id disk k

  pub run-Kept :
      (cs : List (Host × Call)) (disk : Disk)
      → Kept HasBudget disk.queue
      → Kept HasBudget (run cs disk).queue
  unfolding run
  run-Kept [] disk k = k
  run-Kept ((host, c) ∷ cs) disk k = run-Kept cs (call host c disk) (call-Kept host c disk k)

  module _ (host : Host) where
    claim_loop-IsWithin :
        (lease : Option ℤ) (quota : ℕ) (ds : List Dict)
        → All HasBudget ds
        → All (IsWithin py) (claim_loop py host lease quota ds).1
    unfolding claim_loop
    claim_loop-IsWithin lease quota [] h = tt
    claim_loop-IsWithin lease zero (d ∷ ds) h = tt
    claim_loop-IsWithin lease (suc quota) (d ∷ ds) h =
        elim (Option-cases (claim_one py host lease d)) [
          | inl passed ↦ rw (passed, claim_loop) (claim_loop-IsWithin lease (suc quota) ds h.1)
          | inr ((d', job), taken) ↦
              rw (taken, claim_loop)
                (
                  (claim_one-HasBudget py host lease d d' job h.0 taken).1,
                  claim_loop-IsWithin lease quota ds h.1,
                )
        ]

    returned-IsWithin :
        (claimed : List MaintenanceJob) (r : Result Exception WriteResult × Disk)
        → All (IsWithin py) claimed
        → All (IsWithin py) (Claim.returned py claimed r).0
    returned-IsWithin claimed (ok w, disk) h = h
    returned-IsWithin claimed (err e, disk) h = tt

    claim_from-IsWithin :
        (limit : ℤ) (lease : Option ℤ) (original : Json) (r : Result Exception (List Dict))
        (disk : Disk)
        → ((js : List Dict) → r ≡ ok js → All HasBudget js)
        → All (IsWithin py) (Claim.claim_from py host limit lease original r disk).0
    claim_from-IsWithin limit lease original (err e) disk h = tt
    claim_from-IsWithin limit lease original (ok js) disk h =
        let c = claim_loop py host lease (claim_limit limit) js in
        let w = claim_loop-IsWithin lease (claim_limit limit) js (h js refl) in
        elim (Bool-cases (json_eq (jobs_json js) original && Claim.is_nil c.1)) [
          | inl idle ↦ rw idle w
          | inr busy ↦ rw busy (returned-IsWithin c.1 (atomic_json host (stored host c.0) disk) w)
        ]

    claim_state-IsWithin :
        (limit : ℤ) (lease : Option ℤ) (r : Result Exception Dict × Disk)
        → Loaded HasBudget r
        → All (IsWithin py) (Claim.claim_state py host limit lease r).0
    claim_state-IsWithin limit lease (err e, disk) k = tt
    claim_state-IsWithin limit lease (ok state, disk) ((jobs, e, h), k) =
        rw (e, get_or)
          (claim_from-IsWithin limit lease (jobs_json jobs)
            (trim_jobs py host host.second_epoch (jobs_json jobs)) disk
            (λ js q.
              trim_jobs-All py HasBudget (recover-HasBudget py) host host.second_epoch jobs js h q))

    claim_jobs-IsWithin :
        (limit : ℤ) (lease : Option ℤ) (disk : Disk)
        → Kept HasBudget disk.queue
        → All (IsWithin py) (claim_jobs py host limit lease disk).0
    unfolding claim_jobs
    claim_jobs-IsWithin limit lease disk k = elim (Bool-cases (host.safe_runtime && host.locked)) [
      | inl ready ↦
          rw ready
            (claim_state-IsWithin limit lease (load host disk) (load-Loaded HasBudget host disk k))
      | inr stopped ↦ rw stopped tt
    ]

  -- From an empty directory, after any calls whatever the clock, the settings and the failures of
  -- each, every job that a claim hands out has had no more attempts than it may have.
  pub run-claims-IsWithin :
      (cs : List (Host × Call)) (host : Host) (limit : ℤ) (lease : Option ℤ)
      → All (IsWithin py) (claim_jobs py host limit lease (run cs empty_disk)).0
  run-claims-IsWithin cs host limit lease =
      claim_jobs-IsWithin host limit lease (run cs empty_disk) (run-Kept cs empty_disk tt)
