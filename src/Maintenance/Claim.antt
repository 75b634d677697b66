-- ===== src/Maintenance/Claim.antt =====
-- `claim_jobs` and `complete_job` of maintenance_queue.py.
use codex_ralph_vault_loop.Base.{
  ℕ, zero, suc, ◌+◌, ◌*◌, ◌/◌, ◌^◌, min, max, Bool, true, false, ◌&&◌, ◌||◌, Option, none, some,
  List, [], ◌∷◌, if◌then◌else◌,
}
use codex_ralph_vault_loop.Base.Int.{ℤ, pos, negsuc, ◌+ℤ◌, leb_ℤ}
use codex_ralph_vault_loop.Json.{Json, null, int, float, text, Dict, get, get_or, set}
use codex_ralph_vault_loop.Json.Eq.{json_eq}
use codex_ralph_vault_loop.Python.{Library, Result, ok, err, Exception}
use codex_ralph_vault_loop.Maintenance.Host.{
  Host, Disk, WriteResult, lease_seconds, load, atomic_json,
}
use codex_ralph_vault_loop.Maintenance.Trim.{has_status, stamp, trim_jobs}
use codex_ralph_vault_loop.Maintenance.Job.{MaintenanceJob, job_from_dict}
use codex_ralph_vault_loop.Maintenance.Enqueue.{jobs_json, stored}

-- `max(1, min(limit, 32))`
unfoldable pub claim_limit : ℤ → ℕ
claim_limit (pos n) = max 1 (min n 32)
claim_limit (negsuc n) = 1

abbrev pub seconds : ℤ → ℤ
seconds (pos n) = pos (n * 1_000_000)
seconds (negsuc n) = negsuc (n * 1_000_000 + 999_999)

abbrev pub job_or : Option MaintenanceJob → MaintenanceJob → MaintenanceJob
job_or none old = old
job_or (some job) old = job

abbrev pub cons_job : Dict → List Dict × List MaintenanceJob → List Dict × List MaintenanceJob
cons_job d (ds, claimed) = (d ∷ ds, claimed)

abbrev pub cons_claimed :
    Dict × MaintenanceJob → List Dict × List MaintenanceJob → List Dict × List MaintenanceJob
cons_claimed (d, job) (ds, claimed) = (d ∷ ds, job ∷ claimed)

abbrev pub is_nil : List MaintenanceJob → Bool
is_nil [] = true
is_nil (j ∷ js) = false

module _ (py : Library) where
  -- A job that is pending or retryable and due.
  unfoldable pub is_due : ℤ → Dict → Bool
  is_due now d =
      (has_status "pending" d || has_status "retryable" d)
      && leb_ℤ (stamp py "next_attempt_at" d) now

  abbrev pub lease_length : Option ℤ → Host → ℤ
  lease_length (some (pos (suc n))) host = pos (suc n)
  lease_length (some (negsuc n)) host = negsuc n
  lease_length _ host = pos (lease_seconds py host)

  -- The changes to a job that is claimed.
  unfoldable pub leased : Host → Option ℤ → ℤ → Dict → Dict
  unfolding set
  leased host lease attempts d = set "updated_at" (text host.iso) (
      set "updated_epoch" (float host.second_epoch) (
        set "lease_until" (float (host.second_epoch +ℤ seconds (lease_length lease host)))
          (set "attempts" (int (attempts +ℤ pos 1)) (set "status" (text "leased") d))))

  abbrev pub take_job :
      Host → Option ℤ → Dict → Option MaintenanceJob → Option (Dict × MaintenanceJob)
  take_job host lease d none = none
  take_job host lease d (some job) =
      let d' = leased host lease job.attempts d in some (d', job_or (job_from_dict py d') job)

  -- One round of the loop: the job with its lease and what is appended to `claimed`.
  unfoldable pub claim_one : Host → Option ℤ → Dict → Option (Dict × MaintenanceJob)
  claim_one host lease d =
      if is_due host.second_epoch d then take_job host lease d (job_from_dict py d) else none

  -- The loop over the jobs, for the claims that are left.
  unfoldable pub claim_loop : Host → Option ℤ → ℕ → List Dict → List Dict × List MaintenanceJob
  claim_loop host lease quota [] = ([], [])
  claim_loop host lease zero (d ∷ ds) = (d ∷ ds, [])
  claim_loop host lease (suc quota) (d ∷ ds) = elim (claim_one host lease d) [
    | none ↦ cons_job d (claim_loop host lease (suc quota) ds)
    | some c ↦ cons_claimed c (claim_loop host lease quota ds)
  ]

  abbrev pub returned :
      List MaintenanceJob → Result Exception WriteResult × Disk → List MaintenanceJob × Disk
  returned claimed (ok w, disk) = (claimed, disk)
  returned claimed (err e, disk) = ([], disk)

  abbrev publish_claims :
      Host → Bool → List Dict × List MaintenanceJob → Disk → List MaintenanceJob × Disk
  publish_claims host unchanged (jobs, claimed) disk =
      if unchanged && is_nil claimed
      then (claimed, disk)
      else returned claimed (atomic_json host (stored host jobs) disk)

  abbrev pub claim_from :
      Host → ℤ → Option ℤ → Json → Result Exception (List Dict) → Disk → List MaintenanceJob × Disk
  claim_from host limit lease original (err e) disk = ([], disk)
  claim_from host limit lease original (ok jobs) disk =
      publish_claims host (json_eq (jobs_json jobs) original)
        (claim_loop host lease (claim_limit limit) jobs) disk

  abbrev pub claim_state :
      Host → ℤ → Option ℤ → Result Exception Dict × Disk → List MaintenanceJob × Disk
  claim_state host limit lease (err e, disk) = ([], disk)
  claim_state host limit lease (ok state, disk) =
      let original = get_or "jobs" null state in
      claim_from host limit lease original (trim_jobs py host host.second_epoch original) disk

  -- `claim_jobs`; its only reading of the clock is the second
  unfoldable pub claim_jobs : Host → ℤ → Option ℤ → Disk → List MaintenanceJob × Disk
  unfolding json_eq get
  claim_jobs host limit lease disk =
      if host.safe_runtime && host.locked
      then claim_state host limit lease (load host disk)
      else ([], disk)

-- `min(300, 2**attempts)` in microseconds
unfoldable pub backoff : ℤ → ℤ
backoff (pos n) = pos (min 300 (2 ^ n) * 1_000_000)
backoff (negsuc n) = pos (1_000_000 / 2 ^ (suc n))
