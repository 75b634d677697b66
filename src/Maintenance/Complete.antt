-- ===== src/Maintenance/Complete.antt =====
-- `complete_job` of maintenance_queue.py.
use codex_ralph_vault_loop.Base.{
  Bool, true, false, not, ◌&&◌, List, [], ◌∷◌, String, ◌==◌, if◌then◌else◌,
}
use codex_ralph_vault_loop.Base.Int.{ℤ, pos, ◌+ℤ◌, leb_ℤ}
use codex_ralph_vault_loop.Json.{null, int, float, text, Dict, get, get_or, set}
use codex_ralph_vault_loop.Python.{Library, Result, ok, err, Exception, ◌>>=◌, to_int}
use codex_ralph_vault_loop.Maintenance.Host.{Host, Disk, WriteResult, load, atomic_json}
use codex_ralph_vault_loop.Maintenance.Trim.{default_max_attempts, no_time, trim_jobs}
use codex_ralph_vault_loop.Maintenance.Job.{safe_component}
use codex_ralph_vault_loop.Maintenance.Enqueue.{stored, text_of}
use codex_ralph_vault_loop.Maintenance.Claim.{backoff}

-- What the runner reports: success, or an error code and whether to try again.
pub record Outcome : Type 0 where
  pub success : Bool
  pub error_code : String
  pub retryable : Bool

unfoldable pub completed : Dict → Dict
unfolding set
completed d =
    set "lease_until" no_time (set "last_error_code" (text "") (set "status" (text "completed") d))

module _ (py : Library) where
  unfoldable pub dead_lettered : String → Dict → Dict
  unfolding set safe_component
  dead_lettered error d = set "lease_until" no_time (
      set "last_error_code" (text (safe_component py 80 error))
        (set "status" (text "dead_lettered") d))

  unfoldable pub retried : ℤ → String → ℤ → Dict → Dict
  unfolding set safe_component backoff
  retried now error attempts d = set "lease_until" no_time (
      set "next_attempt_at" (float (now +ℤ backoff attempts)) (
        set "last_error_code" (text (safe_component py 80 error))
          (set "status" (text "retryable") d)))

  -- The three branches of the loop, for a job that has had `attempts`.
  unfoldable pub settle : ℤ → Outcome → ℤ → Dict → Result Exception Dict
  unfolding get
  settle now o attempts d =
      if o.success
      then ok (completed d)
      else if not o.retryable
      then ok (dead_lettered o.error_code d)
      else do
        maximum ← to_int py (get_or "max_attempts" default_max_attempts d)
        ok (
            if leb_ℤ maximum attempts
            then dead_lettered o.error_code d
            else retried now o.error_code attempts d)

  unfoldable pub finish : Host → Outcome → Dict → Result Exception Dict
  unfolding get set
  finish host o d = do
    attempts ← to_int py (get_or "attempts" (int (pos 0)) d)
    d' ← settle host.second_epoch o attempts d
    ok (set "updated_at" (text host.iso) (set "updated_epoch" (float host.second_epoch) d'))

  -- The loop: the first job of this identity is settled, and no other.
  unfoldable pub finish_first :
      Host → String → Outcome → List Dict → Result Exception (Bool × List Dict)
  finish_first host id o [] = ok (false, [])
  finish_first host id o (d ∷ ds) =
      let rest = finish_first host id o ds in
      if text_of py "job_id" d == id
      then (do d' ← finish host o d; ok (true, d' ∷ ds))
      else do r ← rest; ok (r.0, d ∷ r.1)

  abbrev pub was_written : Result Exception WriteResult × Disk → Bool × Disk
  was_written (ok w, disk) = (true, disk)
  was_written (err e, disk) = (false, disk)

  abbrev pub publish_found : Host → Result Exception (Bool × List Dict) → Disk → Bool × Disk
  publish_found host (err e) disk = (false, disk)
  publish_found host (ok (false, jobs)) disk = (false, disk)
  publish_found host (ok (true, jobs)) disk = was_written (atomic_json host (stored host jobs) disk)

  abbrev pub complete_from :
      Host → String → Outcome → Result Exception (List Dict) → Disk → Bool × Disk
  complete_from host id o (err e) disk = (false, disk)
  complete_from host id o (ok jobs) disk = publish_found host (finish_first host id o jobs) disk

  abbrev pub complete_state : Host → String → Outcome → Result Exception Dict × Disk → Bool × Disk
  complete_state host id o (err e, disk) = (false, disk)
  complete_state host id o (ok state, disk) =
      complete_from host id o (trim_jobs py host host.first_epoch (get_or "jobs" null state)) disk

  -- `complete_job`
  unfoldable pub complete_job : Host → String → Outcome → Disk → Bool × Disk
  unfolding get
  complete_job host id o disk =
      if host.safe_runtime && host.locked
      then complete_state host id o (load host disk)
      else (false, disk)
