-- ===== src/Maintenance/Enqueue.antt =====
-- `enqueue_maintenance` of maintenance_queue.py.
use Prim.Native.String.{◌++◌}
use codex_ralph_vault_loop.Base.{
  ◌*◌, Bool, true, false, not, ◌&&◌, ◌||◌, Option, none, some, List, [], ◌∷◌, map, String, ◌==◌,
  snoc, if◌then◌else◌,
}
use codex_ralph_vault_loop.Base.Int.{ℤ, pos, ◌-ℤ◌, leb_ℤ}
use codex_ralph_vault_loop.Json.{Json, null, text, arr, obj, Dict, of_list, get, get_or}
use codex_ralph_vault_loop.Python.{Library, Result, ok, err, Exception, or_else, to_str}
use codex_ralph_vault_loop.Maintenance.Host.{
  Host, Disk, WriteResult, no_write, unknown_write, debounce_seconds, queue_state, load,
  atomic_json,
}
use codex_ralph_vault_loop.Maintenance.Trim.{stamp, trim_list, trim_jobs}
use codex_ralph_vault_loop.Maintenance.Job.{ActiveContext, operation, text_or, descriptor}

-- `EnqueueResult`, without the path.
pub record EnqueueResult : Type 0 where
  pub accepted : Bool
  pub deduplicated : Bool
  pub job_id : String
  pub reason : String
  pub write_result : WriteResult

-- The list of jobs as it is stored.
abbrev pub jobs_json : List Dict → Json
jobs_json jobs = arr (of_list (map obj jobs))

abbrev pub stored : Host → List Dict → Json
stored host jobs = obj (queue_state host.iso (jobs_json jobs))

abbrev pub refused : String → String → EnqueueResult
refused id reason = record {
  accepted = false;
  deduplicated = false;
  job_id = id;
  reason = reason;
  write_result = no_write;
}

abbrev pub duplicate : String → String → EnqueueResult
duplicate id reason = record {
  accepted = false;
  deduplicated = true;
  job_id = id;
  reason = reason;
  write_result = no_write;
}

-- The handler of `(OSError, TypeError, ValueError)`.
abbrev pub write_failed : String → EnqueueResult
write_failed id = record {
  accepted = false;
  deduplicated = false;
  job_id = id;
  reason = "queue_write_failed";
  write_result = unknown_write;
}

abbrev pub enqueued : String → WriteResult → EnqueueResult
enqueued id w = record {
  accepted = true;
  deduplicated = false;
  job_id = id;
  reason = "enqueued";
  write_result = w;
}

module _ (py : Library) where
  -- `str(job.get(key))`
  unfoldable pub text_of : String → Dict → String
  unfolding get
  text_of key d = to_str py (get_or key null d)

  -- `next((item for item in jobs if str(item.get("job_id")) == job_id), None)`
  unfoldable pub find_job : String → List Dict → Option Dict
  unfolding text_of
  find_job id [] = none
  find_job id (d ∷ ds) = if text_of "job_id" d == id then some d else find_job id ds

  abbrev pub is_known_status : String → Bool
  is_known_status s =
      s == "pending"
      || (s == "leased" || (s == "retryable" || (s == "completed" || s == "dead_lettered")))

  -- The status that stops an enqueue, if a job of this identity is queued.
  abbrev pub known_status : Option Dict → Option String
  known_status none = none
  known_status (some d) =
      let s = text_or py "status" "pending" d in if is_known_status s then some s else none

  unfoldable pub existing_status : String → List Dict → Option String
  unfolding find_job get
  existing_status id jobs = known_status (find_job id jobs)

  same_text_at : Dict → Dict → String → Bool
  unfolding text_of
  same_text_at d e key = text_of key d == text_of key e

  -- The test of the debounce loop.
  unfoldable pub is_recent_twin : ℤ → Dict → Dict → Bool
  unfolding text_of same_text_at stamp
  is_recent_twin cutoff job d =
      (text_of "operation" d == operation)
      && (same_text_at d job "project_id"
          && (same_text_at d job "workspace_instance_id"
              && (same_text_at d job "branch"
                  && (same_text_at d job "sha"
                      && (same_text_at d job "source_generation"
                          && (same_text_at d job "policy_version"
                              && leb_ℤ cutoff (stamp py "created_epoch" d)))))))

  unfoldable pub find_twin : ℤ → Dict → List Dict → Option Dict
  unfolding is_recent_twin
  find_twin cutoff job [] = none
  find_twin cutoff job (d ∷ ds) =
      if is_recent_twin cutoff job d then some d else find_twin cutoff job ds

  abbrev pub reported : String → Result Exception WriteResult × Disk → EnqueueResult × Disk
  reported id (ok w, disk) = (enqueued id w, disk)
  reported id (err e, disk) = (write_failed id, disk)

  abbrev pub write_trimmed :
      Host → String → Result Exception (List Dict) → Disk → EnqueueResult × Disk
  write_trimmed host id (err e) disk = (write_failed id, disk)
  write_trimmed host id (ok jobs) disk = reported id (atomic_json host (stored host jobs) disk)

  -- `jobs.append(job)`, a second trim, and the publication.
  unfoldable pub append_job : Host → Dict → String → List Dict → Disk → EnqueueResult × Disk
  append_job host job id jobs disk =
      write_trimmed host id (trim_list py host host.second_epoch (snoc (map obj jobs) (obj job)))
        disk

  abbrev pub unless_twin :
      Option Dict → Host → Dict → String → List Dict → Disk → EnqueueResult × Disk
  unless_twin (some d) host job id jobs disk =
      (duplicate (to_str py (or_else (get_or "job_id" null d) (text id))) "debounced", disk)
  unless_twin none host job id jobs disk = append_job host job id jobs disk

  abbrev pub unless_known :
      Option String → Host → Dict → String → List Dict → Disk → EnqueueResult × Disk
  unless_known (some status) host job id jobs disk = (duplicate id ("already_" ++ status), disk)
  unless_known none host job id jobs disk =
      unless_twin
        (find_twin (host.second_epoch -ℤ pos (debounce_seconds py host * 1_000_000)) job jobs) host
        job id jobs disk

  abbrev pub with_jobs :
      Host → Dict → String → Result Exception (List Dict) → Disk → EnqueueResult × Disk
  with_jobs host job id (err e) disk = (write_failed id, disk)
  with_jobs host job id (ok jobs) disk =
      unless_known (existing_status id jobs) host job id jobs disk

  abbrev pub with_state : Host → Dict → String → Result Exception Dict × Disk → EnqueueResult × Disk
  with_state host job id (err e, disk) = (write_failed id, disk)
  with_state host job id (ok state, disk) =
      with_jobs host job id (trim_jobs py host host.second_epoch (get_or "jobs" null state)) disk

  -- `enqueue_maintenance`, for a descriptor that is built
  unfoldable pub enqueue_job : Host → Dict → Disk → EnqueueResult × Disk
  unfolding get
  enqueue_job host job disk =
      let id = text_of "job_id" job in
      if not host.safe_runtime
      then (refused id "unsafe_runtime", disk)
      else if not host.locked
      then (refused id "lock_unavailable", disk)
      else with_state host job id (load host disk)

  unfoldable pub enqueue_maintenance :
      Host → ActiveContext → String → Dict → Disk → EnqueueResult × Disk
  enqueue_maintenance host context reason payload disk =
      enqueue_job host (descriptor py host context reason payload) disk
