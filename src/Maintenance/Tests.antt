-- ===== src/Maintenance/Tests.antt =====
-- Runs of the maintenance queue at concrete inputs.
use codex_ralph_vault_loop.Base.{
  ℕ, ◌*◌, ◌^◌, ◌≤◌, min, ◌≡◌, refl, true, false, none, some, List, [], ◌∷◌, length, All, arith,
}
use codex_ralph_vault_loop.Base.Int.{pos, ◌+ℤ◌, ◌-ℤ◌}
use codex_ralph_vault_loop.Json.{Json, int, float, text, obj, Dict, end, dict, get, set}
use codex_ralph_vault_loop.Json.Eq.{json_eq}
use codex_ralph_vault_loop.Python.{Library, ok}
use codex_ralph_vault_loop.Maintenance.Host.{
  Host, succeeds, max_entries, max_attempts, lease_seconds, queue_ttl_seconds, debounce_seconds,
  int_env, clamp_setting, load, quarantine, queue_of, atomic_json,
}
use codex_ralph_vault_loop.Maintenance.Trim.{
  no_time, has_status, stamp, last_update, is_expired, is_stale_lease, recovered, recover, admit,
  admit_all, insert_job, sort_jobs, trim_list, trim_jobs,
}
use codex_ralph_vault_loop.Maintenance.Job.{
  ActiveContext, safe_component, safe_identifier, source_generation, job_id, policy_version,
  descriptor, job_record, read_job, job_from_dict,
}
use codex_ralph_vault_loop.Maintenance.Enqueue.{
  text_of, find_job, existing_status, is_recent_twin, find_twin, append_job, enqueue_job,
  enqueue_maintenance,
}
use codex_ralph_vault_loop.Maintenance.Claim.{
  claim_limit, is_due, leased, claim_one, claim_loop, claim_jobs, backoff,
}
use codex_ralph_vault_loop.Maintenance.Complete.{
  Outcome, completed, dead_lettered, retried, settle, finish, finish_first, complete_job,
}
use codex_ralph_vault_loop.Maintenance.Retries.{HasBudget}
use codex_ralph_vault_loop.Maintenance.Budget.{IsWithin}
use codex_ralph_vault_loop.Maintenance.Settle.{next_status, is_spent, finish_settles}
use codex_ralph_vault_loop.Maintenance.Bounds.{IsSorted, IsCurrent, trim_list_sound}
use codex_ralph_vault_loop.Maintenance.Runs.{
  Call, enqueue, empty_disk, run, call, run-claims-IsWithin,
}

abbrev py : Library
py = record {
  sha256 = λ s. s;
  repr = λ v. "0";
  lower = λ s. s;
  upper = λ s. s;
  dumps = λ v. "";
  float_of = λ s. none;
  int_of = λ s. none;
  is_alnum = λ c. true;
  is_space = λ c. false;
}

abbrev host : Host
host = record {
  env = λ s. none;
  safe_runtime = true;
  locked = true;
  first_epoch = pos 1_000_000_000;
  second_epoch = pos 1_000_000_001;
  iso = "2026-01-01T00:00:00+00:00";
  can_rename = true;
  publication = succeeds;
  handoff_stat = none;
  events_stat = none;
  encoded_size = λ v. 100;
}

abbrev context : ActiveContext
context = record {
  project_id = "p";
  project_slug = "p";
  workspace_root = "/w";
  workspace_instance_id = "ws-1";
  session_id = "s";
  branch = "main";
  sha = "abc";
}

abbrev script : List (Host × Call)
script = (host, enqueue context "stop" end) ∷ (host, enqueue context "stop" end) ∷ []

-- Opens the whole queue for the runs below.
opened : ℕ
unfolding get set json_eq max_entries max_attempts lease_seconds queue_ttl_seconds debounce_seconds
    int_env clamp_setting load quarantine queue_of atomic_json has_status stamp last_update
    is_expired is_stale_lease recovered recover admit admit_all insert_job sort_jobs trim_list
    trim_jobs safe_component safe_identifier source_generation job_id policy_version descriptor
    job_record read_job job_from_dict text_of find_job existing_status is_recent_twin find_twin
    append_job enqueue_job enqueue_maintenance claim_limit is_due leased claim_one claim_loop
    claim_jobs backoff completed dead_lettered retried settle finish finish_first complete_job run
    call ◌+ℤ◌ ◌-ℤ◌
opened = 0

enqueue_twice :
    (enqueue_maintenance py host context "stop" end (run py script empty_disk)).0.reason
    ≡ "already_pending"
unfolding opened
enqueue_twice = refl

claim_first : length (claim_jobs py host (pos 4) none (run py script empty_disk)).0 ≡ 1
unfolding opened
claim_first = refl

run-claims-IsWithin_example :
    All (IsWithin py) (claim_jobs py host (pos 4) none (run py script empty_disk)).0
run-claims-IsWithin_example = run-claims-IsWithin py script host (pos 4) none

abbrev job : Dict
job = dict (("attempts", int (pos 2)) ∷ ("max_attempts", int (pos 3)) ∷ [])

job-HasBudget : HasBudget job
unfolding get has_status
job-HasBudget = record {
  attempts = 2;
  maximum = 3;
  reads_attempts = refl;
  reads_maximum = refl;
  positive = omega arith;
  within = omega arith;
  left = λ c. omega arith;
}

abbrev failure : Outcome
failure = record { success = false; error_code = "scheduler_failed"; retryable = true }

finish_settles_example :
    (d' : Dict) × (finish py host failure job ≡ ok d')
    × (get "status" d'
        ≡ some (text (next_status false (is_spent py host failure job job-HasBudget))))
    × (get "lease_until" d' ≡ some no_time)
    × (get "attempts" d' ≡ get "attempts" job)
    × (next_status false (is_spent py host failure job job-HasBudget) ≡ "retryable"
        → get "next_attempt_at" d'
          ≡ some
              (float (host.second_epoch +ℤ pos (min 300 (2 ^ job-HasBudget.attempts) * 1_000_000))))
finish_settles_example = finish_settles py host failure job job-HasBudget

-- A job whose lease ran out after its last attempt.
abbrev stale : Json
stale = obj (
    dict (
      ("created_epoch", float (pos 5))
      ∷ ("status", text "leased")
      ∷ ("lease_until", float (pos 7))
      ∷ ("attempts", int (pos 3))
      ∷ []))

abbrev buried : Dict
buried = dict (
    ("created_epoch", float (pos 5))
    ∷ ("status", text "dead_lettered")
    ∷ ("lease_until", no_time)
    ∷ ("attempts", int (pos 3))
    ∷ ("next_attempt_at", no_time)
    ∷ ("last_error_code", text "lease_attempts_exhausted")
    ∷ [])

trim-stale : trim_list py host (pos 9) (stale ∷ []) ≡ ok (buried ∷ [])
unfolding opened
trim-stale = refl

trim_list_sound_example :
    (length (buried ∷ []) ≤ max_entries py host)
    × (1 ≤ max_entries py host)
    × (max_entries py host ≤ 4096)
    × IsSorted py (buried ∷ [])
    × All (IsCurrent py (pos 9)) (buried ∷ [])
trim_list_sound_example = trim_list_sound py host (pos 9) (stale ∷ []) (buried ∷ []) trim-stale
