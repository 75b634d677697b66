-- ===== src/Maintenance/Job.antt =====
-- Job descriptors of maintenance_queue.py: sanitised texts, the job's identity, the dictionary that
-- is queued, and the record that the runner gets back.
use Prim.Native.Char.{code}
use Prim.Native.String.{◌++◌}
use codex_ralph_vault_loop.Base.{
  ℕ, Bool, ◌||◌, Option, none, some, [], ◌∷◌, String, eqb, is_empty, or_text, take_text,
  if◌then◌else◌,
}
use codex_ralph_vault_loop.Base.Int.{ℤ, pos, max_ℤ}
use codex_ralph_vault_loop.Json.{Json, null, int, float, text, Dict, dict, get, get_or}
use codex_ralph_vault_loop.Python.{
  Library, Result, ok, err, Exception, value_error, ◌>>=◌, or_else, to_str, to_int, strip,
}
use codex_ralph_vault_loop.Maintenance.Host.{Host, schema_version, max_attempts}
use codex_ralph_vault_loop.Maintenance.Trim.{default_max_attempts, no_time, stamp}

abbrev pub operation : String
operation = "dream_and_vault_review"

-- `ActiveContext` of active_context.py, by the fields that the queue reads.
pub record ActiveContext : Type 0 where
  pub project_id : String
  pub project_slug : String
  pub workspace_root : String
  pub workspace_instance_id : String
  pub session_id : String
  pub branch : String
  pub sha : String

-- `MaintenanceJob`
pub record MaintenanceJob : Type 0 where
  pub job_id : String
  pub operation : String
  pub project_id : String
  pub project_slug : String
  pub workspace_root : String
  pub workspace_instance_id : String
  pub session_id : String
  pub branch : String
  pub sha : String
  pub source_generation : String
  pub reason_code : String
  pub policy_version : String
  pub created_at : String
  pub updated_at : String
  pub status : String
  pub attempts : ℤ
  pub max_attempts : ℤ
  pub next_attempt_at : ℤ
  pub lease_until : ℤ
  pub last_error_code : String

-- `"".join(c if keep(c) else "_" for c in s)`
abbrev pub replace_unsafe : (ℕ → Bool) → String → String
replace_unsafe keep String.[] = String.[]
replace_unsafe keep (String.◌∷◌ c s) =
    String.◌∷◌ (if keep (code c) then c else "_") (replace_unsafe keep s)

module _ (py : Library) where
  abbrev pub in_identifier : ℕ → Bool
  in_identifier c = py.is_alnum c || (eqb c b'.' || (eqb c b'_' || eqb c b'-'))

  abbrev pub in_component : ℕ → Bool
  in_component c = in_identifier c || (eqb c b':' || eqb c b'/')

  -- `_safe_component` of a text
  unfoldable pub safe_component : ℕ → String → String
  safe_component limit s = take_text limit (replace_unsafe in_component s)

  -- `_safe_identifier` of a text
  unfoldable pub safe_identifier : String → String
  safe_identifier s = or_text (take_text 80 (replace_unsafe in_identifier s)) "unknown"

  -- `_source_generation`
  abbrev stat_line : String → Option String → String
  stat_line name none = name ++ ":missing"
  stat_line name (some s) = name ++ ":" ++ s

  abbrev digest_24 : String → String
  digest_24 s = take_text 24 (py.sha256 s)

  observed_generation : Host → String
  observed_generation host = digest_24 (
      stat_line "handoffs/latest.md" host.handoff_stat
      ++ "|"
      ++ stat_line "ledgers/learning-events.jsonl" host.events_stat)

  abbrev explicit_generation : Json → Host → String
  explicit_generation (text s) host =
      if is_empty (strip py s)
      then observed_generation host
      else digest_24 (take_text 256 (strip py s))
  explicit_generation _ host = observed_generation host

  unfoldable pub source_generation : Host → Dict → String
  unfolding get observed_generation
  source_generation host payload =
      explicit_generation
        (or_else (get_or "memory_generation" null payload) (
          or_else (get_or "memoryGeneration" null payload)
            (or_else (get_or "source_generation" null payload) (get_or "generation" null payload))))
        host

  -- `_job_id`
  unfoldable pub job_id : ActiveContext → String → String → String
  job_id context generation policy = take_text 32 (
      py.sha256 (
        operation ++ "|" ++ context.project_id ++ "|" ++ context.workspace_instance_id ++ "|"
        ++ context.branch ++ "|" ++ context.sha ++ "|" ++ generation ++ "|" ++ policy))

  abbrev policy_setting : Option String → String
  policy_setting none = "maintenance-v1"
  policy_setting (some s) = s

  unfoldable pub policy_version : Host → String
  unfolding safe_component
  policy_version host =
      safe_component 64 (policy_setting (host.env "RALPH_MAINTENANCE_POLICY_VERSION"))

  -- `_descriptor`
  unfoldable pub descriptor : Host → ActiveContext → String → Dict → Dict
  unfolding source_generation job_id policy_version safe_component safe_identifier max_attempts
  descriptor host context reason payload =
      let policy = policy_version host in
      let generation = source_generation host payload in
      dict (
        ("schema_version", schema_version)
        ∷ ("job_id", text (job_id context generation policy))
        ∷ ("operation", text operation)
        ∷ ("project_id", text (safe_identifier context.project_id))
        ∷ ("project_slug", text (safe_identifier context.project_slug))
        ∷ ("workspace_root", text (take_text 240 context.workspace_root))
        ∷ ("workspace_instance_id", text (safe_component 64 context.workspace_instance_id))
        ∷ ("session_id", text (safe_component 80 context.session_id))
        ∷ ("branch", text (safe_component 160 context.branch))
        ∷ ("sha", text (safe_component 80 context.sha))
        ∷ ("source_generation", text generation)
        ∷ ("reason_code", text (or_text (safe_component 64 reason) "interactive_hook"))
        ∷ ("policy_version", text policy)
        ∷ ("created_at", text host.iso)
        ∷ ("updated_at", text host.iso)
        ∷ ("created_epoch", float host.first_epoch)
        ∷ ("updated_epoch", float host.first_epoch)
        ∷ ("status", text "pending")
        ∷ ("attempts", int (pos 0))
        ∷ ("max_attempts", int (pos (max_attempts py host)))
        ∷ ("next_attempt_at", float host.first_epoch)
        ∷ ("lease_until", no_time)
        ∷ ("last_error_code", text "")
        ∷ [])

  -- `str(raw[key])`; a missing key is a KeyError
  abbrev pub needed : String → Dict → Result Exception String
  needed key d = elim (get key d) [ none ↦ err value_error | some v ↦ ok (to_str py v) ]

  -- `str(raw.get(key) or default)`
  abbrev pub text_or : String → String → Dict → String
  text_or key default d = to_str py (or_else (get_or key null d) (text default))

  unfoldable pub job_record : Dict → String → String → String → ℤ → ℤ → MaintenanceJob
  unfolding get stamp safe_component
  job_record d id op project attempts maximum = record {
    job_id = id;
    operation = op;
    project_id = project;
    project_slug = text_or "project_slug" "" d;
    workspace_root = text_or "workspace_root" "" d;
    workspace_instance_id = text_or "workspace_instance_id" "" d;
    session_id = text_or "session_id" "" d;
    branch = text_or "branch" "" d;
    sha = text_or "sha" "" d;
    source_generation = text_or "source_generation" "" d;
    reason_code = text_or "reason_code" "" d;
    policy_version = text_or "policy_version" "" d;
    created_at = text_or "created_at" "" d;
    updated_at = text_or "updated_at" "" d;
    status = text_or "status" "pending" d;
    attempts = max_ℤ (pos 0) attempts;
    max_attempts = max_ℤ (pos 1) maximum;
    next_attempt_at = stamp py "next_attempt_at" d;
    lease_until = stamp py "lease_until" d;
    last_error_code = safe_component 80 (text_or "last_error_code" "" d);
  }

  -- `_job_from_dict`, before it catches
  unfoldable pub read_job : Dict → Result Exception MaintenanceJob
  unfolding get
  read_job d = do
    id ← needed "job_id" d
    op ← needed "operation" d
    project ← needed "project_id" d
    attempts ← to_int py (get_or "attempts" (int (pos 0)) d)
    maximum ← to_int py (get_or "max_attempts" default_max_attempts d)
    ok (job_record d id op project attempts maximum)

  abbrev pub returned : Result Exception MaintenanceJob → Option MaintenanceJob
  returned (ok job) = some job
  returned (err e) = none

  -- `_job_from_dict`
  unfoldable pub job_from_dict : Dict → Option MaintenanceJob
  job_from_dict d = returned (read_job d)
