-- ===== src/Maintenance/Host.antt =====
-- The parts of maintenance_queue.py that touch the process: settings from the environment, the
-- clock, and the queue file.
use codex_ralph_vault_loop.Base.{
  ℕ, ◌*◌, Bool, true, false, not, ◌||◌, Option, none, some, List, ◌∷◌, String, ltb, if◌then◌else◌,
}
use codex_ralph_vault_loop.Base.Int.{ℤ, pos, max_ℤ, min_ℤ}
use codex_ralph_vault_loop.Json.{
  Json, null, int, text, arr, obj, nil, Dict, end, field, get_or, get,
}
use codex_ralph_vault_loop.Json.Eq.{json_eq}
use codex_ralph_vault_loop.Python.{Library, Result, ok, err, Exception, os_error, value_error}

-- What becomes of a publication: it fails before the queue file is replaced, it fails after that
-- (a check or the last fsync raises), or it goes through.
pub data Publication : Type 0 where
  fails fails_late succeeds : Publication

-- What one call meets: the environment variables, what the file system allows, and the clock. A
-- call reads the clock at most twice, in microseconds.
pub record Host : Type 0 where
  pub env : String → Option String
  -- `_safe_runtime` of the queue file and of its lock
  pub safe_runtime : Bool
  -- what `_locked` yields
  pub locked : Bool
  pub first_epoch : ℤ
  pub second_epoch : ℤ
  pub iso : String
  -- `os.replace` to the quarantine name
  pub can_rename : Bool
  pub publication : Publication
  -- `f"{st_mtime_ns}:{st_size}"` of handoffs/latest.md and of ledgers/learning-events.jsonl
  pub handoff_stat : Option String
  pub events_stat : Option String
  -- the size in bytes of a payload as `_atomic_json` encodes it
  pub encoded_size : Json → ℕ

unfoldable pub clamp_setting : ℤ → ℤ → ℤ → ℤ
clamp_setting value minimum maximum = max_ℤ minimum (min_ℤ value maximum)

abbrev pub count_of : ℤ → ℕ
count_of (pos n) = n
count_of _ = 0

module _ (py : Library) where
  abbrev pub parsed_setting : Option String → ℤ → ℤ
  parsed_setting none default = default
  parsed_setting (some s) default = elim (py.int_of s) [ none ↦ default | some z ↦ z ]

  -- `_int_env`
  unfoldable pub int_env : Host → String → ℤ → ℤ → ℤ → ℤ
  int_env host name default minimum maximum =
      clamp_setting (parsed_setting (host.env name) default) minimum maximum

  unfoldable pub queue_ttl_seconds : Host → ℕ
  queue_ttl_seconds host =
      count_of (int_env host "RALPH_MAINTENANCE_TTL_SECONDS" (pos 604_800) (pos 1) (pos 2_592_000))

  unfoldable pub debounce_seconds : Host → ℕ
  debounce_seconds host =
      count_of (int_env host "RALPH_MAINTENANCE_DEBOUNCE_SECONDS" (pos 60) (pos 0) (pos 86_400))

  unfoldable pub max_entries : Host → ℕ
  max_entries host =
      count_of (int_env host "RALPH_MAINTENANCE_MAX_ENTRIES" (pos 256) (pos 1) (pos 4096))

  unfoldable pub max_attempts : Host → ℕ
  max_attempts host =
      count_of (int_env host "RALPH_MAINTENANCE_MAX_ATTEMPTS" (pos 3) (pos 1) (pos 8))

  unfoldable pub lease_seconds : Host → ℕ
  lease_seconds host =
      count_of (int_env host "RALPH_MAINTENANCE_LEASE_SECONDS" (pos 30) (pos 1) (pos 900))

-- The queue file as a read finds it.
pub data QueueFile : Type 0 where
  missing unreadable oversized : QueueFile
  holds : Json → QueueFile

-- The project's maintenance directory: the queue file, and what was moved aside.
pub record Disk : Type 0 where
  pub queue : QueueFile
  pub quarantined : List QueueFile

abbrev pub max_queue_bytes : ℕ
max_queue_bytes = 2 * 1024 * 1024

abbrev pub schema_version : Json
schema_version = int (pos 1)

-- The queue file's content: a version, a time and the list of jobs.
abbrev pub queue_state : String → Json → Dict
queue_state iso jobs =
    field "schema_version" schema_version (field "updated_at" (text iso) (field "jobs" jobs end))

-- `_empty_state`
abbrev pub empty_state : Host → Dict
empty_state host = queue_state host.iso (arr nil)

abbrev pub is_missing : QueueFile → Bool
is_missing missing = true
is_missing _ = false

-- `_quarantine`
unfoldable pub quarantine : Host → Disk → Disk
quarantine host disk =
    if is_missing disk.queue || not host.can_rename
    then disk
    else record { queue = missing; quarantined = disk.queue ∷ disk.quarantined }

abbrev pub is_arr : Json → Bool
is_arr (arr xs) = true
is_arr _ = false

-- The test on a decoded queue file.
unfoldable pub queue_of : Json → Option Dict
unfolding json_eq get
queue_of (obj d) =
    if json_eq (get_or "schema_version" null d) schema_version
    then if is_arr (get_or "jobs" null d) then some d else none
    else none
queue_of _ = none

abbrev pub or_quarantine : Option Dict → Host → Disk → Result Exception Dict × Disk
or_quarantine none host disk = (ok (empty_state host), quarantine host disk)
or_quarantine (some d) host disk = (ok d, disk)

abbrev pub load_file : QueueFile → Host → Disk → Result Exception Dict × Disk
load_file missing host disk = (ok (empty_state host), disk)
load_file unreadable host disk = (ok (empty_state host), quarantine host disk)
load_file oversized host disk = (err value_error, disk)
load_file (holds v) host disk = or_quarantine (queue_of v) host disk

-- `_load`
unfoldable pub load : Host → Disk → Result Exception Dict × Disk
unfolding quarantine queue_of
load host disk = load_file disk.queue host disk

-- `WriteResult` of persistence_metrics.py, by its fields that differ here: whether the file
-- changed, and the bytes written (`none` is unknown).
pub record WriteResult : Type 0 where
  pub changed : Bool
  pub bytes_written : Option ℕ

abbrev pub no_write : WriteResult
no_write = record { changed = false; bytes_written = some 0 }

abbrev pub unknown_write : WriteResult
unknown_write = record { changed = false; bytes_written = none }

abbrev pub publish : Publication → ℕ → Json → Disk → Result Exception WriteResult × Disk
publish fails n v disk = (err os_error, disk)
publish fails_late n v disk = (err os_error, record disk { queue = holds v })
publish succeeds n v disk =
    (ok (record { changed = true; bytes_written = some n }), record disk { queue = holds v })

-- `_atomic_json`
unfoldable pub atomic_json : Host → Json → Disk → Result Exception WriteResult × Disk
atomic_json host v disk =
    let n : ℕ = host.encoded_size v in
    if ltb max_queue_bytes n then (err os_error, disk) else publish host.publication n v disk
