-- ===== src/Maintenance/Trim.antt =====
-- `_trim_jobs` of maintenance_queue.py: what each access does to the list of jobs first.
use codex_ralph_vault_loop.Base.{
  ◌*◌, Bool, ◌&&◌, ◌||◌, Option, none, some, List, [], ◌∷◌, String, take, if◌then◌else◌,
}
use codex_ralph_vault_loop.Base.Int.{ℤ, pos, ◌-ℤ◌, ltb_ℤ, leb_ℤ, eqb_ℤ, max_ℤ}
use codex_ralph_vault_loop.Json.{
  Json, null, int, float, text, arr, obj, Dict, to_list, get, get_or, set,
}
use codex_ralph_vault_loop.Python.{
  Library, Result, ok, Exception, ◌>>=◌, is_text, or_else, to_float, to_int,
}
use codex_ralph_vault_loop.Maintenance.Host.{Host, queue_ttl_seconds, max_entries}

abbrev pub default_max_attempts : Json
default_max_attempts = int (pos 3)

-- `job.get("status") == s`
unfoldable pub has_status : String → Dict → Bool
unfolding get
has_status s d = is_text s (get_or "status" null d)

abbrev pub no_time : Json
no_time = float (pos 0)

unfoldable pub recovered : ℤ → ℤ → ℤ → Dict → Dict
unfolding set
recovered now attempts maximum d =
    if leb_ℤ maximum attempts
    then set "last_error_code" (text "lease_attempts_exhausted") (
        set "lease_until" no_time
          (set "next_attempt_at" no_time (set "status" (text "dead_lettered") d)))
    else set "lease_until" no_time
        (set "next_attempt_at" (float now) (set "status" (text "retryable") d))

abbrev pub append_some : Option Dict → List Dict → List Dict
append_some none jobs = jobs
append_some (some job) jobs = job ∷ jobs

module _ (py : Library) where
  -- `_timestamp`
  abbrev pub timestamp : Json → ℤ
  timestamp v = elim (to_float py v) [ none ↦ pos 0 | some z ↦ z ]

  -- `_timestamp(job.get(key))`
  unfoldable pub stamp : String → Dict → ℤ
  unfolding get
  stamp key d = timestamp (get_or key null d)

  unfoldable pub last_update : Dict → ℤ
  last_update d =
      let updated = stamp "updated_epoch" d in
      if eqb_ℤ updated (pos 0) then stamp "created_epoch" d else updated

  -- A job that is skipped: it has no time of creation, or its last change is past the TTL.
  unfoldable pub is_expired : Host → ℤ → Dict → Bool
  is_expired host now d =
      let created = stamp "created_epoch" d in
      eqb_ℤ created (pos 0)
      || ltb_ℤ (pos (queue_ttl_seconds py host * 1_000_000)) (now -ℤ max_ℤ created (last_update d))

  -- A job whose lease has run out.
  unfoldable pub is_stale_lease : ℤ → Dict → Bool
  is_stale_lease now d = has_status "leased" d && leb_ℤ (stamp "lease_until" d) now

  -- The block of `_trim_jobs` for a stale lease.
  unfoldable pub recover : ℤ → Dict → Result Exception Dict
  unfolding get
  recover now d =
      if is_stale_lease now d
      then (do
        attempts ← to_int py (or_else (get_or "attempts" (int (pos 0)) d) (int (pos 0)))
        maximum ←
            to_int py (or_else (get_or "max_attempts" default_max_attempts d) default_max_attempts)
        ok (recovered now (max_ℤ (pos 0) attempts) (max_ℤ (pos 1) maximum) d))
      else ok d

  -- What one round of the loop appends to `jobs`.
  unfoldable pub admit : Host → ℤ → Json → Result Exception (Option Dict)
  admit host now (obj d) =
      if is_expired host now d then ok none else do job ← recover now d; ok (some job)
  admit host now _ = ok none

  unfoldable pub admit_all : Host → ℤ → List Json → Result Exception (List Dict)
  admit_all host now [] = ok []
  admit_all host now (v ∷ vs) = do
    job ← admit host now v
    jobs ← admit_all host now vs
    ok (append_some job jobs)

  -- `jobs.sort(key=updated_epoch, reverse=True)`, which keeps the order of equal keys.
  unfoldable pub insert_job : Dict → List Dict → List Dict
  insert_job d [] = d ∷ []
  insert_job d (e ∷ es) =
      if leb_ℤ (stamp "updated_epoch" e) (stamp "updated_epoch" d)
      then d ∷ e ∷ es
      else e ∷ insert_job d es

  unfoldable pub sort_jobs : List Dict → List Dict
  sort_jobs [] = []
  sort_jobs (d ∷ ds) = insert_job d (sort_jobs ds)

  unfoldable pub trim_list : Host → ℤ → List Json → Result Exception (List Dict)
  trim_list host now raw = do
    jobs ← admit_all host now (take (max_entries py host * 2) raw)
    ok (take (max_entries py host) (sort_jobs jobs))

  -- `_trim_jobs`
  unfoldable pub trim_jobs : Host → ℤ → Json → Result Exception (List Dict)
  trim_jobs host now (arr xs) = trim_list host now (to_list xs)
  trim_jobs host now _ = ok []
