-- ===== src/Continuation/Reserve.antt =====
-- `_reserve_at` and `reserve` of continuation_budget.py.
use codex_ralph_vault_loop.Base.{
  Bool, true, false, not, ◌&&◌, ◌||◌, Option, none, some, [], ◌∷◌, String, ◌==◌, is_empty,
  if◌then◌else◌,
}
use codex_ralph_vault_loop.Base.Int.{ℤ, pos, ◌+ℤ◌, eqb_ℤ}
use codex_ralph_vault_loop.Json.{
  Json, int, float, text, obj, Dict, end, get_or, get, set, remove, dict,
}
use codex_ralph_vault_loop.Json.Eq.{json_eq}
use codex_ralph_vault_loop.Python.{Library, Result, ok, err, Exception, to_int, to_str}
use codex_ralph_vault_loop.Continuation.State.{
  Process, Access, Site, Loaded, trim, schema_version, payload, load, atomic_json,
}

-- The fields of a `StopScope` and of its context that are stored.
pub record StopScope : Type 0 where
  pub scope_key : String
  pub task_signature : String
  pub project_id : String
  pub session_id : String
  pub branch : String
  pub sha : String

-- What `reserve` is asked: the scope, the evidence and whether the task is critical.
pub record Request : Type 0 where
  pub scope : StopScope
  pub evidence_fingerprint : String
  pub critical : Bool

-- A `Reservation` without the metadata of its write.
pub record Reservation : Type 0 where
  pub allowed : Bool
  pub count : ℤ
  pub exhausted : Bool
  pub evidence_fingerprint : String
  pub state_corrupt : Bool
  pub storage_error : Bool
  pub changed : Bool

-- The entry of a scope, `{}` where there is none; a trimmed state holds dictionaries only.
abbrev pub entry_of : Option Json → Dict
entry_of (some (obj d)) = d
entry_of _ = end

abbrev pub desired_entry : Request → ℤ → ℤ → Dict
desired_entry q count now = dict (
    ("schema_version", schema_version)
    ∷ ("reason_code", text "objective_gate")
    ∷ ("evidence_fingerprint", text q.evidence_fingerprint)
    ∷ ("count", int count)
    ∷ ("timestamp", float now)
    ∷ ("project_id", text q.scope.project_id)
    ∷ ("session_id", text q.scope.session_id)
    ∷ ("task_signature", text q.scope.task_signature)
    ∷ ("branch", text q.scope.branch)
    ∷ ("sha", text q.scope.sha)
    ∷ [])

-- Two entries agree but for their times.
abbrev pub same_entry : Dict → Dict → Bool
same_entry d e = json_eq (obj (remove "timestamp" d)) (obj (remove "timestamp" e))

abbrev pub after_write :
    Result Exception (Unit {0}) × Site → Reservation → Option Reservation × Site
after_write (err raised, site) r = (none, site)
after_write (ok done, site) r = (some r, site)

-- The state changes: the file was corrupt, an entry is gone, or the scope's entry differs.
abbrev pub is_changed : Loaded → Dict → Dict → Dict → Bool
is_changed loaded entries current desired =
    loaded.corrupt
    || (not (json_eq (obj entries) (obj loaded.entries)) || not (same_entry current desired))

module _ (py : Library) where
  -- `int(current.get("count", 0))`
  abbrev pub count_of : Dict → Result Exception ℤ
  count_of d = to_int py (get_or "count" (int (pos 0)) d)

  abbrev pub previous_of : Dict → String
  previous_of d = to_str py (get_or "evidence_fingerprint" (text "") d)

  abbrev pub is_allowed : Request → Dict → ℤ → Bool
  is_allowed q current count =
      eqb_ℤ count (pos 0)
      || (eqb_ℤ count (pos 1)
          && (q.critical
              && (not (is_empty q.evidence_fingerprint)
                  && not (q.evidence_fingerprint == previous_of current))))

  abbrev pub next_count : Request → Dict → ℤ → ℤ
  next_count q current count = if is_allowed q current count then count +ℤ pos 1 else count

  abbrev pub reservation : Request → Dict → ℤ → Bool → Bool → Reservation
  reservation q current count corrupt changed = record {
    allowed = is_allowed q current count;
    count = next_count q current count;
    exhausted = not (is_allowed q current count);
    evidence_fingerprint = q.evidence_fingerprint;
    state_corrupt = corrupt;
    storage_error = false;
    changed = changed;
  }

  abbrev pub with_count :
      Result Exception ℤ → Process → Access → Request → Loaded → Site → Option Reservation × Site
  with_count (err raised) p a q loaded site = (none, site)
  with_count (ok count) p a q loaded site =
      let entries = trim py p loaded.entries in
      let current = entry_of (get q.scope.scope_key entries) in
      let desired = desired_entry q (next_count q current count) p.now in
      if is_changed loaded entries current desired
      then after_write
          (atomic_json p a (obj (payload p.now (set q.scope.scope_key (obj desired) entries))) site)
          (reservation q current count loaded.corrupt true)
      else (some (reservation q current count loaded.corrupt false), site)

  abbrev pub with_loaded :
      Result Exception Loaded × Site → Process → Access → Request → Option Reservation × Site
  with_loaded (err raised, site) p a q = (none, site)
  with_loaded (ok loaded, site) p a q =
      with_count (count_of (entry_of (get q.scope.scope_key (trim py p loaded.entries)))) p a q
        loaded site

  -- `_reserve_at`
  unfoldable pub reserve_at : Process → Access → Request → Site → Option Reservation × Site
  unfolding get json_eq set remove
  reserve_at p a q site =
      if not a.is_safe || not a.locks then (none, site) else with_loaded (load a site) p a q

-- `Reservation(False, 0, False, evidence_fingerprint, storage_error=True)`
abbrev pub refused : Request → Reservation
refused q = record {
  allowed = false;
  count = pos 0;
  exhausted = false;
  evidence_fingerprint = q.evidence_fingerprint;
  state_corrupt = false;
  storage_error = true;
  changed = false;
}

-- The two places: the fallback's access is `none` where no fallback is configured.
pub record Sites : Type 0 where
  pub primary : Site
  pub fallback : Site

abbrev pub after_fallback : Option Reservation × Site → Request → Site → Reservation × Sites
after_fallback (none, second) q first = (refused q, record { primary = first; fallback = second })
after_fallback (some r, second) q first = (r, record { primary = first; fallback = second })

abbrev pub after_primary :
    Library
    → Option Reservation × Site
    → Process
    → Option Access
    → Request
    → Site
    → Reservation × Sites
after_primary py (some r, first) p fallback q second =
    (r, record { primary = first; fallback = second })
after_primary py (none, first) p none q second =
    (refused q, record { primary = first; fallback = second })
after_primary py (none, first) p (some a) q second =
    after_fallback (reserve_at py p a q second) q first

-- `reserve`
unfoldable pub reserve :
    Library → Process → Access → Option Access → Request → Sites → Reservation × Sites
unfolding reserve_at
reserve py p a fallback q sites =
    after_primary py (reserve_at py p a q sites.primary) p fallback q sites.fallback
