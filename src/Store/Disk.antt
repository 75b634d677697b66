-- ===== src/Store/Disk.antt =====
-- A plan of the store on disk: the reads of store.py, and the publication of the manifest.
use codex_ralph_vault_loop.Base.{
  ℕ, ◌*◌, Bool, true, false, not, ◌&&◌, Option, none, some, List, [], ◌∷◌, String, if◌then◌else◌,
}
use codex_ralph_vault_loop.Python.{Library, ok, err, require}
use codex_ralph_vault_loop.Store.Checked.{store, integrity, io, is_corrupt, Checked, ◌>>=◌, ◌>>◌}
use codex_ralph_vault_loop.Store.State.{State, state_dict, state_limit}
use codex_ralph_vault_loop.Store.Validate.{validate_state}
use codex_ralph_vault_loop.Store.Event.{Event}
use codex_ralph_vault_loop.Store.Record.{validate_event}
use codex_ralph_vault_loop.Store.Journal.{
  validate_sequence_and_hashes, validate_event_ownership, validate_ownership, validate_state_cursor,
  reconcile_state, reconstruct_state,
}
use codex_ralph_vault_loop.Store.Manifest.{
  Manifest, manifest_dict, manifest_limit, validate_manifest, manifest_candidate,
}
use codex_ralph_vault_loop.Store.Files.{
  Document, absent, Lines, Write, read_json, read_jsonl, publish_json,
}

pub record Disk : Type 0 where
  pub snapshot : Document
  pub events : Lines
  pub manifest : Document

-- One call's surroundings: the checkout's identity, the clock, a new operation identity, whether
-- the directories and locks are safe, and how each write ends.
pub record Host : Type 0 where
  pub identity : String
  pub now : String
  pub fresh_id : String
  pub is_safe : Bool
  pub can_quarantine : Bool
  pub event_write : Write
  pub state_write : Write
  pub manifest_write : Write

abbrev pub Outcome : Type 0 → Type 0
Outcome A = Checked A × Disk

-- The next step of a call, where this one returned.
unfoldable pub and_then : {A B : Type 0} → Outcome A → (A → Disk → Outcome B) → Outcome B
and_then (ok a, disk) next = next a disk
and_then (err e, disk) next = (err e, disk)

abbrev pub journal_bytes : ℕ
journal_bytes = 8 * 1024 * 1024

abbrev pub journal_records : ℕ
journal_records = 4096

module _ (py : Library) where
  -- The publication of a snapshot.
  unfoldable pub publish_state : Host → State → Disk → Outcome (Unit {0})
  publish_state h s disk =
      let w = publish_json py h.state_write state_limit (state_dict s) disk.snapshot in
      (w.0, record disk { snapshot = w.1 })

module _ (py : Library) (is_red : String → Bool) where
  abbrev pub read_snapshot : String → Document → Checked (Option State)
  read_snapshot plan doc = read_json (validate_state py is_red (some plan)) doc

  -- `_read_plan_events`
  unfoldable pub verified : String → Bool → Checked (List Event × Bool) → Checked (List Event)
  verified identity reject_partial (err e) = if is_corrupt e then err integrity else err e
  verified identity reject_partial (ok (es, partial)) = do
    require (not (reject_partial && partial)) integrity
    validate_sequence_and_hashes py es
    validate_event_ownership identity es
    ok es

  unfoldable pub read_plan_events : String → String → Bool → Lines → Checked (List Event)
  read_plan_events identity plan reject_partial f = verified identity reject_partial (
      read_jsonl (validate_event py is_red (some plan) false none false) journal_bytes
        journal_records f)

  unfoldable pub accepted : String → String → Lines → Option State → Checked (Option State)
  accepted identity plan f none = ok none
  accepted identity plan f (some s) = do
    es ← read_plan_events identity plan false f
    validate_ownership identity s
    validate_state_cursor s es
    ok (some s)

  -- `read_state`
  unfoldable pub read_state : String → String → Disk → Checked (Option State)
  read_state identity plan disk = do
    s ← read_snapshot plan disk.snapshot
    accepted identity plan disk.events s

  -- `_load_state_for_write`, which moves a malformed snapshot away
  unfoldable pub loaded : Host → Disk → Checked (Option State) → Outcome (Option State)
  loaded h disk (ok s) = (ok s, disk)
  loaded h disk (err e) =
      if is_corrupt e
      then if h.can_quarantine then (ok none, record disk { snapshot = absent }) else (err io, disk)
      else (err e, disk)

  unfoldable pub load_state_for_write : Host → String → Disk → Outcome (Option State)
  load_state_for_write h plan disk = loaded h disk (read_snapshot plan disk.snapshot)

  -- The state that a writer goes on from, and whether it was recovered. A plan without a snapshot
  -- and without records is not registered.
  unfoldable pub current_state :
      String → String → String → Option State → List Event → Checked (State × Bool)
  current_state identity plan timestamp none [] = err store
  current_state identity plan timestamp none (e ∷ es) = do
    s ← reconstruct_state py is_red timestamp plan (e ∷ es)
    ok (s, true)
  current_state identity plan timestamp (some s) es = do
    validate_ownership identity s
    reconcile_state py is_red timestamp s es

  abbrev first_manifest : String → Manifest
  first_manifest identity = record {
    canonical_repo_identity = identity;
    generation = 0;
    plans = [];
  }

  -- `_read_manifest_locked`
  unfoldable pub loaded_manifest : Host → Disk → Checked (Option Manifest) → Outcome Manifest
  loaded_manifest h disk (ok none) = (ok (first_manifest h.identity), disk)
  loaded_manifest h disk (ok (some m)) = (ok m, disk)
  loaded_manifest h disk (err e) =
      if is_corrupt e
      then if h.can_quarantine
        then (ok (first_manifest h.identity), record disk { manifest = absent })
        else (err io, disk)
      else (err e, disk)

  unfoldable pub read_manifest_locked : Host → Disk → Outcome Manifest
  read_manifest_locked h disk =
      loaded_manifest h disk (read_json (validate_manifest py is_red) disk.manifest)

  -- `_publish_manifest_pointer_locked`, told the candidate
  unfoldable pub publish_candidate : Host → Disk → Manifest × Bool → Outcome Manifest
  publish_candidate h disk (c, false) = (ok c, disk)
  publish_candidate h disk (c, true) =
      let w = publish_json py h.manifest_write manifest_limit (manifest_dict c) disk.manifest in
      ((do w.0; ok c), record disk { manifest = w.1 })

  unfoldable pub publish_pointer : Host → State → Bool → Manifest → Disk → Outcome Manifest
  publish_pointer h s force m disk =
      and_then (manifest_candidate py is_red m s force, disk) λ c disk. publish_candidate h disk c
