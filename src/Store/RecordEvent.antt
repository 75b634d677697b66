-- ===== src/Store/RecordEvent.antt =====
-- `record_event` and `update_state` of store.py.
use codex_ralph_vault_loop.Base.{
  ℕ, ◌+◌, Bool, true, false, not, ◌&&◌, ◌||◌, Option, none, some, List, [], ◌∷◌, length, String,
  ◌==◌, is_empty, if◌then◌else◌,
}
use codex_ralph_vault_loop.Json.{obj, text, Dict, end, update}
use codex_ralph_vault_loop.Json.Eq.{json_eq}
use codex_ralph_vault_loop.Python.{Library, ok, err, require}
use codex_ralph_vault_loop.Store.Checked.{
  schema, store, idempotency, unsafe_path, is_corrupt, Checked, ◌>>=◌, ◌>>◌,
}
use codex_ralph_vault_loop.Store.Fields.{is_one_of, identifier}
use codex_ralph_vault_loop.Store.State.{State, state_dict, state_semantic_hash, without}
use codex_ralph_vault_loop.Store.Validate.{validate_state}
use codex_ralph_vault_loop.Store.Event.{Event, event_dict, material_event_kinds, event_limit}
use codex_ralph_vault_loop.Store.Journal.{
  operation_event, last_hash, validate_ownership, state_after_event,
}
use codex_ralph_vault_loop.Store.Update.{
  Report, apply_update, material_state_patch, record_operation_payload, provenance_for_store,
}
use codex_ralph_vault_loop.Store.Build.{Draft, build_event}
use codex_ralph_vault_loop.Store.Manifest.{Manifest, validate_manifest}
use codex_ralph_vault_loop.Store.Files.{append_jsonl, read_json}
use codex_ralph_vault_loop.Store.Disk.{
  Disk, Host, Outcome, and_then, journal_bytes, journal_records, read_plan_events, read_state,
  load_state_for_write, current_state, read_manifest_locked, publish_pointer, publish_state,
}

-- A call, with the identity of its operation settled and its provenance checked.
pub record Request : Type 0 where
  pub plan : String
  pub report : Report
  pub operation : String
  pub state_update : Dict
  pub provenance : Option Dict
  pub timestamp : String

-- The fields in which two records of one operation may differ.
abbrev linked_keys : List String
linked_keys =
    "event_id" ∷ "timestamp" ∷ "record_hash" ∷ "state_semantic_hash" ∷ "operation_payload_hash"
    ∷ "status" ∷ "classification" ∷ "phase" ∷ "plan_path" ∷ "git" ∷ "writer_session_id"
    ∷ "model_family" ∷ "model_source" ∷ "model_verified" ∷ "origin" ∷ "intent" ∷ []

-- `_assert_same_operation` for a candidate record
unfoldable pub assert_same_operation : Event → Event → Checked (Unit {0})
assert_same_operation existing candidate =
    if is_empty existing.operation_payload_hash || is_empty candidate.operation_payload_hash
    then require
        (json_eq (obj (without linked_keys (event_dict existing)))
          (obj (without linked_keys (event_dict candidate))))
        idempotency
    else require (existing.operation_payload_hash == candidate.operation_payload_hash) idempotency

-- What a call comes to under the lock: nothing new, or a record and the state that it describes.
pub data Step : Type 0 where
  settled : String → String → Step
  appends : Event → State → Step

pub record StoreResult : Type 0 where
  pub changed : Bool
  pub operation_id : String
  pub event_id : String
  pub reason : String
  pub state : State
  pub manifest : Option Manifest

-- The provenance of a call in a payload.
abbrev fields_of : Option Dict → Dict
fields_of none = end
fields_of (some d) = d

unfoldable pub checked_provenance : String → Option Dict → Checked (Option Dict)
checked_provenance identity none = ok none
checked_provenance identity (some d) = do p ← provenance_for_store identity d; ok (some p)

module _ (py : Library) (is_red : String → Bool) where
  -- The state that an update gives.
  unfoldable pub candidate_of : String → Request → State → Checked State
  unfolding update
  candidate_of identity r s = do
    d ← apply_update s r.state_update r.report.kind r.report.summary r.report.next_action
    c ← validate_state py is_red (some r.plan) (update d (fields_of r.provenance))
    validate_ownership identity c
    ok c

  -- The record of a call at a place in the journal.
  abbrev pub draft_of : Request → State → State → ℕ → String → Draft
  draft_of r s c sequence previous = record {
    plan = r.plan;
    operation = r.operation;
    report = r.report;
    timestamp = r.timestamp;
    sequence = sequence;
    previous = previous;
    patch = material_state_patch (state_dict s) (state_dict c) false;
    payload = record_operation_payload r.report r.state_update (fields_of r.provenance);
  }

  -- The step of a call whose operation is not in the journal.
  unfoldable pub new_step : Request → State → State → List Event → Checked Step
  new_step r s c es =
      if state_semantic_hash py (state_dict c) == state_semantic_hash py (state_dict s)
      then ok (settled "" "semantic state unchanged")
      else do
        e ← build_event py is_red c (draft_of r s c (length es + 1) (last_hash "" es))
        ok (appends e c)

  -- The step of a call, told the record of its operation.
  unfoldable pub step_for : Request → State → State → List Event → Option Event → Checked Step
  step_for r s c es none = new_step r s c es
  step_for r s c es (some existing) = do
    e ← build_event py is_red c (draft_of r s c existing.sequence existing.previous_event_hash)
    assert_same_operation existing e
    ok (settled existing.event_id "idempotent retry")

  -- The calls between the reading of the journal and the first write.
  unfoldable pub decide : String → Request → State → List Event → Checked Step
  decide identity r s es = do
    c ← candidate_of identity r s
    draft ← build_event py is_red c (draft_of r s c 1 "")
    step_for r s c es (operation_event r.operation es)

  -- The manifest of a result: published where the status has changed, read else.
  unfoldable pub published_manifest : Host → State → State → Disk → Outcome (Option Manifest)
  published_manifest h s next disk =
      if next.status == s.status
      then (read_json (validate_manifest py is_red) disk.manifest, disk)
      else and_then (read_manifest_locked py is_red h disk) λ m disk.
        and_then (publish_pointer py is_red h next false m disk) λ c disk. (ok (some c), disk)

  -- The writes of a new record. The state behind it is computed when the record is there.
  unfoldable pub commit :
      Host → Request → State → List Event → Event → State → Disk → Outcome StoreResult
  commit h r s es e c disk =
      let w =
        append_jsonl py h.event_write event_limit journal_bytes journal_records (length es)
          (event_dict e) disk.events in
      and_then (w.0, record disk { events = w.1 })
        λ _ disk.
          and_then (state_after_event py is_red r.timestamp c e, disk)
            λ next disk. and_then (publish_state py h next disk) λ _ disk.
              and_then (published_manifest h s next disk) λ m disk. (
                ok (record {
                  changed = true;
                  operation_id = r.operation;
                  event_id = e.event_id;
                  reason = "";
                  state = next;
                  manifest = m;
                }),
                disk,
              )

  -- The writes of a step.
  unfoldable pub perform :
      Host → Request → State → Bool → List Event → Step → Disk → Outcome StoreResult
  perform h r s recovered es (appends e c) disk = commit h r s es e c disk
  perform h r s recovered es (settled event reason) disk =
      and_then (if recovered then publish_state py h s disk else (ok tt, disk)) λ _ disk. (
        ok (record {
          changed = false;
          operation_id = r.operation;
          event_id = event;
          reason = reason;
          state = s;
          manifest = none;
        }),
        disk,
      )

  -- The part of `record_event` under the lock.
  unfoldable pub record_locked : Host → Request → Disk → Outcome StoreResult
  record_locked h r disk = and_then (load_state_for_write py is_red h r.plan disk) λ loaded disk.
      and_then (read_plan_events py is_red h.identity r.plan true disk.events, disk)
        λ es disk.
          and_then (current_state py is_red h.identity r.plan r.timestamp loaded es, disk)
            λ s disk.
              and_then (decide h.identity r s.0 es, disk)
                λ step disk. perform h r s.0 s.1 es step disk

  -- The call with its arguments checked, told what a look at the state gives. A snapshot that is
  -- malformed is moved away.
  unfoldable pub after_preview :
      Host → Request → Disk → Checked (Option State) → Outcome StoreResult
  after_preview h r disk (ok none) = (err store, disk)
  after_preview h r disk (ok (some s)) =
      and_then (candidate_of h.identity r s, disk)
        λ _ disk. if h.is_safe then record_locked h r disk else (err unsafe_path, disk)
  after_preview h r disk (err e) =
      if is_corrupt e && h.is_safe
      then (and_then (load_state_for_write py is_red h r.plan disk) λ _ disk. (err store, disk))
      else if is_corrupt e
      then (err unsafe_path, disk)
      else (err e, disk)

  unfoldable pub record_request : Host → Request → Disk → Outcome StoreResult
  record_request h r disk = after_preview h r disk (read_state py is_red h.identity r.plan disk)

  -- `_operation_id`
  unfoldable pub operation_id : String → String → Checked String
  operation_id fresh given =
      if is_empty given then ok fresh else identifier py is_red false (text given)

  -- The request of a call; an empty operation or time stands for none.
  unfoldable pub request :
      Host → String → Report → String → Dict → Option Dict → String → Checked Request
  request h plan report operation state_update provenance now = do
    require
        (is_one_of material_event_kinds report.kind && not (report.kind == "loose_commit_recorded"))
        schema
    id ← operation_id h.fresh_id operation
    p ← checked_provenance h.identity provenance
    ok (record {
      plan = plan;
      report = report;
      operation = id;
      state_update = state_update;
      provenance = p;
      timestamp = if is_empty now then h.now else now;
    })

  -- `record_event`
  unfoldable pub record_event :
      Host → String → Report → String → Dict → Option Dict → String → Disk → Outcome StoreResult
  record_event h plan report operation state_update provenance now disk =
      and_then (request h plan report operation state_update provenance now, disk)
        λ r disk. record_request h r disk
