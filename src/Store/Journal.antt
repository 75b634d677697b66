-- ===== src/Store/Journal.antt =====
-- The journal of a plan in store.py: `_validate_sequence_and_hashes`,
-- `_validate_event_ownership`, `_validate_ownership`, `_validate_state_cursor` and
-- `_state_after_event`, and the two recoveries, `_reconcile_state` and `_reconstruct_state`.
use codex_ralph_vault_loop.Base.{
  ℕ, suc, Bool, true, false, not, ◌&&◌, ◌||◌, Option, none, some, List, [], ◌∷◌, length, drop,
  String, ◌==◌, is_empty, leb, eqb, if◌then◌else◌,
}
use codex_ralph_vault_loop.Base.Int.{pos}
use codex_ralph_vault_loop.Json.{bool, int, text, obj, Dict, dict, update, set}
use codex_ralph_vault_loop.Python.{Library, ok, err, require}
use codex_ralph_vault_loop.Store.Checked.{store, integrity, Checked, ◌>>=◌, ◌>>◌}
use codex_ralph_vault_loop.Store.State.{State, Git, git_dict, state_dict}
use codex_ralph_vault_loop.Store.Validate.{validate_state, new_state}
use codex_ralph_vault_loop.Store.Event.{Event, event_dict, event_record_hash}

-- `events[n - 1]`, for `n` from 1
unfoldable pub nth_event : ℕ → List Event → Option Event
nth_event n [] = none
nth_event ℕ.zero (e ∷ es) = none
nth_event (suc ℕ.zero) (e ∷ es) = some e
nth_event (suc (suc n)) (e ∷ es) = nth_event (suc n) es

-- `_operation_event_from_records`
unfoldable pub operation_event : String → List Event → Option Event
operation_event operation [] = none
operation_event operation (e ∷ es) =
    if e.operation_id == operation then some e else operation_event operation es

-- `events[-1]["record_hash"] if events else ""`
abbrev pub last_hash : String → List Event → String
last_hash previous [] = previous
last_hash previous (e ∷ es) = last_hash e.record_hash es

-- A repository that is given is the expected one.
abbrev pub is_owned : String → Git → Bool
is_owned expected g = is_empty g.repository_id || g.repository_id == expected

-- `_validate_ownership`
unfoldable pub validate_ownership : String → State → Checked (Unit {0})
validate_ownership expected s = require (is_owned expected s.git) integrity

-- `_validate_event_ownership`
unfoldable pub validate_event_ownership : String → List Event → Checked (Unit {0})
validate_event_ownership expected [] = ok tt
validate_event_ownership expected (e ∷ es) = do
  require (is_owned expected e.git) integrity
  validate_event_ownership expected es

-- The record hash that the cursor of a state names.
abbrev cursor_check : State → Option Event → Checked (Unit {0})
cursor_check s none = err integrity
cursor_check s (some e) = require (s.last_event_hash == e.record_hash) integrity

-- `_validate_state_cursor`
unfoldable pub validate_state_cursor : State → List Event → Checked (Unit {0})
validate_state_cursor s es = do
  require (leb s.last_event_sequence (length es)) integrity
  if eqb s.last_event_sequence 0
      then require (is_empty s.last_event_hash) integrity
      else cursor_check s (nth_event s.last_event_sequence es)

-- `event.get("state_patch") or {}` and the update by it
abbrev pub patched : Event → Dict → Dict
patched e d = update d e.state_patch

-- The five fields that each record moves.
abbrev pub moved : State → Event → String → Dict → Dict
moved s e timestamp d = update d (
    dict (
      ("generation", int (pos (suc s.generation)))
      ∷ ("last_operation_id", text e.operation_id)
      ∷ ("last_event_sequence", int (pos e.sequence))
      ∷ ("last_event_hash", text e.record_hash)
      ∷ ("updated_at", text timestamp)
      ∷ []))

-- `if event.get("plan_path")`
abbrev pub with_path : Event → Dict → Dict
with_path e d = if is_empty e.plan_path then d else set "plan_path" (text e.plan_path) d

-- `if event.get("kind") == "decision"`
abbrev pub with_decision : Event → Dict → Dict
with_decision e d =
    if e.kind == "decision"
    then set "latest_decision"
        (obj (dict (("event_id", text e.event_id) ∷ ("summary", text e.summary) ∷ []))) d
    else d

-- The fields that a record carries; a validated record has all of them.
abbrev pub carried_status : Event → Dict
carried_status e = dict (
    ("status", text e.status)
    ∷ ("classification", text e.classification)
    ∷ ("phase", text e.phase)
    ∷ ("next_action", text e.next_action)
    ∷ [])

abbrev pub carried_writer : Event → Dict
carried_writer e = dict (
    ("writer_session_id", text e.writer_session_id)
    ∷ ("model_family", text e.model_family)
    ∷ ("model_source", text e.model_source)
    ∷ ("model_verified", bool e.model_verified)
    ∷ ("origin", text e.origin)
    ∷ ("intent", text e.intent)
    ∷ [])

-- The update by them; the `git` of a validated record is not empty.
abbrev pub copied : Event → Dict → Dict
copied e d =
    update (set "git" (obj (git_dict e.git)) (with_path e (update d (carried_status e))))
      (carried_writer e)

-- The candidate that `_state_after_event` validates.
abbrev pub after_dict : State → Event → String → Dict
after_dict s e timestamp =
    with_decision e
      (copied e (patched e (moved s e timestamp (set "semantic_hash" (text "") (state_dict s)))))

-- `event.get("plan_id") or result.get("plan_id")`
abbrev pub plan_of : State → Event → String
plan_of s e = if is_empty e.plan_id then s.plan_id else e.plan_id

module _ (py : Library) where
  -- The loop of `_validate_sequence_and_hashes`, from an expected sequence and a previous hash.
  unfoldable pub validate_chain : ℕ → String → List Event → Checked (Unit {0})
  validate_chain expected previous [] = ok tt
  validate_chain expected previous (e ∷ es) = do
    require (eqb e.sequence expected) integrity
    require (e.previous_event_hash == previous) integrity
    require (not (is_empty e.record_hash) && e.record_hash == event_record_hash py (event_dict e))
        integrity
    validate_chain (suc expected) e.record_hash es

  -- `_validate_sequence_and_hashes`
  unfoldable pub validate_sequence_and_hashes : List Event → Checked (Unit {0})
  validate_sequence_and_hashes es = validate_chain 1 "" es

module _ (py : Library) (is_red : String → Bool) where
  -- `_state_after_event`
  unfoldable pub state_after_event : String → State → Event → Checked State
  state_after_event timestamp s e =
      validate_state py is_red (some (plan_of s e)) (after_dict s e timestamp)

  -- The loop of the two recoveries.
  unfoldable pub replay : String → State → List Event → Checked State
  replay timestamp s [] = ok s
  replay timestamp s (e ∷ es) = do next ← state_after_event timestamp s e; replay timestamp next es

  -- `_reconcile_state`
  unfoldable pub reconcile_state : String → State → List Event → Checked (State × Bool)
  reconcile_state timestamp s es = do
    validate_state_cursor s es
    if eqb s.last_event_sequence (length es) then ok (s, false) else do
      recovered ← replay timestamp s (drop s.last_event_sequence es)
      valid ← validate_state py is_red (some s.plan_id) (state_dict recovered)
      ok (valid, true)

  -- `_reconstruct_state`
  unfoldable pub reconstruct_state : String → String → List Event → Checked State
  reconstruct_state timestamp plan [] = err store
  reconstruct_state timestamp plan (e ∷ es) = do
    first ← new_state py is_red plan e.plan_path timestamp (
        dict (
          ("status", text e.status)
          ∷ ("classification", text e.classification)
          ∷ ("phase", text e.phase)
          ∷ ("git", obj (git_dict e.git))
          ∷ ("writer_session_id", text e.writer_session_id)
          ∷ ("model_family", text e.model_family)
          ∷ ("model_source", text e.model_source)
          ∷ ("model_verified", bool e.model_verified)
          ∷ ("origin", text e.origin)
          ∷ ("intent", text e.intent)
          ∷ []))
    state ← replay timestamp first (e ∷ es)
    validate_state py is_red (some plan) (state_dict state)
