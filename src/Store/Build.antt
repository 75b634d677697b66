-- ===== src/Store/Build.antt =====
-- `_build_event` of store.py.
use Prim.Native.String.{◌++◌}
use codex_ralph_vault_loop.Base.{ℕ, Bool, true, false, none, some, [], ◌∷◌, String, take_text}
use codex_ralph_vault_loop.Base.Int.{pos}
use codex_ralph_vault_loop.Json.{bool, int, text, obj, Dict, end, field, dict}
use codex_ralph_vault_loop.Python.{Library, ok, err}
use codex_ralph_vault_loop.Store.Checked.{unbound_local, Checked, ◌>>=◌}
use codex_ralph_vault_loop.Store.State.{
  State, git_dict, state_dict, texts, current_schema_version, digest, state_semantic_hash, without,
}
use codex_ralph_vault_loop.Store.Event.{Event, event_dict, event_record_hash}
use codex_ralph_vault_loop.Store.Record.{validate_event}
use codex_ralph_vault_loop.Store.Update.{Report}

-- What `_build_event` is given besides the state.
pub record Draft : Type 0 where
  pub plan : String
  pub operation : String
  pub report : Report
  pub timestamp : String
  pub sequence : ℕ
  pub previous : String
  pub patch : Dict
  pub payload : Dict

module _ (py : Library) where
  -- `_operation_state_hash`
  unfoldable pub operation_state_hash : State → String
  operation_state_hash s = state_semantic_hash py (
      without
        ("semantic_hash" ∷ "generation" ∷ "last_operation_id" ∷ "last_event_sequence"
          ∷ "last_event_hash" ∷ "updated_at" ∷ "created_at" ∷ "writer_session_id" ∷ [])
        (state_dict s))

  unfoldable pub built_id : Draft → String
  built_id b =
      let material = dict (
        ("plan_id", text b.plan)
        ∷ ("kind", text b.report.kind)
        ∷ ("operation_id", text b.operation)
        ∷ ("sequence", int (pos b.sequence))
        ∷ ("summary", text b.report.summary)
        ∷ ("reason", text b.report.reason)
        ∷ ("next_action", text b.report.next_action)
        ∷ ("references", texts b.report.references)
        ∷ ("evidence_codes", texts b.report.evidence_codes)
        ∷ []) in
      "evt-" ++ take_text 32 (py.sha256 (py.dumps (obj material)))

  -- The digest of the operation's payload. For an empty one the source reads `event` before it
  -- has a value.
  unfoldable pub payload_hash : Dict → Checked String
  payload_hash end = err unbound_local
  payload_hash (field k v d) = ok (digest py (obj (field k v d)))

  -- The dictionary of a new record, with its hash or with an empty one.
  abbrev pub built_dict : State → Draft → String → String → Dict
  built_dict s b payload hash = dict (
      ("schema_version", current_schema_version)
      ∷ ("sequence", int (pos b.sequence))
      ∷ ("event_id", text (built_id b))
      ∷ ("operation_id", text b.operation)
      ∷ ("timestamp", text b.timestamp)
      ∷ ("kind", text b.report.kind)
      ∷ ("summary", text b.report.summary)
      ∷ ("reason", text b.report.reason)
      ∷ ("next_action", text b.report.next_action)
      ∷ ("status", text s.status)
      ∷ ("classification", text s.classification)
      ∷ ("phase", text s.phase)
      ∷ ("plan_id", text b.plan)
      ∷ ("plan_path", text s.plan_path)
      ∷ ("references", texts b.report.references)
      ∷ ("evidence_codes", texts b.report.evidence_codes)
      ∷ ("git", obj (git_dict s.git))
      ∷ ("writer_session_id", text s.writer_session_id)
      ∷ ("model_family", text s.model_family)
      ∷ ("model_source", text s.model_source)
      ∷ ("model_verified", bool s.model_verified)
      ∷ ("origin", text s.origin)
      ∷ ("intent", text s.intent)
      ∷ ("state_patch", obj b.patch)
      ∷ ("operation_payload_hash", text payload)
      ∷ ("state_semantic_hash", text (operation_state_hash s))
      ∷ ("previous_event_hash", text b.previous)
      ∷ ("record_hash", text hash)
      ∷ [])

module _ (py : Library) (is_red : String → Bool) where
  -- `_build_event`
  unfoldable pub build_event : State → Draft → Checked Event
  build_event s b = do
    payload ← payload_hash py b.payload
    unhashed ← validate_event py is_red (some b.plan) false none true (built_dict py s b payload "")
    validate_event py is_red (some b.plan) false none false
        (built_dict py s b payload (event_record_hash py (event_dict unhashed)))
