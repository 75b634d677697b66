-- ===== src/Store/Record.antt =====
-- `validate_event` of schema.py.
use codex_ralph_vault_loop.Base.{
  ℕ, Bool, true, false, not, ◌||◌, Option, String, ◌==◌, is_empty, leb,
}
use codex_ralph_vault_loop.Base.Int.{pos}
use codex_ralph_vault_loop.Json.{null, bool, int, text, obj, Dict, end, get_or, get}
use codex_ralph_vault_loop.Python.{Library, ok, require}
use codex_ralph_vault_loop.Store.Checked.{schema, Checked, ◌>>=◌, ◌>>◌}
use codex_ralph_vault_loop.Store.Fields.{
  enum, integer, boolean, check_version, known_keys, hash_text, code_list, bounded_text,
  timestamp_text, identifier, plan_id, repo_path, path_list, reject_red,
}
use codex_ralph_vault_loop.Store.State.{
  valid_statuses, valid_classifications, valid_model_families, valid_model_sources, encoded_size,
  matches_expected,
}
use codex_ralph_vault_loop.Store.Validate.{git}
use codex_ralph_vault_loop.Store.Event.{
  Event, event_dict, event_keys, material_event_kinds, no_items, limit_or, state_patch,
  event_record_hash,
}

-- `record_hash == event_record_hash(normalized)`
abbrev pub is_hashed : Library → Event → Bool
is_hashed py e = e.record_hash == event_record_hash py (event_dict e)

module _ (py : Library) (is_red : String → Bool) where
  -- The fields of a record, each checked in the order of the source. A record of the unplanned
  -- journal may leave its plan out, and its kind is fixed.
  unfoldable pub event_fields : Option String → Bool → Bool → Dict → Checked Event
  unfolding get matches_expected
  event_fields expected unplanned allow_unhashed d = do
    check_version d
    require (known_keys event_keys d) schema
    sequence ← integer 1 (get_or "sequence" (int (pos 0)) d)
    event ← identifier py is_red false (get_or "event_id" null d)
    operation ← identifier py is_red false (get_or "operation_id" null d)
    stamp ← timestamp_text py is_red false (get_or "timestamp" null d)
    kind ← enum material_event_kinds (get_or "kind" null d)
    require (not unplanned || kind == "loose_commit_recorded") schema
    plan ← plan_id py is_red unplanned (get_or "plan_id" (text "") d)
    require (matches_expected expected plan) schema
    path ← repo_path py is_red true (get_or "plan_path" (text "") d)
    summary ← bounded_text py is_red 400 true (get_or "summary" (text "") d)
    reason ← bounded_text py is_red 400 true (get_or "reason" (text "") d)
    next ← bounded_text py is_red 400 true (get_or "next_action" (text "") d)
    status ← enum valid_statuses (get_or "status" (text "planned") d)
    classification ← enum valid_classifications (get_or "classification" (text "GREEN") d)
    phase ← bounded_text py is_red 160 true (get_or "phase" (text "") d)
    references ← path_list py is_red 8 (get_or "references" no_items d)
    codes ← code_list 8 (get_or "evidence_codes" no_items d)
    g ← git py is_red (get_or "git" (obj end) d)
    writer ← identifier py is_red true (get_or "writer_session_id" (text "") d)
    family ← enum valid_model_families (get_or "model_family" (text "unknown") d)
    source ← enum valid_model_sources (get_or "model_source" (text "unknown") d)
    verified ← boolean (get_or "model_verified" (bool false) d)
    origin ← bounded_text py is_red 80 false (get_or "origin" (text "implementation-progress") d)
    intent ← bounded_text py is_red 80 false (get_or "intent" (text "progress-maintenance") d)
    patch ← state_patch py is_red (get_or "state_patch" (obj end) d)
    payload ← hash_text true (get_or "operation_payload_hash" (text "") d)
    resulting ← hash_text true (get_or "state_semantic_hash" (text "") d)
    previous ← hash_text true (get_or "previous_event_hash" (text "") d)
    hash ← hash_text allow_unhashed (get_or "record_hash" (text "") d)
    require (allow_unhashed || not (is_empty hash)) schema
    ok (record {
      sequence = sequence;
      event_id = event;
      operation_id = operation;
      timestamp = stamp;
      kind = kind;
      summary = summary;
      reason = reason;
      next_action = next;
      status = status;
      classification = classification;
      phase = phase;
      plan_id = plan;
      plan_path = path;
      references = references;
      evidence_codes = codes;
      git = g;
      writer_session_id = writer;
      model_family = family;
      model_source = source;
      model_verified = verified;
      origin = origin;
      intent = intent;
      state_patch = patch;
      operation_payload_hash = payload;
      state_semantic_hash = resulting;
      previous_event_hash = previous;
      record_hash = hash;
    })

  -- The checks on the whole record.
  unfoldable pub seal_event : Option ℕ → Event → Checked Event
  seal_event hard_limit e = do
    reject_red py is_red (event_dict e)
    require (is_empty e.record_hash || is_hashed py e) schema
    require (leb (encoded_size py (event_dict e)) (limit_or hard_limit)) schema
    ok e

  -- `validate_event`
  unfoldable pub validate_event : Option String → Bool → Option ℕ → Bool → Dict → Checked Event
  validate_event expected unplanned hard_limit allow_unhashed d = do
    e ← event_fields expected unplanned allow_unhashed d
    seal_event hard_limit e
