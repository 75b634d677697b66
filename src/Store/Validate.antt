-- ===== src/Store/Validate.antt =====
-- The validation of a snapshot: `_git`, `validate_state` and `new_state` of schema.py.
use codex_ralph_vault_loop.Base.{
  Bool, true, false, ◌||◌, Option, none, some, [], ◌∷◌, String, ◌==◌, is_empty, leb,
}
use codex_ralph_vault_loop.Base.Int.{pos}
use codex_ralph_vault_loop.Json.{Json, null, bool, int, text, Dict, dict, get, get_or, set, update}
use codex_ralph_vault_loop.Python.{Library, ok, require}
use codex_ralph_vault_loop.Store.Checked.{schema, Checked, ◌>>=◌, ◌>>◌}
use codex_ralph_vault_loop.Store.Fields.{
  object, enum, integer, boolean, check_version, known_keys, hash_text, validation, bounded_text,
  timestamp_text, identifier, plan_id, repo_path, text_list, path_list, reject_red, matches_commit,
}
use codex_ralph_vault_loop.Store.State.{
  valid_statuses, valid_classifications, valid_model_families, valid_model_sources, Git, Decision,
  State, current_schema_version, state_dict, state_keys, empty_object, no_items, matches_expected,
  state_limit, encoded_size, with_hash,
}

module _ (py : Library) (is_red : String → Bool) where
  -- `_git`
  unfoldable pub git : Json → Checked Git
  unfolding get
  git v = do
    d ← object v
    require (known_keys ("branch" ∷ "commit" ∷ "workspace_instance_id" ∷ "repository_id" ∷ []) d)
        schema
    commit ← bounded_text py is_red 80 true (get_or "commit" (text "") d)
    require (is_empty commit || matches_commit commit) schema
    branch ← bounded_text py is_red 240 true (get_or "branch" (text "") d)
    workspace ← identifier py is_red true (get_or "workspace_instance_id" (text "") d)
    repository ← identifier py is_red true (get_or "repository_id" (text "") d)
    ok (record {
      branch = branch;
      commit = commit;
      workspace_instance_id = workspace;
      repository_id = repository;
    })

  -- `latest_decision`, which is `None` or an object with two fields
  unfoldable pub decision : Json → Checked (Option Decision)
  unfolding get
  decision null = ok none
  decision v = do
    d ← object v
    require (known_keys ("event_id" ∷ "summary" ∷ []) d) schema
    event ← identifier py is_red true (get_or "event_id" (text "") d)
    summary ← bounded_text py is_red 400 true (get_or "summary" (text "") d)
    ok (some (record { event_id = event; summary = summary }))

  -- The fields of a snapshot, each checked, with no semantic hash yet; and the hash supplied.
  unfoldable pub state_fields : Option String → Dict → Checked (State × String)
  unfolding get matches_expected
  state_fields expected d = do
    check_version d
    require (known_keys state_keys d) schema
    plan ← plan_id py is_red false (get_or "plan_id" null d)
    require (matches_expected expected plan) schema
    path ← repo_path py is_red true (get_or "plan_path" (text "") d)
    generation ← integer 0 (get_or "generation" (int (pos 0)) d)
    status ← enum valid_statuses (get_or "status" (text "planned") d)
    classification ← enum valid_classifications (get_or "classification" (text "GREEN") d)
    phase ← bounded_text py is_red 160 true (get_or "phase" (text "") d)
    objective ← bounded_text py is_red 480 true (get_or "objective" (text "") d)
    next ← bounded_text py is_red 400 true (get_or "next_action" (text "") d)
    latest ← decision (get_or "latest_decision" null d)
    blockers ← text_list py is_red 8 400 (get_or "open_blockers" no_items d)
    questions ← text_list py is_red 8 400 (get_or "open_questions" no_items d)
    checks ← validation (get_or "validation" empty_object d)
    files ← path_list py is_red 16 (get_or "active_files" no_items d)
    operation ← identifier py is_red true (get_or "last_operation_id" (text "") d)
    sequence ← integer 0 (get_or "last_event_sequence" (int (pos 0)) d)
    event_hash ← hash_text true (get_or "last_event_hash" (text "") d)
    g ← git (get_or "git" empty_object d)
    writer ← identifier py is_red true (get_or "writer_session_id" (text "") d)
    family ← enum valid_model_families (get_or "model_family" (text "unknown") d)
    source ← enum valid_model_sources (get_or "model_source" (text "unknown") d)
    verified ← boolean (get_or "model_verified" (bool false) d)
    origin ← bounded_text py is_red 80 false (get_or "origin" (text "implementation-progress") d)
    intent ← bounded_text py is_red 80 false (get_or "intent" (text "progress-maintenance") d)
    created ← timestamp_text py is_red true (get_or "created_at" (text "") d)
    updated ← timestamp_text py is_red true (get_or "updated_at" (text "") d)
    supplied ← hash_text true (get_or "semantic_hash" (text "") d)
    ok (
      record {
        plan_id = plan;
        plan_path = path;
        generation = generation;
        semantic_hash = "";
        status = status;
        classification = classification;
        phase = phase;
        objective = objective;
        latest_decision = latest;
        next_action = next;
        open_blockers = blockers;
        open_questions = questions;
        validation = checks;
        active_files = files;
        last_operation_id = operation;
        last_event_sequence = sequence;
        last_event_hash = event_hash;
        git = g;
        writer_session_id = writer;
        model_family = family;
        model_source = source;
        model_verified = verified;
        origin = origin;
        intent = intent;
        created_at = created;
        updated_at = updated;
      },
      supplied,
    )

  -- The checks on the whole snapshot.
  unfoldable pub seal_state : State → String → Checked State
  seal_state s supplied = do
    let sealed = with_hash py s
    require (is_empty supplied || supplied == sealed.semantic_hash) schema
    reject_red py is_red (state_dict sealed)
    require (leb (encoded_size py (state_dict sealed)) state_limit) schema
    ok sealed

  -- `validate_state`
  unfoldable pub validate_state : Option String → Dict → Checked State
  validate_state expected d = do r ← state_fields expected d; seal_state r.0 r.1

  -- `new_state`
  unfoldable pub new_state : String → String → String → Dict → Checked State
  unfolding update set
  new_state plan path now fields = validate_state (some plan) (
      update
        (dict (
          ("schema_version", current_schema_version)
          ∷ ("plan_id", text plan)
          ∷ ("plan_path", text path)
          ∷ ("generation", int (pos 0))
          ∷ ("status", text "planned")
          ∷ ("classification", text "GREEN")
          ∷ ("phase", text "")
          ∷ ("objective", text "")
          ∷ ("latest_decision", null)
          ∷ ("next_action", text "")
          ∷ ("open_blockers", no_items)
          ∷ ("open_questions", no_items)
          ∷ ("validation", empty_object)
          ∷ ("active_files", no_items)
          ∷ ("last_operation_id", text "")
          ∷ ("last_event_sequence", int (pos 0))
          ∷ ("last_event_hash", text "")
          ∷ ("git", empty_object)
          ∷ ("writer_session_id", text "")
          ∷ ("model_family", text "unknown")
          ∷ ("model_source", text "unknown")
          ∷ ("model_verified", bool false)
          ∷ ("origin", text "implementation-progress")
          ∷ ("intent", text "progress-maintenance")
          ∷ ("created_at", text now)
          ∷ ("updated_at", text now)
          ∷ []))
        fields)
