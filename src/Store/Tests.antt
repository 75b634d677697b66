-- ===== src/Store/Tests.antt =====
-- Runs of the store at concrete inputs.
mod Calls
use Prim.Native.String.{◌++◌}
use codex_ralph_vault_loop.Base.{
  ℕ, ◌≡◌, refl, Bool, true, false, none, [], ◌∷◌, String, ◌==◌, if◌then◌else◌, some, length,
}
use codex_ralph_vault_loop.Json.{
  Json, null, obj, get_or, text, Dict, end, dict, get, set, update, remove,
}
use codex_ralph_vault_loop.Json.Eq.{json_eq}
use codex_ralph_vault_loop.Python.{Library, ok, err}
use codex_ralph_vault_loop.Store.Checked.{◌>>=◌, io, is_corrupt}
use codex_ralph_vault_loop.Store.Fields.{
  matches_id, matches_code, matches_commit, matches_hash, object, enum, integer, boolean,
  check_version, known_keys, hash_text, code_items, items, code_list, validation_fields, validation,
  bounded_text, timestamp_text, identifier, plan_id, repo_path, text_items, text_list, path_items,
  path_list, reject_red,
}
use codex_ralph_vault_loop.Store.State.{
  State, Git, state_dict, matches_expected, digest, encoded_size, state_semantic_hash,
}
use codex_ralph_vault_loop.Store.Validate.{
  git, decision, state_fields, seal_state, validate_state, new_state,
}
use codex_ralph_vault_loop.Store.Event.{
  Event, patch_fields, state_patch, event_record_hash, event_dict,
}
use codex_ralph_vault_loop.Store.Record.{event_fields, seal_event, validate_event}
use codex_ralph_vault_loop.Store.Build.{
  Draft, operation_state_hash, built_id, payload_hash, build_event,
}
use codex_ralph_vault_loop.Store.Chain.{build_event-extends}
use codex_ralph_vault_loop.Store.Journal.{
  operation_event, validate_ownership, validate_event_ownership, nth_event, validate_state_cursor,
  validate_chain, validate_sequence_and_hashes, state_after_event, replay, reconcile_state,
  reconstruct_state,
}
use codex_ralph_vault_loop.Store.Advance.{IsRecord, IsMoved, state_after_event-IsMoved}
use codex_ralph_vault_loop.Store.Recovery.{IsAtEnd}
use codex_ralph_vault_loop.Store.Reconcile.{
  IsRecovered, reconcile_state-IsRecovered, reconstruct_state-IsAtEnd,
}
use codex_ralph_vault_loop.Store.Update.{
  dict_or_empty, provenance_for_store, apply_fields, apply_update, changed_fields,
  material_state_patch, record_operation_payload,
}
use codex_ralph_vault_loop.Store.Manifest.{
  Manifest, store_path, pointer, pointers, validate_manifest, pointer_of, find_pointer,
  replace_pointer, change_with, change_of, manifest_change, changed_manifest, manifest_candidate,
}
use codex_ralph_vault_loop.Store.Discovery.{IsAdvanced, manifest_candidate-IsAdvanced}
use codex_ralph_vault_loop.Store.Files.{
  document, absent, succeeds, fails, corrupted, read_json, read_lines, read_jsonl, written,
  append_jsonl, publish_json,
}
use codex_ralph_vault_loop.Store.Disk.{
  Disk, Host, and_then, verified, read_plan_events, accepted, read_state, loaded,
  load_state_for_write, current_state, loaded_manifest, read_manifest_locked, publish_candidate,
  publish_pointer, publish_state,
}
use codex_ralph_vault_loop.Store.RecordEvent.{
  Request, StoreResult, assert_same_operation, candidate_of, new_step, step_for, decide,
  published_manifest, commit, perform, record_locked, after_preview, record_request,
}
use codex_ralph_vault_loop.Store.Growth.{IsGrown}
use codex_ralph_vault_loop.Store.Journaling.{record_request-IsGrown}
use codex_ralph_vault_loop.Store.Success.{IsDone, record_request-IsDone}

abbrev hexadecimal : String
hexadecimal = "0123456789abcdef0123456789abcdef0123456789abcdef0123456789abcdef"

abbrev hash : String
hash = "sha256:" ++ hexadecimal

abbrev shipped_hexadecimal : String
shipped_hexadecimal = "fedcba9876543210fedcba9876543210fedcba9876543210fedcba9876543210"

-- An encoding that tells one objective from the others.
abbrev encoded : Json → String
encoded (obj d) = if json_eq (get_or "objective" null d) (text "ship it") then "1" else "0"
encoded v = "0"

abbrev shipped_hash : String
shipped_hash = "sha256:" ++ shipped_hexadecimal

abbrev py : Library
py = record {
  sha256 = λ s. if s == "1" then shipped_hexadecimal else hexadecimal;
  repr = λ v. "0";
  lower = λ s. s;
  upper = λ s. s;
  dumps = encoded;
  float_of = λ s. none;
  int_of = λ s. none;
  is_alnum = λ c. true;
  is_space = λ c. false;
}

abbrev is_red : String → Bool
is_red s = s == "password"

abbrev checkout : Git
checkout = record {
  branch = "main";
  commit = "0123abc";
  workspace_instance_id = "ws-1";
  repository_id = "repo-1";
}

-- The state of a plan whose journal has one record.
abbrev started : State
started = record {
  plan_id = "plan-1";
  plan_path = "docs/plan.md";
  generation = 1;
  semantic_hash = hash;
  status = "planned";
  classification = "GREEN";
  phase = "";
  objective = "ship";
  latest_decision = none;
  next_action = "build";
  open_blockers = [];
  open_questions = "which order?" ∷ [];
  validation = end;
  active_files = [];
  last_operation_id = "op-1";
  last_event_sequence = 1;
  last_event_hash = hash;
  git = checkout;
  writer_session_id = "session-1";
  model_family = "sol";
  model_source = "payload";
  model_verified = true;
  origin = "implementation-progress";
  intent = "progress-maintenance";
  created_at = "t0";
  updated_at = "t1";
}

-- The event that made the plan active, and the one before it.
abbrev drafted : ℕ → String → String → Dict → Draft
drafted sequence operation previous patch = record {
  plan = "plan-1";
  operation = operation;
  report = record {
    kind = "phase_changed";
    summary = "begun";
    reason = "";
    next_action = "build";
    references = "docs/plan.md" ∷ [];
    evidence_codes = "tests:green" ∷ [];
  };
  timestamp = "t1";
  sequence = sequence;
  previous = previous;
  patch = patch;
  payload = dict (("kind", text "phase_changed") ∷ []);
}

abbrev recorded : ℕ → String → String → Dict → Event
recorded sequence operation previous patch = record {
  sequence = sequence;
  event_id = "evt-0123456789abcdef0123456789abcdef";
  operation_id = operation;
  timestamp = "t1";
  kind = "phase_changed";
  summary = "begun";
  reason = "";
  next_action = "build";
  status = "planned";
  classification = "GREEN";
  phase = "";
  plan_id = "plan-1";
  plan_path = "docs/plan.md";
  references = "docs/plan.md" ∷ [];
  evidence_codes = "tests:green" ∷ [];
  git = checkout;
  writer_session_id = "session-1";
  model_family = "sol";
  model_source = "payload";
  model_verified = true;
  origin = "implementation-progress";
  intent = "progress-maintenance";
  state_patch = patch;
  operation_payload_hash = hash;
  state_semantic_hash = hash;
  previous_event_hash = previous;
  record_hash = hash;
}

abbrev objective_patch : Dict
objective_patch = dict (("objective", text "ship it") ∷ [])

abbrev first : Event
first = recorded 1 "op-1" "" end

abbrev second : Event
second = recorded 2 "op-2" hash objective_patch

-- Opens the whole store for the runs below.
opened : ℕ
unfolding get set update remove json_eq ◌>>=◌ matches_id matches_code matches_commit matches_hash
    object enum integer boolean check_version known_keys hash_text code_items items code_list
    validation_fields validation bounded_text timestamp_text identifier plan_id repo_path text_items
    text_list path_items path_list reject_red matches_expected digest encoded_size
    state_semantic_hash git decision state_fields seal_state validate_state new_state patch_fields
    state_patch event_record_hash event_fields seal_event validate_event operation_state_hash
    built_id payload_hash build_event nth_event validate_state_cursor validate_chain
    validate_sequence_and_hashes state_after_event replay reconcile_state reconstruct_state
    operation_event validate_ownership validate_event_ownership dict_or_empty provenance_for_store
    apply_fields apply_update changed_fields material_state_patch record_operation_payload
    assert_same_operation candidate_of new_step step_for decide published_manifest commit perform
    record_locked after_preview record_request and_then verified read_plan_events accepted
    read_state loaded load_state_for_write current_state loaded_manifest read_manifest_locked
    publish_candidate publish_pointer publish_state corrupted read_json read_lines read_jsonl
    written append_jsonl publish_json is_corrupt store_path pointer pointers validate_manifest
    find_pointer replace_pointer change_with change_of manifest_change changed_manifest
    manifest_candidate
opened = 0

build-second : build_event py is_red started (drafted 2 "op-2" hash objective_patch) ≡ ok second
unfolding opened
build-second = refl

first-chain : validate_sequence_and_hashes py (first ∷ []) ≡ ok tt
unfolding opened
first-chain = refl

build_event-extends_example : validate_sequence_and_hashes py (first ∷ second ∷ []) ≡ ok tt
build_event-extends_example =
    build_event-extends py is_red (first ∷ []) started (drafted 2 "op-2" hash objective_patch)
      second first-chain refl refl build-second

first-IsRecord : IsRecord py is_red "plan-1" first
unfolding opened
first-IsRecord = (event_dict first, refl)

second-IsRecord : IsRecord py is_red "plan-1" second
unfolding opened
second-IsRecord = (event_dict second, refl)

-- The state after the second record.
abbrev advanced : State
advanced = record started {
  generation = 2;
  semantic_hash = shipped_hash;
  objective = "ship it";
  last_operation_id = "op-2";
  last_event_sequence = 2;
  updated_at = "t2";
}

advance : state_after_event py is_red "t2" started second ≡ ok advanced
unfolding opened
advance = refl

state_after_event-IsMoved_example : IsMoved started second advanced
state_after_event-IsMoved_example =
    state_after_event-IsMoved py is_red "plan-1" "t2" started advanced second second-IsRecord
      advance

both-chain : validate_sequence_and_hashes py (first ∷ second ∷ []) ≡ ok tt
unfolding opened
both-chain = refl

reconcile : reconcile_state py is_red "t2" started (first ∷ second ∷ []) ≡ ok (advanced, true)
unfolding opened
reconcile = refl

reconcile_state-IsRecovered_example :
    IsRecovered py is_red "plan-1" "t2" started (first ∷ second ∷ []) advanced
reconcile_state-IsRecovered_example =
    reconcile_state-IsRecovered py is_red "plan-1" "t2" started (first ∷ second ∷ [])
      (advanced, true) (first-IsRecord, (second-IsRecord, tt)) both-chain reconcile

abbrev rebuilt : State
rebuilt = record advanced { objective = "ship it"; open_questions = []; created_at = "t2" }

reconstruct : reconstruct_state py is_red "t2" "plan-1" (first ∷ second ∷ []) ≡ ok rebuilt
unfolding opened
reconstruct = refl

reconstruct_state-IsAtEnd_example :
    IsAtEnd (first ∷ second ∷ []) rebuilt × (rebuilt.generation ≡ 2) × (rebuilt.plan_id ≡ "plan-1")
reconstruct_state-IsAtEnd_example =
    reconstruct_state-IsAtEnd py is_red "plan-1" "t2" (first ∷ second ∷ []) rebuilt
      (first-IsRecord, (second-IsRecord, tt)) both-chain reconstruct
