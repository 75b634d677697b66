-- ===== src/Store/Update.antt =====
-- The candidate of an update in store.py: `_provenance_for_store`, `_apply_update`,
-- `_material_state_patch` and the payloads of an operation.
use codex_ralph_vault_loop.Base.{
  Bool, false, not, ◌&&◌, ◌||◌, Option, none, some, List, [], ◌∷◌, String, ◌==◌, is_empty,
  if◌then◌else◌,
}
use codex_ralph_vault_loop.Json.{
  Json, null, bool, text, obj, Dict, end, field, dict, get, get_or, set,
}
use codex_ralph_vault_loop.Json.Eq.{json_eq}
use codex_ralph_vault_loop.Python.{ok, require, truthy, is_text}
use codex_ralph_vault_loop.Store.Checked.{schema, store, conversion, Checked, ◌>>=◌, ◌>>◌}
use codex_ralph_vault_loop.Store.Fields.{is_one_of}
use codex_ralph_vault_loop.Store.State.{State, git_dict, state_dict, texts}

-- `dict(v or {})`
unfoldable pub dict_or_empty : Json → Checked Dict
dict_or_empty (obj d) = ok d
dict_or_empty v = do require (not (truthy v)) conversion; ok end

-- `_provenance_fields`, with its `git` apart
abbrev pub provenance_dict : Dict → Dict → Dict
provenance_dict git source = dict (
    ("git", obj git)
    ∷ ("writer_session_id", get_or "writer_session_id" (text "") source)
    ∷ ("model_family", get_or "model_family" (text "unknown") source)
    ∷ ("model_source", get_or "model_source" (text "unknown") source)
    ∷ ("model_verified", get_or "model_verified" (bool false) source)
    ∷ ("origin", get_or "origin" (text "implementation-progress") source)
    ∷ ("intent", get_or "intent" (text "progress-maintenance") source)
    ∷ [])

-- `_provenance_for_store`, for the identity of the checkout; no provenance is an empty one
unfoldable pub provenance_for_store : String → Dict → Checked Dict
unfolding get
provenance_for_store identity source = do
  git ← dict_or_empty (get_or "git" null source)
  let supplied = get_or "repository_id" (text "") git
  require (not (truthy supplied) || is_text identity supplied) store
  let fields = provenance_dict git source
  require
      (is_text "implementation-progress" (get_or "origin" null fields)
        && is_text "progress-maintenance" (get_or "intent" null fields))
      store
  ok (provenance_dict (set "repository_id" (text identity) git) source)

-- The keys that an update may not have.
abbrev pub derived_keys : List String
derived_keys =
    "schema_version" ∷ "plan_id" ∷ "semantic_hash" ∷ "generation" ∷ "last_operation_id"
    ∷ "last_event_sequence" ∷ "last_event_hash" ∷ "created_at" ∷ "updated_at" ∷ []

-- `(result.get("git") or {}).get("repository_id", "")`
abbrev repository_of : Dict → Json
repository_of d = elim (get_or "git" null d) [
  | obj g ↦ get_or "repository_id" (text "") g
  | _ ↦ text ""
]

-- The `git` of an update, which keeps the repository of the state where it names none.
abbrev keep_repository : Json → Dict → Dict
keep_repository known g = elim (get "repository_id" g) [
  | none ↦ if truthy known then set "repository_id" known g else g
  | some v ↦ g
]

-- The value that an update stores under a key.
abbrev updated_value : Dict → String → Json → Json
updated_value result key (obj g) =
    if key == "git" then obj (keep_repository (repository_of result) g) else obj g
updated_value result key v = v

-- The loop over the items of an update.
unfoldable pub apply_fields : Dict → Dict → Checked Dict
apply_fields result end = ok result
apply_fields result (field key v updates) = do
  require (not (is_one_of derived_keys key)) schema
  apply_fields (set key (updated_value result key v) result) updates

-- The status that an event of this kind gives.
abbrev pub status_after : String → Json → Option String
status_after kind status =
    if kind == "completed"
    then some "completed"
    else if kind == "reopened"
    then some "reopened"
    else if kind == "blocker_opened"
    then some "blocked"
    else if kind == "blocker_resolved" && is_text "blocked" status
    then some "active"
    else none

abbrev with_next_action : String → Dict → Dict
with_next_action next_action d =
    if is_empty next_action then d else set "next_action" (text next_action) d

-- The decision of an event that has no identity yet.
abbrev with_pending : String → String → Dict → Dict
with_pending kind summary d =
    if kind == "decision" && not (is_empty summary)
    then set "latest_decision"
        (obj (dict (("event_id", text "pending") ∷ ("summary", text summary) ∷ []))) d
    else d

abbrev with_status : String → Dict → Dict
with_status kind d = elim (status_after kind (get_or "status" null d)) [
  | none ↦ d
  | some status ↦ set "status" (text status) d
]

-- `_apply_update`
unfoldable pub apply_update : State → Dict → String → String → String → Checked Dict
apply_update s updates kind summary next_action = do
  result ← apply_fields (set "semantic_hash" (text "") (state_dict s)) updates
  ok (with_status kind (with_pending kind summary (with_next_action next_action result)))

-- `STATE_PATCH_KEYS`, in the order in which `_state_patch` reads them
abbrev pub patch_keys : List String
patch_keys =
    "plan_path" ∷ "status" ∷ "classification" ∷ "phase" ∷ "objective" ∷ "latest_decision"
    ∷ "next_action" ∷ "open_blockers" ∷ "open_questions" ∷ "validation" ∷ "active_files" ∷ "git"
    ∷ "model_family" ∷ "model_source" ∷ "model_verified" ∷ "origin" ∷ "intent" ∷ []

unfoldable pub changed_fields : List String → Bool → Dict → Dict → Dict
changed_fields [] include_all before after = end
changed_fields (key ∷ keys) include_all before after =
    let rest = changed_fields keys include_all before after in
    let new = get_or key null after in
    if include_all || not (json_eq (get_or key null before) new) then field key new rest else rest

-- `_material_state_patch`
unfoldable pub material_state_patch : Dict → Dict → Bool → Dict
material_state_patch before after include_all = changed_fields patch_keys include_all before after

-- What the caller says of an event; a list that is `None` is an empty one.
pub record Report : Type 0 where
  pub kind : String
  pub summary : String
  pub reason : String
  pub next_action : String
  pub references : List String
  pub evidence_codes : List String

-- `_registration_operation_payload`
unfoldable pub registration_operation_payload : State → Report → Dict
registration_operation_payload s r = dict (
    ("kind", text "started")
    ∷ ("summary", text r.summary)
    ∷ ("reason", text r.reason)
    ∷ ("references", texts r.references)
    ∷ ("evidence_codes", texts r.evidence_codes)
    ∷ ("plan_path", text s.plan_path)
    ∷ ("status", text s.status)
    ∷ ("classification", text s.classification)
    ∷ ("phase", text s.phase)
    ∷ ("objective", text s.objective)
    ∷ ("next_action", text s.next_action)
    ∷ ("git", obj (git_dict s.git))
    ∷ ("model_family", text s.model_family)
    ∷ ("model_source", text s.model_source)
    ∷ ("model_verified", bool s.model_verified)
    ∷ [])

-- `_record_operation_payload`
unfoldable pub record_operation_payload : Report → Dict → Dict → Dict
record_operation_payload r state_update provenance = dict (
    ("kind", text r.kind)
    ∷ ("summary", text r.summary)
    ∷ ("reason", text r.reason)
    ∷ ("next_action", text r.next_action)
    ∷ ("references", texts r.references)
    ∷ ("evidence_codes", texts r.evidence_codes)
    ∷ ("state_update", obj state_update)
    ∷ ("provenance", obj provenance)
    ∷ [])
