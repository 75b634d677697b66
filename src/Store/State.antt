-- ===== src/Store/State.antt =====
-- The state snapshot of schema.py: `_git`, `validate_state` and `new_state`.
use Prim.Native.String.{len, ◌++◌}
use codex_ralph_vault_loop.Base.{
  ℕ, ◌*◌, Bool, true, Option, none, some, List, [], ◌∷◌, map, String, ◌==◌,
}
use codex_ralph_vault_loop.Base.Int.{pos}
use codex_ralph_vault_loop.Json.{
  Json, null, bool, int, text, arr, obj, Dict, end, dict, remove, of_list,
}
use codex_ralph_vault_loop.Python.{Library}

abbrev pub valid_statuses : List String
valid_statuses = "planned" ∷ "active" ∷ "completed" ∷ "blocked" ∷ "superseded" ∷ "reopened" ∷ []

abbrev pub valid_classifications : List String
valid_classifications = "GREEN" ∷ "YELLOW" ∷ []

abbrev pub valid_model_families : List String
valid_model_families = "luna" ∷ "terra" ∷ "sol" ∷ "unknown" ∷ []

abbrev pub valid_model_sources : List String
valid_model_sources = "payload" ∷ "environment" ∷ "repository-default" ∷ "unknown" ∷ []

-- What `_git` returns.
pub record Git : Type 0 where
  pub branch : String
  pub commit : String
  pub workspace_instance_id : String
  pub repository_id : String

pub record Decision : Type 0 where
  pub event_id : String
  pub summary : String

abbrev pub git_dict : Git → Dict
git_dict g = dict (
    ("branch", text g.branch)
    ∷ ("commit", text g.commit)
    ∷ ("workspace_instance_id", text g.workspace_instance_id)
    ∷ ("repository_id", text g.repository_id)
    ∷ [])

abbrev pub decision_json : Option Decision → Json
decision_json none = null
decision_json (some d) =
    obj (dict (("event_id", text d.event_id) ∷ ("summary", text d.summary) ∷ []))

abbrev pub texts : List String → Json
texts xs = arr (of_list (map text xs))

-- A validated snapshot. Its schema version is the current one.
pub record State : Type 0 where
  pub plan_id : String
  pub plan_path : String
  pub generation : ℕ
  pub semantic_hash : String
  pub status : String
  pub classification : String
  pub phase : String
  pub objective : String
  pub latest_decision : Option Decision
  pub next_action : String
  pub open_blockers : List String
  pub open_questions : List String
  pub validation : Dict
  pub active_files : List String
  pub last_operation_id : String
  pub last_event_sequence : ℕ
  pub last_event_hash : String
  pub git : Git
  pub writer_session_id : String
  pub model_family : String
  pub model_source : String
  pub model_verified : Bool
  pub origin : String
  pub intent : String
  pub created_at : String
  pub updated_at : String

abbrev pub current_schema_version : Json
current_schema_version = int (pos 1)

-- The dictionary that `validate_state` returns.
abbrev pub state_dict : State → Dict
state_dict s = dict (
    ("schema_version", current_schema_version)
    ∷ ("plan_id", text s.plan_id)
    ∷ ("plan_path", text s.plan_path)
    ∷ ("generation", int (pos s.generation))
    ∷ ("semantic_hash", text s.semantic_hash)
    ∷ ("status", text s.status)
    ∷ ("classification", text s.classification)
    ∷ ("phase", text s.phase)
    ∷ ("objective", text s.objective)
    ∷ ("latest_decision", decision_json s.latest_decision)
    ∷ ("next_action", text s.next_action)
    ∷ ("open_blockers", texts s.open_blockers)
    ∷ ("open_questions", texts s.open_questions)
    ∷ ("validation", obj s.validation)
    ∷ ("active_files", texts s.active_files)
    ∷ ("last_operation_id", text s.last_operation_id)
    ∷ ("last_event_sequence", int (pos s.last_event_sequence))
    ∷ ("last_event_hash", text s.last_event_hash)
    ∷ ("git", obj (git_dict s.git))
    ∷ ("writer_session_id", text s.writer_session_id)
    ∷ ("model_family", text s.model_family)
    ∷ ("model_source", text s.model_source)
    ∷ ("model_verified", bool s.model_verified)
    ∷ ("origin", text s.origin)
    ∷ ("intent", text s.intent)
    ∷ ("created_at", text s.created_at)
    ∷ ("updated_at", text s.updated_at)
    ∷ [])

abbrev pub state_keys : List String
state_keys =
    "schema_version" ∷ "plan_id" ∷ "plan_path" ∷ "generation" ∷ "semantic_hash" ∷ "status"
    ∷ "classification" ∷ "phase" ∷ "objective" ∷ "latest_decision" ∷ "next_action" ∷ "open_blockers"
    ∷ "open_questions" ∷ "validation" ∷ "active_files" ∷ "last_operation_id" ∷ "last_event_sequence"
    ∷ "last_event_hash" ∷ "git" ∷ "writer_session_id" ∷ "model_family" ∷ "model_source"
    ∷ "model_verified" ∷ "origin" ∷ "intent" ∷ "created_at" ∷ "updated_at" ∷ []

-- `pop` of each key
abbrev pub without : List String → Dict → Dict
without [] d = d
without (k ∷ ks) d = without ks (remove k d)

abbrev pub empty_object : Json
empty_object = obj end

abbrev pub no_items : Json
no_items = arr (of_list [])

-- `expected_plan_id is None or plan_id == expected_plan_id`
unfoldable pub matches_expected : Option String → String → Bool
matches_expected none id = true
matches_expected (some expected) id = id == expected

abbrev pub state_limit : ℕ
state_limit = 8 * 1024

module _ (py : Library) where
  -- `digest`
  unfoldable pub digest : Json → String
  digest v = "sha256:" ++ py.sha256 (py.dumps v)

  -- `encoded_size`
  unfoldable pub encoded_size : Dict → ℕ
  encoded_size d = len (py.dumps (obj d))

  -- `state_semantic_hash`
  unfoldable pub state_semantic_hash : Dict → String
  state_semantic_hash d = digest (
      obj (
        without
          ("semantic_hash" ∷ "generation" ∷ "last_operation_id" ∷ "last_event_sequence"
            ∷ "last_event_hash" ∷ "updated_at" ∷ "created_at" ∷ "writer_session_id"
            ∷ "writer_process_id" ∷ [])
          d))

  abbrev pub with_hash : State → State
  with_hash s = record s { semantic_hash = state_semantic_hash (state_dict s) }
