-- ===== src/Store/Event.antt =====
-- The journal records of schema.py: `_state_patch`, `validate_event` and `event_record_hash`.
use codex_ralph_vault_loop.Base.{
  ℕ, suc, ◌*◌, Bool, true, false, Option, none, some, List, [], ◌∷◌, length, String, leb,
}
use codex_ralph_vault_loop.Base.Int.{pos}
use codex_ralph_vault_loop.Json.{
  Json, bool, int, text, arr, obj, Dict, end, field, dict, get, remove, size, of_list,
}
use codex_ralph_vault_loop.Python.{Library, ok, require}
use codex_ralph_vault_loop.Store.Checked.{schema, Checked, ◌>>=◌, ◌>>◌}
use codex_ralph_vault_loop.Store.Fields.{
  object, enum, boolean, known_keys, validation, bounded_text, repo_path, text_list, path_list,
  reject_red,
}
use codex_ralph_vault_loop.Store.State.{
  Git, git_dict, decision_json, texts, current_schema_version, valid_statuses,
  valid_classifications, valid_model_families, valid_model_sources, digest,
}
use codex_ralph_vault_loop.Store.Validate.{git, decision}

abbrev pub material_event_kinds : List String
material_event_kinds =
    "started" ∷ "phase_changed" ∷ "decision" ∷ "deviation" ∷ "blocker_opened" ∷ "blocker_resolved"
    ∷ "question_opened" ∷ "question_resolved" ∷ "validation_changed" ∷ "completed" ∷ "reopened"
    ∷ "migration_imported" ∷ "loose_commit_recorded" ∷ []

-- A validated journal record. Its schema version is the current one.
pub record Event : Type 0 where
  pub sequence : ℕ
  pub event_id : String
  pub operation_id : String
  pub timestamp : String
  pub kind : String
  pub summary : String
  pub reason : String
  pub next_action : String
  pub status : String
  pub classification : String
  pub phase : String
  pub plan_id : String
  pub plan_path : String
  pub references : List String
  pub evidence_codes : List String
  pub git : Git
  pub writer_session_id : String
  pub model_family : String
  pub model_source : String
  pub model_verified : Bool
  pub origin : String
  pub intent : String
  pub state_patch : Dict
  pub operation_payload_hash : String
  pub state_semantic_hash : String
  pub previous_event_hash : String
  pub record_hash : String

-- The dictionary that `validate_event` returns.
abbrev pub event_dict : Event → Dict
event_dict e = dict (
    ("schema_version", current_schema_version)
    ∷ ("sequence", int (pos e.sequence))
    ∷ ("event_id", text e.event_id)
    ∷ ("operation_id", text e.operation_id)
    ∷ ("timestamp", text e.timestamp)
    ∷ ("kind", text e.kind)
    ∷ ("summary", text e.summary)
    ∷ ("reason", text e.reason)
    ∷ ("next_action", text e.next_action)
    ∷ ("status", text e.status)
    ∷ ("classification", text e.classification)
    ∷ ("phase", text e.phase)
    ∷ ("plan_id", text e.plan_id)
    ∷ ("plan_path", text e.plan_path)
    ∷ ("references", texts e.references)
    ∷ ("evidence_codes", texts e.evidence_codes)
    ∷ ("git", obj (git_dict e.git))
    ∷ ("writer_session_id", text e.writer_session_id)
    ∷ ("model_family", text e.model_family)
    ∷ ("model_source", text e.model_source)
    ∷ ("model_verified", bool e.model_verified)
    ∷ ("origin", text e.origin)
    ∷ ("intent", text e.intent)
    ∷ ("state_patch", obj e.state_patch)
    ∷ ("operation_payload_hash", text e.operation_payload_hash)
    ∷ ("state_semantic_hash", text e.state_semantic_hash)
    ∷ ("previous_event_hash", text e.previous_event_hash)
    ∷ ("record_hash", text e.record_hash)
    ∷ [])

abbrev pub event_keys : List String
event_keys =
    "schema_version" ∷ "sequence" ∷ "event_id" ∷ "operation_id" ∷ "timestamp" ∷ "kind" ∷ "summary"
    ∷ "reason" ∷ "next_action" ∷ "status" ∷ "classification" ∷ "phase" ∷ "plan_id" ∷ "plan_path"
    ∷ "references" ∷ "evidence_codes" ∷ "git" ∷ "writer_session_id" ∷ "model_family"
    ∷ "model_source" ∷ "model_verified" ∷ "origin" ∷ "intent" ∷ "state_patch"
    ∷ "operation_payload_hash" ∷ "state_semantic_hash" ∷ "previous_event_hash" ∷ "record_hash" ∷ []

-- A check of one field of a patch.
abbrev pub FieldCheck : Type 0
FieldCheck = String × (Json → Checked Json)

-- The fields of a patch that are there, each checked, in the order of the checks.
unfoldable pub patch_fields : List FieldCheck → Dict → Checked Dict
patch_fields [] d = ok end
patch_fields (c ∷ cs) d =
    let rest = patch_fields cs d in
    elim (get c.0 d) [ none ↦ rest | some v ↦ do w ← c.1 v; others ← rest; ok (field c.0 w others) ]

-- The keys of a list of checks.
abbrev pub check_keys : List FieldCheck → List String
check_keys [] = []
check_keys (c ∷ cs) = c.0 ∷ check_keys cs

abbrev pub no_items : Json
no_items = arr (of_list [])

abbrev pub event_limit : ℕ
event_limit = 4 * 1024

-- `hard_limit or EVENT_HARD_LIMIT_BYTES`; the limit of unplanned records is the same
abbrev pub limit_or : Option ℕ → ℕ
limit_or none = event_limit
limit_or (some ℕ.zero) = event_limit
limit_or (some (suc n)) = suc n

-- `event_record_hash`
unfoldable pub event_record_hash : Library → Dict → String
event_record_hash py d = digest py (obj (remove "record_hash" d))

module _ (py : Library) (is_red : String → Bool) where
  abbrev text_check : ℕ → Bool → Json → Checked Json
  text_check limit allow_empty v = do s ← bounded_text py is_red limit allow_empty v; ok (text s)

  abbrev enum_check : List String → Json → Checked Json
  enum_check allowed v = do s ← enum allowed v; ok (text s)

  abbrev texts_check : Json → Checked Json
  texts_check v = do xs ← text_list py is_red 8 400 v; ok (texts xs)

  abbrev pub patch_checks : List FieldCheck
  patch_checks =
      ("plan_path", λ v. do s ← repo_path py is_red true v; ok (text s))
      ∷ ("status", enum_check valid_statuses)
      ∷ ("classification", enum_check valid_classifications)
      ∷ ("phase", text_check 160 true)
      ∷ ("objective", text_check 480 true)
      ∷ ("latest_decision", λ v. do d ← decision py is_red v; ok (decision_json d))
      ∷ ("next_action", text_check 400 true)
      ∷ ("open_blockers", texts_check)
      ∷ ("open_questions", texts_check)
      ∷ ("validation", λ v. do d ← validation v; ok (obj d))
      ∷ ("active_files", λ v. do xs ← path_list py is_red 16 v; ok (texts xs))
      ∷ ("git", λ v. do g ← git py is_red v; ok (obj (git_dict g)))
      ∷ ("model_family", enum_check valid_model_families)
      ∷ ("model_source", enum_check valid_model_sources)
      ∷ ("model_verified", λ v. do b ← boolean v; ok (bool b))
      ∷ ("origin", text_check 80 false)
      ∷ ("intent", text_check 80 false)
      ∷ []

  -- `_state_patch`
  unfoldable pub state_patch : Json → Checked Dict
  state_patch v = do
    d ← object v
    require (leb (size d) (length (check_keys patch_checks))) schema
    require (known_keys (check_keys patch_checks) d) schema
    patch ← patch_fields patch_checks d
    reject_red py is_red patch
    ok patch
