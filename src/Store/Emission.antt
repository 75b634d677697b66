-- ===== src/Store/Emission.antt =====
-- The ledger of context emissions: `validate_context_ledger_record` and `context_ledger_key` of
-- schema.py, `read_context_ledger` and `claim_context_emission` of store.py.
use codex_ralph_vault_loop.Base.{
  ℕ, suc, ◌*◌, Bool, true, false, not, ◌&&◌, ◌||◌, Option, none, some, List, [], ◌∷◌, length,
  String, ◌==◌, eqb, leb, if◌then◌else◌,
}
use codex_ralph_vault_loop.Base.Int.{pos}
use codex_ralph_vault_loop.Json.{null, int, text, Dict, dict, get_or, get}
use codex_ralph_vault_loop.Python.{Library, ok, err, require}
use codex_ralph_vault_loop.Store.Checked.{schema, integrity, io, Checked, ◌>>=◌, ◌>>◌}
use codex_ralph_vault_loop.Store.Fields.{
  enum, integer, check_version, known_keys, identifier, plan_id, reject_red,
}
use codex_ralph_vault_loop.Store.State.{current_schema_version, encoded_size}
use codex_ralph_vault_loop.Store.Files.{Lines, Write, read_jsonl, append_jsonl}

-- A validated record of the ledger.
pub record Emission : Type 0 where
  pub project_id : String
  pub workspace_instance_id : String
  pub session_id : String
  pub context_epoch : String
  pub plan : String
  pub progress_generation : ℕ
  pub capsule_kind : String
  pub emission_id : String

abbrev pub emission_dict : Emission → Dict
emission_dict e = dict (
    ("schema_version", current_schema_version)
    ∷ ("project_id", text e.project_id)
    ∷ ("workspace_instance_id", text e.workspace_instance_id)
    ∷ ("session_id", text e.session_id)
    ∷ ("context_epoch", text e.context_epoch)
    ∷ ("plan_id", text e.plan)
    ∷ ("progress_generation", int (pos e.progress_generation))
    ∷ ("capsule_kind", text e.capsule_kind)
    ∷ ("emission_id", text e.emission_id)
    ∷ [])

abbrev pub emission_keys : List String
emission_keys =
    "schema_version" ∷ "project_id" ∷ "workspace_instance_id" ∷ "session_id" ∷ "context_epoch"
    ∷ "plan_id" ∷ "progress_generation" ∷ "capsule_kind" ∷ "emission_id" ∷ []

abbrev pub capsule_kinds : List String
capsule_kinds = "full" ∷ "delta" ∷ "expanded" ∷ []

abbrev pub ledger_record_limit : ℕ
ledger_record_limit = 2 * 1024

abbrev pub ledger_bytes : ℕ
ledger_bytes = 4 * 1024 * 1024

abbrev pub ledger_records : ℕ
ledger_records = 4096

-- The seven fields of a key.
pub record Key : Type 0 where
  pub project_id : String
  pub workspace_instance_id : String
  pub session_id : String
  pub context_epoch : String
  pub plan : String
  pub progress_generation : ℕ
  pub capsule_kind : String

abbrev pub key_of : Emission → Key
key_of e = record {
  project_id = e.project_id;
  workspace_instance_id = e.workspace_instance_id;
  session_id = e.session_id;
  context_epoch = e.context_epoch;
  plan = e.plan;
  progress_generation = e.progress_generation;
  capsule_kind = e.capsule_kind;
}

unfoldable pub same_key : Key → Key → Bool
same_key a b =
    a.project_id == b.project_id
    && (a.workspace_instance_id == b.workspace_instance_id
        && (a.session_id == b.session_id
            && (a.context_epoch == b.context_epoch
                && (a.plan == b.plan
                    && (eqb a.progress_generation b.progress_generation
                        && a.capsule_kind == b.capsule_kind)))))

unfoldable pub is_key_in : Key → List Key → Bool
is_key_in k [] = false
is_key_in k (j ∷ js) = same_key j k || is_key_in k js

abbrev pub with_room : Emission → Option ℕ → Option (Emission × ℕ)
with_room e none = none
with_room e (some n) = some (e, n)

module _ (py : Library) (is_red : String → Bool) where
  unfoldable pub emission_fields : Dict → Checked Emission
  unfolding get
  emission_fields d = do
    check_version d
    require (known_keys emission_keys d) schema
    project ← identifier py is_red false (get_or "project_id" (text "") d)
    workspace ← identifier py is_red false (get_or "workspace_instance_id" (text "") d)
    session ← identifier py is_red false (get_or "session_id" (text "") d)
    epoch ← identifier py is_red false (get_or "context_epoch" (text "") d)
    plan ← plan_id py is_red false (get_or "plan_id" null d)
    generation ← integer 0 (get_or "progress_generation" (int (pos 0)) d)
    kind ← enum capsule_kinds (get_or "capsule_kind" (text "") d)
    emission ← identifier py is_red false (get_or "emission_id" (text "") d)
    ok (record {
      project_id = project;
      workspace_instance_id = workspace;
      session_id = session;
      context_epoch = epoch;
      plan = plan;
      progress_generation = generation;
      capsule_kind = kind;
      emission_id = emission;
    })

  unfoldable pub seal_emission : Emission → Checked Emission
  seal_emission e = do
    reject_red py is_red (emission_dict e)
    require (leb (suc (encoded_size py (emission_dict e))) ledger_record_limit) schema
    ok e

  -- `validate_context_ledger_record`
  unfoldable pub validate_emission : Dict → Checked Emission
  validate_emission d = do e ← emission_fields d; seal_emission e

  -- `context_ledger_key`, which validates its record once more
  unfoldable pub context_ledger_key : Dict → Checked Key
  context_ledger_key d = do e ← validate_emission d; ok (key_of e)

  -- A record with the key is among those that were read.
  unfoldable pub has_key : Key → List Emission → Checked Bool
  has_key k [] = ok false
  has_key k (e ∷ es) = do
    j ← context_ledger_key (emission_dict e)
    if same_key j k then ok true else has_key k es

  -- No key occurs twice.
  unfoldable pub check_distinct : List Key → List Emission → Checked (Unit {0})
  check_distinct seen [] = ok tt
  check_distinct seen (e ∷ es) = do
    k ← context_ledger_key (emission_dict e)
    require (not (is_key_in k seen)) integrity
    check_distinct (k ∷ seen) es

  -- The records of the ledger, without an incomplete last line.
  unfoldable pub read_emissions : Lines → Checked (List Emission)
  read_emissions f = do
    r ← read_jsonl validate_emission ledger_bytes ledger_records f
    require (not r.1) integrity
    ok r.0

  -- `read_context_ledger`
  unfoldable pub read_context_ledger : Lines → Checked (List Emission)
  read_context_ledger f = do es ← read_emissions f; check_distinct [] es; ok es

  -- The part of `claim_context_emission` before its lock, for the file as it is then.
  unfoldable pub is_hit : Key → Lines → Checked Bool
  is_hit k f = do es ← read_context_ledger f; has_key k es

  -- The part under the lock: the number of records, if the key is not among them.
  unfoldable pub room_for : Key → Lines → Checked (Option ℕ)
  room_for k f = do
    es ← read_emissions f
    found ← has_key k es
    ok (if found then none else some (length es))

  -- What a claim is going to do: nothing, or to append a record behind some others.
  unfoldable pub planned : Bool → Dict → Lines → Lines → Checked (Option (Emission × ℕ))
  planned is_safe d seen f = do
    e ← validate_emission d
    k ← context_ledger_key (emission_dict e)
    hit ← is_hit k seen
    if hit then ok none else do require is_safe io; room ← room_for k f; ok (with_room e room)

  abbrev pub carried_out : Checked (Option (Emission × ℕ)) → Write → Lines → Checked Bool × Lines
  carried_out (err raised) w f = (err raised, f)
  carried_out (ok none) w f = (ok false, f)
  carried_out (ok (some (e, n))) w f =
      let a =
        append_jsonl py w ledger_record_limit ledger_bytes ledger_records n (emission_dict e) f in
      ((do a.0; ok true), a.1)

  -- `claim_context_emission`: whether the record was emitted. The first read finds the ledger as
  -- it was before the lock.
  unfoldable pub claim_context_emission : Bool → Write → Dict → Lines → Lines → Checked Bool × Lines
  claim_context_emission is_safe w d seen f = carried_out (planned is_safe d seen f) w f

  -- `has_context_emission`
  unfoldable pub has_context_emission : Dict → Lines → Checked Bool
  has_context_emission d f = do
    e ← validate_emission d
    k ← context_ledger_key (emission_dict e)
    is_hit k f
