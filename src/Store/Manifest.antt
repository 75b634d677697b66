-- ===== src/Store/Manifest.antt =====
-- The manifest: `validate_manifest` of schema.py and `_manifest_candidate` of store.py.
use Prim.Native.String.{◌++◌}
use codex_ralph_vault_loop.Base.{
  ℕ, suc, ◌*◌, Bool, true, false, not, ◌&&◌, ◌||◌, Option, none, some, List, [], ◌∷◌, snoc, String,
  ◌==◌, codes, starts_with, ends_with, leb, ltb, if◌then◌else◌,
}
use codex_ralph_vault_loop.Base.Int.{pos}
use codex_ralph_vault_loop.Json.{
  Json, null, int, text, obj, arr, Items, nil, cons, Dict, get_or, dict, get, of_list,
}
use codex_ralph_vault_loop.Json.Eq.{json_eq}
use codex_ralph_vault_loop.Python.{Library, ok, require}
use codex_ralph_vault_loop.Store.Checked.{schema, Checked, ◌>>=◌, ◌>>◌}
use codex_ralph_vault_loop.Store.Fields.{
  object, enum, integer, check_version, known_keys, hash_text, bounded_text, identifier, plan_id,
  repo_path, items, is_one_of, reject_red,
}
use codex_ralph_vault_loop.Store.State.{State, valid_statuses, current_schema_version, encoded_size}

-- What the manifest says of a plan.
pub record Pointer : Type 0 where
  pub plan_id : String
  pub plan_path : String
  pub state_path : String
  pub status : String
  pub branch : String
  pub workspace_instance_id : String
  pub semantic_hash : String
  pub last_event_sequence : ℕ

abbrev pub pointer_dict : Pointer → Dict
pointer_dict p = dict (
    ("plan_id", text p.plan_id)
    ∷ ("plan_path", text p.plan_path)
    ∷ ("state_path", text p.state_path)
    ∷ ("status", text p.status)
    ∷ ("branch", text p.branch)
    ∷ ("workspace_instance_id", text p.workspace_instance_id)
    ∷ ("semantic_hash", text p.semantic_hash)
    ∷ ("last_event_sequence", int (pos p.last_event_sequence))
    ∷ [])

-- A validated manifest. Its schema version is the current one.
pub record Manifest : Type 0 where
  pub canonical_repo_identity : String
  pub generation : ℕ
  pub plans : List Pointer

abbrev pub pointer_items : List Pointer → Items
pointer_items [] = nil
pointer_items (p ∷ ps) = cons (obj (pointer_dict p)) (pointer_items ps)

abbrev pub manifest_dict : Manifest → Dict
manifest_dict m = dict (
    ("schema_version", current_schema_version)
    ∷ ("canonical_repo_identity", text m.canonical_repo_identity)
    ∷ ("generation", int (pos m.generation))
    ∷ ("plans", arr (pointer_items m.plans))
    ∷ [])

abbrev pointer_keys : List String
pointer_keys =
    "plan_id" ∷ "plan_path" ∷ "state_path" ∷ "status" ∷ "branch" ∷ "workspace_instance_id"
    ∷ "semantic_hash" ∷ "last_event_sequence" ∷ []

abbrev pub manifest_limit : ℕ
manifest_limit = 8 * 1024

module _ (py : Library) (is_red : String → Bool) where
  -- `_store_relative_path`
  unfoldable pub store_path : Json → Checked String
  store_path v = do
    s ← repo_path py is_red false v
    require
        (starts_with (codes ".local-notes/ralph/implementation/") (codes s)
          && ends_with (codes "/state.json") (codes s))
        schema
    ok s

  unfoldable pub pointer : Dict → Checked Pointer
  unfolding get
  pointer d = do
    require (known_keys pointer_keys d) schema
    plan ← plan_id py is_red false (get_or "plan_id" null d)
    path ← repo_path py is_red true (get_or "plan_path" (text "") d)
    state ← store_path (get_or "state_path" (text "") d)
    status ← enum valid_statuses (get_or "status" (text "planned") d)
    branch ← bounded_text py is_red 240 true (get_or "branch" (text "") d)
    workspace ← identifier py is_red true (get_or "workspace_instance_id" (text "") d)
    hash ← hash_text true (get_or "semantic_hash" (text "") d)
    sequence ← integer 0 (get_or "last_event_sequence" (int (pos 0)) d)
    ok (record {
      plan_id = plan;
      plan_path = path;
      state_path = state;
      status = status;
      branch = branch;
      workspace_instance_id = workspace;
      semantic_hash = hash;
      last_event_sequence = sequence;
    })

  -- The loop over the pointers, with the plans seen so far.
  unfoldable pub pointers : List String → Items → Checked (List Pointer)
  pointers seen nil = ok []
  pointers seen (cons v vs) = do
    d ← object v
    p ← pointer d
    require (not (is_one_of seen p.plan_id)) schema
    rest ← pointers (p.plan_id ∷ seen) vs
    ok (p ∷ rest)

  -- `validate_manifest`
  unfoldable pub validate_manifest : Dict → Checked Manifest
  unfolding get
  validate_manifest d = do
    check_version d
    require
        (known_keys ("schema_version" ∷ "canonical_repo_identity" ∷ "generation" ∷ "plans" ∷ []) d)
        schema
    identity ← identifier py is_red true (get_or "canonical_repo_identity" (text "") d)
    generation ← integer 0 (get_or "generation" (int (pos 0)) d)
    raw ← items 64 (get_or "plans" (arr (of_list [])) d)
    plans ← pointers [] raw
    let m : Manifest = record {
      canonical_repo_identity = identity;
      generation = generation;
      plans = plans;
    }
    reject_red py is_red (manifest_dict m)
    require (leb (encoded_size py (manifest_dict m)) manifest_limit) schema
    ok m

-- The pointer of a state.
abbrev pub pointer_of : State → Pointer
pointer_of s = record {
  plan_id = s.plan_id;
  plan_path = s.plan_path;
  state_path = ".local-notes/ralph/implementation/plans/" ++ s.plan_id ++ "/state.json";
  status = s.status;
  branch = s.git.branch;
  workspace_instance_id = s.git.workspace_instance_id;
  semantic_hash = s.semantic_hash;
  last_event_sequence = s.last_event_sequence;
}

-- The first pointer of a plan.
unfoldable pub find_pointer : String → List Pointer → Option Pointer
find_pointer plan [] = none
find_pointer plan (p ∷ ps) = if p.plan_id == plan then some p else find_pointer plan ps

-- `plans[found] = pointer`
unfoldable pub replace_pointer : Pointer → List Pointer → List Pointer
replace_pointer new [] = []
replace_pointer new (p ∷ ps) =
    if p.plan_id == new.plan_id then new ∷ ps else p ∷ replace_pointer new ps

-- What becomes of the pointers.
pub data Change : Type 0 where
  stale : Change
  kept replaced added : List Pointer → Change

-- The status has changed, or the publication is forced and anything has.
abbrev pub is_moved : Bool → Pointer → Pointer → Bool
is_moved force old new =
    not (old.status == new.status)
    || (force && not (json_eq (obj (pointer_dict old)) (obj (pointer_dict new))))

-- The change, told whether the pointer there is ahead and whether it differs.
unfoldable pub change_with : Pointer → List Pointer → Bool → Bool → Change
change_with new plans true moved = stale
change_with new plans false true = replaced (replace_pointer new plans)
change_with new plans false false = kept plans

unfoldable pub change_of : Bool → Pointer → List Pointer → Option Pointer → Change
change_of force new plans none = added (snoc plans new)
change_of force new plans (some old) =
    change_with new plans (ltb new.last_event_sequence old.last_event_sequence)
      (is_moved force old new)

unfoldable pub manifest_change : Bool → Pointer → List Pointer → Change
manifest_change force new plans = change_of force new plans (find_pointer new.plan_id plans)

module _ (py : Library) (is_red : String → Bool) where
  -- The manifest with other pointers, and the next generation if they have changed.
  abbrev with_plans : Manifest → ℕ → List Pointer → Checked Manifest
  with_plans m generation plans =
      validate_manifest py is_red
        (manifest_dict (record m { generation = generation; plans = plans }))

  unfoldable pub changed_manifest : Manifest → Change → Checked (Manifest × Bool)
  changed_manifest m stale = do c ← validate_manifest py is_red (manifest_dict m); ok (c, false)
  changed_manifest m (kept plans) = do c ← with_plans m m.generation plans; ok (c, false)
  changed_manifest m (replaced plans) = do c ← with_plans m (suc m.generation) plans; ok (c, true)
  changed_manifest m (added plans) = do c ← with_plans m (suc m.generation) plans; ok (c, true)

  -- `_manifest_candidate`
  unfoldable pub manifest_candidate : Manifest → State → Bool → Checked (Manifest × Bool)
  manifest_candidate m s force = changed_manifest m (manifest_change force (pointer_of s) m.plans)
