-- ===== src/ContextDelta/Claims.antt =====
-- `claim` of context_delta.py.
use codex_ralph_vault_loop.Base.{
  ℕ, Bool, true, false, not, ◌&&◌, Option, none, some, List, [], ◌∷◌, String, if◌then◌else◌,
}
use codex_ralph_vault_loop.Base.Int.{◌-ℤ◌, leb_ℤ}
use codex_ralph_vault_loop.Json.{
  Json, null, bool, float, text, arr, obj, to_list, of_list, Dict, end, field, get, get_or, set,
  dict,
}
use codex_ralph_vault_loop.Json.Eq.{json_eq, millionths}
use codex_ralph_vault_loop.Python.{Library, Result, ok, err, Exception, type_error, is_text}
use codex_ralph_vault_loop.ContextDelta.Cache.{
  Process, CacheFile, schema_version, inflight_seconds, or_zero, updated_of, prune, load, write,
}
use codex_ralph_vault_loop.ContextDelta.Fingerprint.{
  TaskSignature, Setting, cache_key, safe_ids, context_fingerprint, effective,
}

pub data Status : Type 0 where
  hit inflight miss unavailable : Status

pub record CacheClaim : Type 0 where
  pub status : Status
  pub invalidation_reason : String
  pub selected_memory_ids : List String
  pub fingerprint : String
  pub changed : Bool
  pub bytes_written : ℕ

abbrev chars : String → List Json
chars String.[] = []
chars (String.◌∷◌ c s) = text (String.◌∷◌ c String.[]) ∷ chars s

abbrev keys : Dict → List Json
keys end = []
keys (field k v d) = text k ∷ keys d

-- `for item in v`
abbrev pub iterate : Json → Result Exception (List Json)
iterate (arr xs) = ok (to_list xs)
iterate (text s) = ok (chars s)
iterate (obj d) = ok (keys d)
iterate v = err type_error

abbrev pub or_no_bytes : Option ℕ → ℕ
or_no_bytes none = 0
or_no_bytes (some n) = n

abbrev pub refused : Status → String → CacheClaim
refused status reason = record {
  status = status;
  invalidation_reason = reason;
  selected_memory_ids = [];
  fingerprint = "";
  changed = false;
  bytes_written = 0;
}

-- The entry of a claim that misses.
unfoldable pub inflight_entry : Process → TaskSignature → Dict
inflight_entry p s = dict (
    ("schema_version", schema_version)
    ∷ ("contract_version", text "prompt-context-v1")
    ∷ ("status", text "inflight")
    ∷ ("task_signature", text s.value)
    ∷ ("task_anchor", text s.anchor)
    ∷ ("project_id", text s.project_id)
    ∷ ("workspace_instance_id", text s.workspace_instance_id)
    ∷ ("branch", text s.branch)
    ∷ ("head", text s.head)
    ∷ ("prompt_hash", text s.prompt_hash)
    ∷ ("intent", text s.intent)
    ∷ ("sensitivity", text s.sensitivity)
    ∷ ("model_family", text s.model_family)
    ∷ ("model_source", text s.model_source)
    ∷ ("model_verified", bool s.model_verified)
    ∷ ("checkpoint_identity", text s.checkpoint_identity)
    ∷ ("selected_memory_ids", arr (of_list []))
    ∷ ("created_at", text p.iso)
    ∷ ("updated_at", text p.iso)
    ∷ ("updated_epoch", float p.now)
    ∷ [])

abbrev pub hit_claim : Process → Bool → List String → String → CacheClaim
hit_claim p changed selected expected = record {
  status = hit;
  invalidation_reason = "unchanged";
  selected_memory_ids = selected;
  fingerprint = expected;
  changed = changed;
  bytes_written = if changed then or_no_bytes p.stat_size else 0;
}

abbrev pub miss_claim : Process → String → Bool → CacheClaim
miss_claim p reason false = refused unavailable "cache_write_failed"
miss_claim p reason true = record {
  status = miss;
  invalidation_reason = reason;
  selected_memory_ids = [];
  fingerprint = "";
  changed = true;
  bytes_written = or_no_bytes p.stat_size;
}

-- A hit writes only what pruning changes.
unfoldable pub hit_with :
    Process → Dict → Dict → CacheFile → List String → String → CacheClaim × CacheFile
hit_with p raw entries f selected expected =
    if json_eq (obj entries) (obj raw)
    then (hit_claim p false selected expected, f)
    else let w = write p entries f in (hit_claim p w.0 selected expected, w.1)

unfoldable pub miss_with :
    Process → String → TaskSignature → Dict → CacheFile → String → CacheClaim × CacheFile
miss_with p key s entries f reason =
    let w = write p (set key (obj (inflight_entry p s)) entries) f in (miss_claim p reason w.0, w.1)

-- `current.get("status") == …`
abbrev pub has_status : String → Dict → Bool
has_status status current = is_text status (get_or "status" null current)

module _ (py : Library) where
  abbrev pub is_recent : Process → Dict → Bool
  is_recent p current =
      leb_ℤ (p.now -ℤ or_zero (updated_of py current)) (millionths inflight_seconds)

  unfoldable pub claim_current :
      Process
      → String
      → TaskSignature
      → Setting
      → Dict
      → Dict
      → CacheFile
      → Dict
      → List String
      → CacheClaim × CacheFile
  unfolding get
  claim_current p key s x raw entries f current selected =
      let expected = context_fingerprint py p s selected (effective py x current) in
      if has_status "ready" current && is_text expected (get_or "fingerprint" null current)
      then hit_with p raw entries f selected expected
      else if has_status "inflight" current && is_recent p current
      then (refused inflight "concurrent_claim", f)
      else miss_with p key s entries f "context_fingerprint_changed"

  abbrev pub claim_items :
      Process
      → String
      → TaskSignature
      → Setting
      → Dict
      → Dict
      → CacheFile
      → Dict
      → Result Exception (List Json)
      → Result Exception CacheClaim × CacheFile
  claim_items p key s x raw entries f current (err e) = (err e, f)
  claim_items p key s x raw entries f current (ok vs) =
      let r = claim_current p key s x raw entries f current (safe_ids py vs) in (ok r.0, r.1)

  abbrev pub claim_entry :
      Process
      → String
      → TaskSignature
      → Setting
      → Dict
      → Dict
      → CacheFile
      → Option Json
      → Result Exception CacheClaim × CacheFile
  claim_entry p key s x raw entries f (some (obj current)) =
      claim_items p key s x raw entries f current
        (iterate (get_or "selected_memory_ids" (arr (of_list [])) current))
  claim_entry p key s x raw entries f _ =
      let r = miss_with p key s entries f "new_task_signature" in (ok r.0, r.1)

  -- `claim`
  unfoldable pub claim :
      Process
      → String
      → TaskSignature
      → Setting
      → CacheFile
      → Result Exception CacheClaim × CacheFile
  unfolding get
  claim p session_id s x f =
      if not p.locks
      then (ok (refused unavailable "cache_unavailable"), f)
      else let l = load p f in
        let entries = prune py p l.0 in
        let key = cache_key py session_id s in
        claim_entry p key s x l.0 entries l.1 (get key entries)
