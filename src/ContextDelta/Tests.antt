-- ===== src/ContextDelta/Tests.antt =====
-- Runs of the cache of prompt contexts.
use codex_ralph_vault_loop.Base.{
  ℕ, ◌≡◌, ◌≤◌, suc, ◌+◌, ◌*◌, Option, refl, inl, true, false, none, some, [], ◌∷◌, String, arith,
}
use codex_ralph_vault_loop.Base.Int.{pos, ◌-ℤ◌, leb_ℤ}
use codex_ralph_vault_loop.Json.{Json, null, obj, Dict, get_or, get, set, update, remove, size}
use codex_ralph_vault_loop.Json.Eq.{json_eq, millionths}
use codex_ralph_vault_loop.Python.{Library, Result, ok, Exception}
use codex_ralph_vault_loop.Maintenance.Host.{succeeds}
use codex_ralph_vault_loop.ContextDelta.Cache.{
  Process, Runtime, CacheFile, missing, ttl_seconds, max_entries, safe_id, fresh, insert_entry,
  sort_entries, prune, entries_of, load, write, is_current, inflight_seconds, dict_of,
}
use codex_ralph_vault_loop.ContextDelta.Fingerprint.{
  TaskSignature, Setting, insert_text, sort_texts, cache_key, safe_ids, context_fingerprint,
  effective, selection,
}
use codex_ralph_vault_loop.ContextDelta.Claims.{
  CacheClaim, inflight, miss, refused, inflight_entry, hit_with, miss_with, claim_current, claim,
}
use codex_ralph_vault_loop.ContextDelta.Finalize.{CacheWriteResult, ready_fields, finalize, discard}
use codex_ralph_vault_loop.ContextDelta.Pruned.{times}
use codex_ralph_vault_loop.ContextDelta.Reuse.{IsHit, finalize-claim}
use codex_ralph_vault_loop.ContextDelta.Exclusive.{claimed_payload, claim-excludes, claim-retries}

abbrev py : Library
py = record {
  sha256 = λ s. "0123456789abcdef0123456789abcdef0123456789abcdef0123456789abcdef";
  repr = λ v. "0";
  lower = λ s. s;
  upper = λ s. s;
  dumps = λ v. "{}";
  float_of = λ s. none;
  int_of = λ s. none;
  is_alnum = λ c. true;
  is_space = λ c. false;
}

abbrev entries_in : Option Dict → ℕ
entries_in none = 0
entries_in (some d) = size d

-- A size that grows with the entries of a state.
abbrev state_size : Json → ℕ
state_size (obj d) = 100 + 600 * entries_in (dict_of (get_or "entries" null d))
state_size v = 4

abbrev runtime : Runtime
runtime = record { env = λ s. none; ascii_dumps = λ v. "{}"; encoded_size = state_size }

abbrev at : ℕ → Process
at seconds = record {
  runtime = runtime;
  now = pos (seconds * 1_000_000);
  iso = "2026-01-01";
  locks = true;
  can_rename = true;
  publication = succeeds;
  stat_size = some 100;
}

abbrev signature : TaskSignature
signature = record {
  value = "task-1";
  anchor = "anchor-1";
  project_id = "project";
  workspace_instance_id = "workspace";
  branch = "main";
  head = "0";
  prompt_hash = "1";
  intent = "routine";
  sensitivity = "GREEN";
  model_family = "sol";
  checkpoint_identity = "";
  model_source = "unknown";
  model_verified = false;
}

abbrev setting : String → Setting
setting clarification = record {
  memory_generation = "7";
  route = "none";
  profile = "default";
  clarification_state = clarification;
  checkpoint_hash = "";
}

abbrev first : Result Exception CacheClaim × CacheFile
first = claim py (at 100) "session" signature (setting "clear") missing

abbrev missed : CacheClaim
missed = record {
  status = miss;
  invalidation_reason = "new_task_signature";
  selected_memory_ids = [];
  fingerprint = "";
  changed = true;
  bytes_written = 100;
}

claim-first : first.0 ≡ ok missed
unfolding claim claim_current miss_with inflight_entry cache_key prune fresh insert_entry
    sort_entries load write set get max_entries size
claim-first = refl

once : times (cache_key py "session" signature) (load (at 100) missing).0 ≤ 1
unfolding times claim claim_current miss_with inflight_entry cache_key prune fresh insert_entry
    sort_entries load write entries_of json_eq set get finalize selection ready_fields
    context_fingerprint update size safe_ids safe_id sort_texts insert_text effective hit_with
    max_entries ttl_seconds ◌-ℤ◌ discard remove
once = omega arith

has_room : suc (size (load (at 100) missing).0) ≤ max_entries py (at 100)
unfolding times claim claim_current miss_with inflight_entry cache_key prune fresh insert_entry
    sort_entries load write entries_of json_eq set get finalize selection ready_fields
    context_fingerprint update size safe_ids safe_id sort_texts insert_text effective hit_with
    max_entries ttl_seconds ◌-ℤ◌ discard remove
has_room = omega arith

current_at : is_current (pos 110_000_000) (ttl_seconds py (at 110)) (pos 100_000_000) ≡ true
unfolding times claim claim_current miss_with inflight_entry cache_key prune fresh insert_entry
    sort_entries load write entries_of json_eq set get finalize selection ready_fields
    context_fingerprint update size safe_ids safe_id sort_texts insert_text effective hit_with
    max_entries ttl_seconds ◌-ℤ◌ discard remove
current_at = refl

late_at : leb_ℤ (pos 120_000_000 -ℤ pos 100_000_000) (millionths inflight_seconds) ≡ false
unfolding times claim claim_current miss_with inflight_entry cache_key prune fresh insert_entry
    sort_entries load write entries_of json_eq set get finalize selection ready_fields
    context_fingerprint update size safe_ids safe_id sort_texts insert_text effective hit_with
    max_entries ttl_seconds ◌-ℤ◌ discard remove
late_at = refl

still_at : is_current (pos 120_000_000) (ttl_seconds py (at 120)) (pos 100_000_000) ≡ true
unfolding times claim claim_current miss_with inflight_entry cache_key prune fresh insert_entry
    sort_entries load write entries_of json_eq set get finalize selection ready_fields
    context_fingerprint update size safe_ids safe_id sort_texts insert_text effective hit_with
    max_entries ttl_seconds ◌-ℤ◌ discard remove
still_at = refl

early_at : leb_ℤ (pos 110_000_000 -ℤ pos 100_000_000) (millionths inflight_seconds) ≡ true
unfolding times claim claim_current miss_with inflight_entry cache_key prune fresh insert_entry
    sort_entries load write entries_of json_eq set get finalize selection ready_fields
    context_fingerprint update size safe_ids safe_id sort_texts insert_text effective hit_with
    max_entries ttl_seconds ◌-ℤ◌ discard remove
early_at = refl

claim-excludes_example :
    claim py (at 110) "session" signature (setting "unknown") first.1
    ≡ (ok (refused inflight "concurrent_claim"), first.1)
claim-excludes_example =
    claim-excludes py (at 100) (at 110) "session" signature (setting "clear") (setting "unknown")
      missing missed once has_room claim-first refl refl refl current_at early_at

retry_fits :
    runtime.encoded_size (claimed_payload py (at 120) "session" signature (load (at 120) first.1).0)
    ≤ 524_288
unfolding times claim claim_current miss_with inflight_entry cache_key prune fresh insert_entry
    sort_entries load write entries_of json_eq set get finalize selection ready_fields
    context_fingerprint update size safe_ids safe_id sort_texts insert_text effective hit_with
    max_entries ttl_seconds ◌-ℤ◌ discard remove
retry_fits = omega arith

claim-retries_example :
    (r : CacheClaim) × ((claim py (at 120) "session" signature (setting "unknown") first.1).0
      ≡ ok r)
    × (r.status ≡ miss)
claim-retries_example =
    claim-retries py (at 100) (at 120) "session" signature (setting "clear") (setting "unknown")
      missing missed once has_room claim-first refl refl refl still_at late_at refl retry_fits

abbrev second : CacheWriteResult × CacheFile
second =
    finalize py (at 105) "session" signature (setting "clear") ("m2" ∷ "m1" ∷ "m2" ∷ []) first.1

finalize-first : second.0.changed ≡ true
unfolding times claim claim_current miss_with inflight_entry cache_key prune fresh insert_entry
    sort_entries load write entries_of json_eq set get finalize selection ready_fields
    context_fingerprint update size safe_ids safe_id sort_texts insert_text effective hit_with
    max_entries ttl_seconds ◌-ℤ◌ discard remove
finalize-first = refl

once_held : times (cache_key py "session" signature) (load (at 105) first.1).0 ≤ 1
unfolding times claim claim_current miss_with inflight_entry cache_key prune fresh insert_entry
    sort_entries load write entries_of json_eq set get finalize selection ready_fields
    context_fingerprint update size safe_ids safe_id sort_texts insert_text effective hit_with
    max_entries ttl_seconds ◌-ℤ◌ discard remove
once_held = omega arith

selected : selection py ("m2" ∷ "m1" ∷ "m2" ∷ []) ≡ "m1" ∷ "m2" ∷ []
unfolding times claim claim_current miss_with inflight_entry cache_key prune fresh insert_entry
    sort_entries load write entries_of json_eq set get finalize selection ready_fields
    context_fingerprint update size safe_ids safe_id sort_texts insert_text effective hit_with
    max_entries ttl_seconds ◌-ℤ◌ discard remove
selected = refl

reusable : is_current (pos 200_000_000) (ttl_seconds py (at 200)) (pos 105_000_000) ≡ true
unfolding times claim claim_current miss_with inflight_entry cache_key prune fresh insert_entry
    sort_entries load write entries_of json_eq set get finalize selection ready_fields
    context_fingerprint update size safe_ids safe_id sort_texts insert_text effective hit_with
    max_entries ttl_seconds ◌-ℤ◌ discard remove
reusable = refl

finalize-claim_example :
    IsHit
      (selection py ("m2" ∷ "m1" ∷ "m2" ∷ []))
      (context_fingerprint py
        (at 105)
        signature
        (selection py ("m2" ∷ "m1" ∷ "m2" ∷ []))
        (setting "clear"))
      (claim py (at 200) "session" signature (setting "clear") second.1)
finalize-claim_example =
    finalize-claim py (at 105) (at 200) "session" signature (setting "clear") "clear"
      ("m2" ∷ "m1" ∷ "m2" ∷ []) first.1 once_held finalize-first refl refl reusable
      (inl (refl, refl))

-- A discarded claim is a new one.
abbrev discarded : CacheFile
discarded = (discard py (at 101) "session" signature first.1).1

claim-discarded : (claim py (at 102) "session" signature (setting "clear") discarded).0 ≡ ok missed
unfolding times claim claim_current miss_with inflight_entry cache_key prune fresh insert_entry
    sort_entries load write entries_of json_eq set get finalize selection ready_fields
    context_fingerprint update size safe_ids safe_id sort_texts insert_text effective hit_with
    max_entries ttl_seconds ◌-ℤ◌ discard remove
claim-discarded = refl
