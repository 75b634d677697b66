-- ===== src/ContextDelta/Finalize.antt =====
-- `finalize` and `discard` of context_delta.py.
use codex_ralph_vault_loop.Base.{
  ℕ, Bool, true, false, not, Option, some, List, [], ◌∷◌, map, String, if◌then◌else◌,
}
use codex_ralph_vault_loop.Json.{
  Json, float, text, arr, obj, of_list, Dict, get, set, update, remove, dict,
}
use codex_ralph_vault_loop.Python.{Library}
use codex_ralph_vault_loop.ContextDelta.Cache.{Process, CacheFile, safe_id, prune, load, write}
use codex_ralph_vault_loop.ContextDelta.Fingerprint.{
  TaskSignature, Setting, cache_key, context_fingerprint, selection,
}
use codex_ralph_vault_loop.ContextDelta.Claims.{or_no_bytes, has_status}

-- `CacheWriteResult`; its one file is named exactly when it is changed.
pub record CacheWriteResult : Type 0 where
  pub changed : Bool
  pub bytes_written : ℕ

abbrev pub unwritten : CacheWriteResult
unwritten = record { changed = false; bytes_written = 0 }

abbrev pub write_result : Process → Bool → CacheWriteResult
write_result p false = unwritten
write_result p true = record { changed = true; bytes_written = or_no_bytes p.stat_size }

module _ (py : Library) where
  unfoldable pub ready_fields : Process → TaskSignature → List String → Setting → Dict
  ready_fields p s selected x = dict (
      ("status", text "ready")
      ∷ ("selected_memory_ids", arr (of_list (map text selected)))
      ∷ ("memory_generation", text (safe_id py (text x.memory_generation)))
      ∷ ("route", text (safe_id py (text x.route)))
      ∷ ("profile", text (safe_id py (text x.profile)))
      ∷ ("clarification_state", text (safe_id py (text x.clarification_state)))
      ∷ ("checkpoint_hash", text (safe_id py (text x.checkpoint_hash)))
      ∷ ("fingerprint", text (context_fingerprint py p s selected x))
      ∷ ("updated_at", text p.iso)
      ∷ ("updated_epoch", float p.now)
      ∷ [])

  abbrev pub finalize_current :
      Process
      → String
      → TaskSignature
      → Setting
      → List String
      → Dict
      → CacheFile
      → Dict
      → CacheWriteResult × CacheFile
  finalize_current p key s x selected entries f current =
      if not (has_status "inflight" current)
      then (unwritten, f)
      else let w =
          write p (set key (obj (update current (ready_fields p s selected x))) entries) f in
        (write_result p w.0, w.1)

  abbrev pub finalize_entry :
      Process
      → String
      → TaskSignature
      → Setting
      → List String
      → Dict
      → CacheFile
      → Option Json
      → CacheWriteResult × CacheFile
  finalize_entry p key s x selected entries f (some (obj current)) =
      finalize_current p key s x selected entries f current
  finalize_entry p key s x selected entries f _ = (unwritten, f)

  -- `finalize`
  unfoldable pub finalize :
      Process
      → String
      → TaskSignature
      → Setting
      → List String
      → CacheFile
      → CacheWriteResult × CacheFile
  unfolding get
  finalize p session_id s x ids f =
      if not p.locks
      then (unwritten, f)
      else let l = load p f in
        let entries = prune py p l.0 in
        let key = cache_key py session_id s in
        finalize_entry p key s x (selection py ids) entries l.1 (get key entries)

  -- `discard`
  unfoldable pub discard :
      Process → String → TaskSignature → CacheFile → CacheWriteResult × CacheFile
  discard p session_id s f =
      if not p.locks
      then (unwritten, f)
      else let l = load p f in
        let w = write p (prune py p (remove (cache_key py session_id s) l.0)) l.1 in
        (write_result p w.0, w.1)
