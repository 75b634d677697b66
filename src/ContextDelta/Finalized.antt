-- ===== src/ContextDelta/Finalized.antt =====
-- What `finalize` writes, and the fingerprint that a later claim compares with the stored one.
use codex_ralph_vault_loop.Base.{
  ◌≡◌, refl, ap, ◌∙◌, ◌⊎◌, inl, inr, Bool, true, false, not, Option, none, some, List, map, String,
  is_empty, if-keeps,
}
use codex_ralph_vault_loop.Json.{
  Json, null, bool, int, float, text, arr, obj, of_list, Dict, get, get_or, set, update, dict_laws,
}
use codex_ralph_vault_loop.Python.{Library, to_str, or_else}
use codex_ralph_vault_loop.ContextDelta.Cache.{
  Process, CacheFile, holds, safe_id, prune, load, payload, write,
}
use codex_ralph_vault_loop.ContextDelta.Fingerprint.{
  TaskSignature, Setting, is_unclear, cache_key, context_fingerprint, effective, selection,
}
use codex_ralph_vault_loop.ContextDelta.Claims.{has_status}
use codex_ralph_vault_loop.ContextDelta.Finalize.{
  CacheWriteResult, unwritten, write_result, ready_fields, finalize_current, finalize_entry,
  finalize,
}
use codex_ralph_vault_loop.ContextDelta.Safe.{safe_id-fixed}
use codex_ralph_vault_loop.ContextDelta.Held.{write-done, get_or-some}

-- A clarification state that a later claim may tell: the same one, or none where one was told.
abbrev pub IsTold : Library → String → String → Type 0
IsTold py before now =
    ((now ≡ before) × (is_unclear before ≡ false))
    ⊎ ((is_unclear now ≡ true) × (is_empty (safe_id py (text before)) ≡ false))

write_result-changed : (p : Process) (b : Bool) → (write_result p b).changed ≡ true → b ≡ true
write_result-changed p true h = refl
write_result-changed p false h = cc

module _ (py : Library) where
  module _ (p : Process) (s : TaskSignature) (ids : List String) (x : Setting) (d : Dict) where
    abbrev pub ready : Dict
    ready = update d (ready_fields py p s ids x)

    -- What a reader finds in an entry that was finalized.
    pub ready_lookups :
        (get "status" ready ≡ some (text "ready"))
        × (get "selected_memory_ids" ready ≡ some (arr (of_list (map text ids))))
        × (get "clarification_state" ready ≡ some (text (safe_id py (text x.clarification_state))))
        × (get "fingerprint" ready ≡ some (text (context_fingerprint py p s ids x)))
        × (get "updated_epoch" ready ≡ some (float p.now))
    unfolding ready_fields update get
    ready_lookups = (simp dict_laws, simp dict_laws, simp dict_laws, simp dict_laws, simp dict_laws)

  -- What a finalization that was published has written.
  abbrev pub IsReady :
      Process
      → String
      → TaskSignature
      → Setting
      → List String
      → Dict
      → Option Json
      → CacheFile
      → Type 0
  IsReady p key s x selected entries o f =
      (current : Dict) × (o ≡ some (obj current))
      × (f ≡ holds (payload p (set key (obj (ready p s selected x current)) entries)))

  finalize_current-IsReady :
      (p : Process) (key : String) (s : TaskSignature) (x : Setting) (selected : List String)
      (entries : Dict) (f : CacheFile) (current : Dict)
      → (finalize_current py p key s x selected entries f current).0.changed ≡ true
      → IsReady p key s x selected entries
          (some (obj current))
          (finalize_current py p key s x selected entries f current).1
  finalize_current-IsReady p key s x selected entries f current =
      if-keeps
        (λ (r : CacheWriteResult × CacheFile).
          r.0.changed ≡ true → IsReady p key s x selected entries (some (obj current)) r.1)
        (not (has_status "inflight" current)) (unwritten, f) (write_result p w.0, w.1) (λ h. cc)
        (λ h. (current, refl, write-done p next f (write_result-changed p w.0 h)))
    where
      next : Dict
      next = set key (obj (update current (ready_fields py p s selected x))) entries

      w : Bool × CacheFile
      w = write p next f

  finalize_entry-IsReady :
      (p : Process) (key : String) (s : TaskSignature) (x : Setting) (selected : List String)
      (entries : Dict) (f : CacheFile) (o : Option Json)
      → (finalize_entry py p key s x selected entries f o).0.changed ≡ true
      → IsReady p key s x selected entries o (finalize_entry py p key s x selected entries f o).1
  finalize_entry-IsReady p key s x selected entries f (some (obj current)) h =
      finalize_current-IsReady p key s x selected entries f current h
  finalize_entry-IsReady p key s x selected entries f none h = cc
  finalize_entry-IsReady p key s x selected entries f (some null) h = cc
  finalize_entry-IsReady p key s x selected entries f (some (bool b)) h = cc
  finalize_entry-IsReady p key s x selected entries f (some (int z)) h = cc
  finalize_entry-IsReady p key s x selected entries f (some (float z)) h = cc
  finalize_entry-IsReady p key s x selected entries f (some (text t)) h = cc
  finalize_entry-IsReady p key s x selected entries f (some (arr vs)) h = cc

  pub finalize-IsReady :
      (p : Process) (session_id : String) (s : TaskSignature) (x : Setting) (ids : List String)
      (f : CacheFile)
      → (finalize py p session_id s x ids f).0.changed ≡ true
      → let entries = prune py p (load p f).0 in
        let key = cache_key py session_id s in
        IsReady p key s x
          (selection py ids)
          entries
          (get key entries)
          (finalize py p session_id s x ids f).1
  unfolding finalize
  finalize-IsReady p session_id s x ids f =
      if-keeps
        (λ (r : CacheWriteResult × CacheFile).
          r.0.changed ≡ true → IsReady p key s x (selection py ids) entries (get key entries) r.1)
        (not p.locks) (unwritten, f) _ (λ h. cc)
        (finalize_entry-IsReady p key s x (selection py ids) entries (load p f).1 (get key entries))
    where
      entries : Dict
      entries = prune py p (load p f).0

      key : String
      key = cache_key py session_id s

  fingerprint_of :
      (p q : Process) (s : TaskSignature) (ids : List String) (x : Setting) (c : String)
      → q.runtime ≡ p.runtime
      → safe_id py (text c) ≡ safe_id py (text x.clarification_state)
      → context_fingerprint py q s ids (record x { clarification_state = c })
        ≡ context_fingerprint py p s ids x
  unfolding context_fingerprint
  fingerprint_of p q s ids x c same equal = rw same (rw equal refl)

  stored_text :
      {t : String} (d : Dict)
      → get "clarification_state" d ≡ some (text t)
      → is_empty t ≡ false
      → to_str py (or_else (get_or "clarification_state" null d) (text "unknown")) ≡ t
  stored_text d stored told =
      ap (λ v. to_str py (or_else v (text "unknown")))
        (get_or-some "clarification_state" null d stored)
      ∙ rw told refl

  effective_told :
      (x : Setting) (c : String) (d : Dict)
      → get "clarification_state" d ≡ some (text (safe_id py (text x.clarification_state)))
      → IsTold py x.clarification_state c
      → (c' : String) × (effective py (record x { clarification_state = c }) d
          ≡ record x { clarification_state = c' })
        × (safe_id py (text c') ≡ safe_id py (text x.clarification_state))
  unfolding effective
  effective_told x c d stored (inl (equal, clear)) =
      (c, rw (ap is_unclear equal ∙ clear) refl, rw equal refl)
  effective_told x c d stored (inr (unclear, told)) = (
    safe_id py (text x.clarification_state),
    rw unclear (ap (λ t. record x { clarification_state = t }) (stored_text d stored told)),
    safe_id-fixed py (text x.clarification_state),
  )

  pub same_fingerprint :
      (p q : Process) (s : TaskSignature) (ids : List String) (x : Setting) (c : String) (d : Dict)
      → q.runtime ≡ p.runtime
      → get "clarification_state" d ≡ some (text (safe_id py (text x.clarification_state)))
      → IsTold py x.clarification_state c
      → context_fingerprint py q s ids (effective py (record x { clarification_state = c }) d)
        ≡ context_fingerprint py p s ids x
  same_fingerprint p q s ids x c d same stored told =
      let (c', found, equal) = effective_told x c d stored told in
      ap (context_fingerprint py q s ids) found ∙ fingerprint_of p q s ids x c' same equal
