-- ===== src/ContextDelta/Reuse.antt =====
-- A context that was finalized is reused by the claims after it.
use codex_ralph_vault_loop.Base.{
  ℕ, ◌≤◌, ◌≡◌, refl, sym, ap, ◌∙◌, subst, true, false, some, List, [], map, String, ◌==◌, eq_refl,
  arith, if-keeps,
}
use codex_ralph_vault_loop.Json.{null, text, arr, obj, of_list, to_list, Dict, get, get_or, set}
use codex_ralph_vault_loop.Json.Eq.{json_eq}
use codex_ralph_vault_loop.Python.{Library, Result, ok, Exception, is_text}
use codex_ralph_vault_loop.ContextDelta.Cache.{
  Process, CacheFile, holds, is_current, ttl_seconds, prune, load, payload, write,
}
use codex_ralph_vault_loop.ContextDelta.Fingerprint.{
  TaskSignature, Setting, cache_key, safe_ids, context_fingerprint, effective, selection,
}
use codex_ralph_vault_loop.ContextDelta.Claims.{
  CacheClaim, hit, hit_claim, hit_with, iterate, claim_current, claim_items, claim,
}
use codex_ralph_vault_loop.ContextDelta.Finalize.{finalize}
use codex_ralph_vault_loop.ContextDelta.Pruned.{times, times-set, size-set, size-prune, times-prune}
use codex_ralph_vault_loop.ContextDelta.Safe.{safe_ids-selection}
use codex_ralph_vault_loop.ContextDelta.Held.{
  get-set_self, get_or-some, then_both, max_entries-same, claim-held, found_again,
}
use codex_ralph_vault_loop.ContextDelta.Finalized.{
  IsTold, ready, ready_lookups, finalize-IsReady, same_fingerprint,
}

-- A claim that hits.
abbrev pub IsHit : List String → String → Result Exception CacheClaim × CacheFile → Type 0
IsHit selected fingerprint r =
    (c : CacheClaim) × (r.0 ≡ ok c)
    × (c.status ≡ hit)
    × (c.selected_memory_ids ≡ selected)
    × (c.fingerprint ≡ fingerprint)

module _ (py : Library) where
  hit_with-IsHit :
      (p : Process) (raw entries : Dict) (f : CacheFile) (selected : List String)
      (expected : String)
      → IsHit selected expected (
        ok (hit_with p raw entries f selected expected).0,
        (hit_with p raw entries f selected expected).1,
      )
  unfolding hit_with
  hit_with-IsHit p raw entries f selected expected =
      if-keeps (λ (r : CacheClaim × CacheFile). IsHit selected expected (ok r.0, r.1))
        (json_eq (obj entries) (obj raw)) (hit_claim p false selected expected, f)
        (hit_claim p (write p entries f).0 selected expected, (write p entries f).1)
        (_, refl, refl, refl, refl) (_, refl, refl, refl, refl)

  claim_current-hit :
      (p : Process) (key : String) (s : TaskSignature) (y : Setting) (raw entries : Dict)
      (f : CacheFile) (current : Dict) (selected : List String) (fingerprint : String)
      → get "status" current ≡ some (text "ready")
      → get "fingerprint" current ≡ some (text fingerprint)
      → context_fingerprint py p s selected (effective py y current) ≡ fingerprint
      → claim_current py p key s y raw entries f current selected
        ≡ hit_with p raw entries f selected
            (context_fingerprint py p s selected (effective py y current))
  unfolding claim_current
  claim_current-hit p key s y raw entries f current selected fingerprint is_ready stored equal =
      then_both _ _ (ap (is_text "ready") (get_or-some "status" null current is_ready)) (
        ap (is_text _) (get_or-some "fingerprint" null current stored)
        ∙ (ap (λ t. fingerprint == t) equal ∙ eq_refl fingerprint))

  claim_items-IsHit :
      (p : Process) (key : String) (s : TaskSignature) (y : Setting) (raw entries : Dict)
      (f : CacheFile) (current : Dict) (ids : List String) (fingerprint : String)
      → get "status" current ≡ some (text "ready")
      → get "selected_memory_ids" current ≡ some (arr (of_list (map text ids)))
      → safe_ids py (to_list (of_list (map text ids))) ≡ ids
      → get "fingerprint" current ≡ some (text fingerprint)
      → context_fingerprint py p s ids (effective py y current) ≡ fingerprint
      → IsHit ids fingerprint (
          claim_items py p key s y raw entries f current
            (iterate (get_or "selected_memory_ids" (arr (of_list [])) current)))
  claim_items-IsHit p key s y raw entries f current ids fingerprint is_ready selected safe stored
        equal =
      subst (IsHit ids fingerprint) (sym path) (
        subst
          (λ t. IsHit ids t (
            ok (hit_with p raw entries f ids expected).0,
            (hit_with p raw entries f ids expected).1,
          ))
          equal (hit_with-IsHit p raw entries f ids expected))
    where
      expected : String
      expected = context_fingerprint py p s ids (effective py y current)

      answer : CacheClaim × CacheFile → Result Exception CacheClaim × CacheFile
      answer r = (ok r.0, r.1)

      path :
          claim_items py p key s y raw entries f current
            (iterate (get_or "selected_memory_ids" (arr (of_list [])) current))
          ≡ answer (hit_with p raw entries f ids expected)
      path =
          ap (λ v. claim_items py p key s y raw entries f current (iterate v))
            (get_or-some "selected_memory_ids" (arr (of_list [])) current selected)
          ∙ (ap (λ l. answer (claim_current py p key s y raw entries f current l)) safe
              ∙ ap answer (
                  claim_current-hit p key s y raw entries f current ids fingerprint is_ready stored
                    equal))

  -- A context that was finalized, where the file names its key at most once, is reused by a claim
  -- of the same setting in the same runtime, that has the lock before the entry is too old, and that
  -- tells the same clarification state or none where one was told: the claim hits, with the
  -- identifiers that were selected and the fingerprint that was stored.
  pub finalize-claim :
      (p q : Process) (session_id : String) (s : TaskSignature) (x : Setting) (c : String)
      (ids : List String) (f : CacheFile)
      → times (cache_key py session_id s) (load p f).0 ≤ 1
      → (finalize py p session_id s x ids f).0.changed ≡ true
      → q.runtime ≡ p.runtime
      → q.locks ≡ true
      → is_current q.now (ttl_seconds py q) p.now ≡ true
      → IsTold py x.clarification_state c
      → IsHit (selection py ids) (context_fingerprint py p s (selection py ids) x) (
          claim py q session_id s
            (record x { clarification_state = c })
            (finalize py p session_id s x ids f).1)
  finalize-claim p q session_id s x c ids f once changed same locked current told =
      let (entry, there, file) = finalize-IsReady py p session_id s x ids f changed in
      let (is_ready, selected, clarified, stored, updated) = ready_lookups py p s ids' x entry in
      let next = ready py p s ids' x entry in
      let held = set key (obj next) entries in
      let y = record x { clarification_state = c } in
      let found =
        found_again py q key held next p.now
          (times-set key _ entries (at_most_once (times-prune py key p (load p f).0) once))
          (room (size-set key _ _ entries there) (size-prune py p (load p f).0)
            (max_entries-same py p q same))
          (get-set_self key _ entries) updated current in
      let reached =
        ap (claim py q session_id s y) file
        ∙ claim-held py q p session_id s y held next locked found in
      let again = same_fingerprint py p q s ids' x c next same clarified told in
      let hits =
        claim_items-IsHit q key s y held (prune py q held) (holds (payload p held)) next ids'
          (context_fingerprint py p s ids' x) is_ready selected (safe_ids-selection py ids) stored
          again in
      subst (IsHit ids' (context_fingerprint py p s ids' x)) (sym reached) hits
    where
      key : String
      key = cache_key py session_id s

      entries : Dict
      entries = prune py p (load p f).0

      ids' : List String
      ids' = selection py ids

      at_most_once : {a b : ℕ} → a ≤ b → b ≤ 1 → a ≤ 1
      at_most_once h k = omega arith

      room : {a b c d : ℕ} → a ≡ b → b ≤ c → d ≡ c → a ≤ d
      room h k l = omega arith
