-- ===== src/ContextDelta/Missed.antt =====
-- What a claim that misses leaves, and what the next claim of its key makes of it.
use codex_ralph_vault_loop.Base.{
  ℕ, suc, ◌≤◌, ◌≡◌, refl, sym, ap, ◌∙◌, Bool, true, false, not, ◌&&◌, Option, none, some, List, [],
  String, arith, if◌then◌else◌, if-keeps,
}
use codex_ralph_vault_loop.Json.{
  Json, null, bool, int, float, text, arr, obj, of_list, Dict, get, get_or, set, size,
}
use codex_ralph_vault_loop.Json.Eq.{json_eq}
use codex_ralph_vault_loop.Python.{Library, Result, ok, err, Exception, ok-injective}
use codex_ralph_vault_loop.ContextDelta.Cache.{
  Process, CacheFile, holds, is_current, ttl_seconds, max_entries, prune, load, payload, write,
}
use codex_ralph_vault_loop.ContextDelta.Fingerprint.{
  TaskSignature, Setting, cache_key, safe_ids, context_fingerprint, effective,
}
use codex_ralph_vault_loop.ContextDelta.Claims.{
  CacheClaim, inflight, miss, unavailable, refused, inflight_entry, hit_claim, miss_claim, hit_with,
  miss_with, has_status, is_recent, iterate, claim_current, claim_items, claim_entry, claim,
}
use codex_ralph_vault_loop.ContextDelta.Pruned.{
  times, times-set, size-set_le, size-prune_le, times-prune,
}
use codex_ralph_vault_loop.ContextDelta.Held.{
  get-set_self, write-done, max_entries-same, claim-held, found_again, load-payload,
}

updated_of_entry :
    (p : Process) (s : TaskSignature)
    → get "updated_epoch" (inflight_entry p s) ≡ some (float p.now)
unfolding inflight_entry get
updated_of_entry p s = refl

miss_claim-status :
    (p : Process) (reason : String) (b : Bool) → (miss_claim p reason b).status ≡ miss → b ≡ true
miss_claim-status p reason true h = refl
miss_claim-status p reason false h = cc

-- A claim that misses has written its entry.
abbrev Misses : Process → String → TaskSignature → Dict → CacheClaim × CacheFile → Type 0
Misses p key s entries r =
    r.0.status ≡ miss → r.1 ≡ holds (payload p (set key (obj (inflight_entry p s)) entries))

abbrev Missed :
    Process → String → TaskSignature → Dict → Result Exception CacheClaim × CacheFile → Type 0
Missed p key s entries (err e, f) = Unit
Missed p key s entries (ok c, f) = Misses p key s entries (c, f)

miss_with-Misses :
    (p : Process) (key : String) (s : TaskSignature) (entries : Dict) (f : CacheFile)
    (reason : String)
    → Misses p key s entries (miss_with p key s entries f reason)
unfolding miss_with
miss_with-Misses p key s entries f reason h =
    write-done p (set key (obj (inflight_entry p s)) entries) f (miss_claim-status p reason _ h)

hit_with-Misses :
    (p : Process) (key : String) (s : TaskSignature) (raw entries : Dict) (f : CacheFile)
    (selected : List String) (expected : String)
    → Misses p key s entries (hit_with p raw entries f selected expected)
unfolding hit_with
hit_with-Misses p key s raw entries f selected expected =
    if-keeps (Misses p key s entries) (json_eq (obj entries) (obj raw))
      (hit_claim p false selected expected, f)
      (hit_claim p (write p entries f).0 selected expected, (write p entries f).1) (λ h. cc)
      (λ h. cc)

abbrev pub answer : CacheClaim × CacheFile → Result Exception CacheClaim × CacheFile
answer r = (ok r.0, r.1)

module _ (py : Library) where
  claim_current-Misses :
      (p : Process) (key : String) (s : TaskSignature) (x : Setting) (raw entries : Dict)
      (f : CacheFile) (current : Dict) (selected : List String)
      → Misses p key s entries (claim_current py p key s x raw entries f current selected)
  unfolding claim_current
  claim_current-Misses p key s x raw entries f current selected =
      if-keeps (Misses p key s entries) _
        (hit_with p raw entries f selected
          (context_fingerprint py p s selected (effective py x current)))
        _ (hit_with-Misses p key s raw entries f selected _)
        (if-keeps (Misses p key s entries) (has_status "inflight" current && is_recent py p current)
          (refused inflight "concurrent_claim", f)
          (miss_with p key s entries f "context_fingerprint_changed") (λ h. cc)
          (miss_with-Misses p key s entries f "context_fingerprint_changed"))

  claim_items-Missed :
      (p : Process) (key : String) (s : TaskSignature) (x : Setting) (raw entries : Dict)
      (f : CacheFile) (current : Dict) (items : Result Exception (List Json))
      → Missed p key s entries (claim_items py p key s x raw entries f current items)
  claim_items-Missed p key s x raw entries f current (err e) = tt
  claim_items-Missed p key s x raw entries f current (ok vs) =
      claim_current-Misses p key s x raw entries f current (safe_ids py vs)

  claim_entry-Missed :
      (p : Process) (key : String) (s : TaskSignature) (x : Setting) (raw entries : Dict)
      (f : CacheFile) (o : Option Json)
      → Missed p key s entries (claim_entry py p key s x raw entries f o)
  claim_entry-Missed p key s x raw entries f (some (obj current)) =
      claim_items-Missed p key s x raw entries f current
        (iterate (get_or "selected_memory_ids" (arr (of_list [])) current))
  claim_entry-Missed p key s x raw entries f none = miss_with-Misses p key s entries f _
  claim_entry-Missed p key s x raw entries f (some null) = miss_with-Misses p key s entries f _
  claim_entry-Missed p key s x raw entries f (some (bool b)) = miss_with-Misses p key s entries f _
  claim_entry-Missed p key s x raw entries f (some (int z)) = miss_with-Misses p key s entries f _
  claim_entry-Missed p key s x raw entries f (some (float z)) = miss_with-Misses p key s entries f _
  claim_entry-Missed p key s x raw entries f (some (text t)) = miss_with-Misses p key s entries f _
  claim_entry-Missed p key s x raw entries f (some (arr vs)) = miss_with-Misses p key s entries f _

  claim-Missed :
      (p : Process) (session_id : String) (s : TaskSignature) (x : Setting) (f : CacheFile)
      → Missed p
          (cache_key py session_id s)
          s
          (prune py p (load p f).0)
          (claim py p session_id s x f)
  unfolding claim
  claim-Missed p session_id s x f =
      if-keeps (Missed p (cache_key py session_id s) s (prune py p (load p f).0)) (not p.locks)
        (ok (refused unavailable "cache_unavailable"), f)
        (claim_entry py p key s x (load p f).0 entries (load p f).1 (get key entries)) (λ h. cc)
        (claim_entry-Missed p key s x (load p f).0 entries (load p f).1 (get key entries))
    where
      key : String
      key = cache_key py session_id s

      entries : Dict
      entries = prune py p (load p f).0

  abbrev pub retried : Process → String → TaskSignature → Dict → CacheFile → CacheClaim × CacheFile
  retried q key s held f = miss_with q key s (prune py q held) f "context_fingerprint_changed"

  -- The answer to a claim that finds the entry of a claim in flight.
  abbrev pub in_flight :
      Process → String → TaskSignature → Process → Dict → CacheFile → CacheClaim × CacheFile
  in_flight q key s p held f =
      if is_recent py q (inflight_entry p s)
      then (refused inflight "concurrent_claim", f)
      else retried q key s held f

  inflight-claim_items :
      (q p : Process) (key : String) (s : TaskSignature) (y : Setting) (held : Dict) (f : CacheFile)
      → claim_items py q key s y held
          (prune py q held)
          f
          (inflight_entry p s)
          (iterate (get_or "selected_memory_ids" (arr (of_list [])) (inflight_entry p s)))
        ≡ answer (in_flight q key s p held f)
  unfolding inflight_entry get safe_ids claim_current
  inflight-claim_items q p key s y held f = refl

  pub claim-in_flight :
      (p q : Process) (session_id : String) (s : TaskSignature) (x y : Setting) (f : CacheFile)
      (c : CacheClaim)
      → times (cache_key py session_id s) (load p f).0 ≤ 1
      → suc (size (load p f).0) ≤ max_entries py p
      → (claim py p session_id s x f).0 ≡ ok c
      → c.status ≡ miss
      → q.runtime ≡ p.runtime
      → q.locks ≡ true
      → is_current q.now (ttl_seconds py q) p.now ≡ true
      → (held : Dict) × ((load q (claim py p session_id s x f).1).0 ≡ held)
        × (claim py q session_id s y (claim py p session_id s x f).1
            ≡ answer
                (in_flight q (cache_key py session_id s) s p held (claim py p session_id s x f).1))
  claim-in_flight p q session_id s x y f c once fits claimed missed same locked current =
      let file = of_claim (claim py p session_id s x f) (claim-Missed p session_id s x f) claimed in
      let found =
        found_again py q key held (inflight_entry p s) p.now
          (times-set key _ entries (at_most_once (times-prune py key p (load p f).0) once))
          (room (size-set_le key _ entries) (size-prune_le py p (load p f).0) fits
            (max_entries-same py p q same))
          (get-set_self key _ entries) (updated_of_entry p s) current in
      let reached =
        ap (claim py q session_id s y) file
        ∙ (claim-held py q p session_id s y held (inflight_entry p s) locked found
            ∙ inflight-claim_items q p key s y held (holds (payload p held))) in
      let loaded =
        ap (λ g. (load q g).0) file ∙ ap (λ (l : Dict × CacheFile). l.0) (load-payload q p held) in
      (held, loaded, reached ∙ ap (λ g. answer (in_flight q key s p held g)) (sym file))
    where
      key : String
      key = cache_key py session_id s

      entries : Dict
      entries = prune py p (load p f).0

      held : Dict
      held = set key (obj (inflight_entry p s)) entries

      of_claim :
          (r : Result Exception CacheClaim × CacheFile)
          → Missed p key s entries r
          → r.0 ≡ ok c
          → r.1 ≡ holds (payload p held)
      of_claim (err e, g) h k = cc
      of_claim (ok c', g) h k = h (ap (λ (d : CacheClaim). d.status) (ok-injective k) ∙ missed)

      at_most_once : {a b : ℕ} → a ≤ b → b ≤ 1 → a ≤ 1
      at_most_once h k = omega arith

      room : {a b c d e : ℕ} → a ≤ suc b → b ≤ c → suc c ≤ d → e ≡ d → a ≤ e
      room h k l m = omega arith
