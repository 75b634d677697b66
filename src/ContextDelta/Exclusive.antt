-- ===== src/ContextDelta/Exclusive.antt =====
-- A claim in flight excludes others for a while.
use codex_ralph_vault_loop.Base.{
  ℕ, subst, suc, arith, ◌≤◌, ◌≡◌, refl, ap, ◌∙◌, Bool, true, false, String, ltb, if◌then◌else◌,
}
use codex_ralph_vault_loop.Base.Int.{leb_ℤ, ◌-ℤ◌}
use codex_ralph_vault_loop.Json.{Json, obj, Dict, get, set, size}
use codex_ralph_vault_loop.Json.Eq.{millionths}
use codex_ralph_vault_loop.Python.{Library, Result, ok, Exception}
use codex_ralph_vault_loop.Maintenance.Host.{succeeds}
use codex_ralph_vault_loop.ContextDelta.Cache.{
  Process, CacheFile, max_state_bytes, inflight_seconds, is_current, ttl_seconds, max_entries,
  prune, load, payload, published, write,
}
use codex_ralph_vault_loop.ContextDelta.Fingerprint.{TaskSignature, Setting, cache_key}
use codex_ralph_vault_loop.ContextDelta.Claims.{
  CacheClaim, inflight, miss, refused, inflight_entry, miss_claim, miss_with, is_recent, claim,
}
use codex_ralph_vault_loop.ContextDelta.Pruned.{times}
use codex_ralph_vault_loop.ContextDelta.Missed.{retried, answer, claim-in_flight}

ltb_fits : (n : ℕ) → n ≤ 524_288 → ltb max_state_bytes n ≡ false
ltb_fits n h = ground arith

module _ (py : Library) where
  recent :
      (q p : Process) (s : TaskSignature)
      → is_recent py q (inflight_entry p s) ≡ leb_ℤ (q.now -ℤ p.now) (millionths inflight_seconds)
  unfolding inflight_entry get
  recent q p s = refl

  -- What a claim of a key writes when it finds some entries and misses.
  abbrev pub claimed_payload : Process → String → TaskSignature → Dict → Json
  claimed_payload q session_id s d =
      payload q (set (cache_key py session_id s) (obj (inflight_entry q s)) (prune py q d))

  miss_with-status :
      (q : Process) (key : String) (s : TaskSignature) (entries : Dict) (f : CacheFile)
      (reason : String)
      → q.publication ≡ succeeds
      → q.runtime.encoded_size (payload q (set key (obj (inflight_entry q s)) entries)) ≤ 524_288
      → (miss_with q key s entries f reason).0.status ≡ miss
  unfolding miss_with write
  miss_with-status q key s entries f reason publishes fits =
      let v = payload q (set key (obj (inflight_entry q s)) entries) in
      ap (λ b. (miss_claim q reason b).status)
        (ap (λ (b : Bool). (if b then (false, f) else published q.publication v f).0)
            (ltb_fits (q.runtime.encoded_size v) fits)
          ∙ ap (λ w. (published w v f).0) publishes)

  -- Behind a claim that missed, where the file names its key at most once and has room for one more
  -- entry, and in the same runtime: a claim of the key within 15 seconds, and before the entry is
  -- too old, is told that another is in flight, whatever setting it has, and writes nothing.
  pub claim-excludes :
      (p q : Process) (session_id : String) (s : TaskSignature) (x y : Setting) (f : CacheFile)
      (c : CacheClaim)
      → times (cache_key py session_id s) (load p f).0 ≤ 1
      → suc (size (load p f).0) ≤ max_entries py p
      → (claim py p session_id s x f).0 ≡ ok c
      → c.status ≡ miss
      → q.runtime ≡ p.runtime
      → q.locks ≡ true
      → is_current q.now (ttl_seconds py q) p.now ≡ true
      → leb_ℤ (q.now -ℤ p.now) (millionths inflight_seconds) ≡ true
      → claim py q session_id s y (claim py p session_id s x f).1
        ≡ (ok (refused inflight "concurrent_claim"), (claim py p session_id s x f).1)
  claim-excludes p q session_id s x y f c once fits claimed missed same locked current early =
      let (held, loaded, reached) =
        claim-in_flight py p q session_id s x y f c once fits claimed missed same locked current in
      reached
      ∙ ap
          (λ (b : Bool).
            answer
              (if b then (refused inflight "concurrent_claim", g) else retried py q key s held g))
          (recent q p s ∙ early)
    where
      key : String
      key = cache_key py session_id s

      g : CacheFile
      g = (claim py p session_id s x f).1

  -- A claim that missed and was never finalized holds up no one for longer than 15 seconds: in the
  -- same runtime, where the file names the key at most once and has room for one more entry, a claim
  -- of the key that comes later, and before the entry is too old, misses as well, if the state
  -- that it writes has at most 512 KiB and is published.
  pub claim-retries :
      (p q : Process) (session_id : String) (s : TaskSignature) (x y : Setting) (f : CacheFile)
      (c : CacheClaim)
      → times (cache_key py session_id s) (load p f).0 ≤ 1
      → suc (size (load p f).0) ≤ max_entries py p
      → (claim py p session_id s x f).0 ≡ ok c
      → c.status ≡ miss
      → q.runtime ≡ p.runtime
      → q.locks ≡ true
      → is_current q.now (ttl_seconds py q) p.now ≡ true
      → leb_ℤ (q.now -ℤ p.now) (millionths inflight_seconds) ≡ false
      → q.publication ≡ succeeds
      → q.runtime.encoded_size
          (claimed_payload q session_id s (load q (claim py p session_id s x f).1).0)
        ≤ 524_288
      → (r : CacheClaim) × ((claim py q session_id s y (claim py p session_id s x f).1).0 ≡ ok r)
        × (r.status ≡ miss)
  claim-retries p q session_id s x y f c once fits claimed missed same locked current late publishes
        small =
      let (held, loaded, reached) =
        claim-in_flight py p q session_id s x y f c once fits claimed missed same locked current in
      let again =
        reached
        ∙ ap
            (λ (b : Bool).
              answer
                (if b then (refused inflight "concurrent_claim", g) else retried py q key s held g))
            (recent q p s ∙ late) in
      (
        (retried py q key s held g).0,
        ap (λ (o : Result Exception CacheClaim × CacheFile). o.0) again,
        miss_with-status q key s (prune py q held) g "context_fingerprint_changed" publishes (
            subst (λ d. q.runtime.encoded_size (claimed_payload q session_id s d) ≤ 524_288) loaded
              small),
      )
    where
      key : String
      key = cache_key py session_id s

      g : CacheFile
      g = (claim py p session_id s x f).1
