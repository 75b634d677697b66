-- ===== src/ContextDelta/Held.antt =====
-- The cache as the next call finds it, behind a publication.
use codex_ralph_vault_loop.Base.{
  ◌≤◌, ◌≡◌, refl, ap, ◌∙◌, Bool, true, false, not, ◌&&◌, none, some, [], String, eq_refl, ltb,
  if◌then◌else◌, if-keeps,
}
use codex_ralph_vault_loop.Base.Int.{ℤ, pos}
use codex_ralph_vault_loop.Json.{
  Json, int, float, arr, obj, of_list, Dict, get, get_or, set, size, get-set,
}
use codex_ralph_vault_loop.Json.Eq.{json_eq}
use codex_ralph_vault_loop.Python.{Library, to_float}
use codex_ralph_vault_loop.Maintenance.Host.{Publication, fails, fails_late, succeeds}
use codex_ralph_vault_loop.ContextDelta.Cache.{
  Process, CacheFile, holds, max_state_bytes, is_current, is_fresh, ttl_seconds, max_entries, prune,
  entries_of, load, payload, published, write,
}
use codex_ralph_vault_loop.ContextDelta.Fingerprint.{TaskSignature, Setting, cache_key}
use codex_ralph_vault_loop.ContextDelta.Claims.{iterate, claim_items, claim_entry, claim}
use codex_ralph_vault_loop.ContextDelta.Pruned.{times, get-prune}

pub get-set_self : (k : String) (v : Json) (d : Dict) → get k (set k v d) ≡ some v
get-set_self k v d = get-set k k v d ∙ rw (eq_refl k) refl

pub load-payload :
    (q p : Process) (d : Dict) → load q (holds (payload p d)) ≡ (d, holds (payload p d))
unfolding load entries_of json_eq get
load-payload q p d = refl

published-done :
    (w : Publication) (v : Json) (f : CacheFile)
    → (published w v f).0 ≡ true
    → (published w v f).1 ≡ holds v
published-done fails v f h = cc
published-done fails_late v f h = cc
published-done succeeds v f h = refl

pub write-done :
    (p : Process) (d : Dict) (f : CacheFile)
    → (write p d f).0 ≡ true
    → (write p d f).1 ≡ holds (payload p d)
unfolding write
write-done p d f =
    if-keeps (λ (o : Bool × CacheFile). o.0 ≡ true → o.1 ≡ holds (payload p d))
      (ltb max_state_bytes (p.runtime.encoded_size (payload p d))) (false, f)
      (published p.publication (payload p d) f) (λ h. cc)
      (published-done p.publication (payload p d) f)

pub get_or-some :
    (k : String) {v : Json} (default : Json) (d : Dict) → get k d ≡ some v → get_or k default d ≡ v
get_or-some k default d h = ap (λ o. elim o [ none ↦ default | some w ↦ w ]) h

pub then_both :
    {A : Type 0} {a b : Bool} (x y : A) → a ≡ true → b ≡ true → (if a && b then x else y) ≡ x
then_both x y h k = rw h (rw k refl)

pub else_locked : {A : Type 0} {b : Bool} (x y : A) → b ≡ true → (if not b then x else y) ≡ y
else_locked x y h = rw h refl

pub max_entries-same :
    (py : Library) (p q : Process) → q.runtime ≡ p.runtime → max_entries py q ≡ max_entries py p
unfolding max_entries
max_entries-same py p q same = rw same refl

module _ (py : Library) where
  pub claim-held :
      (q p : Process) (session_id : String) (s : TaskSignature) (y : Setting) (held e : Dict)
      → q.locks ≡ true
      → get (cache_key py session_id s) (prune py q held) ≡ some (obj e)
      → claim py q session_id s y (holds (payload p held))
        ≡ claim_items py q
            (cache_key py session_id s)
            s
            y
            held
            (prune py q held)
            (holds (payload p held))
            e
            (iterate (get_or "selected_memory_ids" (arr (of_list [])) e))
  unfolding claim
  claim-held q p session_id s y held e locked found =
      else_locked _ _ locked
      ∙ (ap
            (λ (l : Dict × CacheFile).
              claim_entry py q key s y l.0 (prune py q l.0) l.1 (get key (prune py q l.0)))
            (load-payload q p held)
          ∙ ap (claim_entry py q key s y held (prune py q held) (holds (payload p held))) found)
    where
      key : String
      key = cache_key py session_id s

  -- The newest entry is still there.
  pub found_again :
      (q : Process) (key : String) (held e : Dict) (now : ℤ)
      → times key held ≤ 1
      → size held ≤ max_entries py q
      → get key held ≡ some (obj e)
      → get "updated_epoch" e ≡ some (float now)
      → is_current q.now (ttl_seconds py q) now ≡ true
      → get key (prune py q held) ≡ some (obj e)
  found_again q key held e now once room there updated current =
      get-prune py key q held e once room there (
        ap (λ v. is_fresh q.now (ttl_seconds py q) (to_float py v))
          (get_or-some "updated_epoch" (int (pos 0)) e updated)
        ∙ current)
