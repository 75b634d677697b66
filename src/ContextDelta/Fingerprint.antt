-- ===== src/ContextDelta/Fingerprint.antt =====
-- What a cache entry is told apart by: `_session_key`, `context_fingerprint` and the selection of
-- memories of context_delta.py, and `TaskSignature` of task_signature.py.
use Prim.Native.String.{◌++◌}
use codex_ralph_vault_loop.Base.{
  ℕ, Bool, true, false, ◌&&◌, ◌||◌, List, [], ◌∷◌, map, String, ◌==◌, codes, is_empty, take,
  take_text, eqb, ltb, if◌then◌else◌,
}
use codex_ralph_vault_loop.Json.{Json, null, text, arr, obj, of_list, Dict, get, get_or, dict}
use codex_ralph_vault_loop.Python.{Library, or_else, to_str}
use codex_ralph_vault_loop.ContextDelta.Cache.{Process, safe_id}

-- `TaskSignature` of task_signature.py
pub record TaskSignature : Type 0 where
  pub value : String
  pub anchor : String
  pub project_id : String
  pub workspace_instance_id : String
  pub branch : String
  pub head : String
  pub prompt_hash : String
  pub intent : String
  pub sensitivity : String
  pub model_family : String
  pub checkpoint_identity : String
  pub model_source : String
  pub model_verified : Bool

-- What else a fingerprint is made of.
pub record Setting : Type 0 where
  pub memory_generation : String
  pub route : String
  pub profile : String
  pub clarification_state : String
  pub checkpoint_hash : String

-- `s <= t` of texts, by code points
abbrev pub leb_codes : List ℕ → List ℕ → Bool
leb_codes [] ys = true
leb_codes (x ∷ xs) [] = false
leb_codes (x ∷ xs) (y ∷ ys) = ltb x y || (eqb x y && leb_codes xs ys)

-- `sorted(…)` of texts
unfoldable pub insert_text : String → List String → List String
insert_text s [] = s ∷ []
insert_text s (t ∷ ts) = if leb_codes (codes s) (codes t) then s ∷ t ∷ ts else t ∷ insert_text s ts

unfoldable pub sort_texts : List String → List String
sort_texts [] = []
sort_texts (s ∷ ss) = insert_text s (sort_texts ss)

abbrev pub mem_text : String → List String → Bool
mem_text s [] = false
mem_text s (t ∷ ts) = s == t || mem_text s ts

-- The texts of a set.
abbrev pub distinct_texts : List String → List String
distinct_texts [] = []
distinct_texts (s ∷ ss) = let rest = distinct_texts ss in if mem_text s rest then rest else s ∷ rest

-- The clarification state is not told.
abbrev pub is_unclear : String → Bool
is_unclear s = s == "" || s == "unknown"

module _ (py : Library) where
  -- `_session_key` and the signature
  unfoldable pub cache_key : String → TaskSignature → String
  cache_key session_id s = take_text 24 (py.sha256 session_id) ++ (":" ++ s.value)

  -- `_safe_id(item) for item in … if _safe_id(item)`
  unfoldable pub safe_ids : List Json → List String
  safe_ids [] = []
  safe_ids (v ∷ vs) =
      let rest = safe_ids vs in if is_empty (safe_id py v) then rest else safe_id py v ∷ rest

  abbrev pub material : TaskSignature → List String → Setting → Json
  material s ids x = obj (
      dict (
        ("contract_version", text "prompt-context-v1")
        ∷ ("task_signature", text s.value)
        ∷ (
          "selected_memory_ids",
          arr (of_list (map text (take 8 (sort_texts (safe_ids (map text ids)))))),
        )
        ∷ ("memory_generation", text (safe_id py (text x.memory_generation)))
        ∷ ("route", text (safe_id py (text x.route)))
        ∷ ("profile", text (safe_id py (text x.profile)))
        ∷ ("clarification_state", text (safe_id py (text x.clarification_state)))
        ∷ ("checkpoint_hash", text (safe_id py (text x.checkpoint_hash)))
        ∷ []))

  unfoldable pub context_fingerprint : Process → TaskSignature → List String → Setting → String
  context_fingerprint p s ids x =
      take_text 32 (py.sha256 (p.runtime.ascii_dumps (material s ids x)))

  -- The clarification that the stored fingerprint is compared with.
  unfoldable pub effective : Setting → Dict → Setting
  unfolding get
  effective x current =
      if is_unclear x.clarification_state
      then record x {
        clarification_state =
            to_str py (or_else (get_or "clarification_state" null current) (text "unknown"));
      }
      else x

  -- The memories that `finalize` keeps.
  unfoldable pub selection : List String → List String
  selection ids = take 8 (sort_texts (distinct_texts (safe_ids (map text ids))))
