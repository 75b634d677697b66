-- ===== src/ContextDelta/Safe.antt =====
-- Identifiers of the cache that are safe already pass through `_safe_id` unchanged.
use codex_ralph_vault_loop.Base.{
  ℕ, zero, suc, ◌≤◌, ◌≡◌, refl, ap, ◌∙◌, Bool, true, false, List, [], ◌∷◌, map, String, codes,
  is_empty, all_codes, all_codes-take_text, text_length, take_text, length-take_text, All, All-take,
  arith, if-keeps, if-cases,
}
use codex_ralph_vault_loop.Json.{Json, text, to_list, of_list, to_list-of_list}
use codex_ralph_vault_loop.Python.{Library, or_else, to_str}
use codex_ralph_vault_loop.ContextDelta.Cache.{is_safe_char, filter_text, safe_id}
use codex_ralph_vault_loop.ContextDelta.Fingerprint.{
  leb_codes, insert_text, sort_texts, mem_text, distinct_texts, safe_ids, selection,
}

filter_text-fixed : (p : ℕ → Bool) (s : String) → all_codes p s ≡ true → filter_text p s ≡ s
filter_text-fixed p String.[] h = refl
filter_text-fixed p (String.◌∷◌ c s) h = ground (arith, filter_text-fixed p s)

all_codes-filter_text : (p : ℕ → Bool) (s : String) → all_codes p (filter_text p s) ≡ true
all_codes-filter_text p String.[] = refl
all_codes-filter_text p (String.◌∷◌ c s) = ground (arith, all_codes-filter_text p s)

take_text-fixed : (n : ℕ) (s : String) → text_length s ≤ n → take_text n s ≡ s
take_text-fixed zero String.[] h = refl
take_text-fixed zero (String.◌∷◌ c s) h = ground arith
take_text-fixed (suc n) String.[] h = refl
take_text-fixed (suc n) (String.◌∷◌ c s) h = ap (String.◌∷◌ c) (take_text-fixed n s (omega arith))

module _ (py : Library) where
  of_text : (s : String) → to_str py (or_else (text s) (text "")) ≡ s
  of_text String.[] = refl
  of_text (String.◌∷◌ c s) = refl

  pub safe_id-fixed : (v : Json) → safe_id py (text (safe_id py v)) ≡ safe_id py v
  unfolding safe_id
  safe_id-fixed v =
      let s = filter_text (is_safe_char py) (to_str py (or_else v (text ""))) in
      let safe =
        all_codes-take_text (is_safe_char py) 96 s (all_codes-filter_text (is_safe_char py) _) in
      rw (of_text (take_text 96 s)) (
        ap (take_text 96) (filter_text-fixed (is_safe_char py) (take_text 96 s) safe)
        ∙ take_text-fixed 96 (take_text 96 s) (length-take_text 96 s))

  -- An identifier that is safe and not empty.
  abbrev pub IsSafe : String → Type 0
  IsSafe s = (safe_id py (text s) ≡ s) × (is_empty s ≡ false)

  safe_ids-IsSafe : (vs : List Json) → All IsSafe (safe_ids py vs)
  unfolding safe_ids
  safe_ids-IsSafe [] = tt
  safe_ids-IsSafe (v ∷ vs) =
      if-cases (All IsSafe) (is_empty (safe_id py v)) (safe_ids py vs)
        (safe_id py v ∷ safe_ids py vs) (λ _. safe_ids-IsSafe vs)
        (λ full. ((safe_id-fixed v, full), safe_ids-IsSafe vs))

  distinct_texts-IsSafe : (ss : List String) → All IsSafe ss → All IsSafe (distinct_texts ss)
  distinct_texts-IsSafe [] h = tt
  distinct_texts-IsSafe (s ∷ ss) h =
      let rest = distinct_texts-IsSafe ss h.1 in
      if-keeps (All IsSafe) (mem_text s (distinct_texts ss)) _ (s ∷ distinct_texts ss) rest
        (h.0, rest)

  insert_text-IsSafe :
      (s : String) (ss : List String) → IsSafe s → All IsSafe ss → All IsSafe (insert_text s ss)
  unfolding insert_text
  insert_text-IsSafe s [] safe h = (safe, tt)
  insert_text-IsSafe s (t ∷ ts) safe h =
      if-keeps (All IsSafe) (leb_codes (codes s) (codes t)) (s ∷ t ∷ ts) (t ∷ insert_text s ts)
        (safe, h) (h.0, insert_text-IsSafe s ts safe h.1)

  sort_texts-IsSafe : (ss : List String) → All IsSafe ss → All IsSafe (sort_texts ss)
  unfolding sort_texts
  sort_texts-IsSafe [] h = tt
  sort_texts-IsSafe (s ∷ ss) h = insert_text-IsSafe s (sort_texts ss) h.0 (sort_texts-IsSafe ss h.1)

  selection-IsSafe : (ids : List String) → All IsSafe (selection py ids)
  unfolding selection
  selection-IsSafe ids =
      let safe = safe_ids-IsSafe (map text ids) in
      let set = distinct_texts (safe_ids py (map text ids)) in
      All-take IsSafe 8 (sort_texts set)
        (sort_texts-IsSafe set (distinct_texts-IsSafe (safe_ids py (map text ids)) safe))

  safe_ids-fixed : (ss : List String) → All IsSafe ss → safe_ids py (map text ss) ≡ ss
  unfolding safe_ids
  safe_ids-fixed [] h = refl
  safe_ids-fixed (s ∷ ss) h = rw h.0.0 (rw h.0.1 (ap (◌∷◌ s) (safe_ids-fixed ss h.1)))

  -- The identifiers that were selected are read back as they are.
  pub safe_ids-selection :
      (ids : List String)
      → safe_ids py (to_list (of_list (map text (selection py ids)))) ≡ selection py ids
  safe_ids-selection ids =
      rw (to_list-of_list (map text (selection py ids)))
        (safe_ids-fixed (selection py ids) (selection-IsSafe ids))
