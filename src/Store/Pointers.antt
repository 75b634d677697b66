-- ===== src/Store/Pointers.antt =====
-- `validate_manifest` gives back a manifest that it accepts.
use codex_ralph_vault_loop.Base.{ℕ, ◌≡◌, subst, sym, ◌∙◌, Bool, true, false, List, [], ◌∷◌, String}
use codex_ralph_vault_loop.Json.{text, get, arr, Items}
use codex_ralph_vault_loop.Python.{Library, ok, ok-injective}
use codex_ralph_vault_loop.Store.Checked.{bind-elim}
use codex_ralph_vault_loop.Store.Fields.{enum, bounded_text, repo_path, items, object}
use codex_ralph_vault_loop.Store.Values.{
  integer-injective, hash_text-injective, identifier-injective, plan_id-injective,
}
use codex_ralph_vault_loop.Store.Manifest.{
  Pointer, pointer_dict, Manifest, manifest_dict, pointer_items, pointer, pointers, store_path,
  validate_manifest,
}

enum-injective : (allowed : List String) (s t : String) → enum allowed (text s) ≡ ok t → t ≡ s
unfolding enum
enum-injective allowed s t h =
    bind-elim h λ _ q h. bind-elim h λ _ _ h. sym (ok-injective h) ∙ sym (ok-injective q)

items-injective : (n : ℕ) (xs ys : Items) → items n (arr xs) ≡ ok ys → ys ≡ xs
unfolding items
items-injective n xs ys h = bind-elim h λ _ _ h. sym (ok-injective h)

module _ (py : Library) (is_red : String → Bool) where
  bounded_text-injective :
      (limit : ℕ) (allow : Bool) (s t : String)
      → bounded_text py is_red limit allow (text s) ≡ ok t
      → t ≡ s
  unfolding bounded_text
  bounded_text-injective limit allow s t h = bind-elim h λ _ q h. bind-elim h λ _ _ h.
      bind-elim h λ _ _ h.
        bind-elim h λ _ _ h. bind-elim h λ _ _ h. sym (ok-injective h) ∙ sym (ok-injective q)

  repo_path-injective :
      (allow : Bool) (s t : String) → repo_path py is_red allow (text s) ≡ ok t → t ≡ s
  unfolding repo_path
  repo_path-injective true String.[] t h = sym (ok-injective h)
  repo_path-injective false String.[] t h = bind-elim h λ _ q h.
      bind-elim h λ _ _ h.
        bind-elim h λ _ _ h. bind-elim h λ _ _ h. sym (ok-injective h) ∙ sym (ok-injective q)
  repo_path-injective allow (String.◌∷◌ c s) t h = bind-elim h λ _ q h.
      bind-elim h λ _ _ h.
        bind-elim h λ _ _ h. bind-elim h λ _ _ h. sym (ok-injective h) ∙ sym (ok-injective q)

  store_path-injective : (s t : String) → store_path py is_red (text s) ≡ ok t → t ≡ s
  unfolding store_path
  store_path-injective s t h =
      bind-elim h
        λ r q h. bind-elim h λ _ _ h. sym (ok-injective h) ∙ repo_path-injective false s r q

  pointer-injective : (p q : Pointer) → pointer py is_red (pointer_dict p) ≡ ok q → q ≡ p
  unfolding pointer get
  pointer-injective p q h = bind-elim h λ _ _ h. bind-elim h λ _ q1 h. bind-elim h λ _ q2 h.
      bind-elim h λ _ q3 h. bind-elim h λ _ q4 h. bind-elim h λ _ q5 h. bind-elim h λ _ q6 h.
        bind-elim h λ _ q7 h. bind-elim h λ _ q8 h. sym (ok-injective h) ∙ (λ i. record {
          plan_id = plan_id-injective py is_red p.plan_id _ q1 i;
          plan_path = repo_path-injective true p.plan_path _ q2 i;
          state_path = store_path-injective p.state_path _ q3 i;
          status = enum-injective _ p.status _ q4 i;
          branch = bounded_text-injective 240 true p.branch _ q5 i;
          workspace_instance_id =
              identifier-injective py is_red true p.workspace_instance_id _ q6 i;
          semantic_hash = hash_text-injective true p.semantic_hash _ q7 i;
          last_event_sequence = integer-injective 0 p.last_event_sequence _ q8 i;
        })

  pointers-injective :
      (seen : List String) (ps qs : List Pointer)
      → pointers py is_red seen (pointer_items ps) ≡ ok qs
      → qs ≡ ps
  unfolding pointers object
  pointers-injective seen [] qs h = sym (ok-injective h)
  pointers-injective seen (p ∷ ps) qs h = bind-elim h λ d q1 h. bind-elim h λ p' q2 h.
      bind-elim h λ _ _ h. bind-elim h λ rest q3 h. sym (ok-injective h) ∙ (λ i.
        pointer-injective p p' (subst (λ d. pointer py is_red d ≡ ok p') (sym (ok-injective q1)) q2)
          i
        ∷ pointers-injective (p'.plan_id ∷ seen) ps rest q3 i)

  pub validate_manifest-injective :
      (m m' : Manifest) → validate_manifest py is_red (manifest_dict m) ≡ ok m' → m' ≡ m
  unfolding validate_manifest get
  validate_manifest-injective m m' h = bind-elim h λ _ _ h. bind-elim h λ _ _ h.
      bind-elim h λ _ q1 h. bind-elim h λ _ q2 h. bind-elim h λ raw q3 h. bind-elim h λ plans q4 h.
        bind-elim h λ _ _ h. bind-elim h λ _ _ h.
          let same = items-injective 64 (pointer_items m.plans) raw q3 in
          sym (ok-injective h) ∙ (λ i. record {
            canonical_repo_identity =
                identifier-injective py is_red true m.canonical_repo_identity _ q1 i;
            generation = integer-injective 0 m.generation _ q2 i;
            plans =
                pointers-injective [] m.plans plans
                  (subst (λ r. pointers py is_red [] r ≡ ok plans) same q4) i;
          })
