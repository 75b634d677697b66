-- ===== src/Store/Patch.antt =====
-- The keys that a patch of a validated record can have.
use codex_ralph_vault_loop.Base.{
  ◌≡◌, refl, subst, ◌∙◌, Bool, false, none, List, [], ◌∷◌, String, arith, eq_iff, Option-cases, inl,
  inr,
}
use codex_ralph_vault_loop.Json.{Json, Dict, end, field, get, set, update, get-set}
use codex_ralph_vault_loop.Python.{Library, ok, ok-injective}
use codex_ralph_vault_loop.Store.Checked.{bind-elim}
use codex_ralph_vault_loop.Store.Fields.{is_one_of}
use codex_ralph_vault_loop.Store.Event.{
  FieldCheck, patch_fields, check_keys, patch_checks, state_patch,
}

-- An update leaves the keys that it has not.
pub get-update-none : (k : String) (d e : Dict) → get k e ≡ none → get k (update d e) ≡ get k d
unfolding get update
get-update-none k d end h = refl
get-update-none k d (field j v e) h =
    get-update-none k (set j v d) e (ground (arith, eq_iff j k))
    ∙ get-set k j v d
    ∙ ground (arith, eq_iff j k)

pub patch_fields-none :
    (k : String) (cs : List FieldCheck) (d p : Dict)
    → is_one_of (check_keys cs) k ≡ false
    → patch_fields cs d ≡ ok p
    → get k p ≡ none
unfolding patch_fields get
patch_fields-none k [] d p absent h = subst (λ q. get k q ≡ none) (ok-injective h) refl
patch_fields-none k (c ∷ cs) d p absent h = elim (Option-cases (get c.0 d)) [
  | inl q ↦ patch_fields-none k cs d p (ground arith) (rw (q, patch_fields) at h)
  | inr (v, q) ↦ bind-elim (rw (q, patch_fields) at h) λ w _ h. bind-elim h λ others r h.
      let rest = patch_fields-none k cs d others (ground arith) r in
      subst (λ q. get k q ≡ none) (ok-injective h) (ground (arith, eq_iff k c.0, eq_iff c.0 k))
]

pub state_patch-none :
    (py : Library) (is_red : String → Bool) (k : String) (v : Json) (p : Dict)
    → is_one_of (check_keys (patch_checks py is_red)) k ≡ false
    → state_patch py is_red v ≡ ok p
    → get k p ≡ none
unfolding state_patch
state_patch-none py is_red k v p absent h = bind-elim h λ d _ h. bind-elim h λ _ _ h.
    bind-elim h λ _ _ h. bind-elim h λ patch q h.
      bind-elim h λ _ _ h.
        subst (λ q. get k q ≡ none) (ok-injective h) (patch_fields-none k _ d patch absent q)
