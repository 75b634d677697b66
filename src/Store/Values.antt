-- ===== src/Store/Values.antt =====
-- The field validators return the value that they were given.
use codex_ralph_vault_loop.Base.{
  ℕ, ◌≡◌, refl, sym, ◌∙◌, Bool, true, false, not, if◌then◌else◌, String, arith,
}
use codex_ralph_vault_loop.Base.Int.{pos}
use codex_ralph_vault_loop.Json.{int, text}
use codex_ralph_vault_loop.Python.{Library, ok, ok-injective, require}
use codex_ralph_vault_loop.Store.Checked.{schema, red_content, bind-elim, ◌>>=◌, ◌>>◌}
use codex_ralph_vault_loop.Store.Fields.{
  integer, hash_text, plan_id, identifier, as_text, allowed_empty, matches_id,
}

pub integer-injective : (minimum m n : ℕ) → integer minimum (int (pos m)) ≡ ok n → n ≡ m
unfolding integer ◌>>=◌
integer-injective minimum m n e = ground arith

pub hash_text-injective : (allow : Bool) (s h : String) → hash_text allow (text s) ≡ ok h → h ≡ s
unfolding hash_text ◌>>=◌
hash_text-injective allow String.[] h e = ground arith
hash_text-injective allow (String.◌∷◌ c s) h e = ground arith

else-branch {ℓ} :
    {A : Type ℓ} (s : String) (x y : A) → (if allowed_empty false (text s) then x else y) ≡ y
else-branch String.[] x y = refl
else-branch (String.◌∷◌ c s) x y = refl

module _ (py : Library) (is_red : String → Bool) where
  checked-identifier :
      (s t : String)
      → (do
        s' ← as_text (text s)
        require (matches_id s') schema
        require (not (is_red s')) red_content
        ok s')
        ≡ ok t
      → t ≡ s
  checked-identifier s t h = bind-elim h λ s' q h.
      bind-elim h λ _ _ h. bind-elim h λ _ _ h. sym (ok-injective h) ∙ sym (ok-injective q)

  pub identifier-injective :
      (allow : Bool) (s t : String) → identifier py is_red allow (text s) ≡ ok t → t ≡ s
  unfolding identifier
  identifier-injective true String.[] t h = sym (ok-injective h)
  identifier-injective false String.[] t h = checked-identifier "" t h
  identifier-injective allow (String.◌∷◌ c s) t h = checked-identifier (String.◌∷◌ c s) t h

  pub plan_id-injective : (s t : String) → plan_id py is_red false (text s) ≡ ok t → t ≡ s
  unfolding plan_id
  plan_id-injective s t h = bind-elim (sym (else-branch s _ _) ∙ h) λ s' q h. bind-elim h λ _ _ h.
      bind-elim h λ _ _ h.
        bind-elim h λ _ _ h. bind-elim h λ _ _ h. sym (ok-injective h) ∙ sym (ok-injective q)
