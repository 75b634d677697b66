-- ===== src/Store/Fixed.antt =====
-- A record of the emission ledger that was validated passes its validation again, unchanged.
use codex_ralph_vault_loop.Base.{ℕ, ◌≡◌, refl, ap, sym, subst, ◌∙◌, Bool, false, String, List}
use codex_ralph_vault_loop.Base.Int.{pos, negsuc}
use codex_ralph_vault_loop.Json.{Json, null, bool, int, float, text, arr, obj, Dict, get}
use codex_ralph_vault_loop.Python.{Library, ok, ok-injective}
use codex_ralph_vault_loop.Store.Checked.{
  schema, Checked, bind-elim, require-elim, require-pass, ◌>>=◌,
}
use codex_ralph_vault_loop.Store.Fields.{
  enum, integer, check_version, known_keys, identifier, plan_id, is_one_of,
}
use codex_ralph_vault_loop.Store.Values.{integer-injective, identifier-injective, plan_id-injective}
use codex_ralph_vault_loop.Store.Emission.{
  Emission, key_of, emission_dict, capsule_kinds, emission_fields, seal_emission, validate_emission,
  context_ledger_key,
}

-- A call that returns hands its value on.
pub bind-ok :
    {A B : Type 0} (next : A → Checked B) {call : Checked A} {x : A}
    → call ≡ ok x
    → (call >>= next) ≡ next x
unfolding ◌>>=◌
bind-ok next h = ap (λ m. m >>= next) h

integer-fixed :
    (minimum : ℕ) (v : Json) {n : ℕ}
    → integer minimum v ≡ ok n
    → integer minimum (int (pos n)) ≡ ok n
unfolding integer ◌>>=◌
integer-fixed minimum (int (pos m)) {n} h =
    let same = integer-injective minimum m n h in rw same (rw same at h)
integer-fixed minimum (int (negsuc m)) h = cc
integer-fixed minimum null h = cc
integer-fixed minimum (bool b) h = cc
integer-fixed minimum (float z) h = cc
integer-fixed minimum (text s) h = cc
integer-fixed minimum (arr xs) h = cc
integer-fixed minimum (obj d) h = cc

enum-fixed :
    (allowed : List String) (v : Json) {s : String}
    → enum allowed v ≡ ok s
    → enum allowed (text s) ≡ ok s
unfolding enum ◌>>=◌
enum-fixed allowed v {s} h = bind-elim h λ t q h. bind-elim h λ _ r h.
    let same = ok-injective h in
    subst (λ u. enum allowed (text u) ≡ ok u) same
      (require-pass schema (is_one_of allowed t) (ok t) (require-elim schema _ r))

module _ (py : Library) (is_red : String → Bool) where
  identifier-fixed :
      (v : Json) {s : String}
      → identifier py is_red false v ≡ ok s
      → identifier py is_red false (text s) ≡ ok s
  unfolding identifier ◌>>=◌
  identifier-fixed (text t) {s} h =
      let same = identifier-injective py is_red false t s h in rw same (rw same at h)
  identifier-fixed null h = cc
  identifier-fixed (bool b) h = cc
  identifier-fixed (int z) h = cc
  identifier-fixed (float z) h = cc
  identifier-fixed (arr xs) h = cc
  identifier-fixed (obj d) h = cc

  plan_id-fixed :
      (v : Json) {s : String}
      → plan_id py is_red false v ≡ ok s
      → plan_id py is_red false (text s) ≡ ok s
  unfolding plan_id ◌>>=◌
  plan_id-fixed (text t) {s} h =
      let same = plan_id-injective py is_red t s h in rw same (rw same at h)
  plan_id-fixed null h = cc
  plan_id-fixed (bool b) h = cc
  plan_id-fixed (int z) h = cc
  plan_id-fixed (float z) h = cc
  plan_id-fixed (arr xs) h = cc
  plan_id-fixed (obj d) h = cc

  emission_fields-fixed :
      (d : Dict) {e : Emission}
      → emission_fields py is_red d ≡ ok e
      → emission_fields py is_red (emission_dict e) ≡ ok e
  unfolding emission_fields get check_version known_keys
  emission_fields-fixed d h = bind-elim h λ _ _ h. bind-elim h λ _ _ h. bind-elim h λ a p h.
      bind-elim h λ b q h. bind-elim h λ c r h. bind-elim h λ f s h. bind-elim h λ g t h.
        bind-elim h λ n u h. bind-elim h λ k v h. bind-elim h λ i w h.
          subst (λ e. emission_fields py is_red (emission_dict e) ≡ ok e) (ok-injective h)
            (bind-ok _ refl
              ∙ bind-ok _ refl
              ∙ bind-ok _ (identifier-fixed _ p)
              ∙ bind-ok _ (identifier-fixed _ q)
              ∙ bind-ok _ (identifier-fixed _ r)
              ∙ bind-ok _ (identifier-fixed _ s)
              ∙ bind-ok _ (plan_id-fixed _ t)
              ∙ bind-ok _ (integer-fixed 0 _ u)
              ∙ bind-ok _ (enum-fixed capsule_kinds _ v)
              ∙ bind-ok _ (identifier-fixed _ w))

  -- The validated record is what the validation of its dictionary returns.
  pub validate_emission-fixed :
      (d : Dict) {e : Emission}
      → validate_emission py is_red d ≡ ok e
      → validate_emission py is_red (emission_dict e) ≡ ok e
  unfolding validate_emission seal_emission
  validate_emission-fixed d {e} h = bind-elim h λ e' p h. bind-elim h λ _ q h'.
      bind-elim h' λ _ r h'.
        let same = ok-injective h' in
        subst (λ x. validate_emission py is_red (emission_dict x) ≡ ok x) same
          (bind-ok _ (emission_fields-fixed d p) ∙ (h ∙ ap ok (sym same)))

  pub context_ledger_key-fixed :
      (d : Dict) {e : Emission}
      → validate_emission py is_red d ≡ ok e
      → context_ledger_key py is_red (emission_dict e) ≡ ok (key_of e)
  unfolding context_ledger_key
  context_ledger_key-fixed d h = bind-ok _ (validate_emission-fixed d h)
