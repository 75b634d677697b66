-- ===== src/Store/Checked.antt =====
-- The exceptions of the store, and blocks of calls that may raise them. A block stays shut in a
-- proof, so that `bind-elim` reads off its first call.
use codex_ralph_vault_loop.Base.{◌≡◌, refl, Bool, true, false}
use codex_ralph_vault_loop.Python.{Result, ok, err, require}

-- `SchemaError` and its two kinds, `StoreError` and its two kinds, `CorruptRecordError`,
-- `StorePathError` and `StoreIOError`; the errors of a conversion, and of a variable that has no
-- value yet.
pub data StoreError : Type 0 where
  schema future_schema red_content store idempotency integrity corrupt unsafe_path io conversion
        unbound_local :
      StoreError

-- `except CorruptRecordError`
unfoldable pub is_corrupt : StoreError → Bool
is_corrupt corrupt = true
is_corrupt e = false

abbrev pub Checked : Type 0 → Type 0
Checked A = Result StoreError A

infixl 5 ◌>>=◌ ◌>>◌
unfoldable pub ◌>>=◌ : {A B : Type 0} → Checked A → (A → Checked B) → Checked B
ok x >>= next = next x
err raised >>= next = err raised

abbrev pub ◌>>◌ : {A B : Type 0} → Checked A → Checked B → Checked B
first >> second = first >>= λ _. second

-- A block that returned: its first call did, and so did the rest.
pub bind-elim {ι} :
    {A B : Type 0} {P : Type ι} {call : Checked A} {next : A → Checked B} {y : B}
    → ((call >>= next) ≡ ok y)
    → ((x : A) → (call ≡ ok x) → (next x ≡ ok y) → P)
    → P
unfolding ◌>>=◌
bind-elim {call = ok x} e rule = rule x refl e
bind-elim {call = err raised} e rule = cc

pub require-elim :
    {x : Unit {0}} (error : StoreError) (test : Bool)
    → ◌≡◌ {A = Checked (Unit {0})} (require test error) (ok x)
    → test ≡ true
require-elim error true e = refl
require-elim error false e = cc

-- A check that holds is passed.
pub require-pass :
    {B : Type 0} (error : StoreError) (test : Bool) (rest : Checked B)
    → test ≡ true
    → (require test error >> rest) ≡ rest
unfolding ◌>>=◌
require-pass error true rest e = refl
require-pass error false rest e = cc
