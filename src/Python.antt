-- ===== src/Python.antt =====
-- What the program uses of Python and of its standard library: exceptions, conversions between
-- values, and the calls whose text is not modelled.
use Prim.Native.Char.{code}
use codex_ralph_vault_loop.Base.{
  ℕ, zero, suc, ◌+◌, ◌/◌, ◌≡◌, refl, ◌⊎◌, inl, inr, Bool, true, false, not, ◌&&◌, Option, none,
  some, String, ◌==◌, is_empty, if◌then◌else◌,
}
use codex_ralph_vault_loop.Base.Int.{ℤ, pos, negsuc, eqb_ℤ}
use codex_ralph_vault_loop.Json.{
  Json, null, bool, int, float, text, arr, obj, nil, cons, end, field,
}
use codex_ralph_vault_loop.Json.Eq.{number_value}

-- A call that returns or raises.
pub data Result {ℓ κ} (E : Type ℓ) (A : Type κ) : Type (ℓ ⊔ κ) where
  ok : A → Result E A
  err : E → Result E A

infixl 5 ◌>>=◌ ◌>>◌
abbrev pub ◌>>=◌ {ℓ κ ι} :
    {E : Type ℓ} {A : Type κ} {B : Type ι} → Result E A → (A → Result E B) → Result E B
ok x >>= next = next x
err raised >>= next = err raised

abbrev pub ◌>>◌ {ℓ κ ι} :
    {E : Type ℓ} {A : Type κ} {B : Type ι} → Result E A → Result E B → Result E B
first >> second = first >>= λ _. second

-- `if not test: raise error`
abbrev pub require {ℓ} : {E : Type ℓ} → Bool → E → Result E (Unit {0})
require test error = elim test [ true ↦ ok tt | false ↦ err error ]

-- A block that returned: its first call did, and so did the rest.
pub bind-eq-ok {ℓ κ ι} :
    {E : Type ℓ} {A : Type κ} {B : Type ι} (call : Result E A) (next : A → Result E B) {y : B}
    → ◌≡◌ {A = Result E B} (call >>= next) (ok y)
    → (x : A) × ◌≡◌ {A = Result E A} call (ok x) × ◌≡◌ {A = Result E B} (next x) (ok y)
bind-eq-ok (ok x) next e = (x, refl, e)
bind-eq-ok (err raised) next e = cc

pub Result-cases {ℓ κ} :
    {E : Type ℓ} {A : Type κ} (m : Result E A) → ((e : E) × (m ≡ err e)) ⊎ ((a : A) × (m ≡ ok a))
Result-cases (ok a) = inr (a, refl)
Result-cases (err e) = inl (e, refl)

pub ok-injective {ℓ κ} :
    {E : Type ℓ} {A : Type κ} {a b : A} → ◌≡◌ {A = Result E A} (ok a) (ok b) → a ≡ b
ok-injective h = cc

-- The exceptions of the standard library that the program catches.
pub data Exception : Type 0 where
  os_error type_error value_error : Exception

-- The calls of the standard library that are taken as they come: hashes, the text of a value, and
-- the tables of Unicode.
pub record Library : Type 0 where
  -- `hashlib.sha256(s.encode("utf-8")).hexdigest()`
  pub sha256 : String → String
  -- `str(v)` of a number, a list or a dictionary
  pub repr : Json → String
  -- `json.dumps(v, ensure_ascii=False, sort_keys=True, separators=(",", ":"))`
  pub dumps : Json → String
  -- `s.lower()` and `s.upper()`
  pub lower : String → String
  pub upper : String → String
  -- `float(s)` and `int(s)` of a text; `none` is a ValueError
  pub float_of : String → Option ℤ
  pub int_of : String → Option ℤ
  -- `c.isalnum()` and `c.isspace()` of a character
  pub is_alnum : ℕ → Bool
  pub is_space : ℕ → Bool

abbrev opposite : ℕ → ℤ
opposite zero = pos 0
opposite (suc n) = negsuc n

-- `bool(v)`
abbrev pub truthy : Json → Bool
truthy null = false
truthy (bool b) = b
truthy (int z) = not (eqb_ℤ z (pos 0))
truthy (float z) = not (eqb_ℤ z (pos 0))
truthy (text s) = not (is_empty s)
truthy (arr nil) = false
truthy (arr (cons x xs)) = true
truthy (obj end) = false
truthy (obj (field k v d)) = true

-- `v == s` for a text `s`
abbrev pub is_text : String → Json → Bool
is_text s (text t) = t == s
is_text s _ = false

-- `v or w`
abbrev pub or_else : Json → Json → Json
or_else v w = if truthy v then v else w

module _ (py : Library) where
  -- `s.strip()`
  abbrev strip_left : String → String
  strip_left String.[] = String.[]
  strip_left (String.◌∷◌ c s) = if py.is_space (code c) then strip_left s else String.◌∷◌ c s

  abbrev strip_right : String → String
  strip_right String.[] = String.[]
  strip_right (String.◌∷◌ c s) =
      let rest = strip_right s in
      if py.is_space (code c) && is_empty rest then String.[] else String.◌∷◌ c rest

  abbrev pub strip : String → String
  strip s = strip_right (strip_left s)

  -- `str(v)`
  abbrev pub to_str : Json → String
  to_str null = "None"
  to_str (bool true) = "True"
  to_str (bool false) = "False"
  to_str (text s) = s
  to_str v = py.repr v

  -- `float(v)` in millionths; `none` is a TypeError or a ValueError
  abbrev pub to_float : Json → Option ℤ
  to_float (text s) = py.float_of s
  to_float v = number_value v

  -- `int(v)`, which cuts a fraction off towards zero
  abbrev pub to_int : Json → Result Exception ℤ
  to_int null = err Exception.type_error
  to_int (bool true) = ok (pos 1)
  to_int (bool false) = ok (pos 0)
  to_int (int z) = ok z
  to_int (float (pos n)) = ok (pos (n / 1_000_000))
  to_int (float (negsuc n)) = ok (opposite ((n + 1) / 1_000_000))
  to_int (text s) = elim (py.int_of s) [ none ↦ err Exception.value_error | some z ↦ ok z ]
  to_int (arr xs) = err Exception.type_error
  to_int (obj d) = err Exception.type_error
