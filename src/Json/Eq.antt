-- ===== src/Json/Eq.antt =====
-- Python's `==` on decoded JSON: numbers compare by value, dictionaries without regard to order.
use codex_ralph_vault_loop.Base.{
  ◌+◌, ◌*◌, ◌≡◌, refl, Bool, true, false, ◌&&◌, Option, none, some, String, ◌==◌, eqb,
}
use codex_ralph_vault_loop.Base.Int.{ℤ, pos, negsuc, eqb_ℤ}
use codex_ralph_vault_loop.Json.{
  Json, null, bool, int, float, text, arr, obj, Items, nil, cons, Dict, end, field, get, size,
}

-- An integer as a number of millionths.
abbrev pub millionths : ℤ → ℤ
millionths (pos n) = pos (n * 1_000_000)
millionths (negsuc n) = negsuc (n * 1_000_000 + 999_999)

-- The numeric value of a number or a Boolean, in millionths.
abbrev pub number_value : Json → Option ℤ
number_value (bool true) = some (pos 1_000_000)
number_value (bool false) = some (pos 0)
number_value (int z) = some (millionths z)
number_value (float z) = some z
number_value _ = none

abbrev same_number : ℤ → Json → Bool
same_number z w = elim (number_value w) [ none ↦ false | some y ↦ eqb_ℤ z y ]

abbrev is_null : Json → Bool
is_null null = true
is_null _ = false

abbrev same_text : String → Json → Bool
same_text s (text t) = s == t
same_text s _ = false

abbrev items_of : Json → Option Items
items_of (arr xs) = some xs
items_of _ = none

abbrev dict_of : Json → Option Dict
dict_of (obj d) = some d
dict_of _ = none

-- Two dictionaries of one size are equal if each item of the first is in the second.
unfoldable mutual
  unfolding get size

  pub json_eq : Json → Json → Bool
  json_eq null w = is_null w
  json_eq (bool true) w = same_number (pos 1_000_000) w
  json_eq (bool false) w = same_number (pos 0) w
  json_eq (int z) w = same_number (millionths z) w
  json_eq (float z) w = same_number z w
  json_eq (text s) w = same_text s w
  json_eq (arr xs) w = elim (items_of w) [ none ↦ false | some ys ↦ items_eq xs ys ]
  json_eq (obj d) w = elim (dict_of w) [
    | none ↦ false
    | some e ↦ eqb (size d) (size e) && fields_eq d e
  ]

  pub items_eq : Items → Items → Bool
  items_eq nil nil = true
  items_eq nil (cons y ys) = false
  items_eq (cons x xs) nil = false
  items_eq (cons x xs) (cons y ys) = json_eq x y && items_eq xs ys

  pub fields_eq : Dict → Dict → Bool
  fields_eq end e = true
  fields_eq (field k v d) e = elim (get k e) [
    | none ↦ false
    | some w ↦ json_eq v w && fields_eq d e
  ]

json_eq_order :
    json_eq
      (obj (field "a" (int (pos 1)) (field "b" null end)))
      (obj (field "b" null (field "a" (float (pos 1_000_000)) end)))
    ≡ true
unfolding json_eq
json_eq_order = refl
