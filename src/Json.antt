-- ===== src/Json.antt =====
-- Decoded JSON values, as Python's `json` module gives them.
pub mod Eq
use codex_ralph_vault_loop.Base.{
  ℕ, suc, ◌≡◌, refl, Bool, true, false, Option, none, some, List, [], ◌∷◌, String, ◌==◌, eq_iff,
  arith, if◌then◌else◌,
}
use codex_ralph_vault_loop.Base.Int.{ℤ}

-- `float z` is the number z / 1000000: times are kept to the microsecond, and the values that are
-- no numbers (NaN, the infinities) are left out.
mutual
  pub data Json : Type 0 where
    null : Json
    bool : Bool → Json
    int float : ℤ → Json
    text : String → Json
    arr : Items → Json
    obj : Dict → Json

  pub data Items : Type 0 where
    nil : Items
    cons : Json → Items → Items

  -- A `dict` with text keys, in insertion order.
  pub data Dict : Type 0 where
    end : Dict
    field : String → Json → Dict → Dict

abbrev pub to_list : Items → List Json
to_list nil = []
to_list (cons x xs) = x ∷ to_list xs

abbrev pub of_list : List Json → Items
of_list [] = nil
of_list (x ∷ xs) = cons x (of_list xs)

-- `{k: v, …}` for distinct keys
abbrev pub dict : List (String × Json) → Dict
dict [] = end
dict ((k, v) ∷ kvs) = field k v (dict kvs)

-- `d.get(k)` as an option: `none` is a missing key, `some null` a stored `None`.
unfoldable pub get : String → Dict → Option Json
get k end = none
get k (field j v d) = if j == k then some v else get k d

-- `d.get(k, default)`
abbrev pub get_or : String → Json → Dict → Json
get_or k default d = elim (get k d) [ none ↦ default | some v ↦ v ]

-- `d[k] = v`
unfoldable pub set : String → Json → Dict → Dict
set k v end = field k v end
set k v (field j w d) = if j == k then field j v d else field j w (set k v d)

-- `d.update(e)`
unfoldable pub update : Dict → Dict → Dict
update d end = d
update d (field k v e) = update (set k v d) e

-- `d.pop(k, None)`, and `del d[k]` where the key is there
unfoldable pub remove : String → Dict → Dict
remove k end = end
remove k (field j v d) = let rest = remove k d in if j == k then rest else field j v rest

-- `len(d)`
unfoldable pub size : Dict → ℕ
size end = 0
size (field k v d) = suc (size d)

pub get-set :
    (j k : String) (v : Json) (d : Dict) → get j (set k v d) ≡ (if k == j then some v else get j d)
unfolding get set
get-set j k v end = refl
get-set j k v (field i w d) = ground (arith, eq_iff k j, eq_iff i k, eq_iff i j, get-set j k v d)

pub get-remove : (j k : String) (d : Dict) → get j (remove k d) ≡ (if k == j then none else get j d)
unfolding get remove
get-remove j k end = ground arith
get-remove j k (field i w d) = ground (arith, eq_iff k j, eq_iff i k, eq_iff i j, get-remove j k d)

pub to_list-of_list : (xs : List Json) → to_list (of_list xs) ≡ xs
to_list-of_list [] = refl
to_list-of_list (x ∷ xs) = λ i. x ∷ to_list-of_list xs i

pub ruleset dict_laws = (get-set, get-remove)
