-- ===== src/Continuation/Entries.antt =====
-- Entries of the stored state: what is read back, and when an entry is left as it is.
use codex_ralph_vault_loop.Base.{
  ℕ, suc, ◌≡◌, refl, ap, sym, ◌∙◌, inl, inr, Bool, true, false, ◌&&◌, Option, none, some, String,
  ◌==◌, eq_iff, eq_refl, arith, Bool-cases, Option-cases, if◌then◌else◌, some-injective,
}
use codex_ralph_vault_loop.Base.Int.{ℤ, pos, negsuc}
use codex_ralph_vault_loop.Json.{
  Json, null, bool, int, float, text, arr, obj, Dict, end, field, get, set, remove, get-set,
  get-remove, size,
}
use codex_ralph_vault_loop.Json.Eq.{json_eq, fields_eq}
use codex_ralph_vault_loop.Python.{Library, Result, ok, Exception, to_int}
use codex_ralph_vault_loop.Continuation.State.{payload, entries_of}
use codex_ralph_vault_loop.Continuation.Reserve.{Request, desired_entry, same_entry, count_of}

-- A state that was written holds its entries.
pub entries_of-payload :
    (now : ℤ) (entries : Dict) → entries_of (obj (payload now entries)) ≡ some entries
unfolding entries_of get json_eq
entries_of-payload now entries = refl

pub get-set_self : (k : String) (v : Json) (d : Dict) → get k (set k v d) ≡ some v
get-set_self k v d = get-set k k v d ∙ ap (λ b. if b then some v else get k d) (eq_refl k)

and-split : (a b : Bool) → (a && b) ≡ true → (a ≡ true) × (b ≡ true)
and-split true b h = (refl, h)
and-split false b h = cc

abbrev found_in : Option Json → Json → Dict → Dict → Bool
found_in o u d e = elim o [ none ↦ false | some w ↦ json_eq u w && fields_eq d e ]

-- Equal dictionaries have equal values under a key of the first.
fields_eq-get :
    (k : String) (d e : Dict) (v : Json)
    → fields_eq d e ≡ true
    → get k d ≡ some v
    → (w : Json) × (get k e ≡ some w) × (json_eq v w ≡ true)
unfolding json_eq get
fields_eq-get k end e v h q = cc
fields_eq-get k (field j u d) e v h q = elim (Option-cases (get j e)) [
  | inl gone ↦ let wrong = sym (ap (λ o. found_in o u d e) gone) ∙ h in cc
  | inr (w, there) ↦
      let both : (json_eq u w && fields_eq d e) ≡ true =
        sym (ap (λ o. found_in o u d e) there) ∙ h in
      let parts = and-split (json_eq u w) (fields_eq d e) both in
      elim (Bool-cases (j == k)) [
        | inl here ↦
            let same = (eq_iff j k).0 here in
            let found : some u ≡ some v = rw here at q in
            let value = some-injective found in
            (w, ap (λ i. get i e) (sym same) ∙ there, rw (← value) parts.0)
        | inr later ↦ fields_eq-get k d e v parts.1 (rw later at q)
      ]
]

-- An entry that is left as it is has the count that it would be given.
pub same_entry-count :
    (d : Dict) (q : Request) (n now : ℤ) (v : Json)
    → same_entry d (desired_entry q n now) ≡ true
    → get "count" d ≡ some v
    → json_eq v (int n) ≡ true
unfolding json_eq remove get
same_entry-count d q n now v h there =
    let kept = get-remove "count" "timestamp" d ∙ there in
    let (w, found, same) =
      fields_eq-get "count" (remove "timestamp" d) (remove "timestamp" (desired_entry q n now)) v
        (and-split _ _ h).1 kept in
    rw (some-injective found) same

-- A value that reads as a count is not equal to the next one.
pub count-next :
    (py : Library) (v : Json) (k : ℕ)
    → to_int py v ≡ ok (pos k)
    → json_eq v (int (pos (suc k))) ≡ false
unfolding json_eq
count-next py null k h = cc
count-next py (bool true) k h = ground arith
count-next py (bool false) k h = ground arith
count-next py (int z) k h = ground arith
count-next py (float (pos n)) k h = ground arith
count-next py (float (negsuc n)) k h = ground arith
count-next py (text s) k h = refl
count-next py (arr xs) k h = cc
count-next py (obj d) k h = cc

-- No entry differs from any that is to be written.
pub same_entry-end : (q : Request) (n now : ℤ) → same_entry end (desired_entry q n now) ≡ false
unfolding json_eq remove get size
same_entry-end q n now = refl

abbrev counted_in : Library → Option Json → Result Exception ℤ
counted_in py o = to_int py (elim o [ none ↦ int (pos 0) | some v ↦ v ])

pub count_of-there :
    (py : Library) (d : Dict) (v : Json) {z : ℤ}
    → get "count" d ≡ some v
    → count_of py d ≡ ok z
    → to_int py v ≡ ok z
count_of-there py d v there read = sym (ap (counted_in py) there) ∙ read
