-- ===== src/ContextDelta/Pruned.antt =====
-- What `_prune` leaves of the entries of a cache.
use codex_ralph_vault_loop.Base.{
  ℕ, zero, suc, ◌≤◌, ◌≡◌, refl, ap, ◌∙◌, inl, inr, Bool, true, false, Option, none, some,
  some-injective, List, [], ◌∷◌, String, ◌==◌, eq_iff, length, length-take, take, take-eq_self,
  arith, if◌then◌else◌, if-keeps, Bool-cases,
}
use codex_ralph_vault_loop.Base.Int.{ℤ}
use codex_ralph_vault_loop.Json.{Json, obj, Dict, end, field, get, set, size}
use codex_ralph_vault_loop.Python.{Library}
use codex_ralph_vault_loop.ContextDelta.Cache.{
  Process, is_fresh, of_entries, dict_of, ttl_seconds, max_entries, updated_of, fresh_entry, fresh,
  insert_entry, sort_entries, prune,
}

-- How often a key is named.
unfoldable pub times : String → Dict → ℕ
times k end = 0
times k (field j v d) = let rest = times k d in if j == k then suc rest else rest

get-absent : (k : String) (d : Dict) → times k d ≡ 0 → get k d ≡ none
unfolding times get
get-absent k end h = refl
get-absent k (field j v d) h = ground (arith, get-absent k d)

pub times-set : (k : String) (v : Json) (d : Dict) → times k d ≤ 1 → times k (set k v d) ≤ 1
unfolding times set
times-set k v end h = ground (arith, eq_iff k k)
times-set k v (field j w d) h = ground (arith, eq_iff j k, times-set k v d)

pub size-set : (k : String) (v w : Json) (d : Dict) → get k d ≡ some w → size (set k v d) ≡ size d
unfolding get set size
size-set k v w end h = cc
size-set k v w (field j u d) h = ground (arith, eq_iff j k, size-set k v w d)

pub size-set_le : (k : String) (v : Json) (d : Dict) → size (set k v d) ≤ suc (size d)
unfolding set size
size-set_le k v end = omega arith
size-set_le k v (field j u d) = ground (arith, size-set_le k v d)

length-take_le : {A : Type 0} (n : ℕ) (xs : List A) → length (take n xs) ≤ length xs
length-take_le zero xs = omega arith
length-take_le (suc n) [] = omega arith
length-take_le (suc n) (x ∷ xs) = omega (arith, length-take_le n xs)

module _ (py : Library) where
  times-insert_entry :
      (k : String) (e : String × Dict) (es : List (String × Dict))
      → times k (of_entries (insert_entry py e es)) ≡ times k (of_entries (e ∷ es))
  unfolding times insert_entry
  times-insert_entry k e [] = refl
  times-insert_entry k e (f ∷ fs) = ground (arith, times-insert_entry k e fs)

  times-sort_entries :
      (k : String) (es : List (String × Dict))
      → times k (of_entries (sort_entries py es)) ≡ times k (of_entries es)
  unfolding times sort_entries
  times-sort_entries k [] = refl
  times-sort_entries k (e ∷ es) =
      times-insert_entry k e (sort_entries py es) ∙ ground (arith, times-sort_entries k es)

  times-fresh :
      (k : String) (now ttl : ℤ) (d : Dict) → times k (of_entries (fresh py now ttl d)) ≤ times k d
  unfolding times fresh
  times-fresh k now ttl end = omega arith
  times-fresh k now ttl (field j v d) =
      go (dict_of v) (fresh py now ttl d) (times-fresh k now ttl d)
    where
      go :
          (o : Option Dict) (rest : List (String × Dict)) {n : ℕ}
          → times k (of_entries rest) ≤ n
          → times k (of_entries (fresh_entry py now ttl j o rest)) ≤ (if j == k then suc n else n)
      go none rest h = ground arith
      go (some e) rest h = ground arith

  get-insert_other :
      (k : String) (e : String × Dict) (es : List (String × Dict))
      → (e.0 == k) ≡ false
      → get k (of_entries (insert_entry py e es)) ≡ get k (of_entries es)
  unfolding get insert_entry
  get-insert_other k e [] h = ground arith
  get-insert_other k e (f ∷ fs) h = ground (arith, get-insert_other k e fs h)

  get-insert_same :
      (k : String) (d : Dict) (es : List (String × Dict))
      → get k (of_entries es) ≡ none
      → get k (of_entries (insert_entry py (k, d) es)) ≡ some (obj d)
  unfolding get insert_entry
  get-insert_same k d [] h = ground (arith, eq_iff k k)
  get-insert_same k d (f ∷ fs) h = ground (arith, eq_iff k k, get-insert_same k d fs)

  sorted_fresh-none :
      (k : String) (now ttl : ℤ) (d : Dict)
      → times k d ≡ 0
      → get k (of_entries (sort_entries py (fresh py now ttl d))) ≡ none
  sorted_fresh-none k now ttl d h =
      get-absent k _
        (no_times (times-sort_entries k (fresh py now ttl d)) (times-fresh k now ttl d) h)
    where
      no_times : {a b c : ℕ} → a ≡ b → b ≤ c → c ≡ 0 → a ≡ 0
      no_times p q r = omega arith

  behind_other :
      (k j : String) (now ttl : ℤ) (o : Option Dict) (rest : List (String × Dict)) (e : Dict)
      → (j == k) ≡ false
      → get k (of_entries (sort_entries py rest)) ≡ some (obj e)
      → get k (of_entries (sort_entries py (fresh_entry py now ttl j o rest))) ≡ some (obj e)
  unfolding sort_entries
  behind_other k j now ttl none rest e other h = h
  behind_other k j now ttl (some e') rest e other h =
      if-keeps (λ es. get k (of_entries (sort_entries py es)) ≡ some (obj e))
        (is_fresh now ttl (updated_of py e')) ((j, e') ∷ rest) rest
        (get-insert_other k (j, e') (sort_entries py rest) other ∙ h) h

  at_first :
      (k j : String) (now ttl : ℤ) (rest : List (String × Dict)) (e : Dict)
      → (j == k) ≡ true
      → is_fresh now ttl (updated_of py e) ≡ true
      → get k (of_entries (sort_entries py rest)) ≡ none
      → get k (of_entries (sort_entries py (fresh_entry py now ttl j (some e) rest))) ≡ some (obj e)
  unfolding sort_entries
  at_first k j now ttl rest e same current h =
      let equal : j ≡ k = (eq_iff j k).0 same in
      rw current (rw equal (get-insert_same k e (sort_entries py rest) h))

  -- An entry that is fresh is found among the sorted ones.
  sorted_fresh-get :
      (k : String) (now ttl : ℤ) (d e : Dict)
      → times k d ≤ 1
      → get k d ≡ some (obj e)
      → is_fresh now ttl (updated_of py e) ≡ true
      → get k (of_entries (sort_entries py (fresh py now ttl d))) ≡ some (obj e)
  unfolding times get fresh sort_entries
  sorted_fresh-get k now ttl end e once h current = cc
  sorted_fresh-get k now ttl (field j v d) e once h current = elim (Bool-cases (j == k)) [
    | inl same ↦
        let value : v ≡ obj e = some-injective (rw same at h) in
        rw value (
          at_first k j now ttl (fresh py now ttl d) e same current
            (sorted_fresh-none k now ttl d (no_more (j == k) _ same once)))
    | inr other ↦
        behind_other k j now ttl (dict_of v) (fresh py now ttl d) e other
          (sorted_fresh-get k now ttl d e (once_more (j == k) _ other once) (rw other at h) current)
  ]
    where
      no_more : (test : Bool) (n : ℕ) → test ≡ true → (if test then suc n else n) ≤ 1 → n ≡ 0
      no_more test n same h = ground arith

      once_more : (test : Bool) (n : ℕ) → test ≡ false → (if test then suc n else n) ≤ 1 → n ≤ 1
      once_more test n other h = ground arith

  length-insert_entry :
      (e : String × Dict) (es : List (String × Dict))
      → length (insert_entry py e es) ≡ suc (length es)
  unfolding insert_entry
  length-insert_entry e [] = refl
  length-insert_entry e (f ∷ fs) = ground (arith, length-insert_entry e fs)

  length-sort_entries : (es : List (String × Dict)) → length (sort_entries py es) ≡ length es
  unfolding sort_entries
  length-sort_entries [] = refl
  length-sort_entries (e ∷ es) =
      length-insert_entry e (sort_entries py es) ∙ ap suc (length-sort_entries es)

  length-fresh : (now ttl : ℤ) (d : Dict) → length (fresh py now ttl d) ≤ size d
  unfolding fresh size
  length-fresh now ttl end = omega arith
  length-fresh now ttl (field j v d) = go (dict_of v) (fresh py now ttl d) (length-fresh now ttl d)
    where
      go :
          (o : Option Dict) (rest : List (String × Dict)) {n : ℕ}
          → length rest ≤ n
          → length (fresh_entry py now ttl j o rest) ≤ suc n
      go none rest h = omega arith
      go (some e) rest h = ground arith

  size-of_entries : (es : List (String × Dict)) → size (of_entries es) ≡ length es
  unfolding size
  size-of_entries [] = refl
  size-of_entries (e ∷ es) = ap suc (size-of_entries es)

  times-take :
      (k : String) (n : ℕ) (es : List (String × Dict))
      → times k (of_entries (take n es)) ≤ times k (of_entries es)
  unfolding times
  times-take k zero es = omega arith
  times-take k (suc n) [] = omega arith
  times-take k (suc n) (e ∷ es) = ground (arith, times-take k n es)

  -- Pruning leaves at most as many entries as the limit says.
  pub size-prune : (p : Process) (d : Dict) → size (prune py p d) ≤ max_entries py p
  unfolding prune
  size-prune p d =
      let kept = sort_entries py (fresh py p.now (ttl_seconds py p) d) in
      rw (size-of_entries (take (max_entries py p) kept)) (length-take (max_entries py p) kept)

  pub size-prune_le : (p : Process) (d : Dict) → size (prune py p d) ≤ size d
  unfolding prune
  size-prune_le p d =
      let found = fresh py p.now (ttl_seconds py p) d in
      let sorted = length-sort_entries found in
      let kept = length-fresh p.now (ttl_seconds py p) d in
      rw (size-of_entries (take (max_entries py p) (sort_entries py found)))
        (shorter (length-take_le (max_entries py p) (sort_entries py found)) sorted kept)
    where
      shorter : {a b c d : ℕ} → a ≤ b → b ≡ c → c ≤ d → a ≤ d
      shorter h k l = omega arith

  pub times-prune : (k : String) (p : Process) (d : Dict) → times k (prune py p d) ≤ times k d
  unfolding prune
  times-prune k p d =
      let found = fresh py p.now (ttl_seconds py p) d in
      let taken = times-take k (max_entries py p) (sort_entries py found) in
      let sorted = times-sort_entries k found in
      let kept = times-fresh k p.now (ttl_seconds py p) d in omega arith

  -- A fresh entry of a key that is named once stays, where the limit has room for every entry.
  pub get-prune :
      (k : String) (p : Process) (d e : Dict)
      → times k d ≤ 1
      → size d ≤ max_entries py p
      → get k d ≡ some (obj e)
      → is_fresh p.now (ttl_seconds py p) (updated_of py e) ≡ true
      → get k (prune py p d) ≡ some (obj e)
  unfolding prune
  get-prune k p d e once room h current =
      let found = fresh py p.now (ttl_seconds py p) d in
      let sorted = length-sort_entries found in
      let kept = length-fresh p.now (ttl_seconds py p) d in
      rw (take-eq_self (max_entries py p) (sort_entries py found) (omega arith))
        (sorted_fresh-get k p.now (ttl_seconds py p) d e once h current)
