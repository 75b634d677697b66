-- ===== src/Store/Claims.antt =====
-- A key of the emission ledger is claimed once.
use codex_ralph_vault_loop.Base.{
  ℕ, suc, ◌+◌, ◌≡◌, refl, ap, sym, subst, ◌∙◌, ◌⊎◌, inl, inr, Bool, true, false, Option, none, some,
  some-injective, List, [], ◌∷◌, ◌++◌, snoc, String, eq_iff, arith, ltb, leb, if◌then◌else◌,
  if-keeps, Bool-cases,
}
use codex_ralph_vault_loop.Json.{Dict}
use codex_ralph_vault_loop.Python.{Library, ok, err, ok-injective}
use codex_ralph_vault_loop.Store.State.{encoded_size}
use codex_ralph_vault_loop.Store.Checked.{io, Checked, bind-elim}
use codex_ralph_vault_loop.Store.Files.{
  Lines, Write, succeeds, fails, fails_late, tears, corrupted, read_lines, read_jsonl, written,
  append_jsonl,
}
use codex_ralph_vault_loop.Store.Emission.{
  Emission, Key, key_of, same_key, validate_emission, has_key, read_emissions, with_room, room_for,
  planned, has_context_emission, is_hit, read_context_ledger,
}
use codex_ralph_vault_loop.Store.Fixed.{bind-ok, context_ledger_key-fixed}

pub same_key-eq : (a b : Key) → same_key a b ≡ true → a ≡ b
unfolding same_key
same_key-eq a b h = ground (
  arith,
  eq_iff a.project_id b.project_id,
  eq_iff a.workspace_instance_id b.workspace_instance_id,
  eq_iff a.session_id b.session_id,
  eq_iff a.context_epoch b.context_epoch,
  eq_iff a.plan b.plan,
  eq_iff a.capsule_kind b.capsule_kind,
)

same_key_refl : (a : Key) → same_key a a ≡ true
unfolding same_key
same_key_refl a = ground (
  arith,
  eq_iff a.project_id a.project_id,
  eq_iff a.workspace_instance_id a.workspace_instance_id,
  eq_iff a.session_id a.session_id,
  eq_iff a.context_epoch a.context_epoch,
  eq_iff a.plan a.plan,
  eq_iff a.capsule_kind a.capsule_kind,
)

pub corrupted-ok : {A : Type 0} (m : Checked A) {a : A} → corrupted m ≡ ok a → m ≡ ok a
unfolding corrupted
corrupted-ok (ok b) h = h
corrupted-ok (err e) h = cc

either :
    (test : Bool) (m : Checked Bool)
    → (test ≡ true) ⊎ (m ≡ ok true)
    → (if test then ok true else m) ≡ ok true
either test m (inl h) = rw h
either true m (inr h) = refl
either false m (inr h) = h

pub room-some :
    (room : Option ℕ) (e' e : Emission) (n : ℕ)
    → with_room e' room ≡ some (e, n)
    → (room ≡ some n) × (e' ≡ e)
room-some none e' e n h = cc
room-some (some m) e' e n h = (
  ap (λ (x : Emission × ℕ). some x.1) (some-injective h),
  ap (λ (x : Emission × ℕ). x.0) (some-injective h),
)

module _ (py : Library) (is_red : String → Bool) where
  -- A line of the ledger holds a record with a key.
  abbrev pub LineHas : Key → Option Dict → Type 0
  LineHas k none = ⊥
  LineHas k (some d) = (e : Emission) × (validate_emission py is_red d ≡ ok e) × (key_of e ≡ k)

  abbrev pub Holds : Key → List (Option Dict) → Type 0
  Holds k [] = ⊥
  Holds k (l ∷ ls) = LineHas k l ⊎ Holds k ls

  Holds-append : (k : Key) (ls more : List (Option Dict)) → Holds k ls → Holds k (ls ++ more)
  Holds-append k [] more h = elim h [ ]
  Holds-append k (l ∷ ls) more (inl h) = inl h
  Holds-append k (l ∷ ls) more (inr h) = inr (Holds-append k ls more h)

  pub Holds-last :
      (k : Key) (ls : List (Option Dict)) (l : Option Dict) → LineHas k l → Holds k (snoc ls l)
  Holds-last k [] l h = inl h
  Holds-last k (m ∷ ls) l h = inr (Holds-last k ls l h)

  -- A key that the ledger holds is found among the records that a read returns.
  pub has_key-Holds :
      (k : Key) (n : ℕ) (ls : List (Option Dict)) (es : List Emission)
      → read_lines (validate_emission py is_red) 4096 n ls ≡ ok es
      → Holds k ls
      → has_key py is_red k es ≡ ok true
  unfolding read_lines has_key
  has_key-Holds k n [] es h holds = elim holds [ ]
  has_key-Holds k n (none ∷ ls) es h holds = cc
  has_key-Holds k n (some d ∷ ls) es h holds = bind-elim h λ _ _ h. bind-elim h λ a p h.
      bind-elim h λ rest q h.
        let valid = corrupted-ok (validate_emission py is_red d) p in
        subst (λ xs. has_key py is_red k xs ≡ ok true) (ok-injective h)
          (bind-ok _ (context_ledger_key-fixed py is_red d valid)
            ∙ either (same_key (key_of a) k) (has_key py is_red k rest) (
                first-or_later a (has_key py is_red k rest) valid
                  (λ more. has_key-Holds k (suc n) ls rest q more) holds))
    where
      first-or_later :
          (a : Emission) (later : Checked Bool)
          → validate_emission py is_red d ≡ ok a
          → (Holds k ls → later ≡ ok true)
          → Holds k (some d ∷ ls)
          → (same_key (key_of a) k ≡ true) ⊎ (later ≡ ok true)
      first-or_later a later valid rest (inl (e, valid', same)) =
          let equal : e ≡ a = ok-injective (sym valid' ∙ valid) in
          inl (rw (← equal) (rw same (same_key_refl k)))
      first-or_later a later valid rest (inr more) = inr (rest more)

  -- A read under the lock finds no room for a key that the ledger holds.
  pub room_for-Holds :
      (k : Key) (f : Lines) (n : ℕ) → Holds k f.records → room_for py is_red k f ≡ ok (some n) → ⊥
  unfolding room_for read_emissions read_jsonl
  room_for-Holds k f n holds h = bind-elim h λ es p h. bind-elim h λ found q h.
      bind-elim p λ r p p'. bind-elim p' λ _ _ p'. bind-elim p λ _ _ p. bind-elim p λ _ _ p.
        bind-elim p λ records reads p.
          let same : records ≡ es =
            ap (λ (x : List Emission × Bool). x.0) (ok-injective p) ∙ ok-injective p' in
          let there = has_key-Holds k 0 f.records records reads holds in
          let hit : found ≡ true = ok-injective (sym q ∙ (rw (← same) there)) in
          let wrong = rw hit at h in cc

  -- What is appended was validated, and found room.
  pub planned-room :
      (is_safe : Bool) (d : Dict) (seen f : Lines) (e : Emission) (n : ℕ)
      → planned py is_red is_safe d seen f ≡ ok (some (e, n))
      → (validate_emission py is_red d ≡ ok e) × (room_for py is_red (key_of e) f ≡ ok (some n))
  unfolding planned
  planned-room is_safe d seen f e n h = bind-elim h λ e' valid h. bind-elim h λ k keyed h.
      bind-elim h λ hit _ h. elim (Bool-cases hit) [
        | inl t ↦ let wrong = rw t at h in cc
        | inr t ↦ bind-elim (rw t at h) λ _ _ h. bind-elim h λ room looked h.
            let (fits, same) = room-some room e' e n (ok-injective h) in
            let key : k ≡ key_of e' =
              ok-injective (sym keyed ∙ context_ledger_key-fixed py is_red d valid) in
            (rw (← same) valid, rw (← same) (rw (← key) (rw (← fits) looked)))
      ]

  -- Behind a write, the ledger holds what it held.
  written-Holds :
      (k : Key) (w : Write) (d : Dict) (size : ℕ) (f : Lines)
      → Holds k f.records
      → Holds k (written w d size f).1.records
  unfolding written
  written-Holds k succeeds d size f h = Holds-append k f.records _ h
  written-Holds k fails d size f h = h
  written-Holds k fails_late d size f h = Holds-append k f.records _ h
  written-Holds k (tears n) d size f h = h

  pub append_jsonl-Holds :
      (k : Key) (w : Write) (n : ℕ) (d : Dict) (f : Lines)
      → Holds k f.records
      → Holds k (append_jsonl py w 2048 4194304 4096 n d f).1.records
  unfolding append_jsonl
  append_jsonl-Holds k w n d f h =
      if-keeps (λ (o : Checked (Unit {0}) × Lines). Holds k o.1.records)
        (ltb 2048 (suc (encoded_size py d))) (err io, f) _ h
        (if-keeps (λ (o : Checked (Unit {0}) × Lines). Holds k o.1.records)
          (ltb 4194304 (f.bytes + suc (encoded_size py d))) (err io, f) _ h
          (if-keeps (λ (o : Checked (Unit {0}) × Lines). Holds k o.1.records) (leb 4096 n)
            (err io, f) (written w d (suc (encoded_size py d)) f) h
            (written-Holds k w d (suc (encoded_size py d)) f h)))

  -- A look at the ledger that gets an answer finds a key that the ledger holds.
  pub has_context_emission-Holds :
      (d : Dict) (e : Emission) (f : Lines) (found : Bool)
      → validate_emission py is_red d ≡ ok e
      → Holds (key_of e) f.records
      → has_context_emission py is_red d f ≡ ok found
      → found ≡ true
  unfolding has_context_emission is_hit read_context_ledger read_emissions read_jsonl
  has_context_emission-Holds d e f found valid holds h = bind-elim h λ e' valid' h.
      bind-elim h λ k keyed h. bind-elim h λ es p h. bind-elim p λ es' p q. bind-elim q λ _ _ q.
        bind-elim p λ r p p'. bind-elim p' λ _ _ p'. bind-elim p λ _ _ p. bind-elim p λ _ _ p.
          bind-elim p λ records reads p.
            let same : records ≡ es =
              ap (λ (x : List Emission × Bool). x.0) (ok-injective p)
              ∙ ok-injective p'
              ∙ ok-injective q in
            let equal : e' ≡ e = ok-injective (sym valid' ∙ valid) in
            let key : k ≡ key_of e =
              ok-injective (sym keyed ∙ context_ledger_key-fixed py is_red d valid')
              ∙ ap key_of equal in
            let there = has_key-Holds (key_of e) 0 f.records records reads holds in
            ok-injective (sym h ∙ rw key (rw (← same) there))
