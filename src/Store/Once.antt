-- ===== src/Store/Once.antt =====
-- Claims of one key of the emission ledger, one after another.
use codex_ralph_vault_loop.Base.{
  ℕ, suc, ◌+◌, ◌≤◌, ◌≡◌, refl, ap, sym, ◌∙◌, Bool, true, false, ◌&&◌, Option, none, some, List, [],
  ◌∷◌, String, ltb, leb, arith, if◌then◌else◌, if-keeps, if-cases,
}
use codex_ralph_vault_loop.Json.{Dict}
use codex_ralph_vault_loop.Python.{Library, ok, err, ok-injective}
use codex_ralph_vault_loop.Store.State.{encoded_size}
use codex_ralph_vault_loop.Store.Checked.{io, Checked, bind-elim}
use codex_ralph_vault_loop.Store.Files.{
  Lines, Write, succeeds, fails, fails_late, tears, written, append_jsonl,
}
use codex_ralph_vault_loop.Store.Emission.{
  Emission, Key, key_of, same_key, emission_dict, validate_emission, planned, carried_out,
  claim_context_emission,
}
use codex_ralph_vault_loop.Store.Fixed.{validate_emission-fixed}
use codex_ralph_vault_loop.Store.Claims.{
  same_key-eq, LineHas, Holds, Holds-last, room_for-Holds, planned-room, append_jsonl-Holds,
}

-- A process that claims an emission: whether the layout of the store is safe, what happens to its
-- write, its record, and the ledger that it saw before it had the lock.
pub record Claim : Type 0 where
  pub is_safe : Bool
  pub write : Write
  pub payload : Dict
  pub seen : Lines

-- The outcome of a claim emits a key.
abbrev pub emits : Key → Checked Emission → Checked Bool → Bool
emits k (err raised) outcome = false
emits k (ok e) (err raised) = false
emits k (ok e) (ok emitted) = emitted && same_key (key_of e) k

at_most_one : {n : ℕ} → n ≡ 0 → suc n ≤ 1
at_most_one h = omega arith

module _ (py : Library) (is_red : String → Bool) where
  -- How many of the claims, in the order in which they have the lock, emit a key.
  unfoldable pub emissions : Key → List Claim → Lines → ℕ
  emissions k [] f = 0
  emissions k (c ∷ cs) f =
      let r = claim_context_emission py is_red c.is_safe c.write c.payload c.seen f in
      let later = emissions k cs r.1 in
      if emits k (validate_emission py is_red c.payload) r.0 then suc later else later

  carried_out-Holds :
      (k : Key) (p : Checked (Option (Emission × ℕ))) (w : Write) (f : Lines)
      → Holds py is_red k f.records
      → Holds py is_red k (carried_out py is_red p w f).1.records
  carried_out-Holds k (err raised) w f h = h
  carried_out-Holds k (ok none) w f h = h
  carried_out-Holds k (ok (some (e, n))) w f h =
      append_jsonl-Holds py is_red k w n (emission_dict e) f h

  written-last :
      (k : Key) (w : Write) (d : Dict) (size : ℕ) (f : Lines)
      → LineHas py is_red k (some d)
      → (written w d size f).0 ≡ ok tt
      → Holds py is_red k (written w d size f).1.records
  unfolding written
  written-last k succeeds d size f has h = Holds-last py is_red k f.records (some d) has
  written-last k fails d size f has h = cc
  written-last k fails_late d size f has h = cc
  written-last k (tears n) d size f has h = cc

  append_jsonl-last :
      (k : Key) (w : Write) (n : ℕ) (d : Dict) (f : Lines)
      → LineHas py is_red k (some d)
      → (append_jsonl py w 2048 4194304 4096 n d f).0 ≡ ok tt
      → Holds py is_red k (append_jsonl py w 2048 4194304 4096 n d f).1.records
  unfolding append_jsonl
  append_jsonl-last k w n d f has =
      if-keeps P (ltb 2048 size) (err io, f) _ (λ h. cc)
        (if-keeps P (ltb 4194304 (f.bytes + size)) (err io, f) _ (λ h. cc)
          (if-keeps P (leb 4096 n) (err io, f) (written w d size f) (λ h. cc)
            (written-last k w d size f has)))
    where
      size : ℕ
      size = suc (encoded_size py d)

      P : Checked (Unit {0}) × Lines → Type 0
      P o = o.0 ≡ ok tt → Holds py is_red k o.1.records

  emits-true :
      (k : Key) (v : Checked Emission) (o : Checked Bool)
      → emits k v o ≡ true
      → (e : Emission) × (v ≡ ok e) × (o ≡ ok true) × (key_of e ≡ k)
  emits-true k (err raised) o h = cc
  emits-true k (ok e) (err raised) h = cc
  emits-true k (ok e) (ok false) h = cc
  emits-true k (ok e) (ok true) h = (e, refl, refl, same_key-eq (key_of e) k h)

  -- A claim that emits a key did not find it, and leaves it.
  carried_out-emits :
      (k : Key) (c : Claim) (f : Lines) (p : Checked (Option (Emission × ℕ)))
      → planned py is_red c.is_safe c.payload c.seen f ≡ p
      → emits k (validate_emission py is_red c.payload) (carried_out py is_red p c.write f).0 ≡ true
      → (Holds py is_red k f.records → ⊥)
        × Holds py is_red k (carried_out py is_red p c.write f).1.records
  carried_out-emits k c f (err raised) _ h = let (_, _, wrong, _) = emits-true k _ _ h in cc
  carried_out-emits k c f (ok none) _ h = let (_, _, wrong, _) = emits-true k _ _ h in cc
  carried_out-emits k c f (ok (some (e, n))) plan h =
      let (e', valid', emitted, same) = emits-true k _ _ h in
      let (valid, room) = planned-room py is_red c.is_safe c.payload c.seen f e n plan in
      let equal : key_of e ≡ k = ap key_of (ok-injective (sym valid ∙ valid')) ∙ same in
      bind-elim emitted λ _ appended _. (
        (λ holds. room_for-Holds py is_red k f n holds (rw (← equal) room)),
        append_jsonl-last k c.write n (emission_dict e) f
            (e, validate_emission-fixed py is_red c.payload valid, equal) appended,
      )

  claim-emits :
      (k : Key) (c : Claim) (f : Lines)
      → let r = claim_context_emission py is_red c.is_safe c.write c.payload c.seen f in
        emits k (validate_emission py is_red c.payload) r.0 ≡ true
        → (Holds py is_red k f.records → ⊥) × Holds py is_red k r.1.records
  unfolding claim_context_emission
  claim-emits k c f = carried_out-emits k c f _ refl

  claim-Holds :
      (k : Key) (c : Claim) (f : Lines)
      → Holds py is_red k f.records
      → Holds py is_red k
          (claim_context_emission py is_red c.is_safe c.write c.payload c.seen f).1.records
  unfolding claim_context_emission
  claim-Holds k c f = carried_out-Holds k _ c.write f

  emissions-none :
      (k : Key) (cs : List Claim) (f : Lines) → Holds py is_red k f.records → emissions k cs f ≡ 0
  unfolding emissions
  emissions-none k [] f h = refl
  emissions-none k (c ∷ cs) f h =
      if-cases (λ n. n ≡ 0) _ _ _ (λ emitted. elim ((claim-emits k c f emitted).0 h) [ ])
        (λ _. emissions-none k cs _ (claim-Holds k c f h))

  emissions-at_most : (k : Key) (cs : List Claim) (f : Lines) → emissions k cs f ≤ 1
  unfolding emissions
  emissions-at_most k [] f = omega arith
  emissions-at_most k (c ∷ cs) f =
      if-cases (λ n. n ≤ 1) _ _ _
        (λ emitted. at_most_one (emissions-none k cs _ (claim-emits k c f emitted).1))
        (λ _. emissions-at_most k cs _)

  -- Of any claims, one after another under the lock and each with any earlier look at the ledger,
  -- any payload and any fate of its write, at most one emits a key; and none does when the ledger
  -- holds the key at first.
  pub emissions-once :
      (k : Key) (cs : List Claim) (f : Lines)
      → (emissions k cs f ≤ 1) × (Holds py is_red k f.records → emissions k cs f ≡ 0)
  emissions-once k cs f = (emissions-at_most k cs f, emissions-none k cs f)
