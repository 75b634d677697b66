-- ===== src/Store/Recovery.antt =====
-- The recoveries of store.py: a state that lags behind its journal is brought to its end.
use codex_ralph_vault_loop.Base.{
  ℕ, zero, suc, ◌+◌, ◌<◌, ◌≡◌, refl, subst, sym, ◌∙◌, Bool, true, false, Option, some, List, [],
  ◌∷◌, length, drop, All, String, ◌==◌, is_empty, eqb, leb, arith, eq_iff, if◌then◌else◌,
}
use codex_ralph_vault_loop.Json.{get}
use codex_ralph_vault_loop.Python.{Library, ok, ok-injective, require}
use codex_ralph_vault_loop.Store.Checked.{integrity, bind-elim, require-elim, require-pass, ◌>>=◌}
use codex_ralph_vault_loop.Store.State.{State, state_dict}
use codex_ralph_vault_loop.Store.Validate.{validate_state}
use codex_ralph_vault_loop.Store.Event.{Event}
use codex_ralph_vault_loop.Store.Values.{integer-injective, hash_text-injective, plan_id-injective}
use codex_ralph_vault_loop.Store.Cursor.{validate_state-IsPlaced}
use codex_ralph_vault_loop.Store.Journal.{
  nth_event, last_hash, validate_chain, validate_state_cursor, replay,
}
use codex_ralph_vault_loop.Store.Advance.{IsRecord, state_after_event-IsMoved}

abbrev pub last_sequence : ℕ → List Event → ℕ
last_sequence n [] = n
last_sequence n (e ∷ es) = last_sequence e.sequence es

-- The last record of a journal is where its length points.
nth_event-last :
    (previous : String) (e : Event) (es : List Event)
    → (d : Event) × (nth_event (suc (length es)) (e ∷ es) ≡ some d)
      × (last_hash previous (e ∷ es) ≡ d.record_hash)
unfolding nth_event
nth_event-last previous e [] = (e, refl, refl)
nth_event-last previous e (d ∷ es) = nth_event-last e.record_hash d es

-- The tail behind a shorter prefix ends as the journal does.
pub last-drop :
    (n : ℕ) (m m' : ℕ) (h h' : String) (es : List Event)
    → n < length es
    → (last_hash h (drop n es) ≡ last_hash h' es)
      × (last_sequence m (drop n es) ≡ last_sequence m' es)
last-drop n m m' h h' [] less = absurd (ground arith)
last-drop zero m m' h h' (e ∷ es) less = (refl, refl)
last-drop (suc n) m m' h h' (e ∷ []) less = absurd (ground arith)
last-drop (suc n) m m' h h' (e ∷ d ∷ es) less =
    last-drop n m e.sequence h e.record_hash (d ∷ es) (ground arith)

module _ (py : Library) where
  -- The sequences of a verified journal count its records.
  pub validate_chain-last :
      (n m : ℕ) (previous : String) (es : List Event)
      → validate_chain py n previous es ≡ ok tt
      → suc m ≡ n
      → suc (last_sequence m es) ≡ n + length es
  unfolding validate_chain
  validate_chain-last n m previous [] h start = ground arith
  validate_chain-last n m previous (e ∷ es) h start = bind-elim h λ _ p h. bind-elim h λ _ _ h.
      bind-elim h λ _ _ h.
        let place = require-elim integrity _ p in
        let rest = validate_chain-last (suc n) e.sequence e.record_hash es h (ground arith) in
        ground arith

-- A state that a replay of records has reached.
pub record IsReplayed (s : State) (es : List Event) (s' : State) : Type 0 where
  pub at_sequence : s'.last_event_sequence ≡ last_sequence s.last_event_sequence es
  pub at_hash : s'.last_event_hash ≡ last_hash s.last_event_hash es
  pub generations : s'.generation ≡ s.generation + length es
  pub same_plan : s'.plan_id ≡ s.plan_id

module _ (py : Library) (is_red : String → Bool) where
  pub replay-IsReplayed :
      (plan timestamp : String) (s s' : State) (es : List Event)
      → All (IsRecord py is_red plan) es
      → replay py is_red timestamp s es ≡ ok s'
      → IsReplayed s es s'
  unfolding replay
  replay-IsReplayed plan timestamp s s' [] valid h =
      subst (IsReplayed s []) (ok-injective h) (record {
        at_sequence = refl;
        at_hash = refl;
        generations = ground arith;
        same_plan = refl;
      })
  replay-IsReplayed plan timestamp s s' (e ∷ es) valid h = bind-elim h λ next q h.
      let moved = state_after_event-IsMoved py is_red plan timestamp s next e valid.0 q in
      let rest = replay-IsReplayed plan timestamp next s' es valid.1 h in
      record {
        at_sequence = rest.at_sequence ∙ (λ i. last_sequence (moved.at_sequence i) es);
        at_hash = rest.at_hash ∙ (λ i. last_hash (moved.at_hash i) es);
        generations = ground (arith, rest.generations, moved.next_generation);
        same_plan = rest.same_plan ∙ moved.same_plan;
      }

  -- A second validation keeps the place of a state.
  pub validate_state-again :
      (expected : Option String) (s s' : State)
      → validate_state py is_red expected (state_dict s) ≡ ok s'
      → (s'.last_event_sequence ≡ s.last_event_sequence)
        × (s'.last_event_hash ≡ s.last_event_hash)
        × (s'.generation ≡ s.generation)
        × (s'.plan_id ≡ s.plan_id)
  unfolding get
  validate_state-again expected s s' h =
      let placed = validate_state-IsPlaced py is_red expected _ s' h in
      (
        integer-injective 0 s.last_event_sequence s'.last_event_sequence placed.reads_sequence,
        hash_text-injective true s.last_event_hash s'.last_event_hash placed.reads_event_hash,
        integer-injective 0 s.generation s'.generation placed.reads_generation,
        plan_id-injective py is_red s.plan_id s'.plan_id placed.reads_plan,
      )

else-eq {ℓ} : {A : Type ℓ} (test : Bool) (x y : A) → test ≡ false → (if test then x else y) ≡ y
else-eq true x y h = cc
else-eq false x y h = refl

-- The check of a cursor that points at the end of a journal compares the hashes.
cursor-at-last :
    (e : Event) (es : List Event) (s : State)
    → s.last_event_sequence ≡ suc (length es)
    → (d : Event) × (last_hash "" (e ∷ es) ≡ d.record_hash)
      × (validate_state_cursor s (e ∷ es) ≡ require (s.last_event_hash == d.record_hash) integrity)
unfolding validate_state_cursor
cursor-at-last e es s place =
    let (d, found, same) = nth_event-last "" e es in
    (
      d,
      same,
      require-pass integrity (leb s.last_event_sequence (suc (length es))) _ (ground arith)
          ∙ else-eq (eqb s.last_event_sequence 0) _ _ (ground arith)
          ∙ (rw (place, found)),
    )

-- The cursor of a state is the end of a journal.
pub record IsAtEnd (es : List Event) (s : State) : Type 0 where
  pub at_length : s.last_event_sequence ≡ length es
  pub at_last : s.last_event_hash ≡ last_hash "" es

-- Such a cursor passes the check of a reader.
pub IsAtEnd-valid :
    (es : List Event) (s : State) → IsAtEnd es s → validate_state_cursor s es ≡ ok tt
unfolding validate_state_cursor ◌>>=◌
IsAtEnd-valid [] s end = rw (end.at_length, end.at_last)
IsAtEnd-valid (e ∷ es) s end =
    let (d, same, check) = cursor-at-last e es s end.at_length in
    let agree : (s.last_event_hash == d.record_hash) ≡ true =
      ground (arith, eq_iff s.last_event_hash d.record_hash, end.at_last, same) in
    check ∙ (rw agree)

is_empty-eq : (s : String) → is_empty s ≡ true → s ≡ ""
is_empty-eq String.[] h = refl
is_empty-eq (String.◌∷◌ c s) h = cc

equal-text : (s t : String) → (s == t) ≡ true → s ≡ t
equal-text s t h = ground (arith, eq_iff s t)

-- A cursor that passes and points at the end is the end.
pub valid-IsAtEnd :
    (es : List Event) (s : State)
    → validate_state_cursor s es ≡ ok tt
    → s.last_event_sequence ≡ length es
    → IsAtEnd es s
unfolding validate_state_cursor
valid-IsAtEnd [] s h q = bind-elim h λ _ _ h. record {
  at_length = q;
  at_last = is_empty-eq s.last_event_hash (require-elim integrity _ (rw q at h));
}
valid-IsAtEnd (e ∷ es) s h q =
    let (d, same, check) = cursor-at-last e es s q in
    record {
      at_length = q;
      at_last =
          equal-text s.last_event_hash d.record_hash (require-elim integrity _ (sym check ∙ h))
          ∙ sym same;
    }
