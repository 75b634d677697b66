-- ===== src/Store/Reconcile.antt =====
-- `_reconcile_state` and `_reconstruct_state` bring a state to the end of its journal.
use codex_ralph_vault_loop.Base.{
  ◌+◌, ◌<◌, ◌≤◌, ◌≡◌, refl, subst, ◌∙◌, Bool, List, [], ◌∷◌, length, drop, length-drop, All,
  All-drop, String, eqb, arith, Bool-cases, inl, inr,
}
use codex_ralph_vault_loop.Json.{get, set, update}
use codex_ralph_vault_loop.Python.{Library, ok, ok-injective}
use codex_ralph_vault_loop.Store.Checked.{integrity, bind-elim, require-elim}
use codex_ralph_vault_loop.Store.State.{State}
use codex_ralph_vault_loop.Store.Validate.{new_state}
use codex_ralph_vault_loop.Store.Event.{Event}
use codex_ralph_vault_loop.Store.Values.{integer-injective, plan_id-injective}
use codex_ralph_vault_loop.Store.Cursor.{validate_state-IsPlaced}
use codex_ralph_vault_loop.Store.Journal.{
  validate_sequence_and_hashes, validate_state_cursor, reconcile_state, reconstruct_state,
}
use codex_ralph_vault_loop.Store.Advance.{IsRecord}
use codex_ralph_vault_loop.Store.Recovery.{
  last-drop, validate_chain-last, IsReplayed, replay-IsReplayed, validate_state-again, IsAtEnd,
  IsAtEnd-valid, valid-IsAtEnd,
}

cursor-bound :
    (s : State) (es : List Event)
    → validate_state_cursor s es ≡ ok tt
    → s.last_event_sequence ≤ length es
unfolding validate_state_cursor
cursor-bound s es h = bind-elim h λ _ q h. let within = require-elim integrity _ q in ground arith

module _ (py : Library) (is_red : String → Bool) (plan timestamp : String) where
  -- What a recovery gives: the end of the journal, which a reader accepts.
  pub record IsRecovered (start : State) (es : List Event) (s : State) : Type 0 where
    pub is_at_end : IsAtEnd es s
    pub is_accepted : validate_state_cursor s es ≡ ok tt
    pub counts_records : s.generation + start.last_event_sequence ≡ start.generation + length es
    pub keeps_plan : s.plan_id ≡ start.plan_id

  -- A replay of the records behind the cursor, validated once more.
  replayed-IsRecovered :
      (s r s' : State) (es : List Event)
      → All (IsRecord py is_red plan) es
      → validate_sequence_and_hashes py es ≡ ok tt
      → s.last_event_sequence < length es
      → IsReplayed s (drop s.last_event_sequence es) r
      → (s'.last_event_sequence ≡ r.last_event_sequence)
        × (s'.last_event_hash ≡ r.last_event_hash)
        × (s'.generation ≡ r.generation)
        × (s'.plan_id ≡ r.plan_id)
      → IsRecovered s es s'
  unfolding validate_sequence_and_hashes
  replayed-IsRecovered s r s' es valid chain behind replayed (q1, q2, q3, q4) =
      let (hash, sequence) =
        last-drop s.last_event_sequence s.last_event_sequence 0 s.last_event_hash "" es behind in
      let counted = validate_chain-last py 1 0 "" es chain refl in
      let end : IsAtEnd es s' = record {
        at_length = ground (arith, replayed.at_sequence);
        at_last = q2 ∙ replayed.at_hash ∙ hash;
      } in
      record {
        is_at_end = end;
        is_accepted = IsAtEnd-valid es s' end;
        counts_records = ground (arith, replayed.generations, length-drop s.last_event_sequence es);
        keeps_plan = q4 ∙ replayed.same_plan;
      }

  -- The reconciliation of a state with a verified journal, when it returns.
  pub reconcile_state-IsRecovered :
      (s : State) (es : List Event) (r : State × Bool)
      → All (IsRecord py is_red plan) es
      → validate_sequence_and_hashes py es ≡ ok tt
      → reconcile_state py is_red timestamp s es ≡ ok r
      → IsRecovered s es r.0
  unfolding reconcile_state
  reconcile_state-IsRecovered s es r valid chain h = bind-elim h λ _ cursor h.
      elim (Bool-cases (eqb s.last_event_sequence (length es))) [
        | inl q ↦
            let end = valid-IsAtEnd es s cursor (ground arith) in
            subst (λ (r : State × Bool). IsRecovered s es r.0) (ok-injective (rw q at h))
              (record {
                is_at_end = end;
                is_accepted = cursor;
                counts_records = ground arith;
                keeps_plan = refl;
              })
        | inr q ↦ bind-elim (rw q at h) λ recovered q1 h. bind-elim h λ final q2 h.
            let bound = cursor-bound s es cursor in
            subst (λ (r : State × Bool). IsRecovered s es r.0) (ok-injective h)
              (replayed-IsRecovered s recovered final es valid chain (ground arith)
                (replay-IsReplayed py is_red plan timestamp s recovered
                  (drop s.last_event_sequence es)
                  (All-drop (IsRecord py is_red plan) s.last_event_sequence es valid) q1)
                (validate_state-again py is_red _ recovered final q2))
      ]

  -- A snapshot that is built from a verified journal alone, when that returns.
  pub reconstruct_state-IsAtEnd :
      (es : List Event) (s : State)
      → All (IsRecord py is_red plan) es
      → validate_sequence_and_hashes py es ≡ ok tt
      → reconstruct_state py is_red timestamp plan es ≡ ok s
      → IsAtEnd es s × (s.generation ≡ length es) × (s.plan_id ≡ plan)
  unfolding reconstruct_state new_state validate_sequence_and_hashes get set update
  reconstruct_state-IsAtEnd [] s valid chain h = cc
  reconstruct_state-IsAtEnd (e ∷ es) s valid chain h = bind-elim h λ first q1 h.
      bind-elim h λ built q2 h.
        let placed = validate_state-IsPlaced py is_red _ _ first q1 in
        let replayed = replay-IsReplayed py is_red plan timestamp first built (e ∷ es) valid q2 in
        let (sequence, hash, generation, same) = validate_state-again py is_red _ built s h in
        let counted = validate_chain-last py 1 0 "" (e ∷ es) chain refl in
        let from = integer-injective 0 0 first.generation placed.reads_generation in
        (
          record {
            at_length = ground (arith, replayed.at_sequence);
            at_last = hash ∙ replayed.at_hash;
          },
          ground (arith, replayed.generations),
          same
              ∙ replayed.same_plan
              ∙ plan_id-injective py is_red plan first.plan_id placed.reads_plan,
        )
