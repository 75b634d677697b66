-- ===== src/Store/Cursor.antt =====
-- The cursor of a state: what `validate_state` keeps of it, and how a record moves it.
use codex_ralph_vault_loop.Base.{◌≡◌, subst, Bool, true, false, Option, String}
use codex_ralph_vault_loop.Base.Int.{pos}
use codex_ralph_vault_loop.Json.{null, int, text, Dict, get_or}
use codex_ralph_vault_loop.Python.{Library, ok, ok-injective}
use codex_ralph_vault_loop.Store.Checked.{schema, bind-elim, require-elim}
use codex_ralph_vault_loop.Store.Fields.{integer, hash_text, plan_id, identifier}
use codex_ralph_vault_loop.Store.State.{State, matches_expected, with_hash}
use codex_ralph_vault_loop.Store.Validate.{state_fields, seal_state, validate_state}

module _ (py : Library) (is_red : String → Bool) where
  -- The fields of a state that tie it to its plan and to its journal.
  pub record IsPlaced (expected : Option String) (d : Dict) (s : State) : Type 0 where
    pub reads_plan : plan_id py is_red false (get_or "plan_id" null d) ≡ ok s.plan_id
    pub has_plan : matches_expected expected s.plan_id ≡ true
    pub reads_generation : integer 0 (get_or "generation" (int (pos 0)) d) ≡ ok s.generation
    pub reads_operation :
        identifier py is_red true (get_or "last_operation_id" (text "") d) ≡ ok s.last_operation_id
    pub reads_sequence :
        integer 0 (get_or "last_event_sequence" (int (pos 0)) d) ≡ ok s.last_event_sequence
    pub reads_event_hash :
        hash_text true (get_or "last_event_hash" (text "") d) ≡ ok s.last_event_hash

  state_fields-IsPlaced :
      (expected : Option String) (d : Dict) (r : State × String)
      → state_fields py is_red expected d ≡ ok r
      → IsPlaced expected d r.0
  unfolding state_fields
  state_fields-IsPlaced expected d r h = bind-elim h λ _ _ h. bind-elim h λ _ _ h.
      bind-elim h λ _ q1 h. bind-elim h λ _ q2 h. bind-elim h λ _ _ h. bind-elim h λ _ q3 h.
        bind-elim h λ _ _ h. bind-elim h λ _ _ h. bind-elim h λ _ _ h. bind-elim h λ _ _ h.
          bind-elim h λ _ _ h. bind-elim h λ _ _ h. bind-elim h λ _ _ h. bind-elim h λ _ _ h.
            bind-elim h λ _ _ h. bind-elim h λ _ _ h. bind-elim h λ _ q4 h. bind-elim h λ _ q5 h.
              bind-elim h λ _ q6 h. bind-elim h λ _ _ h. bind-elim h λ _ _ h. bind-elim h λ _ _ h.
                bind-elim h λ _ _ h. bind-elim h λ _ _ h. bind-elim h λ _ _ h. bind-elim h λ _ _ h.
                  bind-elim h λ _ _ h. bind-elim h λ _ _ h. bind-elim h λ _ _ h.
                    subst (λ r. IsPlaced expected d r.0) (ok-injective h)
                      (record {
                        reads_plan = q1;
                        has_plan = require-elim schema _ q2;
                        reads_generation = q3;
                        reads_operation = q4;
                        reads_sequence = q5;
                        reads_event_hash = q6;
                      })

  pub seal_state-eq :
      (s s' : State) (supplied : String)
      → seal_state py is_red s supplied ≡ ok s'
      → with_hash py s ≡ s'
  unfolding seal_state
  seal_state-eq s s' supplied h =
      bind-elim h λ _ _ h. bind-elim h λ _ _ h. bind-elim h λ _ _ h. ok-injective h

  pub validate_state-IsPlaced :
      (expected : Option String) (d : Dict) (s : State)
      → validate_state py is_red expected d ≡ ok s
      → IsPlaced expected d s
  unfolding validate_state
  validate_state-IsPlaced expected d s h = bind-elim h λ r q h.
      let placed = state_fields-IsPlaced expected d r q in
      subst (IsPlaced expected d) (seal_state-eq r.0 s r.1 h) (record {
        reads_plan = placed.reads_plan;
        has_plan = placed.has_plan;
        reads_generation = placed.reads_generation;
        reads_operation = placed.reads_operation;
        reads_sequence = placed.reads_sequence;
        reads_event_hash = placed.reads_event_hash;
      })
