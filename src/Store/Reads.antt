-- ===== src/Store/Reads.antt =====
-- What `validate_event` keeps of the dictionary that it reads.
use codex_ralph_vault_loop.Base.{◌≡◌, subst, Bool, true, not, ◌||◌, Option, String, is_empty}
use codex_ralph_vault_loop.Base.Int.{pos}
use codex_ralph_vault_loop.Json.{Dict, int, text, obj, end, get_or}
use codex_ralph_vault_loop.Python.{Library, ok, ok-injective}
use codex_ralph_vault_loop.Store.Checked.{schema, bind-elim, require-elim}
use codex_ralph_vault_loop.Store.Fields.{integer, hash_text, plan_id}
use codex_ralph_vault_loop.Store.State.{matches_expected}
use codex_ralph_vault_loop.Store.Event.{Event, state_patch}
use codex_ralph_vault_loop.Store.Record.{event_fields}

module _ (py : Library) (is_red : String → Bool) where
  -- The fields of a record on which its place in the journal rests.
  pub record IsRead (expected : Option String) (unplanned allow_unhashed : Bool) (d : Dict)
      (e : Event) : Type 0 where
    pub reads_sequence : integer 1 (get_or "sequence" (int (pos 0)) d) ≡ ok e.sequence
    pub reads_plan : plan_id py is_red unplanned (get_or "plan_id" (text "") d) ≡ ok e.plan_id
    pub has_plan : matches_expected expected e.plan_id ≡ true
    pub reads_patch : state_patch py is_red (get_or "state_patch" (obj end) d) ≡ ok e.state_patch
    pub reads_previous :
        hash_text true (get_or "previous_event_hash" (text "") d) ≡ ok e.previous_event_hash
    pub has_hash : (allow_unhashed || not (is_empty e.record_hash)) ≡ true

  pub event_fields-IsRead :
      (expected : Option String) (unplanned allow_unhashed : Bool) (d : Dict) (e : Event)
      → event_fields py is_red expected unplanned allow_unhashed d ≡ ok e
      → IsRead expected unplanned allow_unhashed d e
  unfolding event_fields
  event_fields-IsRead expected unplanned allow_unhashed d e h = bind-elim h λ _ _ h.
      bind-elim h λ _ _ h. bind-elim h λ sequence q1 h. bind-elim h λ _ _ h. bind-elim h λ _ _ h.
        bind-elim h λ _ _ h. bind-elim h λ _ _ h. bind-elim h λ _ _ h. bind-elim h λ plan q2 h.
          bind-elim h λ _ q3 h. bind-elim h λ _ _ h. bind-elim h λ _ _ h. bind-elim h λ _ _ h.
            bind-elim h λ _ _ h. bind-elim h λ _ _ h. bind-elim h λ _ _ h. bind-elim h λ _ _ h.
              bind-elim h λ _ _ h. bind-elim h λ _ _ h. bind-elim h λ _ _ h. bind-elim h λ _ _ h.
                bind-elim h λ _ _ h. bind-elim h λ _ _ h. bind-elim h λ _ _ h. bind-elim h λ _ _ h.
                  bind-elim h λ _ _ h. bind-elim h λ patch q4 h. bind-elim h λ _ _ h.
                    bind-elim h λ _ _ h. bind-elim h λ previous q5 h. bind-elim h λ hash _ h.
                      bind-elim h λ _ q6 h.
                        subst (IsRead expected unplanned allow_unhashed d) (ok-injective h)
                          (record {
                            reads_sequence = q1;
                            reads_plan = q2;
                            has_plan = require-elim schema _ q3;
                            reads_patch = q4;
                            reads_previous = q5;
                            has_hash = require-elim schema _ q6;
                          })
