-- ===== src/Store/Advance.antt =====
-- How a journal record moves the cursor of a state.
use codex_ralph_vault_loop.Base.{
  suc, ◌≡◌, refl, subst, ◌∙◌, Bool, true, false, Option, none, some, String, ◌==◌, is_empty, arith,
  if◌then◌else◌,
}
use codex_ralph_vault_loop.Base.Int.{pos}
use codex_ralph_vault_loop.Json.{Json, null, int, text, Dict, get, get_or, set, update, get-set}
use codex_ralph_vault_loop.Python.{Library, ok}
use codex_ralph_vault_loop.Store.Fields.{is_one_of}
use codex_ralph_vault_loop.Store.Event.{Event, check_keys, patch_checks}
use codex_ralph_vault_loop.Store.State.{State, state_dict}
use codex_ralph_vault_loop.Store.Fields.{integer, hash_text, identifier, plan_id}
use codex_ralph_vault_loop.Store.Checked.{Checked}
use codex_ralph_vault_loop.Store.Record.{validate_event}
use codex_ralph_vault_loop.Store.Chain.{validate_event-is_chained}
use codex_ralph_vault_loop.Store.Values.{
  integer-injective, hash_text-injective, identifier-injective, plan_id-injective,
}
use codex_ralph_vault_loop.Store.Cursor.{validate_state-IsPlaced}
use codex_ralph_vault_loop.Store.Patch.{get-update-none, state_patch-none}
use codex_ralph_vault_loop.Store.Journal.{
  with_decision, copied, carried_status, carried_writer, moved, patched, after_dict,
  state_after_event,
}

get-set-other :
    (k j : String) (v : Json) (d : Dict) → (j == k) ≡ false → get k (set j v d) ≡ get k d
get-set-other k j v d h = get-set k j v d ∙ ground arith

get-set-if :
    (k j : String) (v : Json) (d : Dict) (test : Bool)
    → (j == k) ≡ false
    → (get k (if test then set j v d else d) ≡ get k d)
      × (get k (if test then d else set j v d) ≡ get k d)
get-set-if k j v d true h = (get-set-other k j v d h, refl)
get-set-if k j v d false h = (refl, get-set-other k j v d h)

-- A key that a record neither carries nor patches.
record IsKept (k : String) (e : Event) : Type 0 where
  pub not_patched : get k e.state_patch ≡ none
  pub no_status : get k (carried_status e) ≡ none
  pub no_writer : get k (carried_writer e) ≡ none
  pub no_git : ("git" == k) ≡ false
  pub no_path : ("plan_path" == k) ≡ false
  pub no_decision : ("latest_decision" == k) ≡ false

get-kept :
    (k : String) (e : Event) (d : Dict)
    → IsKept k e
    → get k (with_decision e (copied e (patched e d))) ≡ get k d
get-kept k e d kept =
    (get-set-if k "latest_decision" _ _ (e.kind == "decision") kept.no_decision).0
    ∙ get-update-none k _ (carried_writer e) kept.no_writer
    ∙ get-set-other k "git" _ _ kept.no_git
    ∙ (get-set-if k "plan_path" _ _ (is_empty e.plan_path) kept.no_path).1
    ∙ get-update-none k _ (carried_status e) kept.no_status
    ∙ get-update-none k d e.state_patch kept.not_patched

-- The state that follows a record: its cursor is the record, its plan stays, and its generation is
-- the next one.
pub record IsMoved (s : State) (e : Event) (s' : State) : Type 0 where
  pub at_sequence : s'.last_event_sequence ≡ e.sequence
  pub at_hash : s'.last_event_hash ≡ e.record_hash
  pub at_operation : s'.last_operation_id ≡ e.operation_id
  pub next_generation : s'.generation ≡ suc s.generation
  pub same_plan : s'.plan_id ≡ s.plan_id

module _ (py : Library) (is_red : String → Bool) where
  -- A record that `_read_plan_events` returns for a plan.
  abbrev pub IsRecord : String → Event → Type 0
  IsRecord plan e = (d : Dict) × (validate_event py is_red (some plan) false none false d ≡ ok e)

  IsRecord-none :
      (plan k : String) (e : Event)
      → IsRecord plan e
      → is_one_of (check_keys (patch_checks py is_red)) k ≡ false
      → get k e.state_patch ≡ none
  IsRecord-none plan k e (d, h) absent =
      let (read, _) = validate_event-is_chained py is_red (some plan) false none d e h in
      state_patch-none py is_red k _ e.state_patch absent read.reads_patch

  after_dict-get :
      (plan k : String) (e : Event)
      → IsRecord plan e
      → is_one_of (check_keys (patch_checks py is_red)) k ≡ false
      → get k (carried_status e) ≡ none
      → get k (carried_writer e) ≡ none
      → ("git" == k) ≡ false
      → ("plan_path" == k) ≡ false
      → ("latest_decision" == k) ≡ false
      → (s : State) (timestamp : String)
      → get k (after_dict s e timestamp)
        ≡ get k (moved s e timestamp (set "semantic_hash" (text "") (state_dict s)))
  after_dict-get plan k e valid absent h1 h2 h3 h4 h5 s timestamp = get-kept k e _ (record {
    not_patched = IsRecord-none plan k e valid absent;
    no_status = h1;
    no_writer = h2;
    no_git = h3;
    no_path = h4;
    no_decision = h5;
  })

  -- A field that is read from the candidate is the one that the record moved.
  after_dict-read :
      (plan k : String) (e : Event)
      → IsRecord plan e
      → is_one_of (check_keys (patch_checks py is_red)) k ≡ false
      → get k (carried_status e) ≡ none
      → get k (carried_writer e) ≡ none
      → ("git" == k) ≡ false
      → ("plan_path" == k) ≡ false
      → ("latest_decision" == k) ≡ false
      → (s : State) (timestamp : String) {A : Type 0} (check : Json → Checked A) (default : Json)
        (a : A)
      → check (get_or k default (after_dict s e timestamp)) ≡ ok a
      → check
          (get_or k default (moved s e timestamp (set "semantic_hash" (text "") (state_dict s))))
        ≡ ok a
  after_dict-read plan k e valid absent h1 h2 h3 h4 h5 s timestamp check default a =
      subst (λ (found : Option Json). check (elim found [ none ↦ default | some v ↦ v ]) ≡ ok a)
        (after_dict-get plan k e valid absent h1 h2 h3 h4 h5 s timestamp)

  pub state_after_event-IsMoved :
      (plan timestamp : String) (s s' : State) (e : Event)
      → IsRecord plan e
      → state_after_event py is_red timestamp s e ≡ ok s'
      → IsMoved s e s'
  unfolding state_after_event get set update
  state_after_event-IsMoved plan timestamp s s' e valid h =
      let placed = validate_state-IsPlaced py is_red _ _ s' h in
      record {
        at_sequence = integer-injective 0 e.sequence s'.last_event_sequence (
            after_dict-read plan "last_event_sequence" e valid refl refl refl refl refl refl s
              timestamp (integer 0) (int (pos 0)) _ placed.reads_sequence);
        at_hash = hash_text-injective true e.record_hash s'.last_event_hash (
            after_dict-read plan "last_event_hash" e valid refl refl refl refl refl refl s timestamp
              (hash_text true) (text "") _ placed.reads_event_hash);
        at_operation = identifier-injective py is_red true e.operation_id s'.last_operation_id (
            after_dict-read plan "last_operation_id" e valid refl refl refl refl refl refl s
              timestamp (identifier py is_red true) (text "") _ placed.reads_operation);
        next_generation = integer-injective 0 (suc s.generation) s'.generation (
            after_dict-read plan "generation" e valid refl refl refl refl refl refl s timestamp
              (integer 0) (int (pos 0)) _ placed.reads_generation);
        same_plan = plan_id-injective py is_red s.plan_id s'.plan_id (
            after_dict-read plan "plan_id" e valid refl refl refl refl refl refl s timestamp
              (plan_id py is_red false) null _ placed.reads_plan);
      }
