-- ===== src/Store/Growth.antt =====
-- What `record_event` can do to the journal of a plan, whatever fails.
use codex_ralph_vault_loop.Base.{
  ℕ, suc, ◌+◌, ◌≡◌, refl, subst, ◌⊎◌, inl, inr, Bool, true, Option, none, some, List, [], ◌∷◌, ◌++◌,
  snoc, length, String, ◌==◌, leb, ltb, arith, Bool-cases, if-keeps,
}
use codex_ralph_vault_loop.Json.{Dict}
use codex_ralph_vault_loop.Python.{Library, ok, err, ok-injective}
use codex_ralph_vault_loop.Store.Checked.{Checked, io, bind-elim, is_corrupt}
use codex_ralph_vault_loop.Store.State.{State, encoded_size, state_semantic_hash, state_dict}
use codex_ralph_vault_loop.Store.Event.{Event, event_dict}
use codex_ralph_vault_loop.Store.Journal.{operation_event, last_hash, validate_sequence_and_hashes}
use codex_ralph_vault_loop.Store.Build.{build_event}
use codex_ralph_vault_loop.Store.Files.{
  absent, Lines, Write, succeeds, fails, fails_late, tears, written, append_jsonl,
}
use codex_ralph_vault_loop.Store.Disk.{
  Disk, Host, Outcome, and_then, read_plan_events, verified, loaded,
}
use codex_ralph_vault_loop.Store.RecordEvent.{
  Request, Step, appends, decide, step_for, new_step, draft_of,
}

-- A property of the disk behind a call, and of the disk behind the next one.
pub and_then-rule {ℓ κ} :
    {A B : Type 0} (P : Disk → Type ℓ) (Q : Disk → Type κ) (call : Outcome A)
    (next : A → Disk → Outcome B)
    → Q call.1
    → ((disk : Disk) → Q disk → P disk)
    → ((a : A) (disk : Disk) → call ≡ (ok a, disk) → Q disk → P (next a disk).1)
    → P (and_then call next).1
unfolding and_then
and_then-rule P Q (ok a, disk) next now weaken later = later a disk refl now
and_then-rule P Q (err e, disk) next now weaken later = weaken disk now

-- The records of a journal after a write of one line.
abbrev pub IsWritten : Dict → Lines → Lines → Type 0
IsWritten payload before after =
    (after.records ≡ before.records) ⊎ (after.records ≡ snoc before.records (some payload))

written-IsWritten :
    (w : Write) (payload : Dict) (size : ℕ) (f : Lines)
    → IsWritten payload f (written w payload size f).1
unfolding written
written-IsWritten succeeds payload size f = inr refl
written-IsWritten fails payload size f = inl refl
written-IsWritten fails_late payload size f = inr refl
written-IsWritten (tears n) payload size f = inl refl

pub append_jsonl-IsWritten :
    (py : Library) (w : Write) (hard total most existing : ℕ) (payload : Dict) (f : Lines)
    → IsWritten payload f (append_jsonl py w hard total most existing payload f).1
unfolding append_jsonl
append_jsonl-IsWritten py w hard total most existing payload f =
    let P = λ (o : Checked (Unit {0}) × Lines). IsWritten payload f o.1 in
    let size = suc (encoded_size py payload) in
    if-keeps P (ltb hard size) (err io, f) _ (inl refl)
      (if-keeps P (ltb total (f.bytes + size)) (err io, f) _ (inl refl)
        (if-keeps P (leb most existing) (err io, f) (written w payload size f) (inl refl)
          (written-IsWritten w payload size f)))

appends-event :
    (e e' : Event) (c c' : State)
    → ◌≡◌ {A = Checked Step} (ok (appends e c)) (ok (appends e' c'))
    → e ≡ e'
appends-event e e' c c' h = cc

module _ (py : Library) (is_red : String → Bool) where
  pub loaded-events :
      (h : Host) (disk : Disk) (c : Checked (Option State))
      → (loaded py is_red h disk c).1.events ≡ disk.events
  unfolding loaded
  loaded-events h disk (ok s) = refl
  loaded-events h disk (err e) =
      let P = λ (o : Outcome (Option State)). o.1.events ≡ disk.events in
      if-keeps P (is_corrupt e) _ (err e, disk)
        (if-keeps P h.can_quarantine (ok none, record disk { snapshot = absent }) (err io, disk)
          refl refl)
        refl

  verified-chain :
      (identity : String) (strict : Bool) (c : Checked (List Event × Bool)) (es : List Event)
      → verified py is_red identity strict c ≡ ok es
      → validate_sequence_and_hashes py es ≡ ok tt
  unfolding verified
  verified-chain identity strict (ok (es', partial)) es h = bind-elim h λ _ _ h.
      bind-elim h λ _ q h. bind-elim h λ _ _ h.
        subst (λ (xs : List Event). validate_sequence_and_hashes py xs ≡ ok tt) (ok-injective h) q
  verified-chain identity strict (err e) es h = ground arith

  pub read_plan_events-chain :
      (identity plan : String) (strict : Bool) (f : Lines) (es : List Event)
      → read_plan_events py is_red identity plan strict f ≡ ok es
      → validate_sequence_and_hashes py es ≡ ok tt
  unfolding read_plan_events
  read_plan_events-chain identity plan strict f es h = verified-chain identity strict _ es h

  -- What a call can do to the journal: a record that continues it, of an operation that is not in
  -- it.
  pub record IsExtension (identity : String) (r : Request) (before after : Lines) : Type 0 where
    pub journal : List Event
    pub added : Event
    pub reads_journal : read_plan_events py is_red identity r.plan true before ≡ ok journal
    pub adds : after.records ≡ snoc before.records (some (event_dict added))
    pub is_chained : validate_sequence_and_hashes py (journal ++ (added ∷ [])) ≡ ok tt
    pub is_new : operation_event r.operation journal ≡ none

  abbrev pub IsGrown : String → Request → Lines → Disk → Type 0
  IsGrown identity r before disk =
      (disk.events.records ≡ before.records) ⊎ IsExtension identity r before disk.events

  new_step-appends :
      (r : Request) (s c c' : State) (es : List Event) (e : Event)
      → new_step py is_red r s c es ≡ ok (appends e c')
      → build_event py is_red c (draft_of py is_red r s c (length es + 1) (last_hash "" es)) ≡ ok e
  unfolding new_step
  new_step-appends r s c c' es e h =
      elim (Bool-cases
        (state_semantic_hash py (state_dict c) == state_semantic_hash py (state_dict s))) [
          | inl q ↦ let clash = rw q at h in cc
          | inr q ↦ bind-elim (rw q at h) λ e' q h.
              subst
                (λ (x : Event).
                  build_event py is_red c
                    (draft_of py is_red r s c (length es + 1) (last_hash "" es))
                  ≡ ok x)
                (appends-event e' e c c' h) q
        ]

  step_for-appends :
      (r : Request) (s c c' : State) (es : List Event) (o : Option Event) (e : Event)
      → step_for py is_red r s c es o ≡ ok (appends e c')
      → (o ≡ none) × (new_step py is_red r s c es ≡ ok (appends e c'))
  unfolding step_for
  step_for-appends r s c c' es none e h = (refl, h)
  step_for-appends r s c c' es (some d) e h = bind-elim h λ _ _ h. bind-elim h λ _ _ h. cc

  -- A step that appends a record has built the next one of the journal.
  pub decide-appends :
      (identity : String) (r : Request) (s c : State) (es : List Event) (e : Event)
      → decide py is_red identity r s es ≡ ok (appends e c)
      → (operation_event r.operation es ≡ none)
        × ((d : State) × (build_event py is_red d
                (draft_of py is_red r s d (length es + 1) (last_hash "" es))
              ≡ ok e))
  unfolding decide
  decide-appends identity r s c es e h = bind-elim h λ d _ h. bind-elim h λ _ _ h.
      let (fresh, step) = step_for-appends r s d c es (operation_event r.operation es) e h in
      (fresh, (d, new_step-appends r s d c es e step))
