-- ===== src/Store/Chain.antt =====
-- The hash chain of a journal: a record that `_build_event` returns is the next one.
use codex_ralph_vault_loop.Base.{
  ℕ, suc, ◌+◌, ◌≡◌, subst, ◌∙◌, Bool, true, false, not, ◌&&◌, ◌||◌, Option, none, some, List, [],
  ◌∷◌, ◌++◌, length, String, is_empty, arith, eq_iff,
}
use codex_ralph_vault_loop.Json.{Dict, get}
use codex_ralph_vault_loop.Python.{Library, ok, ok-injective}
use codex_ralph_vault_loop.Store.Checked.{schema, integrity, bind-elim, require-elim, require-pass}
use codex_ralph_vault_loop.Store.Values.{integer-injective, hash_text-injective}
use codex_ralph_vault_loop.Store.State.{State}
use codex_ralph_vault_loop.Store.Event.{Event}
use codex_ralph_vault_loop.Store.Record.{validate_event, seal_event, is_hashed}
use codex_ralph_vault_loop.Store.Reads.{IsRead, event_fields-IsRead}
use codex_ralph_vault_loop.Store.Journal.{validate_chain, validate_sequence_and_hashes, last_hash}
use codex_ralph_vault_loop.Store.Build.{Draft, build_event}

pub seal_event-IsHashed :
    (py : Library) (is_red : String → Bool) (hard_limit : Option ℕ) (e e' : Event)
    → seal_event py is_red hard_limit e ≡ ok e'
    → (e ≡ e') × ((is_empty e.record_hash || is_hashed py e) ≡ true)
unfolding seal_event
seal_event-IsHashed py is_red hard_limit e e' h =
    bind-elim h
      λ _ _ h. bind-elim h λ _ q h. bind-elim h λ _ _ h. (ok-injective h, require-elim schema _ q)

module _ (py : Library) where
  -- The third check of `validate_chain`.
  abbrev is_chained : Event → Bool
  is_chained e = not (is_empty e.record_hash) && is_hashed py e

  -- A record that goes behind `n` others, the last of which has a hash.
  abbrev pub IsNext : ℕ → String → Event → Type 0
  IsNext n previous e =
      (e.sequence ≡ n) × (e.previous_event_hash ≡ previous) × (is_chained e ≡ true)

  validate_chain-append :
      (n : ℕ) (previous : String) (es : List Event) (e : Event)
      → validate_chain py n previous es ≡ ok tt
      → IsNext (n + length es) (last_hash previous es) e
      → validate_chain py n previous (es ++ (e ∷ [])) ≡ ok tt
  unfolding validate_chain
  validate_chain-append n previous [] e h (place, linked, chained) =
      require-pass integrity _ _ (ground arith)
      ∙ require-pass integrity _ _ (ground (arith, eq_iff e.previous_event_hash previous))
      ∙ require-pass integrity _ _ chained
  validate_chain-append n previous (d ∷ es) e h (place, linked, chained) = bind-elim h λ _ p h.
      bind-elim h λ _ q h. bind-elim h λ _ r h.
        require-pass integrity _ _ (require-elim integrity _ p)
        ∙ require-pass integrity _ _ (require-elim integrity _ q)
        ∙ require-pass integrity _ _ (require-elim integrity _ r)
        ∙ validate_chain-append (suc n) d.record_hash es e h (ground arith, linked, chained)

module _ (py : Library) (is_red : String → Bool) where
  -- A record that passes the validation with its hash has it, and it is right.
  pub validate_event-is_chained :
      (expected : Option String) (unplanned : Bool) (hard_limit : Option ℕ) (d : Dict) (e : Event)
      → validate_event py is_red expected unplanned hard_limit false d ≡ ok e
      → IsRead py is_red expected unplanned false d e × (is_chained py e ≡ true)
  unfolding validate_event
  validate_event-is_chained expected unplanned hard_limit d e h = bind-elim h λ e' q h.
      let (same, hashed) = seal_event-IsHashed py is_red hard_limit e' e h in
      let read = event_fields-IsRead py is_red expected unplanned false d e' q in
      subst (λ r. IsRead py is_red expected unplanned false d r × (is_chained py r ≡ true)) same
        (read, ground (arith, read.has_hash))

  -- What `_build_event` puts into a record.
  pub build_event-IsNext :
      (s : State) (b : Draft) (e : Event)
      → build_event py is_red s b ≡ ok e
      → IsNext py b.sequence b.previous e
  unfolding build_event get
  build_event-IsNext s b e h = bind-elim h λ payload _ h. bind-elim h λ unhashed _ h.
      let (read, chained) = validate_event-is_chained (some b.plan) false none _ e h in
      (
        integer-injective 1 b.sequence e.sequence read.reads_sequence,
        hash_text-injective true b.previous e.previous_event_hash read.reads_previous,
        chained,
      )

  -- A record that is built with the next sequence and the last hash of a verified journal gives a
  -- verified journal.
  pub build_event-extends :
      (es : List Event) (s : State) (b : Draft) (e : Event)
      → validate_sequence_and_hashes py es ≡ ok tt
      → b.sequence ≡ length es + 1
      → b.previous ≡ last_hash "" es
      → build_event py is_red s b ≡ ok e
      → validate_sequence_and_hashes py (es ++ (e ∷ [])) ≡ ok tt
  unfolding validate_sequence_and_hashes
  build_event-extends es s b e chain place linked built =
      let (q1, q2, q3) = build_event-IsNext s b e built in
      validate_chain-append py 1 "" es e chain (ground arith, q2 ∙ linked, q3)
