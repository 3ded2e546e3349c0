-- ===== src/Replay/Equivalence.antt =====
-- `apply_event` checks an Event in the Event Store and again in the Materializer. On a result of a
-- replay the two agree, so the checks in the Event Store change nothing.
use ronro.Prelude.{
  ℕ, ◌+◌, String, ◌≡◌, refl, sym, ◌∙◌, not, some, List, [], ◌∷◌, ◌++◌, ◌==◌, length, ltb,
}
use ronro.Errors.{
  Code, Result, ok, err, raise_if, ◌>>=◌, ◌>>◌, >>_assoc, >>=_ok, session_mismatch,
  duplicate_event_id, duplicate_sequence, sequence_gap, missing_reference,
}
use ronro.Domain.{State, Event}
use ronro.Domain.Schema.{Formats, validate_event}
use ronro.Materializer.Apply.{check_revision, has_event, misses_evidence, validate_envelope, apply}
use ronro.EventStore.{EventStore, validate_append, append}
use ronro.Replay.{ReplayResult, apply_to_store}

-- The checks that both make, over what they read.
abbrev checks : String → List Event → ℕ → ℕ → Event → Result (Unit {0})
checks session_id history last revision e = do
  raise_if (not (e.session_id == session_id)) session_mismatch
  raise_if (has_event e.event_id history) duplicate_event_id
  raise_if (ltb e.sequence (last + 1)) duplicate_sequence
  raise_if (ltb (last + 1) e.sequence) sequence_gap
  check_revision revision e

envelope-checks :
    (s : State) (e : Event) (history : List Event)
    → validate_envelope s e history ≡ (
        checks s.graph.session_id history s.graph.last_event_sequence s.graph.revision e
        >> raise_if (misses_evidence s.evidence e.source_evidence_ids) missing_reference)
unfolding validate_envelope
envelope-checks s e history = simp >>_assoc

-- An error of the common checks is the error of the whole.
checks_fail {ℓ} :
    {A : Type ℓ} (v c evidence : Result (Unit {0})) (rest : Result A) (code : Code)
    → (v >> c) ≡ err code
    → (v >> ((c >> evidence) >> rest)) ≡ err code
unfolding ◌>>◌
checks_fail (ok u) (ok w) evidence rest code h = cc
checks_fail (ok u) (err d) evidence rest code h = cc
checks_fail (err d) c evidence rest code h = cc

module _ (formats : Formats) (store : EventStore) (result : ReplayResult) (e : Event)
    (same_session : store.session_id ≡ result.state.graph.session_id)
    (same_events : store.events ≡ result.events)
    (same_sequence : result.state.graph.last_event_sequence ≡ length result.events) where
  abbrev revision : ℕ
  revision = result.state.graph.revision

  store-checks : validate_append formats store e (some revision) ≡ (
      validate_event formats e
      >> checks result.state.graph.session_id result.events result.state.graph.last_event_sequence
          revision e)
  unfolding validate_append
  store-checks = rw (same_session, same_events, same_sequence) refl

  -- Where the Event Store rejects an Event, the Materializer rejects it with the same code.
  rejected_by_both :
      (code : Code)
      → validate_append formats store e (some revision) ≡ err code
      → apply formats result.state e result.events ≡ err code
  unfolding apply
  rejected_by_both code h =
      rw (envelope-checks result.state e result.events)
        (checks_fail (validate_event formats e) _ _ _ code (sym store-checks ∙ h))

  -- Where the Materializer accepts an Event, the Event Store does.
  pub accepted_by_both :
      (next : State)
      → apply formats result.state e result.events ≡ ok next
      → validate_append formats store e (some revision) ≡ ok tt
  accepted_by_both next h = go (validate_append formats store e (some revision)) refl
    where
      go :
          (r : Result (Unit {0}))
          → validate_append formats store e (some revision) ≡ r
          → validate_append formats store e (some revision) ≡ ok tt
      go (ok tt) q = q
      go (err c) q = let p = rejected_by_both c q in cc

  pub apply_to_store_lem :
      apply_to_store formats store result e ≡ apply formats result.state e result.events
  unfolding apply_to_store append
  apply_to_store_lem = go (validate_append formats store e (some revision)) refl
    where
      go :
          (r : Result (Unit {0}))
          → validate_append formats store e (some revision) ≡ r
          → (validate_append formats store e (some revision)
              >> (apply formats result.state e result.events >>= λ next.
                  ((validate_append formats store e (some revision)
                      >> ok (record store { events = store.events ++ e ∷ [] }))
                    >>= λ _. ok next)))
            ≡ apply formats result.state e result.events
      go (ok tt) h =
          simp h (unfold ◌>>◌ ◌>>=◌ in >>=_ok (apply formats result.state e result.events))
      go (err c) h = simp h (unfold ◌>>◌ in sym (rejected_by_both c h))
