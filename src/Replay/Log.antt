-- ===== src/Replay/Log.antt =====
-- The results of a replay: the state is well-formed, the revision is the number of Events, and the
-- Event Store takes the Events again.
use ronro.Prelude.{◌≡◌, ◌≢◌, refl, sym, ap, ◌∙◌, some, List, [], ◌∷◌, ◌++◌, length, fun_ext}
use ronro.Errors.{Result, ok, err, key_error, ◌>>=◌, >>=_assoc}
use ronro.Domain.{State, Event}
use ronro.Domain.Schema.{Formats}
use ronro.Materializer.Apply.{apply}
use ronro.EventStore.{EventStore, append, append_events, from_events}
use ronro.Replay.{ReplayResult, with_code, apply_event}
use ronro.Replay.Equivalence.{apply_to_store_lem}
use ronro.Invariant.{IsWellFormed}
use ronro.Invariant.Apply.{apply-ne-key_error}

abbrev pub store_of : ReplayResult → EventStore
store_of r = record { session_id = r.state.graph.session_id; events = r.events }

pub record IsReplayed (formats : Formats) (r : ReplayResult) : Type 0 where
  pub well_formed : IsWellFormed r.state
  pub counted : r.state.graph.revision ≡ length r.events
  pub stored : from_events formats r.state.graph.session_id r.events ≡ ok (store_of r)

module _ (formats : Formats) where
  pub append_events-append :
      (store : EventStore) (es : List Event) (e : Event)
      → append_events formats store (es ++ e ∷ [])
        ≡ (append_events formats store es >>= λ after. append_events formats after (e ∷ []))
  unfolding append_events
  append_events-append store [] e = unfold ◌>>=◌ in refl
  append_events-append store (x ∷ es) e =
      ap (λ f. append formats store x (some (length store.events)) >>= f)
        (fun_ext (λ after. append_events-append after es e))
      ∙ sym (
          >>=_assoc (append formats store x (some (length store.events)))
            (λ after. append_events formats after es)
            (λ after. append_events formats after (e ∷ [])))

  with_code-ne : (r : Result State) → r ≢ err key_error → with_code r ≡ r
  unfolding with_code
  with_code-ne (ok s) n = refl
  with_code-ne (err key_error) n = absurd (n refl)
  with_code-ne (err c) n = refl

  module _ (r : ReplayResult) (e : Event) (inv : IsReplayed formats r) where
    abbrev applied : Result State
    applied = apply formats r.state e r.events

    in_step : r.state.graph.last_event_sequence ≡ length r.events
    in_step = inv.well_formed.same_sequence ∙ inv.counted

    -- On a replayed result, `apply_event` is the Materializer's `apply`: the Events are always taken
    -- back into the Event Store, its checks reject nothing that the Materializer accepts, an error
    -- has the Materializer's code, and no error is turned into a ReplayError.
    pub apply_event_lem :
        apply_event formats r e
        ≡ (applied >>= λ next. ok (record { state = next; events = r.events ++ e ∷ [] }))
    unfolding apply_event
    apply_event_lem = rw inv.stored (
        unfold ◌>>=◌ in
        rw (apply_to_store_lem formats (store_of r) r e refl refl in_step) (
          rw (with_code-ne applied (apply-ne-key_error formats r.state e r.events inv.well_formed))
            refl))
