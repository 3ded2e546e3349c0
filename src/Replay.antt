-- ===== src/Replay.antt =====
-- prototype/replay.py: Events applied one by one to the state that they produced so far.
-- `presentation` is not modelled: `apply_event` only passes it on.
pub mod Equivalence
pub mod Log
pub mod Runs
pub mod Order
use ronro.Prelude.{String, some, List, [], ◌∷◌, ◌++◌}
use ronro.Errors.{Result, ok, err, key_error, replay_failed, ◌>>=◌, ◌>>◌}
use ronro.Domain.{State, Event, Evidence, Utterance}
use ronro.Domain.Schema.{Formats}
use ronro.Materializer.Apply.{initial_state, apply}
use ronro.EventStore.{EventStore, from_events, validate_append, append}

pub record ReplayResult : Type 0 where
  pub state : State
  pub events : List Event

-- An exception with a code is raised again, any other becomes a ReplayError.
unfoldable pub with_code {ℓ} : {A : Type ℓ} → Result A → Result A
with_code (ok a) = ok a
with_code (err key_error) = err replay_failed
with_code (err c) = err c

-- The `try` block of `apply_event`.
unfoldable pub apply_to_store : Formats → EventStore → ReplayResult → Event → Result State
apply_to_store formats store result e = do
  let current_revision = result.state.graph.revision
  validate_append formats store e (some current_revision)
  next_state ← apply formats result.state e result.events
  store' ← append formats store e (some current_revision)
  ok next_state

unfoldable pub apply_event : Formats → ReplayResult → Event → Result ReplayResult
unfolding apply_to_store with_code
apply_event formats result e = do
  store ← from_events formats result.state.graph.session_id result.events
  next_state ← with_code (apply_to_store formats store result e)
  ok (record { state = next_state; events = result.events ++ e ∷ [] })

unfoldable pub apply_events : Formats → ReplayResult → List Event → Result ReplayResult
unfolding apply_event
apply_events formats result [] = ok result
apply_events formats result (e ∷ es) = do
  next ← apply_event formats result e
  apply_events formats next es

unfoldable pub initial_result : String → List Evidence → List Utterance → ReplayResult
unfolding initial_state
initial_result session_id evidence utterances = record {
  state = initial_state session_id evidence utterances;
  events = [];
}

unfoldable pub replay_events :
    Formats → String → List Evidence → List Utterance → List Event → Result ReplayResult
unfolding apply_events initial_result
replay_events formats session_id evidence utterances events =
    apply_events formats (initial_result session_id evidence utterances) events
