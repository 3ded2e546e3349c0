-- ===== src/EventStore.antt =====
-- prototype/store.py: the append-only Event Store of one Session.
use ronro.Prelude.{
  ℕ, ◌+◌, String, not, Option, none, some, List, [], ◌∷◌, ◌++◌, ◌==◌, length, ltb, if◌then◌else◌,
}
use ronro.Errors.{
  Result, ok, session_mismatch, duplicate_event_id, duplicate_sequence, sequence_gap, raise_if,
  ◌>>=◌, ◌>>◌,
}
use ronro.Domain.{Event}
use ronro.Domain.Schema.{Formats, validate_event}
use ronro.Materializer.Apply.{check_revision, has_event}

pub record EventStore : Type 0 where
  pub session_id : String
  pub events : List Event

unfoldable pub new_store : String → EventStore
new_store session_id = record { session_id = session_id; events = [] }

unfoldable pub last_sequence : EventStore → ℕ
last_sequence store = length store.events

abbrev revision_or : Option ℕ → ℕ → ℕ
revision_or none last = last
revision_or (some revision) last = revision

-- `current_revision` is `none` where the caller gives none.
unfoldable pub validate_append : Formats → EventStore → Event → Option ℕ → Result (Unit {0})
unfolding last_sequence
validate_append formats store e current_revision = do
  validate_event formats e
  raise_if (not (e.session_id == store.session_id)) session_mismatch
  raise_if (has_event e.event_id store.events) duplicate_event_id
  raise_if (ltb e.sequence (last_sequence store + 1)) duplicate_sequence
  raise_if (ltb (last_sequence store + 1) e.sequence) sequence_gap
  check_revision (revision_or current_revision (last_sequence store)) e

unfoldable pub append : Formats → EventStore → Event → Option ℕ → Result EventStore
unfolding validate_append
append formats store e current_revision = do
  validate_append formats store e current_revision
  ok (record store { events = store.events ++ e ∷ [] })

-- The loop of `from_events`.
unfoldable pub append_events : Formats → EventStore → List Event → Result EventStore
unfolding append
append_events formats store [] = ok store
append_events formats store (e ∷ es) = do
  store' ← append formats store e (some (length store.events))
  append_events formats store' es

unfoldable pub from_events : Formats → String → List Event → Result EventStore
unfolding append_events new_store
from_events formats session_id events = append_events formats (new_store session_id) events

abbrev requested : Option String → String → String
requested none session_id = session_id
requested (some id) _ = id

unfoldable pub get_events : EventStore → Option String → List Event
get_events store session_id =
    if requested session_id store.session_id == store.session_id then store.events else []

unfoldable pub replay_order : EventStore → List Event
unfolding get_events
replay_order store = get_events store none
