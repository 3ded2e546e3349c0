-- ===== src/Materializer/Sessions.antt =====
-- prototype/materializer.py: the handlers of the Session Events.
use ronro.Prelude.{ℕ, String, Bool, true, false, not, ◌||◌, Option, none, some, nat_eq}
use ronro.Errors.{Result, ok, revision_mismatch, invalid_transition, raise_if, ◌>>◌}
use ronro.Domain.{Session, SessionStatus, State, Event}

abbrev set_session : State → Session → State
set_session s x = record s { session = x }

abbrev pub session_status_is : SessionStatus → SessionStatus → Bool
session_status_is SessionStatus.created SessionStatus.created = true
session_status_is SessionStatus.active SessionStatus.active = true
session_status_is SessionStatus.finalizing SessionStatus.finalizing = true
session_status_is SessionStatus.ended SessionStatus.ended = true
session_status_is _ _ = false

abbrev pub is_given : Option String → Bool
is_given none = false
is_given (some _) = true

unfoldable pub session_created : State → Event → Option String → Option String → Result State
session_created s e title goal = do
  raise_if
      (is_given s.session.created_at
        || not (session_status_is s.session.status SessionStatus.created))
      invalid_transition
  ok (
      set_session s
        (record s.session { title = title; goal = goal; created_at = some e.occurred_at }))

unfoldable pub session_started : State → Event → Result State
session_started s e = do
  raise_if (not (session_status_is s.session.status SessionStatus.created)) invalid_transition
  ok (
      set_session s
        (record s.session { status = SessionStatus.active; started_at = some e.occurred_at }))

unfoldable pub session_finalizing : State → Result State
session_finalizing s = do
  raise_if (not (session_status_is s.session.status SessionStatus.active)) invalid_transition
  ok (set_session s (record s.session { status = SessionStatus.finalizing }))

unfoldable pub session_ended : State → Event → ℕ → Result State
session_ended s e final_graph_revision = do
  raise_if (not (session_status_is s.session.status SessionStatus.finalizing)) invalid_transition
  raise_if (not (nat_eq final_graph_revision s.graph.revision)) revision_mismatch
  ok (
      set_session s
        (record s.session { status = SessionStatus.ended; ended_at = some e.occurred_at }))
