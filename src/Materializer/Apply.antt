-- ===== src/Materializer/Apply.antt =====
-- prototype/materializer.py: `initial_state`, `_validate_envelope`, `_dispatch` and `apply`.
use ronro.Prelude.{
  ℕ, ◌+◌, String, Bool, not, Option, none, some, List, [], ◌==◌, any, ltb, nat_eq, if◌then◌else◌,
}
use ronro.Errors.{
  Result, ok, err, session_mismatch, duplicate_event_id, duplicate_sequence, sequence_gap,
  revision_mismatch, missing_reference, key_error, raise_if, ◌>>=◌, ◌>>◌,
}
use ronro.Domain.{SessionStatus, Evidence, Utterance, TopicMode, State, Event, Payload, is_human}
use ronro.Domain.Schema.{Formats, validate_event}
use ronro.Materializer.Relations.{relation_detected, correct_relation}
use ronro.Materializer.Sessions.{
  session_created, session_started, session_finalizing, session_ended,
}
use ronro.Materializer.Detection.{
  node_detected, topic_focus_changed, confirm_decision, revoke_decision, resolve_open_item,
  reopen_open_item, rename_node,
}
use ronro.Materializer.Organizing.{
  archive_node, merge_nodes, move_to_parking_lot, restore_from_parking_lot, update_action,
  set_current_topic,
}
use ronro.Materializer.Undo.{undo_last_correction}

unfoldable pub initial_state : String → List Evidence → List Utterance → State
initial_state session_id evidence utterances = record {
  session = record {
    id = session_id;
    title = none;
    goal = none;
    status = SessionStatus.created;
    created_at = none;
    started_at = none;
    ended_at = none;
    graph_revision = 0;
  };
  evidence = evidence;
  utterances = utterances;
  graph = record {
    session_id = session_id;
    revision = 0;
    last_event_sequence = 0;
    nodes = [];
    edges = [];
    current_topic = record {
      primary_topic_id = none;
      mode = TopicMode.derived;
      source_event_ids = [];
      confidence = none;
    };
  };
}

abbrev pub is_expected : ℕ → Option ℕ → Result Bool
is_expected revision none = err key_error
is_expected revision (some r) = ok (nat_eq r revision)

-- `event["expected_revision"]` is read for a Human Event only.
unfoldable pub check_revision : ℕ → Event → Result (Unit {0})
check_revision revision e =
    if is_human e.actor
    then (do same ← is_expected revision e.expected_revision; raise_if (not same) revision_mismatch)
    else ok tt

-- Whether an id of the Event names no Evidence.
abbrev pub has_evidence : List Evidence → String → Bool
has_evidence evidence id = any (λ x. x.id == id) evidence

abbrev pub misses_evidence : List Evidence → List String → Bool
misses_evidence evidence ids = any (λ id. not (has_evidence evidence id)) ids

abbrev pub has_event : String → List Event → Bool
has_event id history = any (λ x. x.event_id == id) history

unfoldable pub validate_envelope : State → Event → List Event → Result (Unit {0})
unfolding check_revision
validate_envelope s e history = do
  raise_if (not (e.session_id == s.graph.session_id)) session_mismatch
  raise_if (has_event e.event_id history) duplicate_event_id
  raise_if (ltb e.sequence (s.graph.last_event_sequence + 1)) duplicate_sequence
  raise_if (ltb (s.graph.last_event_sequence + 1) e.sequence) sequence_gap
  check_revision s.graph.revision e
  raise_if (misses_evidence s.evidence e.source_evidence_ids) missing_reference

unfoldable pub dispatch : Payload → State → Event → List Event → Result State
dispatch (Payload.session_created title goal) s e h = session_created s e title goal
dispatch Payload.session_started s e h = session_started s e
dispatch (Payload.session_finalizing _) s e h = session_finalizing s
dispatch (Payload.session_ended _ final _) s e h = session_ended s e final
dispatch (Payload.node_detected type label details) s e h = node_detected s e type label details
dispatch (Payload.relation_detected r) s e h = relation_detected s e h r
dispatch (Payload.correct_relation old new _ _) s e h = correct_relation s e old new
dispatch (Payload.topic_focus_changed id confidence) s e h = topic_focus_changed s e id confidence
dispatch (Payload.confirm_decision id expected) s e h = confirm_decision s e id expected
dispatch (Payload.revoke_decision id expected) s e h = revoke_decision s e id expected
dispatch (Payload.resolve_open_item id expected) s e h = resolve_open_item s e id expected
dispatch (Payload.reopen_open_item id expected) s e h = reopen_open_item s e id expected
dispatch (Payload.rename_node id label) s e h = rename_node s e id label
dispatch (Payload.archive_node id) s e h = archive_node s e id
dispatch (Payload.merge_nodes source target) s e h = merge_nodes s e source target
dispatch (Payload.move_to_parking_lot id) s e h = move_to_parking_lot s e id
dispatch (Payload.restore_from_parking_lot id) s e h = restore_from_parking_lot s e id
dispatch (Payload.update_action id changes) s e h = update_action s e id changes
dispatch (Payload.set_current_topic id) s e h = set_current_topic s e id
dispatch (Payload.undo_last_correction id) s e h = undo_last_correction s e h id

-- The revision and the sequence that `apply` writes at its end.
unfoldable pub advance : ℕ → Event → State → State
advance next_revision e s = record s {
  session = record s.session { graph_revision = next_revision };
  graph = record s.graph { revision = next_revision; last_event_sequence = e.sequence };
}

unfoldable pub apply : Formats → State → Event → List Event → Result State
unfolding validate_envelope advance
apply formats s e history = do
  validate_event formats e
  validate_envelope s e history
  next ← dispatch e.payload s e history
  ok (advance (s.graph.revision + 1) e next)
