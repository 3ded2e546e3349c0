-- ===== src/Tests.antt =====
-- A small Session that the tests and the witnesses replay.
pub mod Witnesses
pub mod Live
pub mod Turns
pub mod Service
use ronro.Prelude.{
  ℕ, ◌-◌, String, ◌≡◌, refl, Bool, true, false, Option, none, some, List, [], ◌∷◌, ◌++◌, length,
  map,
}
use ronro.Errors.{Result, ok, err, raise_if, ◌>>=◌, ◌>>◌, human_correction_preserved}
use ronro.Domain.{
  Actor, Relation, Node, NodeType, NodeStatus, Edge, EdgeType, Evidence, State, Payload, Event,
  is_human,
}
use ronro.Domain.Schema.{Formats, validate_event}
use ronro.Materializer.Nodes.{find_node}
use ronro.Materializer.Apply.{apply, dispatch, initial_state}
use ronro.Materializer.Provenance.{has_provenance_cycle, provenance_reaches, reach_loop, children}
use ronro.Materializer.Relations.{
  relation_detected, correct_relation, evidence_sequence, last_removal, remove_edge,
}
use ronro.EventStore.{from_events}
use ronro.Materializer.Sessions.{
  session_created, session_started, session_finalizing, session_ended,
}
use ronro.Materializer.Detection.{
  node_detected, topic_focus_changed, confirm_decision, revoke_decision, resolve_open_item,
  reopen_open_item, rename_node,
}
use ronro.Materializer.Organizing.{
  merge_nodes, archive_node, move_to_parking_lot, restore_from_parking_lot, update_action,
  set_current_topic,
}
use ronro.Materializer.Undo.{undo_last_correction}
use ronro.Replay.{ReplayResult, apply_event, apply_events, initial_result, replay_events}
use ronro.Commands.{Command, CommandType, handle, execute, build_event}

-- Formats that accept every text.
abbrev pub lenient : Formats
lenient = record { date_time = λ _. true; date = λ _. true; confidence = λ _. true }

abbrev pub evidence : List Evidence
evidence =
    record { id = "ev-1"; session_id = "s"; sequence = 1 }
    ∷ record { id = "ev-2"; session_id = "s"; sequence = 2 }
    ∷ []

abbrev pub system_event : String → ℕ → Payload → Event
system_event id n p = record {
  event_id = id;
  session_id = "s";
  sequence = n;
  occurred_at = "2026-01-01T00:00:00Z";
  actor = Actor.system;
  source_evidence_ids = [];
  expected_revision = none;
  payload = p;
}

abbrev pub analyzer_event : String → ℕ → Payload → Event
analyzer_event id n p = record (system_event id n p) {
  actor = Actor.analyzer;
  source_evidence_ids = "ev-1" ∷ [];
}

abbrev pub human_event : String → ℕ → Payload → Event
human_event id n p = record (system_event id n p) {
  actor = Actor.human;
  expected_revision = some (n - 1);
}

abbrev pub relation : String → String → Payload
relation a b = Payload.relation_detected record {
  source_node_id = a;
  target_node_id = b;
  relation_type = EdgeType.discussion_provenance;
}

abbrev pub events : List Event
events =
    system_event "e-1" 1 (Payload.session_created (some "Weekly") none)
    ∷ system_event "e-2" 2 Payload.session_started
    ∷ analyzer_event "e-3" 3 (Payload.node_detected NodeType.topic "Release" none)
    ∷ analyzer_event "e-4" 4 (Payload.node_detected NodeType.decision "Ship it" none)
    ∷ analyzer_event "e-5" 5 (Payload.node_detected NodeType.idea "Ship on Monday" none)
    ∷ analyzer_event "e-6" 6 (relation "node:s:e-5" "node:s:e-4")
    ∷ []

abbrev pub or_start : Result ReplayResult → ReplayResult
or_start (ok r) = r
or_start (err c) = initial_result "s" evidence []

abbrev pub replayed : ReplayResult
replayed = or_start (replay_events lenient "s" evidence [] events)

abbrev pub confirm : Event
confirm = human_event "e-7" 7 (Payload.confirm_decision "node:s:e-4" NodeStatus.candidate)

abbrev pub support : Relation
support = record {
  source_node_id = "node:s:e-5";
  target_node_id = "node:s:e-4";
  relation_type = EdgeType.discussion_provenance;
}

-- A Human removes the Relation, when only ev-1 was there.
abbrev pub removal : Event
removal = human_event "e-7" 7 (Payload.correct_relation (some support) none 1 none)

-- The Analyzer detects the Relation again, from ev-2.
abbrev pub again : Event
again = record (analyzer_event "e-8" 8 (Payload.relation_detected support)) {
  source_evidence_ids = "ev-2" ∷ [];
}

-- The same from ev-1.
abbrev pub stale : Event
stale = analyzer_event "e-8" 8 (Payload.relation_detected support)

-- The definitions that a run of the program unfolds.
unfoldable pub program : Unit {0}
unfolding ◌>>=◌ ◌>>◌ raise_if validate_event from_events replay_events apply_event apply dispatch
    provenance_reaches reach_loop children has_provenance_cycle last_removal evidence_sequence
    remove_edge session_created session_started session_finalizing session_ended node_detected
    relation_detected correct_relation topic_focus_changed confirm_decision revoke_decision
    resolve_open_item reopen_open_item rename_node archive_node merge_nodes move_to_parking_lot
    restore_from_parking_lot update_action set_current_topic undo_last_correction handle execute
program = tt

pub replayed_ok : replay_events lenient "s" evidence [] events ≡ ok replayed
unfolding program
replayed_ok = refl

replay_counts : replayed.state.graph.revision ≡ 6
unfolding program
replay_counts = refl

abbrev pub corrected : ReplayResult
corrected = or_start (apply_event lenient replayed removal)

stale_refused : apply_event lenient corrected stale ≡ err human_correction_preserved
unfolding program
stale_refused = refl

abbrev label_of : Option Node → String
label_of none = ""
label_of (some n) = n.label

-- The Topic "Release" is renamed to B, the rename is undone, and a rename to C is undone: the label
-- before the last rename was "Release".
abbrev undone : ReplayResult
undone = or_start (
    apply_events lenient replayed (
      human_event "e-7" 7 (Payload.rename_node "node:s:e-3" "B")
      ∷ human_event "e-8" 8 (Payload.undo_last_correction "e-7")
      ∷ human_event "e-9" 9 (Payload.rename_node "node:s:e-3" "C")
      ∷ human_event "e-10" 10 (Payload.undo_last_correction "e-9")
      ∷ []))

undo_skips_undo : label_of (find_node "node:s:e-3" undone.state.graph.nodes) ≡ "B"
unfolding program
undo_skips_undo = refl
