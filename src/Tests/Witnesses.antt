-- ===== src/Tests/Witnesses.antt =====
-- The theorems at the Session of the tests.
use ronro.Prelude.{
  ◌+◌, String, ◌≡◌, ◌≢◌, ◌↔◌, ◌⊎◌, refl, Bool, length, true, false, Option, none, some, List, [],
  ◌∷◌, ◌++◌,
}
use ronro.Errors.{ok, err, key_error, ◌>>=◌}
use ronro.Errors.Returns.{Returns}
use ronro.Domain.{Actor, Node, NodeType, NodeStatus, Edge, Payload, Event}
use ronro.Domain.Decimal.{is_blank}
use ronro.Domain.Schema.{valid_event}
use ronro.Materializer.Nodes.{find_node}
use ronro.Materializer.Apply.{apply, has_event}
use ronro.Materializer.Provenance.{
  reach_loop, provenance_reaches, out_of_fuel, cycle_search, has_provenance_cycle,
}
use ronro.Materializer.Provenance.Links.{
  Leads, IsOnCycle, provenance_reaches-Decides, has_provenance_cycle-Decides,
}
use ronro.Invariant.{IsWellFormed}
use ronro.Invariant.Apply.{apply-IsWellFormed, apply-ne-key_error}
use ronro.Lifecycle.Nodes.{NodesMoved}
use ronro.Lifecycle.Moves.{apply-NodesMoved}
use ronro.Lifecycle.Decisions.{IsConfirmation, apply-confirms}
use ronro.Lifecycle.Corrections.{IsLater, apply-IsLater}
use ronro.Lifecycle.Frame.{IsAdvanced, apply-IsAdvanced}
use ronro.Replay.{ReplayResult, apply_event, replay_events}
use ronro.Replay.Log.{IsReplayed, apply_event_lem}
use ronro.Replay.Order.{IsLog, replay_events-IsLog}
use ronro.Replay.Runs.{replay_events-IsReplayed, replay_events-again}
use ronro.Commands.{Command, CommandType, build_event, execute}
use ronro.Commands.Handling.{apply_event-Returns, IsExecuted, execute-IsExecuted}
use ronro.Tests.{
  lenient, evidence, events, replayed, replayed_ok, confirm, or_start, program, system_event,
  support, removal, again, corrected,
}

abbrev confirmed : ReplayResult
confirmed = or_start (apply_event lenient replayed confirm)

replayed_inv : IsReplayed lenient replayed
replayed_inv = replay_events-IsReplayed lenient "s" evidence [] events replayed replayed_ok

confirmed_ok : apply lenient replayed.state confirm replayed.events ≡ ok confirmed.state
unfolding program
confirmed_ok = refl

apply-IsWellFormed_example : IsWellFormed confirmed.state
apply-IsWellFormed_example =
    apply-IsWellFormed lenient replayed.state confirm replayed.events confirmed.state
      replayed_inv.well_formed confirmed_ok

apply-NodesMoved_example :
    NodesMoved confirm confirm.payload replayed.state.graph.nodes confirmed.state.graph.nodes
apply-NodesMoved_example =
    apply-NodesMoved lenient replayed.state confirm replayed.events confirmed.state confirmed_ok

abbrev empty_node : Node
empty_node = record {
  id = "";
  session_id = "";
  type = NodeType.topic;
  label = "";
  status = NodeStatus.active;
  created_at = "";
  updated_at = "";
  source_event_ids = [];
  evidence_ids = [];
  action = none;
}

abbrev node_or_empty : Option Node → Node
node_or_empty none = empty_node
node_or_empty (some n) = n

abbrev decision : Node
decision = node_or_empty (find_node "node:s:e-4" confirmed.state.graph.nodes)

decision_found : find_node "node:s:e-4" confirmed.state.graph.nodes ≡ some decision
unfolding program
decision_found = refl

decision_confirmed : decision.status ≡ NodeStatus.confirmed
unfolding program
decision_confirmed = refl

apply-confirms_example :
    (n : Node) × (find_node "node:s:e-4" replayed.state.graph.nodes ≡ some n)
    × ((n.status ≡ NodeStatus.confirmed)
        ⊎ ((n.status ≡ NodeStatus.candidate) × IsConfirmation "node:s:e-4" confirm))
apply-confirms_example =
    apply-confirms lenient replayed.state confirm replayed.events confirmed.state "node:s:e-4"
      decision confirmed_ok decision_found decision_confirmed

apply_event_lem_example : apply_event lenient replayed confirm ≡ (
    apply lenient replayed.state confirm replayed.events >>= λ next.
    ok (record { state = next; events = replayed.events ++ confirm ∷ [] }))
apply_event_lem_example = apply_event_lem lenient replayed confirm replayed_inv

replay_events-IsReplayed_example : IsReplayed lenient replayed
replay_events-IsReplayed_example =
    replay_events-IsReplayed lenient "s" evidence [] events replayed replayed_ok

replay_events-IsLog_example : (replayed.events ≡ events) × IsLog "s" events
replay_events-IsLog_example =
    replay_events-IsLog lenient "s" evidence [] events replayed replayed_ok

replay_events-again_example :
    replay_events lenient replayed.state.session.id replayed.state.evidence
      replayed.state.utterances replayed.events
    ≡ ok replayed
replay_events-again_example =
    replay_events-again lenient "s" evidence [] events replayed replayed_ok

abbrev edges : List Edge
edges = replayed.state.graph.edges

has_provenance_cycle-Decides_example :
    (cycle_search edges ≢ out_of_fuel)
    × (has_provenance_cycle edges ≡ true → (a : String) × IsOnCycle edges a)
    × (has_provenance_cycle edges ≡ false ↔ ((a : String) → ¬ IsOnCycle edges a))
has_provenance_cycle-Decides_example = has_provenance_cycle-Decides edges

provenance_reaches-Decides_example :
    (b : Bool) × (reach_loop edges "node:s:e-4" (length edges + 2) ("node:s:e-5" ∷ []) [] ≡ some b)
    × (provenance_reaches edges "node:s:e-5" "node:s:e-4" ≡ b)
    × (b ≡ true ↔ Leads edges "node:s:e-4" "node:s:e-5")
provenance_reaches-Decides_example = provenance_reaches-Decides edges "node:s:e-5" "node:s:e-4"

apply-ne-key_error_example : apply lenient replayed.state confirm replayed.events ≢ err key_error
apply-ne-key_error_example =
    apply-ne-key_error lenient replayed.state confirm replayed.events replayed_inv.well_formed

apply-IsAdvanced_example : IsAdvanced replayed.state confirmed.state confirm
apply-IsAdvanced_example =
    apply-IsAdvanced lenient replayed.state confirm replayed.events confirmed.state confirmed_ok

-- A Command that renames the Topic.
abbrev rename : Command
rename = record {
  command_type = CommandType.rename_node (some "node:s:e-3") (some "Release 2");
  expected_revision = some 6;
  occurred_at = some "2026-01-01T00:01:00Z";
  source_evidence_ids = [];
}

abbrev renaming : Event
renaming =
    record (system_event "human:s:000007:rename_node" 7
      (Payload.rename_node "node:s:e-3" "Release 2")) {
        occurred_at = "2026-01-01T00:01:00Z";
        actor = Actor.human;
        expected_revision = some 6;
      }

renaming_built : build_event replayed rename "2026-01-01T00:01:00Z" ≡ ok renaming
unfolding program build_event is_blank
renaming_built = refl

renaming_valid : valid_event lenient renaming ≡ true
unfolding valid_event
renaming_valid = refl

renaming_new : has_event renaming.event_id replayed.events ≡ false
unfolding program
renaming_new = refl

apply_event-Returns_example : Returns (apply_event lenient replayed renaming)
apply_event-Returns_example =
    apply_event-Returns lenient replayed rename "2026-01-01T00:01:00Z" renaming replayed_inv
      renaming_built refl renaming_valid renaming_new refl

execute-IsExecuted_example :
    IsExecuted lenient replayed rename
      (execute lenient replayed rename).0
      (execute lenient replayed rename).1
execute-IsExecuted_example = execute-IsExecuted lenient replayed rename replayed_inv

abbrev restored : ReplayResult
restored = or_start (apply_event lenient corrected again)

restored_ok :
    apply lenient corrected.state again (replayed.events ++ removal ∷ []) ≡ ok restored.state
unfolding program
restored_ok = refl

apply-IsLater_example : IsLater 1 corrected.state.evidence ("ev-2" ∷ [])
apply-IsLater_example =
    apply-IsLater lenient corrected.state again replayed.events [] removal support none 1 none
      restored.state refl refl refl restored_ok
