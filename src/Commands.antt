-- ===== src/Commands.antt =====
-- prototype/commands.py: Human Commands, the Events that `HumanCommandHandler` builds from them, and
-- the Session that executes them.
-- A field of a Command that is absent, or that is not of the type that the handler asks for, is
-- `none`.
pub mod Guards
pub mod Handling
use ronro.Prelude.{
  ℕ, ◌+◌, String, Bool, true, false, not, ◌&&◌, ◌||◌, Option, none, some, List, [], ◌∷◌, ◌==◌,
  nat_eq, leb, if◌then◌else◌,
}
use ronro.Errors.{
  Result, ok, err, command_invalid, revision_mismatch, missing_reference, invalid_transition,
  unsupported_correction, raise_if, ◌>>=◌, ◌>>◌,
}
use ronro.Domain.{
  Actor, Node, NodeType, NodeStatus, EdgeType, Evidence, State, Relation, ActionChanges, Payload,
  Event, is_human, status_eq, type_eq,
}
use ronro.Domain.Text.{◌⧺◌}
use ronro.Domain.Decimal.{six_digits, is_blank}
use ronro.Domain.Schema.{Formats}
use ronro.Materializer.Nodes.{graph_node, or_missing}
use ronro.Materializer.Matrix.{is_archived}
use ronro.Materializer.Detection.{is_active_topic}
use ronro.Materializer.Organizing.{has_changes}
use ronro.Materializer.Undo.{split_last, renamed_by}
use ronro.Replay.{ReplayResult, apply_event}

-- `relation_type` is `none` for a text that is no type of an Edge.
pub data CommandRelation : Type 0 where
  malformed : CommandRelation
  exact :
      (source_node_id target_node_id : Option String) (relation_type : Option EdgeType)
      → CommandRelation

pub data CommandType : Type 0 where
  unsupported : CommandType
  confirm_decision revoke_decision : (decision_node_id : Option String) → CommandType
  resolve_open_item reopen_open_item : (open_item_node_id : Option String) → CommandType
  rename_node : (node_id label : Option String) → CommandType
  merge_nodes : (source_node_id target_node_id : Option String) → CommandType
  move_to_parking_lot restore_from_parking_lot : (node_id : Option String) → CommandType
  update_action : (action_node_id : Option String) (changes : ActionChanges) → CommandType
  set_current_topic : (topic_id : Option String) → CommandType
  archive_node : (node_id : Option String) → CommandType
  correct_relation :
      (old_relation new_relation : Option CommandRelation) (declared_independent : Bool)
      → CommandType
  undo_last_correction : (target_event_id : Option String) → CommandType

pub record Command : Type 0 where
  pub command_type : CommandType
  pub expected_revision : Option ℕ
  pub occurred_at : Option String
  pub source_evidence_ids : List String

pub record CommandResult : Type 0 where
  pub event : Event
  pub result : ReplayResult

abbrev pub is_supported : CommandType → Bool
is_supported unsupported = false
is_supported _ = true

-- `_require_node` of the handler.
unfoldable pub require_command_node : State → Option String → Result Node
require_command_node s none = err command_invalid
require_command_node s (some id) = or_missing (graph_node s id)

abbrev pub is_status : NodeType → NodeStatus → Node → Bool
is_status type status n = type_eq n.type type && status_eq n.status status

unfoldable pub status_command :
    State → Option String → NodeType → NodeStatus → (String → NodeStatus → Payload) → Result Payload
unfolding require_command_node
status_command s id type expected payload = do
  node ← require_command_node s id
  raise_if (not (is_status type expected node)) invalid_transition
  ok (payload node.id expected)

abbrev pub require_label : Option String → Result String
require_label none = err command_invalid
require_label (some label) = if is_blank label then err command_invalid else ok label

abbrev pub is_semantic : EdgeType → Bool
is_semantic EdgeType.discussion_provenance = true
is_semantic EdgeType.supports = true
is_semantic EdgeType.opposes = true
is_semantic _ = false

abbrev pub require_semantic : Option EdgeType → Result EdgeType
require_semantic none = err command_invalid
require_semantic (some t) = if is_semantic t then ok t else err command_invalid

-- One round of `for relation in (old, new)`.
unfoldable pub require_relation : State → Option CommandRelation → Result (Option Relation)
unfolding require_command_node
require_relation s none = ok none
require_relation s (some malformed) = err command_invalid
require_relation s (some (exact source target type)) = do
  t ← require_semantic type
  n ← require_command_node s source
  k ← require_command_node s target
  ok (some (record { source_node_id = n.id; target_node_id = k.id; relation_type = t }))

-- max((item["sequence"] for item in state["evidence"]), default=0)
unfoldable pub max_sequence : List Evidence → ℕ
max_sequence [] = 0
max_sequence (x ∷ xs) =
    let rest = max_sequence xs in if leb rest x.sequence then x.sequence else rest

abbrev or_none {ℓ} : {A : Type ℓ} → Option A → Bool
or_none none = true
or_none (some _) = false

-- `_undo_payload`
abbrev targets : Option String → Event → Bool
targets none latest = true
targets (some id) latest = id == latest.event_id

unfoldable pub undo_payload : ReplayResult → Option String → Result Payload
unfolding split_last
undo_payload result target_event_id = elim (split_last result.events) [
  | none ↦ err unsupported_correction
  | some (_, latest) ↦
      raise_if (or_none (renamed_by latest)) unsupported_correction
      >> (raise_if (not (targets target_event_id latest)) unsupported_correction
          >> ok (Payload.undo_last_correction latest.event_id))
]

-- The payload that `_build_event` chooses by `command_type`.
unfoldable pub command_payload : ReplayResult → CommandType → Result Payload
unfolding status_command require_command_node require_relation max_sequence undo_payload
command_payload r unsupported = err command_invalid
command_payload r (confirm_decision id) =
    status_command r.state id NodeType.decision NodeStatus.candidate Payload.confirm_decision
command_payload r (revoke_decision id) =
    status_command r.state id NodeType.decision NodeStatus.confirmed Payload.revoke_decision
command_payload r (resolve_open_item id) =
    status_command r.state id NodeType.open_item NodeStatus.active Payload.resolve_open_item
command_payload r (reopen_open_item id) =
    status_command r.state id NodeType.open_item NodeStatus.resolved Payload.reopen_open_item
command_payload r (rename_node id label) = do
  node ← require_command_node r.state id
  raise_if (is_archived node) invalid_transition
  l ← require_label label
  ok (Payload.rename_node node.id l)
command_payload r (merge_nodes source_id target_id) = do
  source ← require_command_node r.state source_id
  target ← require_command_node r.state target_id
  raise_if (source.id == target.id) invalid_transition
  raise_if (is_archived source || is_archived target) invalid_transition
  ok (Payload.merge_nodes source.id target.id)
command_payload r (move_to_parking_lot id) = do
  node ← require_command_node r.state id
  raise_if (type_eq node.type NodeType.decision) invalid_transition
  raise_if (is_archived node || status_eq node.status NodeStatus.parked) invalid_transition
  ok (Payload.move_to_parking_lot node.id)
command_payload r (restore_from_parking_lot id) = do
  node ← require_command_node r.state id
  raise_if (not (status_eq node.status NodeStatus.parked)) invalid_transition
  ok (Payload.restore_from_parking_lot node.id)
command_payload r (update_action id changes) = do
  node ← require_command_node r.state id
  raise_if (not (type_eq node.type NodeType.action) || is_archived node) invalid_transition
  raise_if (not (has_changes changes)) command_invalid
  ok (Payload.update_action node.id changes)
command_payload r (set_current_topic id) = do
  node ← require_command_node r.state id
  raise_if (not (is_active_topic node)) invalid_transition
  ok (Payload.set_current_topic node.id)
command_payload r (archive_node id) = do
  node ← require_command_node r.state id
  raise_if (is_archived node) invalid_transition
  ok (Payload.archive_node node.id)
command_payload r (correct_relation old new declared_independent) = do
  raise_if (or_none old && or_none new) command_invalid
  o ← require_relation r.state old
  n ← require_relation r.state new
  ok (Payload.correct_relation o n (max_sequence r.state.evidence) (some declared_independent))
command_payload r (undo_last_correction target_event_id) = undo_payload r target_event_id

abbrev command_name : CommandType → String
command_name unsupported = ""
command_name (confirm_decision _) = "confirm_decision"
command_name (revoke_decision _) = "revoke_decision"
command_name (resolve_open_item _) = "resolve_open_item"
command_name (reopen_open_item _) = "reopen_open_item"
command_name (rename_node _ _) = "rename_node"
command_name (merge_nodes _ _) = "merge_nodes"
command_name (move_to_parking_lot _) = "move_to_parking_lot"
command_name (restore_from_parking_lot _) = "restore_from_parking_lot"
command_name (update_action _ _) = "update_action"
command_name (set_current_topic _) = "set_current_topic"
command_name (archive_node _) = "archive_node"
command_name (correct_relation _ _ _) = "correct_relation"
command_name (undo_last_correction _) = "undo_last_correction"

-- f"human:{session_id}:{sequence:06d}:{command_type}"
unfoldable pub human_event_id : String → ℕ → CommandType → String
unfolding six_digits
human_event_id session_id sequence type =
    "human:" ⧺ (session_id ⧺ (":" ⧺ (six_digits sequence ⧺ (":" ⧺ command_name type))))

unfoldable pub build_event : ReplayResult → Command → String → Result Event
unfolding command_payload human_event_id
build_event r command occurred_at = do
  payload ← command_payload r command.command_type
  let sequence = r.state.graph.last_event_sequence + 1
  ok record {
    event_id = human_event_id r.state.graph.session_id sequence command.command_type;
    session_id = r.state.graph.session_id;
    sequence = sequence;
    occurred_at = occurred_at;
    actor = Actor.human;
    source_evidence_ids = command.source_evidence_ids;
    expected_revision = some r.state.graph.revision;
    payload = payload;
  }

abbrev revision_is : ℕ → Option ℕ → Bool
revision_is current none = false
revision_is current (some expected) = nat_eq expected current

abbrev require_text : Option String → Result String
require_text none = err command_invalid
require_text (some text) = if text == "" then err command_invalid else ok text

unfoldable pub handle : Formats → ReplayResult → Command → Result CommandResult
unfolding build_event
handle formats r command = do
  raise_if (not (is_supported command.command_type)) command_invalid
  raise_if (not (revision_is r.state.graph.revision command.expected_revision)) revision_mismatch
  occurred_at ← require_text command.occurred_at
  event ← build_event r command occurred_at
  next ← apply_event formats r event
  ok (record { event = event; result = next })

-- `CommandSession.execute`: what it returns, and the result that the Session holds after it.
unfoldable pub execute : Formats → ReplayResult → Command → Result CommandResult × ReplayResult
unfolding handle
execute formats result command =
    let answer = handle formats result command in
    (answer, elim answer [ ok done ↦ done.result | err c ↦ result ])

unfoldable pub can_undo : ReplayResult → Bool
unfolding split_last
can_undo result = elim (split_last result.events) [
  | none ↦ false
  | some (_, latest) ↦ not (or_none (renamed_by latest))
]
