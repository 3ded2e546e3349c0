-- ===== src/Lifecycle.antt =====
-- How an Event may change a Node: a table of the transitions in
-- docs/architecture/discussion-event-catalog.md that does not mention the handlers of
-- prototype/materializer.py. Parking is as the code has it: from any status but archived.
pub mod Nodes
pub mod Steps
pub mod Organizing
pub mod Moves
pub mod Frame
pub mod Decisions
pub mod Corrections
use ronro.Prelude.{
  String, ◌≡◌, Bool, true, false, not, ◌&&◌, ◌||◌, Option, some, ◌==◌, if◌then◌else◌,
}
use ronro.Domain.Text.{◌⧺◌}
use ronro.Domain.{Event, Node, NodeType, NodeStatus, Payload, status_eq, type_eq, ActionChanges}

-- Whether an Event may take the Node with this id from one status to another.
abbrev pub may_move : String → NodeStatus → Payload → NodeStatus → Bool
may_move id a (Payload.confirm_decision i _) b =
    status_eq a b
    || ((i == id) && status_eq a NodeStatus.candidate && status_eq b NodeStatus.confirmed)
may_move id a (Payload.revoke_decision i _) b =
    status_eq a b
    || ((i == id) && status_eq a NodeStatus.confirmed && status_eq b NodeStatus.revoked)
may_move id a (Payload.resolve_open_item i _) b =
    status_eq a b || ((i == id) && status_eq a NodeStatus.active && status_eq b NodeStatus.resolved)
may_move id a (Payload.reopen_open_item i _) b =
    status_eq a b || ((i == id) && status_eq a NodeStatus.resolved && status_eq b NodeStatus.active)
may_move id a (Payload.archive_node i) b =
    status_eq a b || ((i == id) && status_eq b NodeStatus.archived)
may_move id a (Payload.merge_nodes source _) b =
    status_eq a b || ((source == id) && status_eq b NodeStatus.archived)
may_move id a (Payload.move_to_parking_lot i) b =
    status_eq a b
    || ((i == id) && not (status_eq a NodeStatus.archived) && status_eq b NodeStatus.parked)
may_move id a (Payload.restore_from_parking_lot i) b =
    status_eq a b || ((i == id) && status_eq a NodeStatus.parked && status_eq b NodeStatus.active)
may_move id a _ b = status_eq a b

-- Whether an Event may give the Node with this id another label.
abbrev pub may_relabel : String → Payload → Bool
may_relabel id (Payload.rename_node i _) = i == id
may_relabel id (Payload.update_action i _) = i == id
may_relabel id (Payload.undo_last_correction _) = true
may_relabel id _ = false

-- A Node before an Event and after it.
pub record IsMoved (id : String) (p : Payload) (n m : Node) : Type 0 where
  pub type : m.type ≡ n.type
  pub status : may_move id n.status p m.status ≡ true
  pub label : may_relabel id p ≡ false → m.label ≡ n.label

-- Whether an Event may leave a new Node like this one: only a detection does, and only the Node that
-- has the Event's own id, with the type and the label that the Event gives; a Decision starts as a
-- candidate, any other Node as active.
abbrev pub may_appear : Event → Payload → Node → Bool
may_appear e (Payload.node_detected type label _) m =
    (m.id == ("node:" ⧺ (e.session_id ⧺ (":" ⧺ e.event_id))))
    && (m.label == label)
    && type_eq m.type type
    && (if type_eq type NodeType.decision
        then status_eq m.status NodeStatus.candidate
        else status_eq m.status NodeStatus.active)
may_appear e _ m = false
