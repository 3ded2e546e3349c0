-- ===== src/Materializer/Detection.antt =====
-- prototype/materializer.py: the handlers that add a Node, move the focus, and change the status
-- or the label of one Node.
use ronro.Prelude.{
  String, Bool, true, false, not, ◌&&◌, Option, none, some, [], ◌∷◌, ◌++◌, if◌then◌else◌,
}
use ronro.Errors.{
  Result, ok, err, duplicate_event_id, invalid_transition, key_error, raise_if, ◌>>=◌, ◌>>◌,
}
use ronro.Domain.{
  Node, NodeType, NodeStatus, ActionDetails, ActionStatus, ActionDetected, TopicMode, State, Event,
  status_eq, type_eq,
}
use ronro.Domain.Text.{◌⧺◌}
use ronro.Materializer.Nodes.{
  graph_node, require_node, set_nodes, set_topic, change_node, touch_node,
}
use ronro.Materializer.Matrix.{is_archived}

-- f"node:{session_id}:{event_id}"
unfoldable pub node_id : String → String → String
node_id session_id event_id = "node:" ⧺ (session_id ⧺ (":" ⧺ event_id))

abbrev pub initial_status : NodeType → NodeStatus
initial_status NodeType.decision = NodeStatus.candidate
initial_status _ = NodeStatus.active

-- `payload["action"]` is read for an Action only, and its absence is a KeyError.
abbrev pub initial_action :
    NodeType → String → Option ActionDetected → Result (Option ActionDetails)
initial_action NodeType.action label none = err key_error
initial_action NodeType.action label (some d) = ok (
    some record {
      description = label;
      owner = d.owner;
      due_date = d.due_date;
      status = ActionStatus.opened;
    })
initial_action _ label d = ok none

abbrev pub is_found : Option Node → Bool
is_found none = false
is_found (some _) = true

unfoldable pub node_detected :
    State → Event → NodeType → String → Option ActionDetected → Result State
unfolding node_id
node_detected s e type label details = do
  raise_if (is_found (graph_node s (node_id e.session_id e.event_id))) duplicate_event_id
  action ← initial_action type label details
  let node : Node = record {
    id = node_id e.session_id e.event_id;
    session_id = e.session_id;
    type = type;
    label = label;
    status = initial_status type;
    created_at = e.occurred_at;
    updated_at = e.occurred_at;
    source_event_ids = e.event_id ∷ [];
    evidence_ids = e.source_evidence_ids;
    action = action;
  }
  ok (set_nodes s (s.graph.nodes ++ node ∷ []))

abbrev pub is_active_topic : Node → Bool
is_active_topic n = type_eq n.type NodeType.topic && status_eq n.status NodeStatus.active

unfoldable pub topic_focus_changed : State → Event → String → Option String → Result State
unfolding require_node
topic_focus_changed s e topic_id confidence = do
  topic ← require_node s topic_id
  raise_if (not (is_active_topic topic)) invalid_transition
  ok (
      set_topic s record {
        primary_topic_id = some topic.id;
        mode = TopicMode.derived;
        source_event_ids = e.event_id ∷ [];
        confidence = confidence;
      })

-- `_confirm_decision`, `_revoke_decision`, `_resolve_open_item` and `_reopen_open_item`: a Node of
-- one type goes from one status to another, if the Event names the first.
unfoldable pub change_status :
    State → Event → String → NodeType → NodeStatus → NodeStatus → NodeStatus → Result State
unfolding require_node touch_node
change_status s e id type from expected to = do
  node ← require_node s id
  raise_if (not (type_eq node.type type && status_eq node.status from)) invalid_transition
  raise_if (not (status_eq expected node.status)) invalid_transition
  ok (change_node s (touch_node (record node { status = to }) e))

unfoldable pub confirm_decision : State → Event → String → NodeStatus → Result State
unfolding change_status
confirm_decision s e id expected =
    change_status s e id NodeType.decision NodeStatus.candidate expected NodeStatus.confirmed

unfoldable pub revoke_decision : State → Event → String → NodeStatus → Result State
unfolding change_status
revoke_decision s e id expected =
    change_status s e id NodeType.decision NodeStatus.confirmed expected NodeStatus.revoked

unfoldable pub resolve_open_item : State → Event → String → NodeStatus → Result State
unfolding change_status
resolve_open_item s e id expected =
    change_status s e id NodeType.open_item NodeStatus.active expected NodeStatus.resolved

unfoldable pub reopen_open_item : State → Event → String → NodeStatus → Result State
unfolding change_status
reopen_open_item s e id expected =
    change_status s e id NodeType.open_item NodeStatus.resolved expected NodeStatus.active

-- `node["action"]["description"] = label` of a Node that may have no "action".
abbrev pub describe : String → Option ActionDetails → Result (Option ActionDetails)
describe label none = err key_error
describe label (some a) = ok (some (record a { description = label }))

-- The label, and the description too if the Node is an Action.
unfoldable pub relabel : Node → String → Result Node
relabel n label =
    if type_eq n.type NodeType.action
    then (do a ← describe label n.action; ok (record n { label = label; action = a }))
    else ok (record n { label = label })

unfoldable pub rename_node : State → Event → String → String → Result State
unfolding require_node relabel touch_node
rename_node s e id label = do
  node ← require_node s id
  raise_if (is_archived node) invalid_transition
  node' ← relabel node label
  ok (change_node s (touch_node node' e))
