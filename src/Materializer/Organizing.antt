-- ===== src/Materializer/Organizing.antt =====
-- prototype/materializer.py: the handlers that archive, merge, park and restore Nodes, update
-- Actions and set the Current Topic.
use ronro.Prelude.{
  String, Bool, true, false, not, ◌||◌, Option, none, some, [], ◌∷◌, ◌==◌, if◌then◌else◌,
}
use ronro.Errors.{
  Result, ok, err, invalid_transition, unsupported_correction, key_error, raise_if, ◌>>=◌, ◌>>◌,
}
use ronro.Domain.{
  NodeType, NodeStatus, ActionDetails, ActionChanges, TopicMode, State, Event, status_eq, type_eq,
}
use ronro.Materializer.Nodes.{
  require_node, set_topic, change_node, touch_node, clear_current_topic, is_current,
}
use ronro.Materializer.Matrix.{is_archived}
use ronro.Materializer.Rewire.{rewire_edges}
use ronro.Materializer.Sessions.{is_given}
use ronro.Materializer.Detection.{is_active_topic}

abbrev pub unfocus : State → Event → String → State
unfocus s e id = if is_current s id then clear_current_topic s e.event_id else s

unfoldable pub archive_node : State → Event → String → Result State
unfolding require_node touch_node clear_current_topic
archive_node s e id = do
  node ← require_node s id
  raise_if (is_archived node) invalid_transition
  let s' = change_node s (touch_node (record node { status = NodeStatus.archived }) e)
  ok (unfocus s' e node.id)

abbrev pub refocus : State → Event → String → String → State
refocus s e source target =
    if is_current s source
    then set_topic s record {
      primary_topic_id = some target;
      mode = TopicMode.derived;
      source_event_ids = e.event_id ∷ [];
      confidence = none;
    }
    else s

unfoldable pub merge_nodes : State → Event → String → String → Result State
unfolding require_node touch_node rewire_edges
merge_nodes s e source_id target_id = do
  source ← require_node s source_id
  target ← require_node s target_id
  raise_if (source.id == target.id) unsupported_correction
  raise_if (is_archived source || is_archived target) invalid_transition
  let s₁ = change_node s (touch_node (record source { status = NodeStatus.archived }) e)
  let s₂ = change_node s₁ (touch_node target e)
  s₃ ← rewire_edges s₂ e source.id target.id
  ok (refocus s₃ e source.id target.id)

unfoldable pub move_to_parking_lot : State → Event → String → Result State
unfolding require_node touch_node clear_current_topic
move_to_parking_lot s e id = do
  node ← require_node s id
  raise_if (type_eq node.type NodeType.decision) invalid_transition
  raise_if (is_archived node || status_eq node.status NodeStatus.parked) invalid_transition
  let s' = change_node s (touch_node (record node { status = NodeStatus.parked }) e)
  ok (unfocus s' e node.id)

unfoldable pub restore_from_parking_lot : State → Event → String → Result State
unfolding require_node touch_node
restore_from_parking_lot s e id = do
  node ← require_node s id
  raise_if (not (status_eq node.status NodeStatus.parked)) invalid_transition
  ok (change_node s (touch_node (record node { status = NodeStatus.active }) e))

abbrev pub changed {ℓ} : {A : Type ℓ} → Option A → A → A
changed none old = old
changed (some new) old = new

-- The fields of a change that is not empty are written into `node["action"]`.
abbrev pub has_changes : ActionChanges → Bool
has_changes c =
    is_given c.description
    || elim c.owner [ none ↦ false | some _ ↦ true ]
    || elim c.due_date [ none ↦ false | some _ ↦ true ]
    || elim c.status [ none ↦ false | some _ ↦ true ]

abbrev pub change_action : ActionChanges → Option ActionDetails → Result (Option ActionDetails)
change_action c (some a) = ok (
    some record {
      description = changed c.description a.description;
      owner = changed c.owner a.owner;
      due_date = changed c.due_date a.due_date;
      status = changed c.status a.status;
    })
change_action c none = if has_changes c then err key_error else ok none

unfoldable pub update_action : State → Event → String → ActionChanges → Result State
unfolding require_node touch_node
update_action s e id changes = do
  node ← require_node s id
  raise_if (not (type_eq node.type NodeType.action)) invalid_transition
  a ← change_action changes node.action
  let node' = record node { label = changed changes.description node.label; action = a }
  ok (change_node s (touch_node node' e))

unfoldable pub set_current_topic : State → Event → String → Result State
unfolding require_node touch_node
set_current_topic s e topic_id = do
  topic ← require_node s topic_id
  raise_if (not (is_active_topic topic)) invalid_transition
  ok (
      set_topic (change_node s (touch_node topic e)) record {
        primary_topic_id = some topic.id;
        mode = TopicMode.human_corrected;
        source_event_ids = e.event_id ∷ [];
        confidence = none;
      })
