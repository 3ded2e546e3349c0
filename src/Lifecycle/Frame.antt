-- ===== src/Lifecycle/Frame.antt =====
-- What no handler touches: the Evidence, the Utterances and the ids of the Session.
use ronro.Prelude.{◌+◌, String, ◌≡◌, refl, ◌∙◌, Option, none, some, List, Bool-cases, inl, inr}
use ronro.Errors.{Result, ok}
use ronro.Errors.Ensures.{Ensures, Ensures-ok, Ensures-bind, Ensures-then, Ensures-raise_if}
use ronro.Domain.{
  Node, NodeType, NodeStatus, State, Evidence, Utterance, Event, Payload, Relation, Edge,
}
use ronro.Domain.Schema.{Formats}
use ronro.Materializer.Nodes.{touch_node, clear_current_topic, is_current, change_node}
use ronro.Materializer.Relations.{
  relation_detected, add_detected, correct_relation, remove_old, add_new,
}
use ronro.Materializer.Rewire.{rewire_edges}
use ronro.Materializer.Sessions.{
  session_created, session_started, session_finalizing, session_ended,
}
use ronro.Materializer.Detection.{
  node_detected, topic_focus_changed, change_status, confirm_decision, revoke_decision,
  resolve_open_item, reopen_open_item, rename_node,
}
use ronro.Materializer.Organizing.{
  archive_node, merge_nodes, move_to_parking_lot, restore_from_parking_lot, update_action,
  set_current_topic, unfocus, refocus,
}
use ronro.Materializer.Undo.{undo_last_correction}
use ronro.Materializer.Apply.{dispatch, advance, apply}

-- What an Event leaves alone.
pub record Frame : Type 0 where
  pub evidence : List Evidence
  pub utterances : List Utterance
  pub graph_session : String
  pub session_id : String

abbrev pub frame_of : State → Frame
frame_of s = record {
  evidence = s.evidence;
  utterances = s.utterances;
  graph_session = s.graph.session_id;
  session_id = s.session.id;
}

abbrev pub IsFramed : State → State → Type 0
IsFramed s t = frame_of t ≡ frame_of s

abbrev Frames : State → Result State → Type 0
Frames s = Ensures (IsFramed s)

module _ (s : State) (e : Event) where
  unfocus-IsFramed : (id : String) → IsFramed s (unfocus s e id)
  unfolding clear_current_topic
  unfocus-IsFramed id = elim (Bool-cases (is_current s id)) [
    | inl current ↦ rw current refl
    | inr other ↦ rw other refl
  ]

  refocus-IsFramed : (a b : String) → IsFramed s (refocus s e a b)
  refocus-IsFramed a b = elim (Bool-cases (is_current s a)) [
    | inl current ↦ rw current refl
    | inr other ↦ rw other refl
  ]

  change_status-Frames :
      (id : String) (type : NodeType) (from x to : NodeStatus)
      → Frames s (change_status s e id type from x to)
  unfolding change_status
  change_status-Frames id type from x to =
      Ensures-bind _ _
        λ n _. Ensures-raise_if _ _ _ λ _. Ensures-raise_if _ _ _ λ _. Ensures-ok _ refl

  add_detected-Frames : (r : Relation) (o : Option Edge) → Frames s (add_detected s e r o)
  unfolding add_detected
  add_detected-Frames r (some x) = Ensures-ok _ refl
  add_detected-Frames r none = Ensures-raise_if _ _ _ λ _. Ensures-ok _ refl

  relation_detected-Frames :
      (history : List Event) (r : Relation) → Frames s (relation_detected s e history r)
  unfolding relation_detected
  relation_detected-Frames history r = Ensures-bind _ _ λ n _. Ensures-bind _ _ λ k _.
      Ensures-raise_if _ _ _ λ _. Ensures-raise_if _ _ _ λ _.
        Ensures-raise_if _ _ _
          λ _. Ensures-raise_if _ _ _ λ _. Ensures-then _ _ λ _. add_detected-Frames r _

  remove_old-Frames : (old : Option Relation) → Frames s (remove_old s old)
  unfolding remove_old
  remove_old-Frames none = Ensures-ok _ refl
  remove_old-Frames (some r) = Ensures-bind _ _ λ es _. Ensures-ok _ refl

  add_new-Frames : (new : Option Relation) → Frames s (add_new s e new)
  unfolding add_new
  add_new-Frames none = Ensures-ok _ refl
  add_new-Frames (some r) = Ensures-bind _ _ λ n _. Ensures-bind _ _ λ k _.
      Ensures-raise_if _ _ _ λ _. Ensures-raise_if _ _ _ λ _.
        Ensures-raise_if _ _ _
          λ _. Ensures-raise_if _ _ _ λ _. Ensures-raise_if _ _ _ λ _. Ensures-ok _ refl

  rewire_edges-Frames : (a b : String) → Frames s (rewire_edges s e a b)
  unfolding rewire_edges
  rewire_edges-Frames a b = Ensures-raise_if _ _ _ λ _. Ensures-ok _ refl

module _ (s : State) (e : Event) where
  correct_relation-Frames : (old new : Option Relation) → Frames s (correct_relation s e old new)
  unfolding correct_relation
  correct_relation-Frames old new = Ensures-raise_if _ _ _ λ _. Ensures-raise_if _ _ _ λ _.
      Ensures-bind (remove_old s old) _ λ t removed. record {
        at = λ u added.
            (add_new-Frames t e new).at u added ∙ (remove_old-Frames s e old).at t removed;
      }

  abbrev merging : Node → Node → State
  merging n k =
      change_node (change_node s (touch_node (record n { status = NodeStatus.archived }) e))
        (touch_node k e)

  merge_nodes-Frames : (a b : String) → Frames s (merge_nodes s e a b)
  unfolding merge_nodes
  merge_nodes-Frames a b = Ensures-bind _ _ λ n _. Ensures-bind _ _ λ k _.
      Ensures-raise_if _ _ _ λ _. Ensures-raise_if _ _ _ λ _.
        Ensures-bind (rewire_edges (merging n k) e n.id k.id) _ λ t rewired. Ensures-ok _ (
          refocus-IsFramed t e n.id k.id
          ∙ (rewire_edges-Frames (merging n k) e n.id k.id).at t rewired)

  dispatch-Frames : (history : List Event) (p : Payload) → Frames s (dispatch p s e history)
  unfolding dispatch session_created session_started session_finalizing session_ended node_detected
      topic_focus_changed confirm_decision revoke_decision resolve_open_item reopen_open_item
      rename_node update_action archive_node move_to_parking_lot restore_from_parking_lot
      set_current_topic undo_last_correction
  dispatch-Frames h (Payload.session_created a b) = Ensures-raise_if _ _ _ λ _. Ensures-ok _ refl
  dispatch-Frames h Payload.session_started = Ensures-raise_if _ _ _ λ _. Ensures-ok _ refl
  dispatch-Frames h (Payload.session_finalizing n) = Ensures-raise_if _ _ _ λ _. Ensures-ok _ refl
  dispatch-Frames h (Payload.session_ended d n b) =
      Ensures-raise_if _ _ _ λ _. Ensures-raise_if _ _ _ λ _. Ensures-ok _ refl
  dispatch-Frames h (Payload.node_detected t l d) =
      Ensures-raise_if _ _ _ λ _. Ensures-bind _ _ λ a _. Ensures-ok _ refl
  dispatch-Frames h (Payload.relation_detected r) = relation_detected-Frames s e h r
  dispatch-Frames h (Payload.correct_relation old new w i) = correct_relation-Frames old new
  dispatch-Frames h (Payload.topic_focus_changed id c) =
      Ensures-bind _ _ λ n _. Ensures-raise_if _ _ _ λ _. Ensures-ok _ refl
  dispatch-Frames h (Payload.confirm_decision id x) =
      change_status-Frames s e id NodeType.decision NodeStatus.candidate x NodeStatus.confirmed
  dispatch-Frames h (Payload.revoke_decision id x) =
      change_status-Frames s e id NodeType.decision NodeStatus.confirmed x NodeStatus.revoked
  dispatch-Frames h (Payload.resolve_open_item id x) =
      change_status-Frames s e id NodeType.open_item NodeStatus.active x NodeStatus.resolved
  dispatch-Frames h (Payload.reopen_open_item id x) =
      change_status-Frames s e id NodeType.open_item NodeStatus.resolved x NodeStatus.active
  dispatch-Frames h (Payload.rename_node id l) =
      Ensures-bind _ _ λ n _. Ensures-raise_if _ _ _ λ _. Ensures-bind _ _ λ m _. Ensures-ok _ refl
  dispatch-Frames h (Payload.archive_node id) =
      Ensures-bind _ _ λ n _. Ensures-raise_if _ _ _ λ _. Ensures-ok _ (unfocus-IsFramed _ e n.id)
  dispatch-Frames h (Payload.merge_nodes a b) = merge_nodes-Frames a b
  dispatch-Frames h (Payload.move_to_parking_lot id) = Ensures-bind _ _ λ n _.
      Ensures-raise_if _ _ _
        λ _. Ensures-raise_if _ _ _ λ _. Ensures-ok _ (unfocus-IsFramed _ e n.id)
  dispatch-Frames h (Payload.restore_from_parking_lot id) =
      Ensures-bind _ _ λ n _. Ensures-raise_if _ _ _ λ _. Ensures-ok _ refl
  dispatch-Frames h (Payload.update_action id c) =
      Ensures-bind _ _ λ n _. Ensures-raise_if _ _ _ λ _. Ensures-bind _ _ λ a _. Ensures-ok _ refl
  dispatch-Frames h (Payload.set_current_topic id) =
      Ensures-bind _ _ λ n _. Ensures-raise_if _ _ _ λ _. Ensures-ok _ refl
  dispatch-Frames h (Payload.undo_last_correction id) = Ensures-bind _ _ λ (earlier, last) _.
      Ensures-raise_if _ _ _ λ _. Ensures-bind _ _ λ i _.
        Ensures-bind _ _ λ n _. Ensures-bind _ _ λ l _. Ensures-bind _ _ λ m _. Ensures-ok _ refl

-- An Event that is applied adds one to the revision, becomes the last Event of the Graph, and
-- leaves the Evidence, the Utterances and the ids of the Session as they were.
pub record IsAdvanced (s t : State) (e : Event) : Type 0 where
  pub framed : IsFramed s t
  pub revision : t.graph.revision ≡ s.graph.revision + 1
  pub session_revision : t.session.graph_revision ≡ s.graph.revision + 1
  pub sequence : t.graph.last_event_sequence ≡ e.sequence

pub apply-IsAdvanced :
    (formats : Formats) (s : State) (e : Event) (history : List Event) (t : State)
    → apply formats s e history ≡ ok t
    → IsAdvanced s t e
unfolding apply advance
apply-IsAdvanced formats s e history t applied =
    (Ensures-then {P = λ u. IsAdvanced s u e} _ _ λ _. Ensures-then _ _ λ _.
        Ensures-bind (dispatch e.payload s e history) _ λ u dispatched. Ensures-ok _ record {
          framed = (dispatch-Frames s e history e.payload).at u dispatched;
          revision = refl;
          session_revision = refl;
          sequence = refl;
        }).at
      t applied
