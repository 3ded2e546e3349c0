-- ===== src/Lifecycle/Moves.antt =====
-- A correction of a Relation, a merge, and `apply` move the Nodes as the table allows.
use ronro.Prelude.{
  String, ◌≡◌, refl, sym, subst, ◌∙◌, false, Option, some, List, ◌==◌, arith, eq_iff,
}
use ronro.Errors.{ok}
use ronro.Errors.Ensures.{Ensures-ok, Ensures-bind, Ensures-then, Ensures-raise_if}
use ronro.Domain.{Node, NodeType, NodeStatus, State, Event, Payload, Relation}
use ronro.Domain.Schema.{Formats}
use ronro.Materializer.Nodes.{find_node, require_node, put_node, touch_node, change_node}
use ronro.Materializer.Relations.{correct_relation, remove_old}
use ronro.Materializer.Rewire.{rewire_edges}
use ronro.Materializer.Organizing.{merge_nodes}
use ronro.Materializer.Detection.{
  confirm_decision, revoke_decision, resolve_open_item, reopen_open_item,
}
use ronro.Materializer.Apply.{dispatch, advance, apply}
use ronro.Invariant.Nodes.{find_node-id, find_node-has, find_node-put_node}
use ronro.Lifecycle.Nodes.{NodesMoved, NodesMoved-refl, NodesMoved-put_node, stays}
use ronro.Lifecycle.Steps.{
  Moves, require_node-found, refocus-nodes, session_created-Moves, session_started-Moves,
  session_finalizing-Moves, session_ended-Moves, node_detected-Moves, topic_focus_changed-Moves,
  change_status-Moves, rename_node-Moves,
}
use ronro.Lifecycle.Organizing.{
  IsMoved-status, then_quiet, archive_node-Moves, move_to_parking_lot-Moves,
  restore_from_parking_lot-Moves, update_action-Moves, set_current_topic-Moves,
  undo_last_correction-Moves, relation_detected-Moves, remove_old-nodes, add_new-nodes,
  rewire_edges-nodes,
}

module _ (s : State) (e : Event) where
  correct_relation-Moves :
      (p : Payload) (old new : Option Relation) → Moves e p s (correct_relation s e old new)
  unfolding correct_relation
  correct_relation-Moves p old new = Ensures-raise_if _ _ _ λ _. Ensures-raise_if _ _ _ λ _.
      Ensures-bind (remove_old s old) _ λ t removed. record {
        at = λ u added.
            subst (NodesMoved e p s.graph.nodes)
              (sym ((remove_old-nodes s e old).at t removed)
                ∙ sym ((add_new-nodes t e new).at u added))
              (NodesMoved-refl e p s.graph.nodes);
      }

  -- Source and target are touched; the source is archived.
  merged_nodes :
      (source target : String) (n k : Node)
      → find_node source s.graph.nodes ≡ some n
      → find_node target s.graph.nodes ≡ some k
      → (n.id == k.id) ≡ false
      → NodesMoved e (Payload.merge_nodes source target) s.graph.nodes (
          put_node
            (touch_node k e)
            (put_node (touch_node (record n { status = NodeStatus.archived }) e) s.graph.nodes))
  unfolding touch_node
  merged_nodes source target n k n_found k_found differ =
      let p = Payload.merge_nodes source target in
      let gone : Node = touch_node (record n { status = NodeStatus.archived }) e in
      let first =
        NodesMoved-put_node e p s.graph.nodes source n gone n_found refl
          (IsMoved-status source p n gone refl refl (ground (arith, eq_iff source source))) in
      let k_id = find_node-id target s.graph.nodes k_found in
      let other : (gone.id == target) ≡ false = rw (← k_id) differ in
      let there = find_node-put_node target gone s.graph.nodes (
        rw (find_node-id source s.graph.nodes n_found)
          (find_node-has source s.graph.nodes n_found)) in
      let second =
        NodesMoved-put_node e Payload.session_started (put_node gone s.graph.nodes) target k
          (touch_node k e) (there ∙ (rw other k_found)) refl
          (IsMoved-status target Payload.session_started k (touch_node k e) refl refl
            (stays target k.status Payload.session_started)) in
      then_quiet e p s.graph.nodes (put_node gone s.graph.nodes) _ first second

  abbrev merging : Node → Node → State
  merging n k =
      change_node (change_node s (touch_node (record n { status = NodeStatus.archived }) e))
        (touch_node k e)

  merge_nodes-Moves :
      (source target : String)
      → Moves e (Payload.merge_nodes source target) s (merge_nodes s e source target)
  unfolding merge_nodes
  merge_nodes-Moves source target = Ensures-bind (require_node s source) _ λ n n_found.
      Ensures-bind (require_node s target) _ λ k k_found. Ensures-raise_if _ _ _ λ differ.
        Ensures-raise_if _ _ _ λ _.
          Ensures-bind (rewire_edges (merging n k) e n.id k.id) _ λ t rewired. Ensures-ok _ (
            rw (refocus-nodes t e n.id k.id) (
              subst (NodesMoved e (Payload.merge_nodes source target) s.graph.nodes)
                (sym ((rewire_edges-nodes (merging n k) e n.id k.id).at t rewired))
                (merged_nodes source target n k (require_node-found s source n n_found)
                  (require_node-found s target k k_found) differ)))

  dispatch-Moves : (history : List Event) (p : Payload) → Moves e p s (dispatch p s e history)
  unfolding dispatch
  dispatch-Moves h (Payload.session_created a b) = session_created-Moves s e _ a b
  dispatch-Moves h Payload.session_started = session_started-Moves s e _
  dispatch-Moves h (Payload.session_finalizing n) = session_finalizing-Moves s e _
  dispatch-Moves h (Payload.session_ended d n b) = session_ended-Moves s e _ n
  dispatch-Moves h (Payload.node_detected t l d) = node_detected-Moves s e t l d
  dispatch-Moves h (Payload.relation_detected r) = relation_detected-Moves s e _ h r
  dispatch-Moves h (Payload.correct_relation old new w i) = correct_relation-Moves _ old new
  dispatch-Moves h (Payload.topic_focus_changed id c) = topic_focus_changed-Moves s e _ id c
  dispatch-Moves h (Payload.confirm_decision id x) =
      unfold confirm_decision in
      change_status-Moves s e (Payload.confirm_decision id x) id NodeType.decision
        NodeStatus.candidate x NodeStatus.confirmed (ground (arith, eq_iff id id))
  dispatch-Moves h (Payload.revoke_decision id x) =
      unfold revoke_decision in
      change_status-Moves s e (Payload.revoke_decision id x) id NodeType.decision
        NodeStatus.confirmed x NodeStatus.revoked (ground (arith, eq_iff id id))
  dispatch-Moves h (Payload.resolve_open_item id x) =
      unfold resolve_open_item in
      change_status-Moves s e (Payload.resolve_open_item id x) id NodeType.open_item
        NodeStatus.active x NodeStatus.resolved (ground (arith, eq_iff id id))
  dispatch-Moves h (Payload.reopen_open_item id x) =
      unfold reopen_open_item in
      change_status-Moves s e (Payload.reopen_open_item id x) id NodeType.open_item
        NodeStatus.resolved x NodeStatus.active (ground (arith, eq_iff id id))
  dispatch-Moves h (Payload.rename_node id l) = rename_node-Moves s e id l
  dispatch-Moves h (Payload.archive_node id) = archive_node-Moves s e id
  dispatch-Moves h (Payload.merge_nodes a b) = merge_nodes-Moves a b
  dispatch-Moves h (Payload.move_to_parking_lot id) = move_to_parking_lot-Moves s e id
  dispatch-Moves h (Payload.restore_from_parking_lot id) = restore_from_parking_lot-Moves s e id
  dispatch-Moves h (Payload.update_action id c) = update_action-Moves s e id c
  dispatch-Moves h (Payload.set_current_topic id) = set_current_topic-Moves s e id
  dispatch-Moves h (Payload.undo_last_correction id) = undo_last_correction-Moves s e h id

-- If `apply` returns, every Node of the state before is in the new state under its id, with the
-- same type; its status moved as the table of transitions allows for this Event, and its label is
-- the same unless the Event may relabel that Node. Any other Node of the new state is the one that
-- the Event detects: it has the id that the Event's own ids give, and the Event's type and label,
-- and is a candidate if it is a Decision and active if not.
pub apply-NodesMoved :
    (formats : Formats) (s : State) (e : Event) (history : List Event) (next : State)
    → apply formats s e history ≡ ok next
    → NodesMoved e e.payload s.graph.nodes next.graph.nodes
apply-NodesMoved formats s e history next h = (apply-Moves formats s e history).at next h
  where
    apply-Moves :
        (formats : Formats) (s : State) (e : Event) (history : List Event)
        → Moves e e.payload s (apply formats s e history)
    apply-Moves formats s e history =
        unfold apply advance in
        Ensures-then _ _ λ _. Ensures-then _ _ λ _.
          Ensures-bind (dispatch e.payload s e history) _
            λ t done. Ensures-ok _ ((dispatch-Moves s e history e.payload).at t done)
