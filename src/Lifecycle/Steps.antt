-- ===== src/Lifecycle/Steps.antt =====
-- Each handler moves the Nodes as the table allows.
use ronro.Prelude.{ℕ, String, ◌≡◌, refl, sym, subst, true, Option, some, arith, eq_iff}
use ronro.Errors.{Result, ok, ◌>>=◌}
use ronro.Errors.Ensures.{Ensures, Ensures-ok, Ensures-bind, Ensures-raise_if}
use ronro.Domain.{Node, NodeType, NodeStatus, State, Event, Payload, ActionDetected, status_eq→eq}
use ronro.Materializer.Nodes.{find_node, require_node, touch_node, clear_current_topic}
use ronro.Materializer.Sessions.{
  session_created, session_started, session_finalizing, session_ended,
}
use ronro.Materializer.Detection.{
  node_id, node_detected, topic_focus_changed, change_status, relabel, rename_node,
}
use ronro.Materializer.Organizing.{unfocus, refocus}
use ronro.Lifecycle.{may_move}
use ronro.Lifecycle.Nodes.{
  NodesMoved, NodesMoved-refl, NodesMoved-append, NodesMoved-put_node, stays,
}

pub require_node-found :
    (s : State) (id : String) (n : Node)
    → require_node s id ≡ ok n
    → find_node id s.graph.nodes ≡ some n
unfolding require_node
require_node-found s id n h = ground arith

-- The result has Nodes that follow from those of `s`.
abbrev pub Moves : Event → Payload → State → Result State → Type 0
Moves e p s = Ensures (λ t. NodesMoved e p s.graph.nodes t.graph.nodes)

pub relabel-kept :
    (n m : Node) (label : String)
    → relabel n label ≡ ok m
    → (m.id ≡ n.id) × (m.type ≡ n.type) × (m.status ≡ n.status)
unfolding relabel ◌>>=◌
relabel-kept n m label h = (ground arith, ground arith, ground arith)

module _ (s : State) (e : Event) where
  pub unfocus-nodes : (id : String) → (unfocus s e id).graph.nodes ≡ s.graph.nodes
  unfolding clear_current_topic
  unfocus-nodes id = ground arith

  pub refocus-nodes : (a b : String) → (refocus s e a b).graph.nodes ≡ s.graph.nodes
  refocus-nodes a b = ground arith

  pub session_created-Moves :
      (p : Payload) (a b : Option String) → Moves e p s (session_created s e a b)
  unfolding session_created
  session_created-Moves p a b =
      Ensures-raise_if _ _ _ λ _. Ensures-ok _ (NodesMoved-refl e p s.graph.nodes)

  pub session_started-Moves : (p : Payload) → Moves e p s (session_started s e)
  unfolding session_started
  session_started-Moves p =
      Ensures-raise_if _ _ _ λ _. Ensures-ok _ (NodesMoved-refl e p s.graph.nodes)

  pub session_finalizing-Moves : (p : Payload) → Moves e p s (session_finalizing s)
  unfolding session_finalizing
  session_finalizing-Moves p =
      Ensures-raise_if _ _ _ λ _. Ensures-ok _ (NodesMoved-refl e p s.graph.nodes)

  pub session_ended-Moves : (p : Payload) (n : ℕ) → Moves e p s (session_ended s e n)
  unfolding session_ended
  session_ended-Moves p n =
      Ensures-raise_if _ _ _
        λ _. Ensures-raise_if _ _ _ λ _. Ensures-ok _ (NodesMoved-refl e p s.graph.nodes)

  pub node_detected-Moves :
      (type : NodeType) (label : String) (d : Option ActionDetected)
      → Moves e (Payload.node_detected type label d) s (node_detected s e type label d)
  unfolding node_detected node_id
  node_detected-Moves type label d = Ensures-raise_if _ _ _ λ _. Ensures-bind _ _ λ a _.
      Ensures-ok _ (
        NodesMoved-append e _ s.graph.nodes _ (
          let q = eq_iff (node_id e.session_id e.event_id) (node_id e.session_id e.event_id) in
          ground (arith, q, eq_iff label label)))

  pub topic_focus_changed-Moves :
      (p : Payload) (id : String) (c : Option String) → Moves e p s (topic_focus_changed s e id c)
  unfolding topic_focus_changed
  topic_focus_changed-Moves p id c =
      Ensures-bind _ _
        λ n _. Ensures-raise_if _ _ _ λ _. Ensures-ok _ (NodesMoved-refl e p s.graph.nodes)

  pub change_status-Moves :
      (p : Payload) (id : String) (type : NodeType) (from x to : NodeStatus)
      → may_move id from p to ≡ true
      → Moves e p s (change_status s e id type from x to)
  unfolding change_status touch_node
  change_status-Moves p id type from x to allowed = Ensures-bind (require_node s id) _ λ n found.
      Ensures-raise_if _ _ _ λ h. Ensures-raise_if _ _ _ λ _. Ensures-ok _ (
        NodesMoved-put_node e p s.graph.nodes id n _ (require_node-found s id n found) refl record {
          type = refl;
          status =
              subst (λ y. may_move id y p to ≡ true)
                (sym (status_eq→eq n.status from (ground arith))) allowed;
          label = λ _. refl;
        })

  pub rename_node-Moves :
      (id label : String) → Moves e (Payload.rename_node id label) s (rename_node s e id label)
  unfolding rename_node touch_node
  rename_node-Moves id label = Ensures-bind (require_node s id) _ λ n found.
      Ensures-raise_if _ _ _ λ _. Ensures-bind (relabel n label) _ λ m relabelled.
        let (same, type, status) = relabel-kept n m label relabelled in
        Ensures-ok _ (
          NodesMoved-put_node e _ s.graph.nodes id n _ (require_node-found s id n found) same
            record {
              type = type;
              status = rw status (stays id n.status (Payload.rename_node id label));
              label = λ other. absurd (ground (arith, eq_iff id id));
            })
