-- ===== src/Invariant/Steps.antt =====
-- Each handler, given a well-formed state, returns a well-formed state or an error with a code.
use ronro.Prelude.{ℕ, String, ◌≡◌, ◌≢◌, refl, true, false, ◌&&◌, Option, none, some, arith, eq_refl}
use ronro.Errors.{err, key_error, invalid_transition, revision_mismatch, duplicate_event_id}
use ronro.Errors.Safe.{Safe, Safe-bind, Safe-raise_if}
use ronro.Domain.{
  Node, NodeType, NodeStatus, State, Event, ActionDetected, ActionDetails, type_eq→eq, status_eq→eq,
}
use ronro.Materializer.Nodes.{require_node, touch_node}
use ronro.Materializer.Matrix.{is_archived}
use ronro.Materializer.Sessions.{
  session_created, session_started, session_finalizing, session_ended,
}
use ronro.Materializer.Detection.{
  node_detected, node_id, topic_focus_changed, change_status, confirm_decision, revoke_decision,
  resolve_open_item, reopen_open_item, initial_action, initial_status, is_found,
}
use ronro.Invariant.{IsWellFormed, node_ok, allowed_status, is_described}
use ronro.Invariant.Nodes.{find_node-id, require_node-Safe, find_node-ok, not-has_node}
use ronro.Invariant.Changes.{
  found-has_node, change_open-IsWellFormed, set_topic-IsWellFormed, add_node-IsWellFormed,
  set_session-IsWellFormed,
}

initial_action-Safe :
    (type : NodeType) (label : String) (details : Option ActionDetected)
    → initial_action type label details ≢ err key_error
    → Safe (λ a. is_described type label a ≡ true) (initial_action type label details)
initial_action-Safe NodeType.action label none h = absurd (h refl)
initial_action-Safe NodeType.action label (some d) h = Safe.returns _ (eq_refl label)
initial_action-Safe NodeType.topic label d h = Safe.returns _ refl
initial_action-Safe NodeType.idea label d h = Safe.returns _ refl
initial_action-Safe NodeType.option label d h = Safe.returns _ refl
initial_action-Safe NodeType.concern label d h = Safe.returns _ refl
initial_action-Safe NodeType.open_item label d h = Safe.returns _ refl
initial_action-Safe NodeType.decision label d h = Safe.returns _ refl

initial_ok :
    (type : NodeType) (label : String) (a : Option ActionDetails)
    → is_described type label a ≡ true
    → (allowed_status type (initial_status type) && is_described type label a) ≡ true
initial_ok type label a h = ground arith

not_found : (o : Option Node) → is_found o ≡ false → o ≡ none
not_found none h = refl
not_found (some n) h = cc

module _ (s : State) (e : Event) (wf : IsWellFormed s) where
  pub session_created-Safe :
      (title goal : Option String) → Safe IsWellFormed (session_created s e title goal)
  unfolding session_created
  session_created-Safe title goal =
      Safe-raise_if _ invalid_transition _ (λ q. cc)
        λ h. Safe.returns _ (set_session-IsWellFormed s wf _ refl refl)

  pub session_started-Safe : Safe IsWellFormed (session_started s e)
  unfolding session_started
  session_started-Safe =
      Safe-raise_if _ invalid_transition _ (λ q. cc)
        λ h. Safe.returns _ (set_session-IsWellFormed s wf _ refl refl)

  pub session_finalizing-Safe : Safe IsWellFormed (session_finalizing s)
  unfolding session_finalizing
  session_finalizing-Safe =
      Safe-raise_if _ invalid_transition _ (λ q. cc)
        λ h. Safe.returns _ (set_session-IsWellFormed s wf _ refl refl)

  pub session_ended-Safe : (final : ℕ) → Safe IsWellFormed (session_ended s e final)
  unfolding session_ended
  session_ended-Safe final =
      Safe-raise_if _ invalid_transition _ (λ q. cc)
        λ h.
          Safe-raise_if _ revision_mismatch _ (λ q. cc)
            λ h'. Safe.returns _ (set_session-IsWellFormed s wf _ refl refl)

  pub change_status-Safe :
      (id : String) (type : NodeType) (from expected to : NodeStatus)
      → ((n : Node)
          → n.type ≡ type
          → n.status ≡ from
          → node_ok n ≡ true
          → (node_ok (record n { status = to }) ≡ true)
            × (is_archived (record n { status = to }) ≡ false))
      → Safe IsWellFormed (change_status s e id type from expected to)
  unfolding change_status touch_node
  change_status-Safe id type from expected to keep =
      Safe-bind (require_node s id) _ (require_node-Safe s id) λ n _ found.
        Safe-raise_if _ invalid_transition _ (λ q. cc)
          λ h.
            Safe-raise_if _ invalid_transition _ (λ q. cc)
              λ h'.
                let (good, open_n) =
                  keep n (type_eq→eq n.type type (ground arith))
                    (status_eq→eq n.status from (ground arith))
                    (find_node-ok id s.graph.nodes wf.nodes_ok found) in
                Safe.returns _ (
                  change_open-IsWellFormed s wf _ (found-has_node id s.graph.nodes found) good
                    open_n)

  pub confirm_decision-Safe :
      (id : String) (x : NodeStatus) → Safe IsWellFormed (confirm_decision s e id x)
  unfolding confirm_decision
  confirm_decision-Safe id x =
      change_status-Safe id NodeType.decision NodeStatus.candidate x NodeStatus.confirmed
        (λ n t f good. (ground arith, refl))

  pub revoke_decision-Safe :
      (id : String) (x : NodeStatus) → Safe IsWellFormed (revoke_decision s e id x)
  unfolding revoke_decision
  revoke_decision-Safe id x =
      change_status-Safe id NodeType.decision NodeStatus.confirmed x NodeStatus.revoked
        (λ n t f good. (ground arith, refl))

  pub resolve_open_item-Safe :
      (id : String) (x : NodeStatus) → Safe IsWellFormed (resolve_open_item s e id x)
  unfolding resolve_open_item
  resolve_open_item-Safe id x =
      change_status-Safe id NodeType.open_item NodeStatus.active x NodeStatus.resolved
        (λ n t f good. (ground arith, refl))

  pub reopen_open_item-Safe :
      (id : String) (x : NodeStatus) → Safe IsWellFormed (reopen_open_item s e id x)
  unfolding reopen_open_item
  reopen_open_item-Safe id x =
      change_status-Safe id NodeType.open_item NodeStatus.resolved x NodeStatus.active
        (λ n t f good. (ground arith, refl))

  pub topic_focus_changed-Safe :
      (id : String) (confidence : Option String)
      → Safe IsWellFormed (topic_focus_changed s e id confidence)
  unfolding topic_focus_changed
  topic_focus_changed-Safe id confidence =
      Safe-bind (require_node s id) _ (require_node-Safe s id) λ n _ found.
        Safe-raise_if _ invalid_transition _ (λ q. cc)
          λ h. Safe.returns _ (
            set_topic-IsWellFormed s wf _
              (rw (find_node-id id s.graph.nodes found) (rw found (ground arith))))

  pub node_detected-Safe :
      (type : NodeType) (label : String) (details : Option ActionDetected)
      → (initial_action type label details ≢ err key_error)
      → Safe IsWellFormed (node_detected s e type label details)
  unfolding node_detected
  node_detected-Safe type label details given =
      Safe-raise_if _ duplicate_event_id _ (λ q. cc)
        λ h.
          Safe-bind (initial_action type label details) _
            (initial_action-Safe type label details given)
            λ a _ good. Safe.returns _ (
              add_node-IsWellFormed s wf _
                (not-has_node (node_id e.session_id e.event_id) s.graph.nodes (not_found _ h))
                (initial_ok type label a good))
