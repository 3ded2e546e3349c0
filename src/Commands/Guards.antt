-- ===== src/Commands/Guards.antt =====
-- The conditions that the handler checks before it builds an Event, and those that the Materializer
-- checks when it applies the Event.
use ronro.Prelude.{
  String, ◌≡◌, refl, sym, Bool, true, false, not, Bool-cases, Option, none, some, inl, inr, subst,
  arith,
}
use ronro.Errors.{ok, ◌>>=◌}
use ronro.Errors.Ensures.{Ensures, Ensures-ok, Ensures-bind, Ensures-raise_if}
use ronro.Errors.Returns.{Returns, returned, Returns-bind, Returns-pass, Returns-value}
use ronro.Domain.{
  Node, NodeType, NodeStatus, ActionDetails, ActionChanges, State, Payload, Event, type_eq,
  type_eq→eq,
}
use ronro.Materializer.Nodes.{find_node, require_node}
use ronro.Materializer.Detection.{
  change_status, confirm_decision, revoke_decision, resolve_open_item, reopen_open_item, relabel,
  rename_node, describe,
}
use ronro.Materializer.Organizing.{
  archive_node, move_to_parking_lot, restore_from_parking_lot, change_action, update_action,
  set_current_topic,
}
use ronro.Materializer.Apply.{dispatch}
use ronro.Replay.{ReplayResult}
use ronro.Commands.{CommandType, require_command_node, status_command, command_payload, is_status}
use ronro.Invariant.{IsWellFormed, node_ok, is_described}
use ronro.Lifecycle.Steps.{require_node-found}
use ronro.Invariant.Nodes.{find_node-ok, find_node-id}

-- The Commands that change one Node.
abbrev pub is_single : CommandType → Bool
is_single CommandType.unsupported = false
is_single (CommandType.merge_nodes _ _) = false
is_single (CommandType.correct_relation _ _ _) = false
is_single (CommandType.undo_last_correction _) = false
is_single _ = true

described_none :
    (type : NodeType) (old : String)
    → type ≡ NodeType.action
    → ¬ (is_described type old none ≡ true)
described_none type old t d =
    let q : is_described NodeType.action old none ≡ true =
      subst (λ x. is_described x old none ≡ true) t d in
    cc

module _ (s : State) (wf : IsWellFormed s) where
  -- A Node that the handler found is found again by its id, and is well-formed.
  abbrev Refound : Node → Type 0
  Refound n = (require_node s n.id ≡ ok n) × (node_ok n ≡ true)

  refound : (id : Option String) → Ensures Refound (require_command_node s id)
  unfolding require_command_node require_node
  refound none = record { at = λ n h. cc }
  refound (some id) = record {
    at = λ n h.
        let found : find_node id s.graph.nodes ≡ some n = require_node-found s id n h in
        (
          subst (λ x. require_node s x ≡ ok n) (sym (find_node-id id s.graph.nodes found)) h,
          find_node-ok id s.graph.nodes wf.nodes_ok found,
        );
  }

relabel-Returns : (n : Node) (label : String) → node_ok n ≡ true → Returns (relabel n label)
unfolding relabel ◌>>=◌
relabel-Returns n label good = elim (Bool-cases (type_eq n.type NodeType.action)) [
  | inl is_action ↦ rw is_action (
      described n.type n.label n.action (type_eq→eq n.type NodeType.action is_action)
        (ground arith))
  | inr other ↦ rw other (returned _)
]
  where
    described :
        (type : NodeType) (old : String) (a : Option ActionDetails)
        → type ≡ NodeType.action
        → is_described type old a ≡ true
        → Returns (describe label a >>= λ b. ok (record n { label = label; action = b }))
    described type old none t d = absurd (described_none type old t d)
    described type old (some a) t d = returned _

change_action-Returns :
    (c : ActionChanges) (type : NodeType) (old : String) (a : Option ActionDetails)
    → type ≡ NodeType.action
    → is_described type old a ≡ true
    → Returns (change_action c a)
change_action-Returns c type old none t d = absurd (described_none type old t d)
change_action-Returns c type old (some a) t d = returned _

module _ (r : ReplayResult) (wf : IsWellFormed r.state) (e : Event) where
  abbrev Accepts : Payload → Type 0
  Accepts p = Returns (dispatch p r.state e r.events)

  change_status-Returns :
      (n : Node) (type : NodeType) (from to : NodeStatus)
      → require_node r.state n.id ≡ ok n
      → not (is_status type from n) ≡ false
      → Returns (change_status r.state e n.id type from from to)
  unfolding change_status
  change_status-Returns n type from to found guarded =
      Returns-bind _ n _ found
        (Returns-pass _ _ _ guarded (Returns-pass _ _ _ (ground arith) (returned _)))

  status_command-accepted :
      (id : Option String) (type : NodeType) (from to : NodeStatus)
      (payload : String → NodeStatus → Payload)
      → ((x : String)
          → dispatch (payload x from) r.state e r.events
            ≡ change_status r.state e x type from from to)
      → Ensures Accepts (status_command r.state id type from payload)
  unfolding status_command
  status_command-accepted id type from to payload same = Ensures-bind _ _ λ n h.
      Ensures-raise_if _ _ _ λ guarded. Ensures-ok _ (
        subst Returns (sym (same n.id))
          (change_status-Returns n type from to ((refound r.state wf id).at n h).0 guarded))

  pub command_payload-Accepts :
      (type : CommandType) → is_single type ≡ true → Ensures Accepts (command_payload r type)
  unfolding command_payload dispatch confirm_decision revoke_decision resolve_open_item
      reopen_open_item rename_node archive_node move_to_parking_lot restore_from_parking_lot
      update_action set_current_topic
  command_payload-Accepts CommandType.unsupported q = absurd (cc q)
  command_payload-Accepts (CommandType.merge_nodes _ _) q = absurd (cc q)
  command_payload-Accepts (CommandType.correct_relation _ _ _) q = absurd (cc q)
  command_payload-Accepts (CommandType.undo_last_correction _) q = absurd (cc q)
  command_payload-Accepts (CommandType.confirm_decision id) _ =
      status_command-accepted id NodeType.decision NodeStatus.candidate NodeStatus.confirmed
        Payload.confirm_decision λ x. refl
  command_payload-Accepts (CommandType.revoke_decision id) _ =
      status_command-accepted id NodeType.decision NodeStatus.confirmed NodeStatus.revoked
        Payload.revoke_decision λ x. refl
  command_payload-Accepts (CommandType.resolve_open_item id) _ =
      status_command-accepted id NodeType.open_item NodeStatus.active NodeStatus.resolved
        Payload.resolve_open_item λ x. refl
  command_payload-Accepts (CommandType.reopen_open_item id) _ =
      status_command-accepted id NodeType.open_item NodeStatus.resolved NodeStatus.active
        Payload.reopen_open_item λ x. refl
  command_payload-Accepts (CommandType.archive_node id) _ = Ensures-bind _ _ λ n h.
      Ensures-raise_if _ _ _ λ live. Ensures-ok _ (
        Returns-bind _ n _ ((refound r.state wf id).at n h).0
          (Returns-pass _ _ _ live (returned _)))
  command_payload-Accepts (CommandType.restore_from_parking_lot id) _ = Ensures-bind _ _ λ n h.
      Ensures-raise_if _ _ _ λ parked. Ensures-ok _ (
        Returns-bind _ n _ ((refound r.state wf id).at n h).0
          (Returns-pass _ _ _ parked (returned _)))
  command_payload-Accepts (CommandType.set_current_topic id) _ = Ensures-bind _ _ λ n h.
      Ensures-raise_if _ _ _ λ topic. Ensures-ok _ (
        Returns-bind _ n _ ((refound r.state wf id).at n h).0
          (Returns-pass _ _ _ topic (returned _)))
  command_payload-Accepts (CommandType.move_to_parking_lot id) _ = Ensures-bind _ _ λ n h.
      Ensures-raise_if _ _ _ λ no_decision. Ensures-raise_if _ _ _ λ live. Ensures-ok _ (
        Returns-bind _ n _ ((refound r.state wf id).at n h).0
          (Returns-pass _ _ _ no_decision (Returns-pass _ _ _ live (returned _))))
  command_payload-Accepts (CommandType.rename_node id label) _ = Ensures-bind _ _ λ n h.
      Ensures-raise_if _ _ _ λ live. Ensures-bind _ _ λ l _.
        let (found, good) = (refound r.state wf id).at n h in
        let (m, done) = Returns-value (relabel-Returns n l good) in
        Ensures-ok _ (
          Returns-bind _ n _ found (Returns-pass _ _ _ live (Returns-bind _ m _ done (returned _))))
  command_payload-Accepts (CommandType.update_action id changes) _ = Ensures-bind _ _ λ n h.
      Ensures-raise_if _ _ _ λ is_action. Ensures-raise_if _ _ _ λ _.
        let (found, good) = (refound r.state wf id).at n h in
        let (a, done) = Returns-value (
          change_action-Returns changes n.type n.label n.action
            (type_eq→eq n.type NodeType.action (ground arith)) (ground arith)) in
        Ensures-ok _ (
          Returns-bind _ n _ found
            (Returns-pass _ _ _ (ground arith) (Returns-bind _ a _ done (returned _))))
