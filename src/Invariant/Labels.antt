-- ===== src/Invariant/Labels.antt =====
-- The handlers that change a label, or an Action, keep the state well-formed.
use ronro.Prelude.{
  String, ◌≡◌, refl, true, Option, none, some, List, eq_iff, Bool-cases, inl, inr, arith, eq_refl,
}
use ronro.Errors.{invalid_transition, unsupported_correction}
use ronro.Errors.Safe.{Safe, Safe-bind, Safe-raise_if}
use ronro.Domain.{Node, NodeType, State, Event, ActionDetails, ActionChanges, type_eq, type_eq→eq}
use ronro.Materializer.Nodes.{find_node, require_node, touch_node, change_node}
use ronro.Materializer.Detection.{relabel, rename_node, describe}
use ronro.Materializer.Organizing.{update_action, change_action, changed}
use ronro.Materializer.Undo.{
  undo_last_correction, or_unsupported, split_last, renamed_by, previous_label,
}
use ronro.Invariant.{IsWellFormed, node_ok, is_described}
use ronro.Invariant.Nodes.{require_node-Safe, find_node-ok}
use ronro.Invariant.Changes.{change_same-IsWellFormed}

describe-Safe :
    (type : NodeType) (old label : String) (a : Option ActionDetails)
    → type ≡ NodeType.action
    → is_described type old a ≡ true
    → Safe (λ b. is_described NodeType.action label b ≡ true) (describe label a)
describe-Safe type old label none t h = absurd (ground arith)
describe-Safe type old label (some a) t h = Safe.returns _ (eq_refl label)

-- What a change of the label leaves.
abbrev Relabelled : Node → Node → Type 0
Relabelled n m = (m.id ≡ n.id) × (m.status ≡ n.status) × (node_ok m ≡ true)

pub relabel-Safe :
    (n : Node) (label : String) → node_ok n ≡ true → Safe (Relabelled n) (relabel n label)
unfolding relabel
relabel-Safe n label good = elim (Bool-cases (type_eq n.type NodeType.action)) [
  | inl yes_action ↦
      let t = type_eq→eq n.type NodeType.action yes_action in
      rw yes_action (
        Safe-bind (describe label n.action) _
          (describe-Safe n.type n.label label n.action t (ground arith))
          λ a _ q. Safe.returns _ (refl, refl, ground arith))
  | inr other ↦ rw other (Safe.returns _ (refl, refl, ground arith))
]

change_action-Safe :
    (type : NodeType) (label : String) (c : ActionChanges) (a : Option ActionDetails)
    → type ≡ NodeType.action
    → is_described type label a ≡ true
    → Safe (λ b. is_described type (changed c.description label) b ≡ true) (change_action c a)
change_action-Safe type label c none t h = absurd (ground arith)
change_action-Safe type label c (some a) t h =
    Safe.returns _
      (ground (arith, eq_iff (changed c.description label) (changed c.description label)))

or_unsupported-Safe {ℓ} : {A : Type ℓ} (o : Option A) → Safe (λ a. o ≡ some a) (or_unsupported o)
or_unsupported-Safe none = Safe.raises unsupported_correction (λ q. cc)
or_unsupported-Safe (some a) = Safe.returns a refl

module _ (s : State) (e : Event) (wf : IsWellFormed s) where
  write_label :
      (id : String) (n m : Node)
      → find_node id s.graph.nodes ≡ some n
      → Relabelled n m
      → IsWellFormed (change_node s (touch_node m e))
  unfolding touch_node
  write_label id n m found (same, status, good) =
      change_same-IsWellFormed s wf id n (touch_node m e) found same status good

  good_node : (id : String) {n : Node} → find_node id s.graph.nodes ≡ some n → node_ok n ≡ true
  good_node id found = find_node-ok id s.graph.nodes wf.nodes_ok found

  pub rename_node-Safe : (id label : String) → Safe IsWellFormed (rename_node s e id label)
  unfolding rename_node
  rename_node-Safe id label = Safe-bind (require_node s id) _ (require_node-Safe s id) λ n _ found.
      Safe-raise_if _ invalid_transition _ (λ q. cc)
        λ open_n.
          Safe-bind (relabel n label) _ (relabel-Safe n label (good_node id found))
            λ m _ r. Safe.returns _ (write_label id n m found r)

  pub update_action-Safe :
      (id : String) (c : ActionChanges) → Safe IsWellFormed (update_action s e id c)
  unfolding update_action
  update_action-Safe id c = Safe-bind (require_node s id) _ (require_node-Safe s id) λ n _ found.
      Safe-raise_if _ invalid_transition _ (λ q. cc)
        λ is_action.
          let good = good_node id found in
          Safe-bind (change_action c n.action) _
            (change_action-Safe n.type n.label c n.action
              (type_eq→eq n.type NodeType.action (ground arith)) (ground arith))
            λ a _ q. Safe.returns _ (
              write_label id n (record n { label = changed c.description n.label; action = a })
                found (refl, refl, ground arith))

  pub undo_last_correction-Safe :
      (history : List Event) (target : String)
      → Safe IsWellFormed (undo_last_correction s e history target)
  unfolding undo_last_correction
  undo_last_correction-Safe history target =
      Safe-bind (or_unsupported (split_last history)) _ (or_unsupported-Safe (split_last history))
        λ (earlier, last) _ _.
          Safe-raise_if _ unsupported_correction _ (λ q. cc)
            λ _.
              Safe-bind (or_unsupported (renamed_by last)) _ (or_unsupported-Safe (renamed_by last))
                λ id _ _. Safe-bind (require_node s id) _ (require_node-Safe s id) λ n _ found.
                  Safe-bind (or_unsupported (previous_label id earlier)) _
                    (or_unsupported-Safe (previous_label id earlier))
                    λ label _ _.
                      Safe-bind (relabel n label) _ (relabel-Safe n label (good_node id found))
                        λ m _ r. Safe.returns _ (write_label id n m found r)
