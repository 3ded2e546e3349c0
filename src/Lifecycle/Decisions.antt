-- ===== src/Lifecycle/Decisions.antt =====
-- Decisions are confirmed by people only.
use ronro.Prelude.{
  String, ◌≡◌, ◌≢◌, refl, sym, ◌∙◌, subst, ◌⊎◌, inl, inr, true, Option, none, some, List, arith,
  eq_iff,
}
use ronro.Errors.{ok}
use ronro.Domain.{Actor, Node, NodeStatus, State, Event, Payload, status_eq→eq}
use ronro.Domain.Schema.{Formats, valid_payload}
use ronro.Materializer.Nodes.{find_node}
use ronro.Materializer.Apply.{apply}
use ronro.Invariant.Apply.{apply-IsApplied, valid_event-payload}
use ronro.Lifecycle.{may_move, may_appear}
use ronro.Lifecycle.Nodes.{NodesMoved}
use ronro.Lifecycle.Moves.{apply-NodesMoved}

-- The Event that confirms the Decision `id`, as a Human sends it.
abbrev pub IsConfirmation : String → Event → Type 0
IsConfirmation id e =
    (e.actor ≡ Actor.human) × (e.payload ≡ Payload.confirm_decision id NodeStatus.candidate)

confirm-payload :
    (formats : Formats) (id : String) (a : NodeStatus) (actor : Actor) (p : Payload)
    → valid_payload formats actor p ≡ true
    → may_move id a p NodeStatus.confirmed ≡ true
    → (a ≡ NodeStatus.confirmed)
      ⊎ ((actor ≡ Actor.human)
          × (p ≡ Payload.confirm_decision id NodeStatus.candidate)
          × (a ≡ NodeStatus.candidate))
unfolding valid_payload
confirm-payload formats id a actor (Payload.confirm_decision i x) v h =
    ground (arith, eq_iff i id, status_eq→eq x NodeStatus.candidate)
confirm-payload formats id a actor _ v h = inl (ground arith)

new-not-confirmed :
    (e : Event) (p : Payload) (m : Node) → may_appear e p m ≡ true → m.status ≢ NodeStatus.confirmed
new-not-confirmed e (Payload.node_detected type label d) m h is = ground arith
new-not-confirmed e _ m h is = absurd (cc h)

-- Whatever Event is applied, by whomever: if a Node has the status confirmed afterwards, it had it
-- before, or it was a candidate and the Event is a Human `confirm_decision` that names it. No other
-- Event, and none of the Analyzer, confirms a Decision.
pub apply-confirms :
    (formats : Formats) (s : State) (e : Event) (history : List Event) (next : State) (id : String)
    (m : Node)
    → apply formats s e history ≡ ok next
    → find_node id next.graph.nodes ≡ some m
    → m.status ≡ NodeStatus.confirmed
    → (n : Node) × (find_node id s.graph.nodes ≡ some n)
      × ((n.status ≡ NodeStatus.confirmed)
          ⊎ ((n.status ≡ NodeStatus.candidate) × IsConfirmation id e))
apply-confirms formats s e history next id m h m_found confirmed =
    go (find_node id s.graph.nodes) refl
  where
    all : NodesMoved e e.payload s.graph.nodes next.graph.nodes
    all = apply-NodesMoved formats s e history next h

    go :
        (o : Option Node)
        → find_node id s.graph.nodes ≡ o
        → (n : Node) × (find_node id s.graph.nodes ≡ some n)
          × ((n.status ≡ NodeStatus.confirmed)
              ⊎ ((n.status ≡ NodeStatus.candidate) × IsConfirmation id e))
    go none absent =
        absurd (new-not-confirmed e e.payload m (all.appeared id m absent m_found) confirmed)
    go (some n) found =
        let (k, k_found, moved) = all.moved id n found in
        let q : some k ≡ some m = sym k_found ∙ m_found in
        let q' : k ≡ m = cc in
        let applied = apply-IsApplied formats s e history next h in
        let valid = valid_event-payload formats e applied.valid in
        let to_confirmed : may_move id n.status e.payload NodeStatus.confirmed ≡ true =
          subst (λ y. may_move id n.status e.payload y ≡ true) confirmed
            (subst (λ (x : Node). may_move id n.status e.payload x.status ≡ true) q'
              moved.status) in
        (
          n,
          found,
          elim (confirm-payload formats id n.status e.actor e.payload valid to_confirmed) [
            | inl before ↦ inl before
            | inr (human, named, was) ↦ inr (was, (human, named))
          ],
        )
