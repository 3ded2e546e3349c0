-- ===== src/Lifecycle/Organizing.antt =====
-- The handlers that archive, park, restore and undo, and those that change Edges, move the Nodes as
-- the table allows.
use ronro.Prelude.{
  String, ◌≡◌, refl, sym, subst, ◌∙◌, true, Option, none, some, List, arith, eq_iff,
}
use ronro.Errors.Ensures.{Ensures, Ensures-ok, Ensures-bind, Ensures-then, Ensures-raise_if}
use ronro.Domain.{Node, State, Event, Payload, Relation, Edge, ActionChanges, status_eq→eq}
use ronro.Materializer.Nodes.{find_node, require_node, touch_node}
use ronro.Materializer.Relations.{relation_detected, add_detected, remove_old, add_new}
use ronro.Materializer.Rewire.{rewire_edges}
use ronro.Materializer.Organizing.{
  archive_node, move_to_parking_lot, restore_from_parking_lot, update_action, set_current_topic,
}
use ronro.Materializer.Detection.{relabel}
use ronro.Materializer.Undo.{undo_last_correction}
use ronro.Invariant.Nodes.{find_node-id}
use ronro.Lifecycle.{IsMoved, may_move, may_appear}
use ronro.Lifecycle.Nodes.{NodesMoved, NodesMoved-refl, NodesMoved-put_node, stays}
use ronro.Lifecycle.Steps.{Moves, require_node-found, relabel-kept, unfocus-nodes}

-- A change of the status alone, which the Event names.
pub IsMoved-status :
    (id : String) (p : Payload) (n m : Node)
    → m.type ≡ n.type
    → m.label ≡ n.label
    → may_move id n.status p m.status ≡ true
    → IsMoved id p n m
IsMoved-status id p n m type label status = record {
  type = type;
  status = status;
  label = λ _. label;
}

IsMoved-then_quiet :
    (id : String) (p : Payload) (n m k : Node)
    → IsMoved id p n m
    → IsMoved id Payload.session_started m k
    → IsMoved id p n k
IsMoved-then_quiet id p n m k first quiet = record {
  type = quiet.type ∙ first.type;
  status = rw (← status_eq→eq m.status k.status quiet.status) first.status;
  label = λ h. quiet.label refl ∙ first.label h;
}

quiet_appear :
    {id : String} (e : Event) (p : Payload) (m k : Node)
    → IsMoved id Payload.session_started m k
    → m.id ≡ k.id
    → may_appear e p m ≡ true
    → may_appear e p k ≡ true
quiet_appear e (Payload.node_detected type label d) m k moved id born =
    let same = status_eq→eq m.status k.status moved.status in
    let kept = moved.label refl in rw (← id) (rw kept (rw (moved.type) (rw (← same) born)))
quiet_appear e _ m k moved id born = absurd (cc born)

-- A change that keeps every status and label and adds no Node, after another one.
pub then_quiet :
    (e : Event) (p : Payload) (ns ms ks : List Node)
    → NodesMoved e p ns ms
    → NodesMoved e Payload.session_started ms ks
    → NodesMoved e p ns ks
then_quiet e p ns ms ks first quiet = record {
  moved = λ id n found.
      let (m, m_found, m_moved) = first.moved id n found in
      let (k, k_found, k_moved) = quiet.moved id m m_found in
      (k, k_found, IsMoved-then_quiet id p n m k m_moved k_moved);
  appeared = λ id k absent found. appeared_before id k absent found (find_node id ms) refl;
}
  where
    appeared_before :
        (id : String) (k : Node)
        → find_node id ns ≡ none
        → find_node id ks ≡ some k
        → (o : Option Node) → find_node id ms ≡ o
        → may_appear e p k ≡ true
    appeared_before id k absent found none gone = absurd (cc (quiet.appeared id k gone found))
    appeared_before id k absent found (some m) there =
        let (l, l_found, moved) = quiet.moved id m there in
        let q : some l ≡ some k = sym l_found ∙ found in
        let q' : l ≡ k = cc in
        let born = first.appeared id m absent there in
        let same : m.id ≡ k.id = find_node-id id ms there ∙ sym (find_node-id id ks found) in
        quiet_appear e p m k (subst (λ x. IsMoved id Payload.session_started m x) q' moved) same
          born

module _ (s : State) (e : Event) where
  pub archive_node-Moves : (id : String) → Moves e (Payload.archive_node id) s (archive_node s e id)
  unfolding archive_node touch_node
  archive_node-Moves id = Ensures-bind (require_node s id) _ λ n found. Ensures-raise_if _ _ _ λ _.
      Ensures-ok _ (
        rw unfocus-nodes (
          NodesMoved-put_node e _ s.graph.nodes id n _ (require_node-found s id n found) refl
            (IsMoved-status id _ n _ refl refl (ground (arith, eq_iff id id)))))

  pub move_to_parking_lot-Moves :
      (id : String) → Moves e (Payload.move_to_parking_lot id) s (move_to_parking_lot s e id)
  unfolding move_to_parking_lot touch_node
  move_to_parking_lot-Moves id = Ensures-bind (require_node s id) _ λ n found.
      Ensures-raise_if _ _ _ λ _. Ensures-raise_if _ _ _ λ h. Ensures-ok _ (
        rw unfocus-nodes (
          NodesMoved-put_node e _ s.graph.nodes id n _ (require_node-found s id n found) refl
            (IsMoved-status id _ n _ refl refl (ground (arith, eq_iff id id)))))

  pub restore_from_parking_lot-Moves :
      (id : String)
      → Moves e (Payload.restore_from_parking_lot id) s (restore_from_parking_lot s e id)
  unfolding restore_from_parking_lot touch_node
  restore_from_parking_lot-Moves id = Ensures-bind (require_node s id) _ λ n found.
      Ensures-raise_if _ _ _ λ h. Ensures-ok _ (
        NodesMoved-put_node e _ s.graph.nodes id n _ (require_node-found s id n found) refl
          (IsMoved-status id _ n _ refl refl (ground (arith, eq_iff id id))))

  pub update_action-Moves :
      (id : String) (c : ActionChanges)
      → Moves e (Payload.update_action id c) s (update_action s e id c)
  unfolding update_action touch_node
  update_action-Moves id c = Ensures-bind (require_node s id) _ λ n found.
      Ensures-raise_if _ _ _ λ _. Ensures-bind _ _ λ a _. Ensures-ok _ (
        NodesMoved-put_node e _ s.graph.nodes id n _ (require_node-found s id n found) refl record {
          type = refl;
          status = stays id n.status (Payload.update_action id c);
          label = λ other. absurd (ground (arith, eq_iff id id));
        })

  pub set_current_topic-Moves :
      (id : String) → Moves e (Payload.set_current_topic id) s (set_current_topic s e id)
  unfolding set_current_topic touch_node
  set_current_topic-Moves id = Ensures-bind (require_node s id) _ λ n found.
      Ensures-raise_if _ _ _ λ _. Ensures-ok _ (
        NodesMoved-put_node e _ s.graph.nodes id n _ (require_node-found s id n found) refl
          (IsMoved-status id _ n _ refl refl (stays id n.status (Payload.set_current_topic id))))

  pub undo_last_correction-Moves :
      (history : List Event) (target : String)
      → Moves e (Payload.undo_last_correction target) s (undo_last_correction s e history target)
  unfolding undo_last_correction touch_node
  undo_last_correction-Moves history target = Ensures-bind _ _ λ (earlier, last) _.
      Ensures-raise_if _ _ _ λ _. Ensures-bind _ _ λ id _.
        Ensures-bind (require_node s id) _ λ n found. Ensures-bind _ _ λ label _.
          Ensures-bind (relabel n label) _ λ m relabelled.
            let (same, type, status) = relabel-kept n m label relabelled in
            Ensures-ok _ (
              NodesMoved-put_node e _ s.graph.nodes id n _ (require_node-found s id n found) same
                record {
                  type = type;
                  status = rw status (stays id n.status (Payload.undo_last_correction target));
                  label = λ other. cc;
                })

  add_detected-nodes :
      (p : Payload) (r : Relation) (o : Option Edge) → Moves e p s (add_detected s e r o)
  unfolding add_detected
  add_detected-nodes p r (some x) = Ensures-ok _ (NodesMoved-refl e p s.graph.nodes)
  add_detected-nodes p r none =
      Ensures-raise_if _ _ _ λ _. Ensures-ok _ (NodesMoved-refl e p s.graph.nodes)

  pub relation_detected-Moves :
      (p : Payload) (history : List Event) (r : Relation)
      → Moves e p s (relation_detected s e history r)
  unfolding relation_detected
  relation_detected-Moves p history r = Ensures-bind _ _ λ n _. Ensures-bind _ _ λ k _.
      Ensures-raise_if _ _ _ λ _. Ensures-raise_if _ _ _ λ _.
        Ensures-raise_if _ _ _
          λ _. Ensures-raise_if _ _ _ λ _. Ensures-then _ _ λ _. add_detected-nodes p r _

  pub remove_old-nodes :
      (old : Option Relation) → Ensures (λ t. t.graph.nodes ≡ s.graph.nodes) (remove_old s old)
  unfolding remove_old
  remove_old-nodes none = Ensures-ok _ refl
  remove_old-nodes (some r) = Ensures-bind _ _ λ es _. Ensures-ok _ refl

  pub add_new-nodes :
      (new : Option Relation) → Ensures (λ t. t.graph.nodes ≡ s.graph.nodes) (add_new s e new)
  unfolding add_new
  add_new-nodes none = Ensures-ok _ refl
  add_new-nodes (some r) = Ensures-bind _ _ λ n _. Ensures-bind _ _ λ k _.
      Ensures-raise_if _ _ _ λ _. Ensures-raise_if _ _ _ λ _.
        Ensures-raise_if _ _ _
          λ _. Ensures-raise_if _ _ _ λ _. Ensures-raise_if _ _ _ λ _. Ensures-ok _ refl

  pub rewire_edges-nodes :
      (a b : String) → Ensures (λ t. t.graph.nodes ≡ s.graph.nodes) (rewire_edges s e a b)
  unfolding rewire_edges
  rewire_edges-nodes a b = Ensures-raise_if _ _ _ λ _. Ensures-ok _ refl
