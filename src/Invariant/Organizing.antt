-- ===== src/Invariant/Organizing.antt =====
-- The handlers that archive, merge, park and restore Nodes and set the Current Topic keep the
-- state well-formed.
use ronro.Prelude.{
  String, ◌≡◌, refl, sym, subst, ◌∙◌, true, false, ◌||◌, some, List, [], ◌==◌, eq_iff, Bool-cases,
  inl, inr, arith,
}
use ronro.Errors.{ok, ◌>>=◌, invalid_transition, unsupported_correction, unsupported_relation}
use ronro.Errors.Safe.{Safe, Safe-bind, Safe-raise_if}
use ronro.Domain.{Node, NodeStatus, State, Event, Edge, CurrentTopic, status_eq→eq}
use ronro.Materializer.Nodes.{
  find_node, require_node, touch_node, change_node, put_node, set_topic, clear_current_topic,
  is_current,
}
use ronro.Materializer.Matrix.{is_archived, set_edges}
use ronro.Materializer.Rewire.{rewire_edges, rewire_loop}
use ronro.Materializer.Provenance.Visits.{IsAcyclic}
use ronro.Materializer.Provenance.Cycles.{has_provenance_cycle_iff}
use ronro.Materializer.Organizing.{
  archive_node, merge_nodes, move_to_parking_lot, restore_from_parking_lot, set_current_topic,
  unfocus, refocus,
}
use ronro.Invariant.{IsWellFormed, node_ok, topic_ok, has_node}
use ronro.Invariant.Nodes.{
  require_node-Safe, find_node-ok, find_node-id, find_node-put_node, has_node-put_node,
}
use ronro.Invariant.Edges.{EdgesOk-rewire_loop}
use ronro.Invariant.Changes.{
  found-has_node, change_open-IsWellFormed, change_node-IsWellFormed, set_edges-IsWellFormed,
  topic_ok-put_other,
}

module _ (s : State) (e : Event) (wf : IsWellFormed s) where
  good_node : (id : String) {n : Node} → find_node id s.graph.nodes ≡ some n → node_ok n ≡ true
  good_node id found = find_node-ok id s.graph.nodes wf.nodes_ok found

  -- A Node is changed, and the focus leaves it if it was the Current Topic.
  unfocus-IsWellFormed :
      (m : Node)
      → has_node m.id s.graph.nodes ≡ true
      → node_ok m ≡ true
      → IsWellFormed (unfocus (change_node s m) e m.id)
  unfolding clear_current_topic
  unfocus-IsWellFormed m there good = elim (Bool-cases (is_current s m.id)) [
    | inl current ↦ rw current (change_node-IsWellFormed s wf m _ there good refl)
    | inr other ↦ rw other (
        change_node-IsWellFormed s wf m s.graph.current_topic there good
          (topic_ok-put_other s m there other wf.topic))
  ]

  pub archive_node-Safe : (id : String) → Safe IsWellFormed (archive_node s e id)
  unfolding archive_node touch_node
  archive_node-Safe id = Safe-bind (require_node s id) _ (require_node-Safe s id) λ n _ found.
      Safe-raise_if _ invalid_transition _ (λ q. cc)
        λ h.
          let good = good_node id found in
          Safe.returns _ (
            unfocus-IsWellFormed (touch_node (record n { status = NodeStatus.archived }) e)
              (found-has_node id s.graph.nodes found) (ground arith))

  pub move_to_parking_lot-Safe : (id : String) → Safe IsWellFormed (move_to_parking_lot s e id)
  unfolding move_to_parking_lot touch_node
  move_to_parking_lot-Safe id =
      Safe-bind (require_node s id) _ (require_node-Safe s id) λ n _ found.
        Safe-raise_if _ invalid_transition _ (λ q. cc)
          λ not_decision.
            Safe-raise_if _ invalid_transition _ (λ q. cc)
              λ h.
                let good = good_node id found in
                Safe.returns _ (
                  unfocus-IsWellFormed (touch_node (record n { status = NodeStatus.parked }) e)
                    (found-has_node id s.graph.nodes found) (ground arith))

  pub restore_from_parking_lot-Safe :
      (id : String) → Safe IsWellFormed (restore_from_parking_lot s e id)
  unfolding restore_from_parking_lot touch_node
  restore_from_parking_lot-Safe id =
      Safe-bind (require_node s id) _ (require_node-Safe s id) λ n _ found.
        Safe-raise_if _ invalid_transition _ (λ q. cc)
          λ h.
            let good = good_node id found in
            let was_parked = status_eq→eq n.status NodeStatus.parked (ground arith) in
            Safe.returns _ (
              change_open-IsWellFormed s wf _ (found-has_node id s.graph.nodes found) (ground arith)
                refl)

  pub set_current_topic-Safe : (id : String) → Safe IsWellFormed (set_current_topic s e id)
  unfolding set_current_topic touch_node
  set_current_topic-Safe id = Safe-bind (require_node s id) _ (require_node-Safe s id) λ n _ found.
      Safe-raise_if _ invalid_transition _ (λ q. cc)
        λ h. Safe.returns _ (
          change_node-IsWellFormed s wf (touch_node n e) _ (found-has_node id s.graph.nodes found)
            (good_node id found)
            (rw
              (find_node-put_node n.id (touch_node n e) s.graph.nodes
                (found-has_node id s.graph.nodes found))
              (ground (arith, eq_iff n.id n.id))))

-- The Edges after a merge.
abbrev merged_edges : State → Event → String → String → List Edge
merged_edges s e source target = rewire_loop s.graph.session_id e source target [] s.graph.edges

rewire_edges-Safe :
    (s : State) (e : Event) (source target : String)
    → Safe
        (λ t.
          (t ≡ set_edges s (merged_edges s e source target))
          × IsAcyclic (merged_edges s e source target))
        (rewire_edges s e source target)
unfolding rewire_edges
rewire_edges-Safe s e source target =
    Safe-raise_if _ unsupported_relation _ (λ q. cc)
      λ h. Safe.returns _ (refl, (has_provenance_cycle_iff (merged_edges s e source target)).1.0 h)

module _ (s : State) (e : Event) (wf : IsWellFormed s) (source target : Node)
    (source_there : has_node source.id s.graph.nodes ≡ true)
    (target_found : find_node target.id s.graph.nodes ≡ some target)
    (differ : (source.id == target.id) ≡ false) (source_good : node_ok source ≡ true)
    (target_good : node_ok target ≡ true)
    (open_both : (is_archived source || is_archived target) ≡ false) where
  abbrev gone : Node
  gone = touch_node (record source { status = NodeStatus.archived }) e

  abbrev kept : State → State
  kept t = change_node t (touch_node target e)

  kept-IsWellFormed :
      (t : CurrentTopic)
      → topic_ok t.primary_topic_id (put_node gone s.graph.nodes) ≡ true
      → IsWellFormed (kept (set_topic (change_node s gone) t))
  unfolding touch_node
  kept-IsWellFormed t topic =
      change_open-IsWellFormed (set_topic (change_node s gone) t)
        (change_node-IsWellFormed s wf gone t source_there (ground arith) topic)
        (touch_node target e)
        (has_node-put_node target.id gone s.graph.nodes
          ∙ found-has_node target.id s.graph.nodes target_found)
        target_good (ground arith)

  target_kept : has_node target.id (kept (change_node s gone)).graph.nodes ≡ true
  target_kept =
      has_node-put_node target.id (touch_node target e) (put_node gone s.graph.nodes)
      ∙ has_node-put_node target.id gone s.graph.nodes
      ∙ found-has_node target.id s.graph.nodes target_found

  -- The topic of the merged state: the target, if the source was current.
  merged-IsWellFormed :
      IsAcyclic (merged_edges (kept (change_node s gone)) e source.id target.id)
      → IsWellFormed (
          refocus
            (set_edges
              (kept (change_node s gone))
              (merged_edges (kept (change_node s gone)) e source.id target.id))
            e
            source.id
            target.id)
  merged-IsWellFormed free = elim (Bool-cases (is_current s source.id)) [
    | inl current ↦ rw current (
        finish _ (
          unfold touch_node in
          rw (find_node-put_node target.id gone s.graph.nodes source_there)
            (rw differ (rw target_found (ground arith)))))
    | inr other ↦ rw other (
        finish s.graph.current_topic
          (unfold touch_node in topic_ok-put_other s gone source_there other wf.topic))
  ]
    where
      finish :
          (t : CurrentTopic)
          → topic_ok t.primary_topic_id (put_node gone s.graph.nodes) ≡ true
          → IsWellFormed (
              set_edges
                (kept (set_topic (change_node s gone) t))
                (merged_edges (kept (change_node s gone)) e source.id target.id))
      finish t topic =
          let s₂ = kept (set_topic (change_node s gone) t) in
          let wf₂ = kept-IsWellFormed t topic in
          set_edges-IsWellFormed s₂ wf₂
            (merged_edges (kept (change_node s gone)) e source.id target.id)
            (EdgesOk-rewire_loop s.graph.session_id s₂.graph.nodes e source.id target.id []
              s.graph.edges target_kept tt wf₂.edges_ok)
            free

  pub merge-Safe : Safe IsWellFormed (
      rewire_edges (kept (change_node s gone)) e source.id target.id >>= λ s₃.
      ok (refocus s₃ e source.id target.id))
  merge-Safe =
      Safe-bind (rewire_edges (kept (change_node s gone)) e source.id target.id) _
        (rewire_edges-Safe (kept (change_node s gone)) e source.id target.id)
        λ s₃ _ (same, free). rw same (Safe.returns _ (merged-IsWellFormed free))

module _ (s : State) (e : Event) (wf : IsWellFormed s) where
  pub merge_nodes-Safe :
      (source target : String) → Safe IsWellFormed (merge_nodes s e source target)
  unfolding merge_nodes
  merge_nodes-Safe source_id target_id =
      Safe-bind (require_node s source_id) _ (require_node-Safe s source_id) λ n _ n_found.
        Safe-bind (require_node s target_id) _ (require_node-Safe s target_id) λ k _ k_found.
          Safe-raise_if _ unsupported_correction _ (λ q. cc)
            λ differ.
              Safe-raise_if _ invalid_transition _ (λ q. cc)
                λ open_both.
                  merge-Safe s e wf n k (found-has_node source_id s.graph.nodes n_found)
                    (subst (λ i. find_node i s.graph.nodes ≡ some k)
                      (sym (find_node-id target_id s.graph.nodes k_found)) k_found)
                    differ (find_node-ok source_id s.graph.nodes wf.nodes_ok n_found)
                    (find_node-ok target_id s.graph.nodes wf.nodes_ok k_found) open_both
