-- ===== src/Materializer/Rewire.antt =====
-- prototype/materializer.py: `_rewire_edges`, which rebuilds the Edges after a merge.
use ronro.Prelude.{String, ◌||◌, List, [], ◌∷◌, ◌==◌, if◌then◌else◌}
use ronro.Errors.{Result, ok, unsupported_relation, raise_if, ◌>>◌}
use ronro.Domain.{Edge, State, Event}
use ronro.Materializer.Nodes.{append_unique, append_all_unique}
use ronro.Materializer.Provenance.{has_provenance_cycle}
use ronro.Materializer.Matrix.{edge_id, set_edges}

-- One Edge in the loop of `_rewire_edges`, up to its new id.
unfoldable pub rewire_edge : String → Event → String → String → Edge → Edge
unfolding edge_id
rewire_edge session_id e source target x =
    let from_source = x.source_node_id == source in
    let to_source = x.target_node_id == source in
    let s = if from_source then target else x.source_node_id in
    let t = if to_source then target else x.target_node_id in
    record {
      id = edge_id session_id x.type s t;
      source_node_id = s;
      target_node_id = t;
      type = x.type;
      source_event_ids =
          if from_source || to_source
          then append_unique x.source_event_ids e.event_id
          else x.source_event_ids;
    }

-- reindexed[edge["id"]]: a dict in the order of insertion.
unfoldable pub reindex : Edge → List Edge → List Edge
reindex x [] = x ∷ []
reindex x (y ∷ ys) =
    let rest = reindex x ys in
    if y.id == x.id
    then record y { source_event_ids = append_all_unique y.source_event_ids x.source_event_ids }
      ∷ ys
    else y ∷ rest

unfoldable pub rewire_loop : String → Event → String → String → List Edge → List Edge → List Edge
unfolding rewire_edge reindex
rewire_loop session_id e source target reindexed [] = reindexed
rewire_loop session_id e source target reindexed (x ∷ xs) =
    let y = rewire_edge session_id e source target x in
    rewire_loop session_id e source target
      (if y.source_node_id == y.target_node_id then reindexed else reindex y reindexed) xs

unfoldable pub rewire_edges : State → Event → String → String → Result State
unfolding rewire_loop
rewire_edges s e source target = do
  let edges = rewire_loop s.graph.session_id e source target [] s.graph.edges
  raise_if (has_provenance_cycle edges) unsupported_relation
  ok (set_edges s edges)
