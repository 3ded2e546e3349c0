-- ===== src/Invariant/Edges.antt =====
-- What keeps the Edges well-formed: more Nodes, further or fewer Edges, and the rewiring of a merge.
use ronro.Prelude.{
  String, ◌≡◌, sym, subst, inl, inr, true, false, some, List, [], ◌∷◌, ◌==◌, All, All-map, eq_iff,
  Bool-cases, arith,
}
use ronro.Domain.{Node, Edge, Event, Relation}
use ronro.Materializer.Matrix.{edge_id, edge_key, key_eq}
use ronro.Materializer.Relations.{extend_edge, remove_edge, new_edge}
use ronro.Materializer.Rewire.{rewire_edge, reindex, rewire_loop}
use ronro.Materializer.Provenance.Changes.{map-eq-some}
use ronro.Invariant.{edge_ok, has_node}

abbrev pub EdgesOk : String → List Node → List Edge → Type 0
EdgesOk session_id nodes = All (λ e. edge_ok session_id nodes e ≡ true)

-- The ends of an Edge stay Nodes where no Node is lost.
pub EdgesOk-nodes :
    (sid : String) (ns ms : List Node) (es : List Edge)
    → ((id : String) → has_node id ns ≡ true → has_node id ms ≡ true)
    → EdgesOk sid ns es
    → EdgesOk sid ms es
EdgesOk-nodes sid ns ms es keep all =
    All-map (λ e. edge_ok sid ns e ≡ true) (λ e. edge_ok sid ms e ≡ true) es
      (λ e h. ground (arith, keep e.source_node_id, keep e.target_node_id)) all

module _ (sid : String) (ns : List Node) where
  pub EdgesOk-extend_edge :
      (id : String) (events : List String) (es : List Edge)
      → EdgesOk sid ns es
      → EdgesOk sid ns (extend_edge id events es)
  EdgesOk-extend_edge id events [] all = tt
  EdgesOk-extend_edge id events (e ∷ es) all = elim (Bool-cases (e.id == id)) [
    | inl same ↦ rw same (all.0, all.1)
    | inr differ ↦ rw differ (all.0, EdgesOk-extend_edge id events es all.1)
  ]

  pub EdgesOk-remove_edge :
      (r : Relation) (es es' : List Edge)
      → remove_edge r es ≡ some es'
      → EdgesOk sid ns es
      → EdgesOk sid ns es'
  unfolding remove_edge
  EdgesOk-remove_edge r [] es' h all = cc
  EdgesOk-remove_edge r (e ∷ es) es' h all = elim (Bool-cases (key_eq (edge_key e) r)) [
    | inl same ↦
        let q : some es ≡ some es' = rw same at h in
        let q' : es ≡ es' = cc in subst (EdgesOk sid ns) q' all.1
    | inr differ ↦
        let (ys, p, q) = map-eq-some e (remove_edge r es) es' (rw differ at h) in
        subst (EdgesOk sid ns) (sym q) (all.0, EdgesOk-remove_edge r es ys p all.1)
  ]

  EdgesOk-reindex :
      (x : Edge) (es : List Edge)
      → edge_ok sid ns x ≡ true
      → EdgesOk sid ns es
      → EdgesOk sid ns (reindex x es)
  unfolding reindex
  EdgesOk-reindex x [] h all = (h, tt)
  EdgesOk-reindex x (y ∷ ys) h all = elim (Bool-cases (y.id == x.id)) [
    | inl same ↦ rw same (all.0, all.1)
    | inr differ ↦ rw differ (all.0, EdgesOk-reindex x ys h all.1)
  ]

  edge_ok-rewire_edge :
      (e : Event) (source target : String) (x : Edge)
      → has_node target ns ≡ true
      → edge_ok sid ns x ≡ true
      → ((rewire_edge sid e source target x).source_node_id
          == (rewire_edge sid e source target x).target_node_id)
        ≡ false
      → edge_ok sid ns (rewire_edge sid e source target x) ≡ true
  unfolding rewire_edge
  edge_ok-rewire_edge e source target x there h differ =
      let y = rewire_edge sid e source target x in
      ground (
        arith,
        eq_iff (edge_id sid x.type y.source_node_id y.target_node_id)
            (edge_id sid x.type y.source_node_id y.target_node_id),
      )

  pub EdgesOk-rewire_loop :
      (e : Event) (source target : String) (acc es : List Edge)
      → has_node target ns ≡ true
      → EdgesOk sid ns acc
      → EdgesOk sid ns es
      → EdgesOk sid ns (rewire_loop sid e source target acc es)
  unfolding rewire_loop
  EdgesOk-rewire_loop e source target acc [] there got all = got
  EdgesOk-rewire_loop e source target acc (x ∷ xs) there got all =
      let y = rewire_edge sid e source target x in
      elim (Bool-cases (y.source_node_id == y.target_node_id)) [
        | inl loop ↦ rw loop (EdgesOk-rewire_loop e source target acc xs there got all.1)
        | inr differ ↦ rw differ (
            EdgesOk-rewire_loop e source target (reindex y acc) xs there
              (EdgesOk-reindex y acc (edge_ok-rewire_edge e source target x there all.0 differ) got)
              all.1)
      ]

pub edge_ok-new_edge :
    (sid : String) (ns : List Node) (e : Event) (r : Relation)
    → e.session_id ≡ sid
    → has_node r.source_node_id ns ≡ true
    → has_node r.target_node_id ns ≡ true
    → (r.source_node_id == r.target_node_id) ≡ false
    → edge_ok sid ns (new_edge e r) ≡ true
edge_ok-new_edge sid ns e r same s t differ = rw same (
    ground (
      arith,
      eq_iff (edge_id sid r.relation_type r.source_node_id r.target_node_id)
          (edge_id sid r.relation_type r.source_node_id r.target_node_id),
    ))
