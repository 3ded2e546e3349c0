-- ===== src/Invariant/Changes.antt =====
-- What keeps a state well-formed: a changed Node, a new Node, other Edges.
use ronro.Prelude.{
  String, ◌≡◌, refl, sym, ap, subst, ◌∙◌, true, false, Option, none, some, List, [], ◌∷◌, ◌++◌,
  ◌==◌, All-append, distinct, distinct-append, eq_iff, Bool-cases, arith, inl, inr, str_eq→eq,
}
use ronro.Domain.{Node, Edge, State, Session, CurrentTopic}
use ronro.Materializer.Nodes.{find_node, put_node, set_topic, set_nodes, change_node, is_current}
use ronro.Materializer.Matrix.{set_edges, is_archived}
use ronro.Materializer.Provenance.Visits.{IsAcyclic}
use ronro.Invariant.{IsWellFormed, node_ok, has_node, ids, topic_ok}
use ronro.Invariant.Nodes.{
  find_node-id, find_node-has, All-put_node, ids-put_node, has_node-put_node, find_node-put_node,
  find_node-append, ids-append, has_node-append, has_node-ids,
}
use ronro.Invariant.Edges.{EdgesOk, EdgesOk-nodes}

pub found-has_node :
    (id : String) (ns : List Node) {n : Node} → find_node id ns ≡ some n → has_node n.id ns ≡ true
found-has_node id ns {n} h =
    subst (λ i. has_node i ns ≡ true) (sym (find_node-id id ns h)) (find_node-has id ns h)

-- A Node that is not archived may be changed without regard to the Current Topic.
pub topic_ok-put_node :
    (t : Option String) (m : Node) (ns : List Node)
    → has_node m.id ns ≡ true
    → is_archived m ≡ false
    → topic_ok t ns ≡ true
    → topic_ok t (put_node m ns) ≡ true
topic_ok-put_node none m ns there open_m h = refl
topic_ok-put_node (some id) m ns there open_m h =
    rw (find_node-put_node id m ns there) (ground arith)

-- So may a Node whose status stays.
pub topic_ok-put_same :
    (t : Option String) (id : String) (n m : Node) (ns : List Node)
    → find_node id ns ≡ some n
    → m.id ≡ id
    → m.status ≡ n.status
    → topic_ok t ns ≡ true
    → topic_ok t (put_node m ns) ≡ true
topic_ok-put_same none id n m ns found same status h = refl
topic_ok-put_same (some i) id n m ns found same status h =
    rw (find_node-put_node i m ns (rw same (find_node-has id ns found)))
      (elim (Bool-cases (m.id == i)) [
        | inl here ↦
            let e : id ≡ i = sym same ∙ str_eq→eq m.id i here in
            rw here (rw status (rw (← e, found) at h))
        | inr differ ↦ rw differ h
      ])

-- So may a Node that is not the Current Topic.
pub topic_ok-put_other :
    (s : State) (m : Node)
    → has_node m.id s.graph.nodes ≡ true
    → is_current s m.id ≡ false
    → topic_ok s.graph.current_topic.primary_topic_id s.graph.nodes ≡ true
    → topic_ok s.graph.current_topic.primary_topic_id (put_node m s.graph.nodes) ≡ true
topic_ok-put_other s m there other h = go s.graph.current_topic.primary_topic_id other h
  where
    go :
        (t : Option String)
        → elim t [ none ↦ false | some i ↦ i == m.id ] ≡ false
        → topic_ok t s.graph.nodes ≡ true
        → topic_ok t (put_node m s.graph.nodes) ≡ true
    go none o k = refl
    go (some id) o k =
        rw (find_node-put_node id m s.graph.nodes there)
          (ground (arith, eq_iff m.id id, eq_iff id m.id))

pub topic_ok-append :
    (t : Option String) (m : Node) (ns : List Node)
    → topic_ok t ns ≡ true
    → topic_ok t (ns ++ m ∷ []) ≡ true
topic_ok-append none m ns h = refl
topic_ok-append (some id) m ns h = go (find_node id ns) refl
  where
    go : (o : Option Node) → find_node id ns ≡ o → topic_ok (some id) (ns ++ m ∷ []) ≡ true
    go none e = absurd (cc (rw e at h))
    go (some n) e = rw (find_node-append id ns m e) (rw e at h)

module _ (s : State) (wf : IsWellFormed s) where
  pub change_node-IsWellFormed :
      (m : Node) (t : CurrentTopic)
      → has_node m.id s.graph.nodes ≡ true
      → node_ok m ≡ true
      → topic_ok t.primary_topic_id (put_node m s.graph.nodes) ≡ true
      → IsWellFormed (set_topic (change_node s m) t)
  change_node-IsWellFormed m t there good topic = record {
    same_session = wf.same_session;
    same_revision = wf.same_revision;
    same_sequence = wf.same_sequence;
    nodes_ok = All-put_node m s.graph.nodes wf.nodes_ok good;
    distinct_ids = ap distinct (ids-put_node m s.graph.nodes) ∙ wf.distinct_ids;
    edges_ok =
        EdgesOk-nodes s.graph.session_id s.graph.nodes (put_node m s.graph.nodes) s.graph.edges
          (λ id h. has_node-put_node id m s.graph.nodes ∙ h) wf.edges_ok;
    acyclic = wf.acyclic;
    topic = topic;
  }

  -- A change that archives nothing.
  pub change_open-IsWellFormed :
      (m : Node)
      → has_node m.id s.graph.nodes ≡ true
      → node_ok m ≡ true
      → is_archived m ≡ false
      → IsWellFormed (change_node s m)
  change_open-IsWellFormed m there good open_m =
      change_node-IsWellFormed m s.graph.current_topic there good (
        topic_ok-put_node s.graph.current_topic.primary_topic_id m s.graph.nodes there open_m
          wf.topic)

  -- A change that keeps the status.
  pub change_same-IsWellFormed :
      (id : String) (n m : Node)
      → find_node id s.graph.nodes ≡ some n
      → m.id ≡ n.id
      → m.status ≡ n.status
      → node_ok m ≡ true
      → IsWellFormed (change_node s m)
  change_same-IsWellFormed id n m found same status good =
      let e = same ∙ find_node-id id s.graph.nodes found in
      change_node-IsWellFormed m s.graph.current_topic
        (rw same (found-has_node id s.graph.nodes found)) good
        (topic_ok-put_same s.graph.current_topic.primary_topic_id id n m s.graph.nodes found e
          status wf.topic)

  pub set_topic-IsWellFormed :
      (t : CurrentTopic)
      → topic_ok t.primary_topic_id s.graph.nodes ≡ true
      → IsWellFormed (set_topic s t)
  set_topic-IsWellFormed t topic = record {
    same_session = wf.same_session;
    same_revision = wf.same_revision;
    same_sequence = wf.same_sequence;
    nodes_ok = wf.nodes_ok;
    distinct_ids = wf.distinct_ids;
    edges_ok = wf.edges_ok;
    acyclic = wf.acyclic;
    topic = topic;
  }

  pub add_node-IsWellFormed :
      (m : Node)
      → has_node m.id s.graph.nodes ≡ false
      → node_ok m ≡ true
      → IsWellFormed (set_nodes s (s.graph.nodes ++ m ∷ []))
  add_node-IsWellFormed m new good = record {
    same_session = wf.same_session;
    same_revision = wf.same_revision;
    same_sequence = wf.same_sequence;
    nodes_ok = All-append (λ n. node_ok n ≡ true) s.graph.nodes (m ∷ []) wf.nodes_ok (good, tt);
    distinct_ids =
        ap distinct (ids-append s.graph.nodes m)
        ∙ distinct-append (ids s.graph.nodes) m.id wf.distinct_ids
            (sym (has_node-ids m.id s.graph.nodes) ∙ new);
    edges_ok =
        EdgesOk-nodes s.graph.session_id s.graph.nodes (s.graph.nodes ++ m ∷ []) s.graph.edges
          (λ id h. ground (arith, has_node-append id s.graph.nodes (m ∷ []))) wf.edges_ok;
    acyclic = wf.acyclic;
    topic = topic_ok-append s.graph.current_topic.primary_topic_id m s.graph.nodes wf.topic;
  }

  pub set_edges-IsWellFormed :
      (es : List Edge)
      → EdgesOk s.graph.session_id s.graph.nodes es
      → IsAcyclic es
      → IsWellFormed (set_edges s es)
  set_edges-IsWellFormed es good free = record {
    same_session = wf.same_session;
    same_revision = wf.same_revision;
    same_sequence = wf.same_sequence;
    nodes_ok = wf.nodes_ok;
    distinct_ids = wf.distinct_ids;
    edges_ok = good;
    acyclic = free;
    topic = wf.topic;
  }

  -- The Session's own fields, but for its id and revision, are free.
  pub set_session-IsWellFormed :
      (x : Session)
      → x.id ≡ s.session.id
      → x.graph_revision ≡ s.session.graph_revision
      → IsWellFormed (record s { session = x })
  set_session-IsWellFormed x same_id same_revision = record {
    same_session = wf.same_session ∙ sym same_id;
    same_revision = same_revision ∙ wf.same_revision;
    same_sequence = wf.same_sequence;
    nodes_ok = wf.nodes_ok;
    distinct_ids = wf.distinct_ids;
    edges_ok = wf.edges_ok;
    acyclic = wf.acyclic;
    topic = wf.topic;
  }
