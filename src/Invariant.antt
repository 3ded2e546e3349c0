-- ===== src/Invariant.antt =====
-- What every reachable state satisfies, beyond the shape of its type.
pub mod Nodes
pub mod Edges
pub mod Changes
pub mod Steps
pub mod Labels
pub mod Organizing
pub mod Relations
pub mod Apply
use ronro.Prelude.{
  ℕ, String, ◌≡◌, Bool, true, false, not, ◌&&◌, ◌||◌, Option, none, some, List, [], ◌∷◌, ◌==◌, map,
  All, any, distinct,
}
use ronro.Domain.{Node, NodeType, NodeStatus, ActionDetails, Edge, Graph, State}
use ronro.Materializer.Nodes.{find_node}
use ronro.Materializer.Matrix.{edge_id, is_archived}
use ronro.Materializer.Provenance.Visits.{IsAcyclic}

-- The statuses that the handlers of prototype/materializer.py can give each type of Node. This is not
-- the table of docs/architecture/discussion-event-catalog.md: the code parks an Idea, an Option, a
-- Concern or an Action as well, which that table does not list, and never resolves an Option or a
-- Concern, which it does.
abbrev pub allowed_status : NodeType → NodeStatus → Bool
allowed_status NodeType.decision NodeStatus.candidate = true
allowed_status NodeType.decision NodeStatus.confirmed = true
allowed_status NodeType.decision NodeStatus.revoked = true
allowed_status NodeType.decision NodeStatus.archived = true
allowed_status NodeType.decision _ = false
allowed_status NodeType.open_item NodeStatus.resolved = true
allowed_status _ NodeStatus.active = true
allowed_status _ NodeStatus.parked = true
allowed_status _ NodeStatus.archived = true
allowed_status _ _ = false

-- An Action has details, and their description is its label. Other Nodes have none.
abbrev pub is_described : NodeType → String → Option ActionDetails → Bool
is_described NodeType.action label none = false
is_described NodeType.action label (some a) = a.description == label
is_described _ label none = true
is_described _ label (some a) = false

abbrev pub node_ok : Node → Bool
node_ok n = allowed_status n.type n.status && is_described n.type n.label n.action

abbrev pub has_node : String → List Node → Bool
has_node id nodes = any (λ n. n.id == id) nodes

abbrev pub ids : List Node → List String
ids nodes = map (λ n. n.id) nodes

-- Both ends of an Edge are Nodes, and different ones; its id is that of its ends and type.
abbrev pub edge_ok : String → List Node → Edge → Bool
edge_ok session_id nodes e =
    has_node e.source_node_id nodes
    && has_node e.target_node_id nodes
    && not (e.source_node_id == e.target_node_id)
    && (e.id == edge_id session_id e.type e.source_node_id e.target_node_id)

abbrev found_unarchived : Option Node → Bool
found_unarchived none = false
found_unarchived (some n) = not (is_archived n)

-- The Current Topic, if any, is a Node that is not archived.
abbrev pub topic_ok : Option String → List Node → Bool
topic_ok none nodes = true
topic_ok (some id) nodes = found_unarchived (find_node id nodes)

pub record IsWellFormed (s : State) : Type 0 where
  pub same_session : s.graph.session_id ≡ s.session.id
  pub same_revision : s.session.graph_revision ≡ s.graph.revision
  pub same_sequence : s.graph.last_event_sequence ≡ s.graph.revision
  pub nodes_ok : All (λ n. node_ok n ≡ true) s.graph.nodes
  pub distinct_ids : distinct (ids s.graph.nodes) ≡ true
  pub edges_ok : All (λ e. edge_ok s.graph.session_id s.graph.nodes e ≡ true) s.graph.edges
  pub acyclic : IsAcyclic s.graph.edges
  pub topic : topic_ok s.graph.current_topic.primary_topic_id s.graph.nodes ≡ true
