-- ===== src/Materializer/Matrix.antt =====
-- prototype/materializer.py: the relation matrix, the keys of Relations and the ids of Edges.
use ronro.Prelude.{String, Bool, true, false, ◌&&◌, Option, none, some, List, ◌==◌}
use ronro.Domain.{
  Node, NodeType, NodeStatus, Edge, EdgeType, State, Relation, edge_type_eq, status_eq,
}
use ronro.Domain.Text.{◌⧺◌}

-- RELATION_MATRIX: the sources that a type allows, and the targets.
unfoldable pub allowed_source : EdgeType → NodeType → Bool
allowed_source EdgeType.contains NodeType.topic = true
allowed_source EdgeType.contains _ = false
allowed_source EdgeType.has_option NodeType.topic = true
allowed_source EdgeType.has_option _ = false
allowed_source EdgeType.supports NodeType.idea = true
allowed_source EdgeType.supports NodeType.option = true
allowed_source EdgeType.supports _ = false
allowed_source EdgeType.opposes NodeType.idea = true
allowed_source EdgeType.opposes NodeType.option = true
allowed_source EdgeType.opposes NodeType.concern = true
allowed_source EdgeType.opposes _ = false
allowed_source EdgeType.discussion_provenance NodeType.topic = false
allowed_source EdgeType.discussion_provenance _ = true
allowed_source EdgeType.related_to _ = true

unfoldable pub allowed_target : EdgeType → NodeType → Bool
allowed_target EdgeType.contains NodeType.topic = false
allowed_target EdgeType.contains _ = true
allowed_target EdgeType.has_option NodeType.option = true
allowed_target EdgeType.has_option _ = false
allowed_target EdgeType.supports NodeType.idea = true
allowed_target EdgeType.supports NodeType.option = true
allowed_target EdgeType.supports NodeType.decision = true
allowed_target EdgeType.supports _ = false
allowed_target EdgeType.opposes NodeType.idea = true
allowed_target EdgeType.opposes NodeType.option = true
allowed_target EdgeType.opposes NodeType.decision = true
allowed_target EdgeType.opposes _ = false
allowed_target EdgeType.discussion_provenance NodeType.topic = false
allowed_target EdgeType.discussion_provenance _ = true
allowed_target EdgeType.related_to _ = true

unfoldable pub is_allowed : EdgeType → NodeType → NodeType → Bool
unfolding allowed_source allowed_target
is_allowed r s t = allowed_source r s && allowed_target r t

abbrev pub is_archived : Node → Bool
is_archived n = status_eq n.status NodeStatus.archived

abbrev pub edge_type_text : EdgeType → String
edge_type_text EdgeType.contains = "contains"
edge_type_text EdgeType.has_option = "has_option"
edge_type_text EdgeType.supports = "supports"
edge_type_text EdgeType.opposes = "opposes"
edge_type_text EdgeType.related_to = "related_to"
edge_type_text EdgeType.discussion_provenance = "discussion_provenance"

-- f"edge:{session_id}:{relation_type}:{source}:{target}"
unfoldable pub edge_id : String → EdgeType → String → String → String
edge_id session_id type source target =
    "edge:" ⧺ (session_id ⧺ (":" ⧺ (edge_type_text type ⧺ (":" ⧺ (source ⧺ (":" ⧺ target))))))

-- `_relation_key` of an Edge.
abbrev pub edge_key : Edge → Relation
edge_key e = record {
  source_node_id = e.source_node_id;
  target_node_id = e.target_node_id;
  relation_type = e.type;
}

-- Equality of `_relation_key`s.
abbrev pub key_eq : Relation → Relation → Bool
key_eq a b =
    (a.source_node_id == b.source_node_id)
    && (a.target_node_id == b.target_node_id)
    && edge_type_eq a.relation_type b.relation_type

-- `old == new` on the payload of a correction.
abbrev pub relation_eq : Option Relation → Option Relation → Bool
relation_eq none none = true
relation_eq (some a) (some b) = key_eq a b
relation_eq _ _ = false

abbrev pub removed_key : Relation → Option Relation → Bool
removed_key key none = false
removed_key key (some old) = key_eq old key

abbrev pub set_edges : State → List Edge → State
set_edges s es = record s { graph = record s.graph { edges = es } }
