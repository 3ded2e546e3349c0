-- ===== src/Materializer/Nodes.antt =====
-- prototype/materializer.py: the helpers that look Nodes up and change one Node.
use ronro.Prelude.{
  String, Bool, Option, none, some, List, [], ◌∷◌, ◌++◌, ◌==◌, contains, if◌then◌else◌,
}
use ronro.Errors.{Result, ok, err, missing_reference}
use ronro.Domain.{Node, State, Event, CurrentTopic, TopicMode}

-- `_graph_node`: the first Node with the id.
abbrev pub find_node : String → List Node → Option Node
find_node node_id [] = none
find_node node_id (n ∷ ns) = if n.id == node_id then some n else find_node node_id ns

abbrev pub graph_node : State → String → Option Node
graph_node s node_id = find_node node_id s.graph.nodes

abbrev pub or_missing {ℓ} : {A : Type ℓ} → Option A → Result A
or_missing none = err missing_reference
or_missing (some a) = ok a

unfoldable pub require_node : State → String → Result Node
require_node s node_id = or_missing (graph_node s node_id)

-- A Node that `_require_node` returned is changed in place: the first one with its id.
abbrev pub put_node : Node → List Node → List Node
put_node m [] = []
put_node m (n ∷ ns) = if n.id == m.id then m ∷ ns else n ∷ put_node m ns

abbrev pub set_nodes : State → List Node → State
set_nodes s ns = record s { graph = record s.graph { nodes = ns } }

abbrev pub set_topic : State → CurrentTopic → State
set_topic s t = record s { graph = record s.graph { current_topic = t } }

abbrev pub change_node : State → Node → State
change_node s n = set_nodes s (put_node n s.graph.nodes)

abbrev pub append_unique : List String → String → List String
append_unique items value = if contains value items then items else items ++ value ∷ []

abbrev pub append_all_unique : List String → List String → List String
append_all_unique items [] = items
append_all_unique items (v ∷ vs) = append_all_unique (append_unique items v) vs

unfoldable pub touch_node : Node → Event → Node
touch_node n e = record n {
  source_event_ids = append_unique n.source_event_ids e.event_id;
  evidence_ids = append_all_unique n.evidence_ids e.source_evidence_ids;
  updated_at = e.occurred_at;
}

unfoldable pub clear_current_topic : State → String → State
clear_current_topic s event_id = set_topic s record {
  primary_topic_id = none;
  mode = TopicMode.derived;
  source_event_ids = event_id ∷ [];
  confidence = none;
}

abbrev pub is_current : State → String → Bool
is_current s node_id = elim s.graph.current_topic.primary_topic_id [
  | none ↦ Bool.false
  | some t ↦ t == node_id
]
