-- ===== src/Materializer/Relations.antt =====
-- prototype/materializer.py: `_relation_detected` and `_correct_relation`. A Node that
-- `_require_node` returned has the id that was asked for, so that id stands for `source["id"]`.
use mathlib.Core.Option
use ronro.Prelude.{
  ℕ, String, Bool, true, false, not, ◌&&◌, ◌||◌, Option, none, some, List, [], ◌∷◌, ◌++◌, ◌==◌, any,
  ltb, if◌then◌else◌,
}
use ronro.Errors.{
  Result, ok, err, missing_reference, invalid_transition, unsupported_relation,
  human_correction_preserved, duplicate_relation, key_error, raise_if, ◌>>=◌, ◌>>◌,
}
use ronro.Domain.{Edge, EdgeType, State, Event, Payload, Relation, Evidence}
use ronro.Materializer.Nodes.{require_node, append_all_unique, or_missing}
use ronro.Materializer.Provenance.{is_provenance, provenance_reaches}
use ronro.Materializer.Matrix.{
  removed_key, is_allowed, is_archived, edge_id, edge_key, key_eq, relation_eq, set_edges,
}

-- Whether an Event of the history is a Human removal of the Relation.
abbrev pub removes : Relation → Payload → Bool
removes key (Payload.correct_relation old _ _ _) = removed_key key old
removes key _ = false

abbrev pub watermark_of : Payload → ℕ
watermark_of (Payload.correct_relation _ _ watermark _) = watermark
watermark_of _ = 0

-- The watermark of the latest removal: the history is in order, the last match counts.
unfoldable pub last_removal : Relation → List Event → Option ℕ
last_removal key [] = none
last_removal key (e ∷ es) = elim (last_removal key es) [
  | some w ↦ some w
  | none ↦ if removes key e.payload then some (watermark_of e.payload) else none
]

-- evidence_sequences[ref]: of two Evidence items with one id the later counts.
unfoldable pub evidence_sequence : String → List Evidence → Option ℕ
evidence_sequence ref [] = none
evidence_sequence ref (x ∷ xs) = elim (evidence_sequence ref xs) [
  | some n ↦ some n
  | none ↦ if x.id == ref then some x.sequence else none
]

-- evidence_sequences[ref] > watermark, or what the references after it say.
abbrev pub or_later : ℕ → Option ℕ → Result Bool → Result Bool
or_later watermark none rest = err key_error
or_later watermark (some n) rest = if ltb watermark n then ok true else rest

-- any(evidence_sequences[ref] > watermark for ref in refs), which stops at the first that is later.
unfoldable pub has_later_evidence : ℕ → List Evidence → List String → Result Bool
has_later_evidence watermark evidence [] = ok false
has_later_evidence watermark evidence (ref ∷ refs) =
    or_later watermark (evidence_sequence ref evidence) (has_later_evidence watermark evidence refs)

abbrev pub new_edge : Event → Relation → Edge
new_edge e r = record {
  id = edge_id e.session_id r.relation_type r.source_node_id r.target_node_id;
  source_node_id = r.source_node_id;
  target_node_id = r.target_node_id;
  type = r.relation_type;
  source_event_ids = e.event_id ∷ [];
}

abbrev pub find_edge : String → List Edge → Option Edge
find_edge id [] = none
find_edge id (e ∷ es) = if e.id == id then some e else find_edge id es

-- The first Edge with the id gets further source Events.
abbrev pub extend_edge : String → List String → List Edge → List Edge
extend_edge id events [] = []
extend_edge id events (e ∷ es) =
    if e.id == id
    then record e { source_event_ids = append_all_unique e.source_event_ids events } ∷ es
    else e ∷ extend_edge id events es

abbrev pub empty_list : List String → Bool
empty_list [] = true
empty_list (_ ∷ _) = false

-- Old Evidence does not bring back a Relation that a Human removed.
unfoldable pub check_removal : State → Event → Relation → Option ℕ → Result (Unit {0})
unfolding has_later_evidence
check_removal s e r none = ok tt
check_removal s e r (some watermark) = do
  later ← has_later_evidence watermark s.evidence e.source_evidence_ids
  raise_if (not later) human_correction_preserved

abbrev pub reaches_back : State → Relation → Bool
reaches_back s r =
    is_provenance r.relation_type
    && provenance_reaches s.graph.edges r.target_node_id r.source_node_id

-- The end of `_relation_detected`, with `existing`.
unfoldable pub add_detected : State → Event → Relation → Option Edge → Result State
add_detected s e r (some existing) =
    ok (set_edges s (extend_edge existing.id (e.event_id ∷ []) s.graph.edges))
add_detected s e r none = do
  raise_if (reaches_back s r) unsupported_relation
  ok (set_edges s (s.graph.edges ++ new_edge e r ∷ []))

unfoldable pub relation_detected : State → Event → List Event → Relation → Result State
unfolding require_node is_allowed check_removal last_removal add_detected edge_id
relation_detected s e history r = do
  source ← require_node s r.source_node_id
  target ← require_node s r.target_node_id
  raise_if (source.id == target.id) unsupported_relation
  raise_if (not (is_allowed r.relation_type source.type target.type)) unsupported_relation
  raise_if (is_archived source || is_archived target) unsupported_relation
  raise_if (is_provenance r.relation_type && empty_list e.source_evidence_ids) missing_reference
  check_removal s e r (last_removal r history)
  add_detected s e r (
      find_edge (edge_id e.session_id r.relation_type r.source_node_id r.target_node_id)
        s.graph.edges)

-- The first Edge with the key, removed.
unfoldable pub remove_edge : Relation → List Edge → Option (List Edge)
remove_edge key [] = none
remove_edge key (e ∷ es) =
    let rest = remove_edge key es in
    if key_eq (edge_key e) key then some es else Option.map (λ es'. e ∷ es') rest

abbrev pub is_human_type : EdgeType → Bool
is_human_type EdgeType.discussion_provenance = true
is_human_type EdgeType.supports = true
is_human_type EdgeType.opposes = true
is_human_type _ = false

unfoldable pub remove_old : State → Option Relation → Result State
unfolding remove_edge
remove_old s none = ok s
remove_old s (some old) = do
  edges ← or_missing (remove_edge old s.graph.edges)
  ok (set_edges s edges)

unfoldable pub add_new : State → Event → Option Relation → Result State
unfolding require_node is_allowed edge_id
add_new s e none = ok s
add_new s e (some new) = do
  source ← require_node s new.source_node_id
  target ← require_node s new.target_node_id
  raise_if (not (is_human_type new.relation_type) || source.id == target.id) unsupported_relation
  raise_if (not (is_allowed new.relation_type source.type target.type)) unsupported_relation
  raise_if (is_archived source || is_archived target) unsupported_relation
  raise_if (any (λ x. key_eq (edge_key x) new) s.graph.edges) duplicate_relation
  raise_if (reaches_back s new) unsupported_relation
  ok (set_edges s (s.graph.edges ++ new_edge e new ∷ []))

abbrev pub is_none : Option Relation → Bool
is_none none = true
is_none (some _) = false

unfoldable pub correct_relation : State → Event → Option Relation → Option Relation → Result State
unfolding remove_old add_new
correct_relation s e old new = do
  raise_if (is_none old && is_none new) invalid_transition
  raise_if (relation_eq old new) invalid_transition
  s' ← remove_old s old
  add_new s' e new
