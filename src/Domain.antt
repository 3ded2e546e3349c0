-- ===== src/Domain.antt =====
-- The canonical discussion state and its Events: schemas/discussion-domain.schema.json and
-- schemas/discussion-event.schema.json, as prototype/materializer.py reads and writes them.
-- Timestamps and the confidence number are kept as their JSON text: no code here computes with
-- them. Of Evidence and Utterances only the fields that the modelled code reads are kept.
pub mod Schema
pub mod Text
pub mod Decimal
use ronro.Prelude.{ℕ, String, Bool, true, false, Option, none, some, List, [], ◌≡◌, nat_eq, arith}

pub data Actor : Type 0 where
  analyzer human system : Actor

pub data NodeType : Type 0 where
  topic idea option concern open_item decision action : NodeType

pub data NodeStatus : Type 0 where
  active candidate confirmed revoked resolved parked completed archived : NodeStatus

pub data ActionStatus : Type 0 where
  opened completed cancelled : ActionStatus

pub data EdgeType : Type 0 where
  contains has_option supports opposes related_to discussion_provenance : EdgeType

pub data SessionStatus : Type 0 where
  created active finalizing ended : SessionStatus

pub data TopicMode : Type 0 where
  derived human_corrected : TopicMode

pub data DrainStatus : Type 0 where
  complete partial failed : DrainStatus

pub record ActionDetails : Type 0 where
  pub description : String
  pub owner : Option String
  pub due_date : Option String
  pub status : ActionStatus

pub record Node : Type 0 where
  pub id : String
  pub session_id : String
  pub type : NodeType
  pub label : String
  pub status : NodeStatus
  pub created_at : String
  pub updated_at : String
  pub source_event_ids : List String
  pub evidence_ids : List String
  pub action : Option ActionDetails

pub record Edge : Type 0 where
  pub id : String
  pub source_node_id : String
  pub target_node_id : String
  pub type : EdgeType
  pub source_event_ids : List String

pub record CurrentTopic : Type 0 where
  pub primary_topic_id : Option String
  pub mode : TopicMode
  pub source_event_ids : List String
  pub confidence : Option String

pub record Graph : Type 0 where
  pub session_id : String
  pub revision : ℕ
  pub last_event_sequence : ℕ
  pub nodes : List Node
  pub edges : List Edge
  pub current_topic : CurrentTopic

pub record Session : Type 0 where
  pub id : String
  pub title : Option String
  pub goal : Option String
  pub status : SessionStatus
  pub created_at : Option String
  pub started_at : Option String
  pub ended_at : Option String
  pub graph_revision : ℕ

pub record Evidence : Type 0 where
  pub id : String
  pub session_id : String
  pub sequence : ℕ

pub record Utterance : Type 0 where
  pub session_id : String
  pub sequence : ℕ
  pub evidence_ids : List String
  pub text : String
  pub ended_at : String

pub record State : Type 0 where
  pub session : Session
  pub evidence : List Evidence
  pub utterances : List Utterance
  pub graph : Graph

pub record Relation : Type 0 where
  pub source_node_id : String
  pub target_node_id : String
  pub relation_type : EdgeType

pub record ActionDetected : Type 0 where
  pub owner : Option String
  pub due_date : Option String

-- `none` is an absent key, `some none` a key that holds null.
pub record ActionChanges : Type 0 where
  pub description : Option String
  pub owner : Option (Option String)
  pub due_date : Option (Option String)
  pub status : Option ActionStatus

-- An `event_type` with the payload that the schema requires of it.
pub data Payload : Type 0 where
  session_created : (title goal : Option String) → Payload
  session_started : Payload
  session_finalizing : (last_evidence_sequence : ℕ) → Payload
  session_ended :
      (drain_status : DrainStatus) (final_graph_revision : ℕ) (pending_analysis : Bool) → Payload
  node_detected :
      (node_type : NodeType) (label : String) (details : Option ActionDetected) → Payload
  relation_detected : (relation : Relation) → Payload
  correct_relation :
      (old_relation new_relation : Option Relation) (evidence_sequence_at_correction : ℕ)
      (declared_independent : Option Bool)
      → Payload
  topic_focus_changed : (topic_id : String) (confidence : Option String) → Payload
  confirm_decision : (decision_node_id : String) (expected_status : NodeStatus) → Payload
  revoke_decision : (decision_node_id : String) (expected_status : NodeStatus) → Payload
  resolve_open_item : (open_item_node_id : String) (expected_status : NodeStatus) → Payload
  reopen_open_item : (open_item_node_id : String) (expected_status : NodeStatus) → Payload
  rename_node : (node_id label : String) → Payload
  archive_node : (node_id : String) → Payload
  merge_nodes : (source_node_id target_node_id : String) → Payload
  move_to_parking_lot : (node_id : String) → Payload
  restore_from_parking_lot : (node_id : String) → Payload
  update_action : (action_node_id : String) (changes : ActionChanges) → Payload
  set_current_topic : (topic_id : String) → Payload
  undo_last_correction : (target_event_id : String) → Payload

pub record Event : Type 0 where
  pub event_id : String
  pub session_id : String
  pub sequence : ℕ
  pub occurred_at : String
  pub actor : Actor
  pub source_evidence_ids : List String
  pub expected_revision : Option ℕ
  pub payload : Payload

-- `==` on the enumerations, by the place of each constructor.
abbrev status_rank : NodeStatus → ℕ
status_rank NodeStatus.active = 0
status_rank NodeStatus.candidate = 1
status_rank NodeStatus.confirmed = 2
status_rank NodeStatus.revoked = 3
status_rank NodeStatus.resolved = 4
status_rank NodeStatus.parked = 5
status_rank NodeStatus.completed = 6
status_rank NodeStatus.archived = 7

abbrev type_rank : NodeType → ℕ
type_rank topic = 0
type_rank idea = 1
type_rank option = 2
type_rank concern = 3
type_rank open_item = 4
type_rank decision = 5
type_rank action = 6

abbrev edge_rank : EdgeType → ℕ
edge_rank contains = 0
edge_rank has_option = 1
edge_rank supports = 2
edge_rank opposes = 3
edge_rank related_to = 4
edge_rank discussion_provenance = 5

abbrev pub status_eq : NodeStatus → NodeStatus → Bool
status_eq a b = nat_eq (status_rank a) (status_rank b)

abbrev pub type_eq : NodeType → NodeType → Bool
type_eq a b = nat_eq (type_rank a) (type_rank b)

abbrev pub edge_type_eq : EdgeType → EdgeType → Bool
edge_type_eq a b = nat_eq (edge_rank a) (edge_rank b)

abbrev pub is_human : Actor → Bool
is_human human = true
is_human _ = false

pub status_eq→eq : (a b : NodeStatus) → status_eq a b ≡ true → a ≡ b
status_eq→eq a b h = ground arith

pub type_eq→eq : (a b : NodeType) → type_eq a b ≡ true → a ≡ b
type_eq→eq a b h = ground arith

pub edge_type_eq→eq : (a b : EdgeType) → edge_type_eq a b ≡ true → a ≡ b
edge_type_eq→eq a b h = ground arith
