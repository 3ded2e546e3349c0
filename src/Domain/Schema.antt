-- ===== src/Domain/Schema.antt =====
-- `SchemaValidator.validate_event` of prototype/schema.py: what
-- schemas/discussion-event.schema.json asks of an Event beyond the shape that its type has.
-- The jsonschema package is not modelled: its format checks are the parameter `Formats`.
use ronro.Prelude.{
  String, Bool, true, false, not, ◌&&◌, ◌||◌, Option, none, some, List, [], ◌∷◌, ◌==◌, contains,
  leb, if◌then◌else◌,
}
use ronro.Errors.{Result, schema_invalid, raise_if}
use ronro.Domain.{
  Actor, Event, Payload, Relation, NodeType, NodeStatus, ActionDetected, ActionChanges, status_eq,
  type_eq,
}

-- The formats `date-time` and `date`, and the range 0 to 1 of a confidence number.
pub record Formats : Type 0 where
  pub date_time : String → Bool
  pub date : String → Bool
  pub confidence : String → Bool

abbrev pub is_text : String → Bool
is_text s = not (s == "")

-- `uniqueItems` and `$defs/id` of an `idArray`
abbrev pub id_array : List String → Bool
id_array [] = true
id_array (x ∷ xs) = is_text x && not (contains x xs) && id_array xs

abbrev optional {ℓ} : {A : Type ℓ} → (A → Bool) → Option A → Bool
optional test none = true
optional test (some a) = test a

abbrev is_given {ℓ} : {A : Type ℓ} → Option A → Bool
is_given none = false
is_given (some _) = true

abbrev valid_relation : Relation → Bool
valid_relation r = is_text r.source_node_id && is_text r.target_node_id

abbrev pub is_actor : Actor → Actor → Bool
is_actor Actor.analyzer Actor.analyzer = true
is_actor Actor.human Actor.human = true
is_actor Actor.system Actor.system = true
is_actor _ _ = false

module _ (formats : Formats) where
  abbrev valid_details : Option ActionDetected → Bool
  valid_details none = true
  valid_details (some d) = optional formats.date d.due_date

  abbrev valid_changes : ActionChanges → Bool
  valid_changes c =
      optional is_text c.description
      && optional (optional formats.date) c.due_date
      && (is_given c.description || is_given c.owner || is_given c.due_date || is_given c.status)

  -- The `if`/`then` clause of the event type: who may send it, and its payload.
  unfoldable pub valid_payload : Actor → Payload → Bool
  valid_payload a (Payload.session_created _ _) = is_actor a Actor.system
  valid_payload a Payload.session_started = is_actor a Actor.system
  valid_payload a (Payload.session_finalizing _) = is_actor a Actor.system
  valid_payload a (Payload.session_ended _ _ _) = is_actor a Actor.system
  valid_payload a (Payload.node_detected type label details) =
      is_actor a Actor.analyzer
      && is_text label
      && valid_details details
      && (if type_eq type NodeType.action then is_given details else not (is_given details))
  valid_payload a (Payload.relation_detected r) = is_actor a Actor.analyzer && valid_relation r
  valid_payload a (Payload.correct_relation old new _ _) =
      is_actor a Actor.human && optional valid_relation old && optional valid_relation new
  valid_payload a (Payload.topic_focus_changed id confidence) =
      is_actor a Actor.analyzer && is_text id && optional formats.confidence confidence
  valid_payload a (Payload.confirm_decision id expected) =
      is_actor a Actor.human && is_text id && status_eq expected NodeStatus.candidate
  valid_payload a (Payload.revoke_decision id expected) =
      is_actor a Actor.human && is_text id && status_eq expected NodeStatus.confirmed
  valid_payload a (Payload.resolve_open_item id expected) =
      is_actor a Actor.human && is_text id && status_eq expected NodeStatus.active
  valid_payload a (Payload.reopen_open_item id expected) =
      is_actor a Actor.human && is_text id && status_eq expected NodeStatus.resolved
  valid_payload a (Payload.rename_node id label) =
      is_actor a Actor.human && is_text id && is_text label
  valid_payload a (Payload.archive_node id) = is_actor a Actor.human && is_text id
  valid_payload a (Payload.merge_nodes source target) =
      is_actor a Actor.human && is_text source && is_text target
  valid_payload a (Payload.move_to_parking_lot id) = is_actor a Actor.human && is_text id
  valid_payload a (Payload.restore_from_parking_lot id) = is_actor a Actor.human && is_text id
  valid_payload a (Payload.update_action id changes) =
      is_actor a Actor.human && is_text id && valid_changes changes
  valid_payload a (Payload.set_current_topic id) = is_actor a Actor.human && is_text id
  valid_payload a (Payload.undo_last_correction id) = is_actor a Actor.human && is_text id

  -- The `allOf` clauses on the actor.
  abbrev valid_actor : Event → Bool
  valid_actor e = elim e.actor [
    | Actor.human ↦ is_given e.expected_revision
    | Actor.analyzer ↦ elim e.source_evidence_ids [ [] ↦ false | _ ∷ _ ↦ true ]
    | Actor.system ↦ true
  ]

  unfoldable pub valid_event : Event → Bool
  unfolding valid_payload
  valid_event e =
      is_text e.event_id
      && is_text e.session_id
      && leb 1 e.sequence
      && formats.date_time e.occurred_at
      && id_array e.source_evidence_ids
      && valid_actor e
      && valid_payload e.actor e.payload

  unfoldable pub validate_event : Event → Result (Unit {0})
  unfolding valid_event
  validate_event e = raise_if (not (valid_event e)) schema_invalid
