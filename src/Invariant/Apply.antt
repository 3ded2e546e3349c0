-- ===== src/Invariant/Apply.antt =====
-- `GraphMaterializer.apply` keeps the state well-formed and fails with a coded error only.
use ronro.Prelude.{
  ℕ, ◌+◌, String, ◌≡◌, ◌≢◌, refl, ap, ◌∙◌, Bool, true, false, not, Option, none, some, List, eq_iff,
  Bool-cases, inl, inr, arith,
}
use ronro.Errors.{
  Code, ok, err, key_error, raise_if, ◌>>=◌, ◌>>◌, >>=-eq-ok, >>-eq-ok, schema_invalid,
  session_mismatch, duplicate_event_id, duplicate_sequence, sequence_gap, revision_mismatch,
  missing_reference,
}
use ronro.Errors.Safe.{Safe, Safe-bind, Safe-then, Safe-raise_if, Safe-value, Safe-ne-key_error}
use ronro.Domain.{Event, State, Payload, Evidence, Utterance, is_human}
use ronro.Domain.Schema.{Formats, valid_event, valid_payload, validate_event}
use ronro.Materializer.Provenance.{children}
use ronro.Materializer.Apply.{
  initial_state, check_revision, is_expected, has_event, misses_evidence, validate_envelope,
  dispatch, advance, apply,
}
use ronro.Invariant.{IsWellFormed}
use ronro.Invariant.Steps.{
  session_created-Safe, session_started-Safe, session_finalizing-Safe, session_ended-Safe,
  node_detected-Safe, topic_focus_changed-Safe, confirm_decision-Safe, revoke_decision-Safe,
  resolve_open_item-Safe, reopen_open_item-Safe,
}
use ronro.Invariant.Labels.{rename_node-Safe, update_action-Safe, undo_last_correction-Safe}
use ronro.Invariant.Organizing.{
  archive_node-Safe, merge_nodes-Safe, move_to_parking_lot-Safe, restore_from_parking_lot-Safe,
  set_current_topic-Safe,
}
use ronro.Invariant.Relations.{relation_detected-Safe, correct_relation-Safe}

-- What an Event is known to satisfy that passed `_validate_envelope`.
pub record IsEnveloped (s : State) (e : Event) (history : List Event) : Type 0 where
  pub session : e.session_id ≡ s.graph.session_id
  pub new_id : has_event e.event_id history ≡ false
  pub sequence : e.sequence ≡ s.graph.last_event_sequence + 1
  pub revision : is_human e.actor ≡ true → e.expected_revision ≡ some s.graph.revision
  pub evidence : misses_evidence s.evidence e.source_evidence_ids ≡ false

-- What `_validate_envelope` lets pass, and all of that.
pub validate_envelope_iff :
    (s : State) (e : Event) (history : List Event)
    → (validate_envelope s e history ≡ ok tt → IsEnveloped s e history)
      × (IsEnveloped s e history → validate_envelope s e history ≡ ok tt)
unfolding validate_envelope raise_if ◌>>◌ ◌>>=◌
validate_envelope_iff s e history = (
  (λ h. record {
    session = ground (arith, eq_iff e.session_id s.graph.session_id);
    new_id = ground arith;
    sequence = ground arith;
    revision = λ human. ground arith;
    evidence = ground arith;
  }),
  (λ v. elim (Bool-cases (is_human e.actor)) [
    | inl human ↦ ground (
      arith,
      v.revision human,
      eq_iff e.session_id s.graph.session_id,
      v.session,
      v.new_id,
      v.sequence,
      v.evidence,
    )
    | inr other ↦
        ground (
          arith,
          eq_iff e.session_id s.graph.session_id,
          v.session,
          v.new_id,
          v.sequence,
          v.evidence,
        )
  ]),
)

raise_if-Safe : (test : Bool) (c : Code) → c ≢ key_error → Safe (λ _. Unit {0}) (raise_if test c)
unfolding raise_if
raise_if-Safe true c n = Safe.raises c n
raise_if-Safe false c n = Safe.returns tt tt

is_expected-Safe :
    (revision : ℕ) (o : Option ℕ) → o ≢ none → Safe (λ _. Unit {0}) (is_expected revision o)
is_expected-Safe revision none given = absurd (given refl)
is_expected-Safe revision (some r) given = Safe.returns _ tt

check_revision-Safe :
    (revision : ℕ) (e : Event)
    → (is_human e.actor ≡ true → e.expected_revision ≢ none)
    → Safe (λ _. Unit {0}) (check_revision revision e)
unfolding check_revision
check_revision-Safe revision e given = elim (Bool-cases (is_human e.actor)) [
  | inl human ↦ rw human (
      Safe-bind (is_expected revision e.expected_revision) _
        (is_expected-Safe revision e.expected_revision (given human))
        λ same _ _. raise_if-Safe (not same) revision_mismatch (λ q. cc))
  | inr other ↦ rw other (Safe.returns tt tt)
]

validate_event-Safe :
    (formats : Formats) (e : Event) → Safe (λ _. Unit {0}) (validate_event formats e)
unfolding validate_event
validate_event-Safe formats e = raise_if-Safe _ schema_invalid (λ q. cc)

pub validate_event-valid :
    (formats : Formats) (e : Event)
    → validate_event formats e ≡ ok tt
    → valid_event formats e ≡ true
unfolding validate_event raise_if
validate_event-valid formats e h = ground arith

pub valid_event-payload :
    (formats : Formats) (e : Event)
    → valid_event formats e ≡ true
    → valid_payload formats e.actor e.payload ≡ true
unfolding valid_event
valid_event-payload formats e h = ground arith

-- A KeyError is possible only where a Human Event has no `expected_revision`.
validate_envelope-Safe :
    (s : State) (e : Event) (history : List Event)
    → (is_human e.actor ≡ true → e.expected_revision ≢ none)
    → Safe (λ _. Unit {0}) (validate_envelope s e history)
unfolding validate_envelope
validate_envelope-Safe s e history given =
    Safe-raise_if _ session_mismatch _ (λ q. cc)
      λ _.
        Safe-raise_if _ duplicate_event_id _ (λ q. cc)
          λ _.
            Safe-raise_if _ duplicate_sequence _ (λ q. cc)
              λ _.
                Safe-raise_if _ sequence_gap _ (λ q. cc)
                  λ _.
                    Safe-then (check_revision s.graph.revision e) _
                      (check_revision-Safe s.graph.revision e given)
                      λ _. raise_if-Safe _ missing_reference (λ q. cc)

-- What the schema asks of a Human Event and of a detected Action.
valid_event-revision :
    (formats : Formats) (e : Event)
    → valid_event formats e ≡ true
    → is_human e.actor ≡ true
    → e.expected_revision ≢ none
unfolding valid_event
valid_event-revision formats e valid human none_given = ground arith

module _ (formats : Formats) (s : State) (e : Event) (history : List Event) (wf : IsWellFormed s)
    (env : IsEnveloped s e history) where
  dispatch-Safe :
      (p : Payload)
      → valid_payload formats e.actor p ≡ true
      → Safe IsWellFormed (dispatch p s e history)
  unfolding dispatch valid_payload
  dispatch-Safe (Payload.session_created title goal) v = session_created-Safe s e wf title goal
  dispatch-Safe Payload.session_started v = session_started-Safe s e wf
  dispatch-Safe (Payload.session_finalizing last) v = session_finalizing-Safe s e wf
  dispatch-Safe (Payload.session_ended status final pending) v = session_ended-Safe s e wf final
  dispatch-Safe (Payload.node_detected type label details) v =
      node_detected-Safe s e wf type label details (λ q. ground arith)
  dispatch-Safe (Payload.relation_detected r) v =
      relation_detected-Safe s e wf env.session history r env.evidence
  dispatch-Safe (Payload.correct_relation old new w i) v =
      correct_relation-Safe s e wf env.session old new
  dispatch-Safe (Payload.topic_focus_changed id confidence) v =
      topic_focus_changed-Safe s e wf id confidence
  dispatch-Safe (Payload.confirm_decision id x) v = confirm_decision-Safe s e wf id x
  dispatch-Safe (Payload.revoke_decision id x) v = revoke_decision-Safe s e wf id x
  dispatch-Safe (Payload.resolve_open_item id x) v = resolve_open_item-Safe s e wf id x
  dispatch-Safe (Payload.reopen_open_item id x) v = reopen_open_item-Safe s e wf id x
  dispatch-Safe (Payload.rename_node id label) v = rename_node-Safe s e wf id label
  dispatch-Safe (Payload.archive_node id) v = archive_node-Safe s e wf id
  dispatch-Safe (Payload.merge_nodes source target) v = merge_nodes-Safe s e wf source target
  dispatch-Safe (Payload.move_to_parking_lot id) v = move_to_parking_lot-Safe s e wf id
  dispatch-Safe (Payload.restore_from_parking_lot id) v = restore_from_parking_lot-Safe s e wf id
  dispatch-Safe (Payload.update_action id changes) v = update_action-Safe s e wf id changes
  dispatch-Safe (Payload.set_current_topic id) v = set_current_topic-Safe s e wf id
  dispatch-Safe (Payload.undo_last_correction id) v = undo_last_correction-Safe s e wf history id

  advance-IsWellFormed :
      (next : State) → IsWellFormed next → IsWellFormed (advance (s.graph.revision + 1) e next)
  unfolding advance
  advance-IsWellFormed next wf' = record {
    same_session = wf'.same_session;
    same_revision = refl;
    same_sequence = env.sequence ∙ ap (λ n. n + 1) wf.same_sequence;
    nodes_ok = wf'.nodes_ok;
    distinct_ids = wf'.distinct_ids;
    edges_ok = wf'.edges_ok;
    acyclic = wf'.acyclic;
    topic = wf'.topic;
  }

pub apply-Safe :
    (formats : Formats) (s : State) (e : Event) (history : List Event)
    → IsWellFormed s
    → Safe IsWellFormed (apply formats s e history)
unfolding apply
apply-Safe formats s e history wf =
    Safe-then (validate_event formats e) _ (validate_event-Safe formats e) λ accepted.
      let valid = validate_event-valid formats e accepted in
      Safe-then (validate_envelope s e history) _
        (validate_envelope-Safe s e history (valid_event-revision formats e valid))
        λ passed.
          let env = (validate_envelope_iff s e history).0 passed in
          Safe-bind (dispatch e.payload s e history) _
            (dispatch-Safe formats s e history wf env e.payload
              (valid_event-payload formats e valid))
            λ next _ wf'. Safe.returns _ (advance-IsWellFormed formats s e history wf env next wf')

-- The state at revision 0 is well-formed.
pub initial_state-IsWellFormed :
    (session_id : String) (evidence : List Evidence) (utterances : List Utterance)
    → IsWellFormed (initial_state session_id evidence utterances)
unfolding initial_state children
initial_state-IsWellFormed session_id evidence utterances = record {
  same_session = refl;
  same_revision = refl;
  same_sequence = refl;
  nodes_ok = tt;
  distinct_ids = refl;
  edges_ok = tt;
  acyclic = λ a (c, h, r). absurd (cc h);
  topic = refl;
}

-- Whatever Event is applied to a well-formed state, with whatever history: if `apply` returns, the
-- new state is well-formed. So no Node is lost that an Edge needs, an Edge leads from one Node to
-- another, the provenance Relations have no cycle, every status is one of its Node's type, an
-- Action's description is its label, and the Current Topic is a Node that is not archived.
pub apply-IsWellFormed :
    (formats : Formats) (s : State) (e : Event) (history : List Event) (next : State)
    → IsWellFormed s
    → apply formats s e history ≡ ok next
    → IsWellFormed next
apply-IsWellFormed formats s e history next wf h =
    Safe-value next (apply-Safe formats s e history wf) h

-- On a well-formed state `apply` never fails with a KeyError, whatever the Event and the history.
pub apply-ne-key_error :
    (formats : Formats) (s : State) (e : Event) (history : List Event)
    → IsWellFormed s
    → apply formats s e history ≢ err key_error
apply-ne-key_error formats s e history wf = Safe-ne-key_error (apply-Safe formats s e history wf)

-- What a call of `apply` that returned has done.
pub record IsApplied (formats : Formats) (s : State) (e : Event) (history : List Event)
    (next : State) : Type 0 where
  pub valid : valid_event formats e ≡ true
  pub enveloped : IsEnveloped s e history
  pub dispatched : State
  pub handler : dispatch e.payload s e history ≡ ok dispatched
  pub advanced : advance (s.graph.revision + 1) e dispatched ≡ next

advanced-eq : (s t : State) → ok s ≡ ok t → s ≡ t
advanced-eq s t h = cc

pub apply-IsApplied :
    (formats : Formats) (s : State) (e : Event) (history : List Event) (next : State)
    → apply formats s e history ≡ ok next
    → IsApplied formats s e history next
unfolding apply
apply-IsApplied formats s e history next h =
    let (valid, rest) = >>-eq-ok (validate_event formats e) _ h in
    let (passed, rest') = >>-eq-ok (validate_envelope s e history) _ rest in
    let (t, done, end) = >>=-eq-ok (dispatch e.payload s e history) _ rest' in
    record {
      valid = validate_event-valid formats e valid;
      enveloped = (validate_envelope_iff s e history).0 passed;
      dispatched = t;
      handler = done;
      advanced = advanced-eq (advance (s.graph.revision + 1) e t) next end;
    }
