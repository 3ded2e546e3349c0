-- ===== src/Live/Candidate.antt =====
-- prototype/candidate_event.py: what an Analyzer proposes. Its `presentation` is not modelled.
use ronro.Prelude.{ℕ, String, none, List}
use ronro.Domain.{Actor, Event, Payload}

pub record CandidateEvent : Type 0 where
  pub event_id : String
  pub session_id : String
  pub occurred_at : String
  pub source_evidence_ids : List String
  pub payload : Payload
  pub actor : Actor

abbrev pub to_event : CandidateEvent → ℕ → Event
to_event c sequence = record {
  event_id = c.event_id;
  session_id = c.session_id;
  sequence = sequence;
  occurred_at = c.occurred_at;
  actor = c.actor;
  source_evidence_ids = c.source_evidence_ids;
  expected_revision = none;
  payload = c.payload;
}
