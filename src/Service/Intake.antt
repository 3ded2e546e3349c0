-- ===== src/Service/Intake.antt =====
-- `accept_final` and `finalize` of prototype/service_store.py: what enters a Session, and its end.
use ronro.Prelude.{
  ℕ, ◌+◌, String, Bool, true, false, not, ◌&&◌, ◌||◌, Option, none, some, List, [], ◌∷◌, ◌++◌, ◌==◌,
  any, contains, ltb, nat_eq, if◌then◌else◌,
}
use ronro.Errors.{
  Code, Result, ok, err, raise_if, session_mismatch, evidence_mismatch, sequence_invalid,
  job_invalid, duplicate_final, session_closed, sequence_gap, revision_mismatch, unresolved_jobs,
  end_event_invalid, drain_status_mismatch, pending_analysis_mismatch, integrity_error, ◌>>=◌, ◌>>◌,
}
use ronro.Domain.{State, Event, Evidence, Utterance, Payload, DrainStatus}
use ronro.Domain.Schema.{Formats}
use ronro.Service.Store.{
  JobState, ServiceState, FinalRow, Job, Rows, job_state_is, is_open, is_finalizing, append_locked,
  find_job,
}

-- The arguments of `accept_final`.
pub record Final : Type 0 where
  pub evidence : Evidence
  pub utterance : Utterance
  pub job_id : String
  pub contract_version : String
  pub provider_item_id : Option String

abbrev pub same_item : Option String → Option String → Bool
same_item none none = true
same_item (some a) (some b) = a == b
same_item _ _ = false

-- `? IS NOT NULL AND e.provider_item_id = ?`
abbrev pub shares_item : Option String → Option String → Bool
shares_item none _ = false
shares_item (some a) none = false
shares_item (some a) (some b) = b == a

abbrev pub same_ids : List String → List String → Bool
same_ids [] [] = true
same_ids (a ∷ as') (b ∷ bs) = a == b && same_ids as' bs
same_ids _ _ = false

-- The JSON texts are equal when the fields are.
abbrev pub same_evidence : Evidence → Evidence → Bool
same_evidence a b = a.id == b.id && a.session_id == b.session_id && nat_eq a.sequence b.sequence

abbrev pub same_utterance : Utterance → Utterance → Bool
same_utterance a b =
    a.session_id == b.session_id
    && nat_eq a.sequence b.sequence
    && same_ids a.evidence_ids b.evidence_ids
    && a.text == b.text
    && a.ended_at == b.ended_at

-- The join of service_evidence and service_job, for one row of service_evidence.
abbrev pub jobs_of : FinalRow → List Job → List (FinalRow × Job)
jobs_of row [] = []
jobs_of row (j ∷ js) =
    let rest = jobs_of row js in if j.evidence_id == row.evidence.id then (row, j) ∷ rest else rest

abbrev pub joined : List FinalRow → List Job → List (FinalRow × Job)
joined [] jobs = []
joined (row ∷ rows) jobs = jobs_of row jobs ++ joined rows jobs

abbrev pub is_taken : Final → FinalRow → Bool
is_taken f row =
    row.evidence.id == f.evidence.id || shares_item f.provider_item_id row.provider_item_id

abbrev pub find_existing : Final → List (FinalRow × Job) → Option (FinalRow × Job)
find_existing f [] = none
find_existing f ((row, j) ∷ rest) =
    let later = find_existing f rest in if is_taken f row then some (row, j) else later

abbrev pub is_identical : Final → FinalRow → Job → Bool
is_identical f row j =
    row.evidence.id == f.evidence.id
    && same_item row.provider_item_id f.provider_item_id
    && same_evidence row.evidence f.evidence
    && same_utterance row.utterance f.utterance
    && j.job_id == f.job_id
    && j.contract_version == f.contract_version

abbrev pub last_is_finalizing : List Event → Bool
last_is_finalizing [] = false
last_is_finalizing (e ∷ []) = is_finalizing e
last_is_finalizing (e ∷ e' ∷ es) = last_is_finalizing (e' ∷ es)

-- `MAX(utterance_sequence)`, 0 without rows.
abbrev pub last_sequence : List FinalRow → ℕ
last_sequence [] = 0
last_sequence (row ∷ rows) =
    let rest = last_sequence rows in
    if ltb rest row.evidence.sequence then row.evidence.sequence else rest

-- The two inserts: the row of the Evidence, and its Job.
abbrev pub insert_final : Rows → Final → Rows
insert_final rows f = record rows {
  finals =
      rows.finals
      ++ (record {
        evidence = f.evidence;
        utterance = f.utterance;
        provider_item_id = f.provider_item_id;
      })
        ∷ [];
  jobs =
      rows.jobs
      ++ (record {
        job_id = f.job_id;
        evidence_id = f.evidence.id;
        utterance_sequence = f.evidence.sequence;
        contract_version = f.contract_version;
        state = JobState.pending;
        attempt = 0;
        claim_until = none;
        start_revision = none;
        output = none;
        error = none;
      })
        ∷ [];
}

abbrev pub is_present : Option Job → Bool
is_present none = false
is_present (some _) = true

-- The part for a Final that is not there yet. The primary key of service_job refuses a `job_id` that
-- is there.
unfoldable pub accept_new : Rows → Final → Result Rows
accept_new rows f = do
  raise_if rows.intake_closed Code.session_finalizing
  raise_if (last_is_finalizing rows.events) Code.session_finalizing
  raise_if (not (nat_eq f.evidence.sequence (last_sequence rows.finals + 1))) sequence_gap
  raise_if (is_present (find_job f.job_id rows.jobs)) integrity_error
  ok (insert_final rows f)

unfoldable pub accept_found : Rows → Final → Option (FinalRow × Job) → Result Rows
unfolding accept_new
accept_found rows f none = accept_new rows f
accept_found rows f (some (row, j)) = do
  raise_if (not (is_identical f row j)) duplicate_final
  ok rows

unfoldable pub accept_final : Rows → Final → Result Rows
unfolding accept_found
accept_final rows f = do
  raise_if
      (not (f.evidence.session_id == rows.session_id)
        || not (f.utterance.session_id == rows.session_id))
      session_mismatch
  raise_if (not (contains f.evidence.id f.utterance.evidence_ids)) evidence_mismatch
  raise_if (nat_eq f.evidence.sequence 0 || not (nat_eq f.utterance.sequence f.evidence.sequence))
      sequence_invalid
  raise_if (f.job_id == "" || f.contract_version == "") job_invalid
  raise_if (not (is_open rows.service_state)) session_closed
  accept_found rows f (find_existing f (joined rows.finals rows.jobs))

abbrev pub is_unresolved : Job → Bool
is_unresolved j = not (job_state_is j.state JobState.completed)

abbrev pub is_complete : DrainStatus → Bool
is_complete DrainStatus.complete = true
is_complete _ = false

abbrev pub bool_is : Bool → Bool → Bool
bool_is a b = a && b || not a && not b

abbrev pub ended_state : Bool → ServiceState
ended_state incomplete = if incomplete then ServiceState.ended_incomplete else ServiceState.ended

-- The guards on the payload of the end Event.
abbrev pub require_end : Rows → Payload → Bool → Bool → Result (Unit {0})
require_end rows (Payload.session_ended status revision pending) unresolved incomplete = do
  raise_if (not (nat_eq revision rows.graph_revision)) revision_mismatch
  raise_if (bool_is (is_complete status) incomplete) drain_status_mismatch
  raise_if (not (bool_is pending unresolved)) pending_analysis_mismatch
  ok tt
require_end rows _ unresolved incomplete = err end_event_invalid

-- `finalize` of an open Session.
unfoldable pub end_session :
    Formats → (State → Result (Unit {0})) → Rows → Event → Bool → Result (Option ℕ × Rows)
unfolding append_locked
end_session formats valid_domain rows end_event incomplete = do
  let unresolved = any is_unresolved rows.jobs
  raise_if (unresolved && not incomplete) unresolved_jobs
  require_end rows end_event.payload unresolved incomplete
  (result, next) ← append_locked formats valid_domain rows (end_event ∷ [])
  let revision = result.state.graph.revision
  ok (
    some revision,
    record next { service_state = ended_state incomplete; final_revision = some revision },
  )

-- A closed Session answers its final revision.
unfoldable pub finalize :
    Formats → (State → Result (Unit {0})) → Rows → Event → Bool → Result (Option ℕ × Rows)
unfolding end_session
finalize formats valid_domain rows end_event incomplete =
    if is_open rows.service_state
    then end_session formats valid_domain rows end_event incomplete
    else ok (rows.final_revision, rows)
