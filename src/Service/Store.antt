-- ===== src/Service/Store.antt =====
-- `SqliteServiceStore` of prototype/service_store.py. A database is the rows of one Session: its
-- service_session row, its service_evidence and service_event rows in the order of their sequence,
-- and its service_job rows. Every statement but the choice of a Session in `claim_job` names one
-- Session. A method runs in one transaction, so it gives the next rows or an error and no change.
-- Rows hold the values that the JSON columns encode. Presentation deltas, the owner and the
-- checkpoint row, which no method reads, are not modelled. Time is a number of ticks.
use ronro.Prelude.{
  ℕ, String, Bool, true, false, not, ◌&&◌, ◌||◌, Option, none, some, List, [], ◌∷◌, ◌++◌, ◌==◌, map,
  any, nat_eq, if◌then◌else◌,
}
use ronro.Errors.{
  Code, Result, ok, err, raise_if, session_closed, job_not_found, stale_claim, revision_mismatch,
  analyzer_job_required, created_event_invalid, session_invalid, integrity_error, ◌>>=◌, ◌>>◌,
}
use ronro.Domain.{Actor, State, Event, Evidence, Utterance, Payload}
use ronro.Domain.Schema.{Formats}
use ronro.Replay.{ReplayResult, apply_events, replay_events}

pub data JobState : Type 0 where
  pending processing completed failed : JobState

-- `service_state`
pub data ServiceState : Type 0 where
  opened ended ended_incomplete : ServiceState

-- A row of service_evidence.
pub record FinalRow : Type 0 where
  pub evidence : Evidence
  pub utterance : Utterance
  pub provider_item_id : Option String

-- A row of service_job. `output` is the accepted output.
pub record Job : Type 0 where
  pub job_id : String
  pub evidence_id : String
  pub utterance_sequence : ℕ
  pub contract_version : String
  pub state : JobState
  pub attempt : ℕ
  pub claim_until : Option ℕ
  pub start_revision : Option ℕ
  pub output : Option String
  pub error : Option String

pub record Rows : Type 0 where
  pub session_id : String
  pub service_state : ServiceState
  pub intake_closed : Bool
  pub last_claim_at : Option ℕ
  pub graph_revision : ℕ
  pub final_revision : Option ℕ
  pub finals : List FinalRow
  pub jobs : List Job
  pub events : List Event

abbrev pub job_state_is : JobState → JobState → Bool
job_state_is pending pending = true
job_state_is processing processing = true
job_state_is completed completed = true
job_state_is failed failed = true
job_state_is _ _ = false

abbrev pub is_open : ServiceState → Bool
is_open opened = true
is_open _ = false

-- A Session's rows after `create_session`.
unfoldable pub new_rows : String → Rows
new_rows session_id = record {
  session_id = session_id;
  service_state = opened;
  intake_closed = false;
  last_claim_at = none;
  graph_revision = 0;
  final_revision = none;
  finals = [];
  jobs = [];
  events = [];
}

-- `INSERT INTO service_session`, given the rows that the Session has already: the primary key refuses
-- it if there are any.
unfoldable pub insert_session : Option Rows → String → Result Rows
unfolding new_rows
insert_session none session_id = ok (new_rows session_id)
insert_session (some rows) session_id = err integrity_error

unfoldable pub create_session : Option Rows → String → String → Result Rows
unfolding insert_session
create_session present session_id owner_opaque = do
  raise_if (session_id == "" || owner_opaque == "") session_invalid
  insert_session present session_id

-- `_replay_locked`
unfoldable pub replay : Formats → Rows → Result ReplayResult
replay formats rows =
    replay_events formats rows.session_id (map (λ f. f.evidence) rows.finals)
      (map (λ f. f.utterance) rows.finals) rows.events

abbrev pub is_finalizing : Event → Bool
is_finalizing e = elim e.payload [ Payload.session_finalizing _ ↦ true | _ ↦ false ]

-- `_append_locked`. `valid_domain` stands for `validate_domain`, which checks the state against the
-- domain schema. The keys of service_event are distinct, since `apply_event` refuses a sequence or an
-- id that is there.
unfoldable pub append_locked :
    Formats → (State → Result (Unit {0})) → Rows → List Event → Result (ReplayResult × Rows)
unfolding replay
append_locked formats valid_domain rows events = do
  result ← replay formats rows
  next ← apply_events formats result events
  valid_domain next.state
  ok (
    next,
    record rows {
      events = rows.events ++ events;
      graph_revision = next.state.graph.revision;
      intake_closed = rows.intake_closed || any is_finalizing events;
    },
  )

abbrev pub is_created : Event → Bool
is_created e = elim e.payload [ Payload.session_created _ _ ↦ true | _ ↦ false ]

unfoldable pub open_session :
    Formats
    → (State → Result (Unit {0}))
    → Option Rows
    → String
    → String
    → Event
    → Result (ReplayResult × Rows)
unfolding append_locked insert_session
open_session formats valid_domain present session_id owner_opaque e = do
  raise_if (session_id == "" || owner_opaque == "") session_invalid
  raise_if (not (e.session_id == session_id) || not (is_created e) || not (nat_eq e.sequence 1))
      created_event_invalid
  rows ← insert_session present session_id
  append_locked formats valid_domain rows (e ∷ [])

abbrev pub is_analyzer : Event → Bool
is_analyzer e = elim e.actor [ Actor.analyzer ↦ true | _ ↦ false ]

abbrev pub is_empty {ℓ} : {A : Type ℓ} → List A → Bool
is_empty [] = true
is_empty (_ ∷ _) = false

unfoldable pub append_events :
    Formats → (State → Result (Unit {0})) → Rows → List Event → Result (ReplayResult × Rows)
unfolding append_locked
append_events formats valid_domain rows events = do
  raise_if (any is_analyzer events) analyzer_job_required
  raise_if (not (is_open rows.service_state)) session_closed
  raise_if (rows.intake_closed && not (is_empty events)) Code.session_finalizing
  append_locked formats valid_domain rows events

abbrev pub find_job : String → List Job → Option Job
find_job id [] = none
find_job id (j ∷ js) = let rest = find_job id js in if j.job_id == id then some j else rest

-- UPDATE service_job ... WHERE job_id = ?
abbrev pub put_job : Job → List Job → List Job
put_job k [] = []
put_job k (j ∷ js) = let rest = put_job k js in if j.job_id == k.job_id then k ∷ js else j ∷ rest

abbrev pub require_job : Rows → String → Result Job
require_job rows id = elim (find_job id rows.jobs) [ none ↦ err job_not_found | some j ↦ ok j ]

abbrev pub owned : ℕ → Job → Bool
owned attempt j = job_state_is j.state processing && nat_eq j.attempt attempt

abbrev pub option_is : Option ℕ → ℕ → Bool
option_is none n = false
option_is (some m) n = nat_eq m n

-- What an Analyzer reports beside its Events. `valid_delta` stands for `validate_presentation_delta` of
-- prototype/service_presentation.py on the hints of the call: it may raise, and then nothing is kept.
pub record Report : Type 0 where
  pub accepted_output : String
  pub valid_delta : ReplayResult → List Event → Result (Unit {0})

-- The end of `accept_job_result`, for a Job that is not completed.
unfoldable pub accept_output :
    Formats
    → (State → Result (Unit {0}))
    → Rows
    → Job
    → ℕ
    → ℕ
    → Report
    → List Event
    → Result (ReplayResult × Rows)
unfolding append_locked
accept_output formats valid_domain rows j attempt start_revision report events = do
  raise_if (not (owned attempt j)) stale_claim
  raise_if
      (not (option_is j.start_revision start_revision)
        || not (nat_eq rows.graph_revision start_revision))
      revision_mismatch
  (result, next) ← append_locked formats valid_domain rows events
  report.valid_delta result events
  let j' = record j { state = completed; claim_until = none; output = some report.accepted_output }
  ok (result, record next { jobs = put_job j' next.jobs })

-- A second call for a completed Job changes nothing.
unfoldable pub accept_job_result :
    Formats
    → (State → Result (Unit {0}))
    → Rows
    → String
    → ℕ
    → ℕ
    → Report
    → List Event
    → Result (ReplayResult × Rows)
unfolding accept_output replay
accept_job_result formats valid_domain rows job_id attempt start_revision report events = do
  raise_if (not (is_open rows.service_state)) session_closed
  j ← require_job rows job_id
  if job_state_is j.state completed
      then (do result ← replay formats rows; ok (result, rows))
      else accept_output formats valid_domain rows j attempt start_revision report events
