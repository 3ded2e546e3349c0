-- ===== src/Lib.antt =====
-- The core of ronro: a log of Events, the discussion Graph that is materialized from it, the
-- Human Commands that add to the log, the live queue of Utterances with its worker, and the store
-- that keeps all of it for the service.
--
-- Parts. An Analyzer and people propose Events. The Event Store (prototype/store.py) keeps the
-- Events of one Session in sequence. The Graph Materializer (prototype/materializer.py) applies
-- one Event to a state and gives the next one, or an error with a code. The Replay Runner
-- (prototype/replay.py) reads the log into a new Event Store for each Event, asks both, and
-- extends its result. The Human Command handler (prototype/commands.py) checks a Command against
-- the state and builds an Event that the Replay Runner applies; a CommandSession holds the latest
-- result. In a live Session the Runtime (prototype/live_queue.py) registers each Utterance in a
-- queue; one worker claims its items by their sequence, asks the Analyzer about the Graph without
-- holding the lock, and appends the candidates (prototype/candidate_event.py) if the Graph is
-- still the one that was analyzed. The service store (prototype/service_store.py) keeps Finals,
-- the Jobs that analyze them and the Events in SQL; it reads and extends its Events through the
-- Replay Runner. The turn ledger (prototype/live_turns.py) decides which samples a transcribed item
-- owns and holds its completion back until its predecessors are given out.
--
-- Files.
--   Prelude, Prelude/*        names passed on, tests into Bool, lists
--   Errors, Errors/*          prototype/errors.py: codes and results, and what a result ensures
--   Domain                    the data of schemas/discussion-domain.schema.json and of
--                             schemas/discussion-event.schema.json: State, Event, Payload
--   Domain/Schema             validate_event of prototype/schema.py
--   Domain/Text, Decimal      f-strings, numbers in six digits and str.strip
--   Materializer/Nodes        _graph_node, _require_node, _touch_node, _clear_current_topic
--   Materializer/Matrix       RELATION_MATRIX, ids and keys of Relations
--   Materializer/Provenance   _provenance_reaches and _has_provenance_cycle; Reaching, Visits,
--                             Cycles and Links are about their answers, Changes about Edges that
--                             come and go
--   Materializer/Relations    _relation_detected and _correct_relation
--   Materializer/Rewire       _rewire_edges
--   Materializer/Sessions, Detection, Organizing, Undo
--                             the other handlers
--   Materializer/Apply        initial_state, _validate_envelope, _dispatch and apply
--   EventStore                EventStore
--   Replay                    ReplayRunner; Equivalence, Log, Runs and Order are about its results
--   Commands                  HumanCommandHandler and CommandSession; Guards and Handling are
--                             about them
--   Invariant, Invariant/*    what a well-formed state is, and each handler on it
--   Lifecycle, Lifecycle/*    a table of transitions after
--                             docs/architecture/discussion-event-catalog.md, and each handler on it
--   Live/Queue, Queue/Snapshots
--                             LiveUtteranceQueue; Items, Valid, Claiming and Invariant are the lemmas
--                             on it, Fifo, Runs and Lives what follows
--   Live/Candidate            CandidateEvent
--   Live/Runtime, Runtime/Worker
--                             LiveAnalyzerRuntime and SingleAnalyzerWorker; Actions, Commits,
--                             Failures, Held and Rounds are about a run of an item
--   Live/Turns, Turns/Observing
--                             TurnLedger; Release, Runs and Finals are about the order in which
--                             its items are given out
--   Service/Store             the tables, create_session, open_session, _replay_locked,
--                             _append_locked, append_events and accept_job_result of
--                             SqliteServiceStore
--   Service/Intake            accept_final and finalize
--   Service/Jobs              claim_job, renew_job_lease, fail_job, retry_job, job_state
--   Service/Order, Matching, Claiming, Sound, Methods, Runs
--                             the invariant of the rows, and each method on it
--   Service/Results, Completed, Frozen, Leases
--                             repeated reports, ended Sessions and claims that hold
--   Tests, Tests/*            a small Session, and the theorems at it
--
-- How the code is read. A handler that changes the state in place is a function from a state to a
-- result, since apply copies the state first and drops the copy on an error. A dict of the state
-- is a record; an Event is a record with the payload that its type has, so an Event whose payload
-- has another shape has no counterpart here. A KeyError is a code of its own, key_error, which
-- the theorems exclude. Optional keys are Option; timestamps and the confidence number stay text.
-- A set of Python is a list without duplicates. The provenance searches run on fuel:
-- _provenance_reaches on the number of Edges plus two, _has_provenance_cycle on the number of
-- Nodes that a provenance Edge leaves plus one, and the theorems about them show that the fuel
-- never runs out. The loop of TurnLedger.release runs on the number of items plus one: a round
-- that changes something emits an item, so it ends before.
--
-- A method of the queue or the store holds its lock, or runs in one transaction, from start to end,
-- so it is one step. What other threads do while the worker holds no lock is a list of actions for
-- each such gap of its run, from the claim of an item until it is completed or failed: they register
-- Utterances, execute Commands, retry items or close the Runtime. A call that waits for an item of an
-- open and empty queue answers `waits`. Time is a number of ticks that a call is given. The heap of the queue is
-- a list in ascending order. The database is the rows of one Session.
--
-- Parameters. Analyst stands for the Analyzer and for prototype/relation_correction.py; the
-- argument valid of the store for validate_domain, and the field valid_delta of a Report for
-- validate_presentation_delta of prototype/service_presentation.py, which may refuse a result. Formats stands for the format checks of the
-- jsonschema package; every theorem holds for any of them.
--
-- Not modelled. Messages and details of errors, which no code branches on; the field presentation
-- of a result, which is only passed on; the comparison of fixtures; fields of Evidence and
-- Utterances that this code does not read; the layout, presentation hints and what is in a delta;
-- the on_settled callback of the worker; latency stamps and figures, timeouts of waiting calls, and the threads themselves; the choice of a
-- Session in claim_job, the checkpoint row, and JSON; context of TurnLedger and seconds.
-- Transcription, analysis, projection, the Postgres store, and the service's HTTP and identity are
-- other parts of the repository.
pub mod Prelude
pub mod Domain
pub mod Errors
pub mod Materializer
pub mod EventStore
pub mod Replay
pub mod Commands
pub mod Live
pub mod Service
pub mod Invariant
pub mod Lifecycle
pub mod Tests
