-- ===== src/Tests/Live.antt =====
-- The theorems on the live queue and its worker at a queue of three Utterances and at the Session of
-- the tests.
use ronro.Prelude.{ℕ, ◌+◌, ◌≤◌, String, ◌≡◌, refl, false, Option, none, some, List, [], ◌∷◌, length}
use ronro.Errors.{value_error, raise_if, ◌>>◌, Result, ok, err, worker_failure}
use ronro.Domain.{Actor, NodeType, Payload, Event, Utterance}
use ronro.Replay.{ReplayResult, replay_events}
use ronro.Replay.Log.{IsReplayed}
use ronro.Replay.Runs.{replay_events-IsReplayed}
use ronro.Live.Candidate.{CandidateEvent}
use ronro.Live.Queue.{
  LiveQueueItem, LiveUtteranceQueue, ItemState, new_queue, make_queue, enqueue, claim_next, Claim,
  complete, fail, retry, close, admit, push_pending, heappush, depth, find_item, require_item,
  claim_loop, take_item,
}
use ronro.Live.Queue.Snapshots.{snapshot, Snapshot, delayed_state, normal}
use ronro.Live.Queue.Valid.{IsValid}
use ronro.Live.Queue.Fifo.{IsClaim, claim_next-IsClaim}
use ronro.Live.Queue.Runs.{
  Call, enqueues, claims, fails, retries, run, call, run-IsValid, snapshot-Returns,
}
use ronro.Live.Queue.Lives.{Keeps, call-Keeps}
use ronro.Live.Runtime.{
  Action, close_runtime, Runtime, registers, Analyst, Gaps, no_correction, Processed, process_item,
  find_utterance, queue_item, act, acts, register_utterance, stage, commit, execute_command,
  retry_item,
}
use ronro.Live.Runtime.Actions.{Extends}
use ronro.Live.Runtime.Commits.{IsFresh, process_item-IsFresh}
use ronro.Live.Runtime.Worker.{work}
use ronro.Live.Runtime.Rounds.{IsRound, work-IsRound}
use ronro.Tests.{lenient, evidence, events, program, or_start}

abbrev utterance_item : String → ℕ → LiveQueueItem
utterance_item id n = record {
  queue_item_id = id;
  utterance_sequence = n;
  evidence_id = "ev";
  normalized_text = "We ship on Monday.";
  enqueued_at = "2026-01-01T00:00:00Z";
  state = ItemState.pending;
  retry_count = 0;
  queue_wait = none;
  start_graph_revision = none;
  reanalysis_count = 0;
  generated_events = [];
  error = none;
  enqueued_monotonic = 0;
  done = false;
}

-- The second Utterance comes first; one item is claimed, fails and is retried.
abbrev calls : List Call
calls =
    enqueues (utterance_item "q-2" 2) 10
    ∷ enqueues (utterance_item "q-1" 1) 11
    ∷ claims 20
    ∷ fails "q-1" worker_failure
    ∷ retries "q-1" 30
    ∷ []

abbrev waiting : LiveUtteranceQueue
waiting = run (new_queue 5 50) calls

run-IsValid_example : IsValid waiting
run-IsValid_example = run-IsValid 5 50 calls

waiting-IsValid : IsValid waiting
waiting-IsValid = run-IsValid 5 50 calls

claim_next-IsClaim_example : (c : Claim) × (claim_next waiting 40 ≡ ok c) × IsClaim waiting 40 c
claim_next-IsClaim_example = claim_next-IsClaim waiting waiting-IsValid 40

snapshot-Returns_example :
    (s : Snapshot) × (snapshot waiting 40 ≡ ok s)
    × (s.current_depth ≤ s.max_depth)
    × (s.pending + s.processing + s.completed + s.failed ≡ length waiting.items)
snapshot-Returns_example = snapshot-Returns waiting 40 waiting-IsValid

-- The definitions that a run of the queue unfolds.
unfoldable queue_program : Unit {0}
unfolding program enqueue claim_next complete fail retry close admit push_pending heappush depth
    require_item claim_loop take_item new_queue run call
queue_program = tt

abbrev found_or : LiveQueueItem → Option LiveQueueItem → LiveQueueItem
found_or x none = x
found_or x (some y) = y

abbrev second : LiveQueueItem
second = found_or (utterance_item "q-2" 2) (find_item "q-2" waiting.items)

second_found : find_item "q-2" waiting.items ≡ some second
unfolding queue_program
second_found = refl

call-Keeps_example : Keeps "q-2" second (call waiting (claims 40))
call-Keeps_example = call-Keeps waiting "q-2" second second_found (claims 40) waiting-IsValid

-- The item `q-2` has waited 90 ticks, over both thresholds.
abbrev third : LiveQueueItem
third = utterance_item "q-3" 3

abbrev queue_or : LiveUtteranceQueue → Result LiveUtteranceQueue → LiveUtteranceQueue
queue_or q (ok r) = r
queue_or q (err c) = q

abbrev longer : LiveUtteranceQueue
longer = queue_or waiting (enqueue waiting third 100)

-- The queue reads normal right after `q-3` was taken in, since the least age is read.
longer_normal : delayed_state longer 100 ≡ normal
unfolding queue_program delayed_state
longer_normal = refl

thresholds : make_queue 5 50 ≡ ok (new_queue 5 50)
unfolding make_queue ◌>>◌ raise_if queue_program
thresholds = refl

thresholds_refused : make_queue 50 5 ≡ err value_error
unfolding make_queue ◌>>◌ raise_if
thresholds_refused = refl

abbrev said : Utterance
said = record {
  session_id = "s";
  sequence = 1;
  evidence_ids = "ev-1" ∷ [];
  text = "We ship on Monday.";
  ended_at = "2026-01-01T00:00:00Z";
}

abbrev spoken : ReplayResult
spoken = or_start (replay_events lenient "s" evidence (said ∷ []) events)

spoken_ok : replay_events lenient "s" evidence (said ∷ []) events ≡ ok spoken
unfolding program
spoken_ok = refl

spoken_inv : IsReplayed lenient spoken
spoken_inv = replay_events-IsReplayed lenient "s" evidence (said ∷ []) events spoken spoken_ok

-- An Analyzer that proposes one Node, whatever it is shown.
abbrev proposal : CandidateEvent
proposal = record {
  event_id = "e-7";
  session_id = "s";
  occurred_at = "2026-01-01T00:00:00Z";
  source_evidence_ids = "ev-1" ∷ [];
  payload = Payload.node_detected NodeType.idea "Monday" none;
  actor = Actor.analyzer;
}

abbrev analyst : Analyst
analyst = record {
  analyze = λ n u graph past. ok (proposal ∷ []);
  interpret = λ text graph past. no_correction;
}

-- While the Analyzer runs, another Utterance is registered.
abbrev busy : Gaps
busy = record {
  claiming = Action.retries "q-9" 41 ∷ [];
  interpreting = [];
  analyzing =
      registers (record { id = "ev-3"; session_id = "s"; sequence = 3 })
        (record said { sequence = 3; evidence_ids = "ev-3" ∷ [] }) "2026-01-01T00:00:00Z" 50
      ∷ [];
  rereading = [];
  reanalyzing = [];
  committing = [];
  settling = Action.closes ∷ [];
}

abbrev runtime : Runtime
runtime = record {
  session_id = "s";
  result = spoken;
  queue = waiting;
  analysis_errors = [];
  clarifications = [];
}

abbrev first_item : LiveQueueItem
first_item = utterance_item "q-1" 1

abbrev processed : Processed
processed = process_item lenient analyst busy runtime first_item

abbrev events_or : Result (List Event) → List Event
events_or (ok es) = es
events_or (err c) = []

abbrev appended : List Event
appended = events_or processed.outcome

-- The definitions that a run of the worker unfolds.
unfoldable worker_program : Unit {0}
unfolding queue_program process_item act acts register_utterance find_utterance stage commit
    queue_item execute_command retry_item close_runtime
worker_program = tt

appended_one : length appended ≡ 1
unfolding worker_program
appended_one = refl

appended_ok : processed.outcome ≡ ok appended
unfolding worker_program
appended_ok = refl

said_found : find_utterance first_item.utterance_sequence spoken.state.utterances ≡ ok said
unfolding worker_program
said_found = refl

process_item-IsFresh_example :
    (base : ReplayResult) × Extends lenient spoken base
    × IsFresh lenient analyst said base processed appended
process_item-IsFresh_example =
    process_item-IsFresh lenient analyst busy runtime first_item said appended spoken_inv said_found
      refl appended_ok

work-IsRound_example :
    (c : Claim) × (next : Runtime) × (claim_next runtime.queue 40 ≡ ok c)
    × (work lenient analyst busy runtime 40 ≡ ok next)
    × IsRound runtime c next
work-IsRound_example = work-IsRound lenient analyst busy runtime 40 waiting-IsValid
