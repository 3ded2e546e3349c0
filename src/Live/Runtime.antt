-- ===== src/Live/Runtime.antt =====
-- `LiveAnalyzerRuntime` of prototype/live_queue.py. The worker runs beside
-- the calls of other threads: what these do while no lock is held is a list of actions, an argument
-- for each such gap. The layout, the latency stamps and presentation hints are not modelled.
pub mod Actions
pub mod Commits
pub mod Failures
pub mod Worker
pub mod Held
pub mod Rounds
use ronro.Prelude.{
  ℕ, ◌+◌, String, Bool, true, false, not, ◌&&◌, ◌||◌, Option, none, some, List, [], ◌∷◌, ◌++◌, ◌==◌,
  any, ltb, nat_eq, if◌then◌else◌,
}
use ronro.Errors.{
  Code, Result, ok, err, raise_if, session_mismatch, utterance_sequence_invalid, duplicate_evidence,
  duplicate_utterance_sequence, utterance_missing, revision_conflict, candidate_rejected,
  worker_failure, key_error, ◌>>=◌, ◌>>◌,
}
use ronro.Domain.{State, Graph, Event, Evidence, Utterance}
use ronro.Domain.Text.{◌⧺◌}
use ronro.Domain.Decimal.{six_digits}
use ronro.Domain.Schema.{Formats, validate_event}
use ronro.Materializer.Apply.{has_evidence}
use ronro.Replay.{ReplayResult, apply_event}
use ronro.Commands.{Command, CommandType, CommandResult, handle}
use ronro.Live.Candidate.{CandidateEvent, to_event}
use ronro.Live.Queue.{
  LiveQueueItem, LiveUtteranceQueue, ItemState, enqueue, claim_next, Claim, claimed, ended, waits,
  complete, fail, retry, close, put_item, find_item,
}

-- An Utterance whose relation correction was unclear, with the code if a Command was refused.
pub record Clarification : Type 0 where
  pub utterance_sequence : ℕ
  pub code : Option Code

pub record AnalysisError : Type 0 where
  pub queue_item_id : String
  pub utterance_sequence : ℕ
  pub evidence_id : String
  pub code : Code

pub record Runtime : Type 0 where
  pub session_id : String
  pub result : ReplayResult
  pub queue : LiveUtteranceQueue
  pub analysis_errors : List AnalysisError
  pub clarifications : List Clarification

abbrev pub revision : Runtime → ℕ
revision rt = rt.result.state.graph.revision

-- The result with one more Evidence and Utterance.
abbrev pub with_utterance : ReplayResult → Evidence → Utterance → ReplayResult
with_utterance r ev u = record r {
  state = record r.state {
    evidence = r.state.evidence ++ ev ∷ [];
    utterances = r.state.utterances ++ u ∷ [];
  };
}

abbrev pub has_utterance : ℕ → List Utterance → Bool
has_utterance n us = any (λ u. nat_eq u.sequence n) us

-- f"queue:{session_id}:{sequence:06d}"
unfoldable pub queue_item : String → Evidence → Utterance → String → LiveQueueItem
unfolding six_digits
queue_item session_id ev u enqueued_at = record {
  queue_item_id = "queue:" ⧺ (session_id ⧺ (":" ⧺ six_digits u.sequence));
  utterance_sequence = u.sequence;
  evidence_id = ev.id;
  normalized_text = u.text;
  enqueued_at = enqueued_at;
  state = ItemState.pending;
  retry_count = 0;
  queue_wait = none;
  start_graph_revision = none;
  reanalysis_count = 0;
  generated_events = [];
  error = none;
  enqueued_monotonic = 0;
  done = false;
}

-- If the queue refuses the item, the Evidence and the Utterance are taken off again.
unfoldable pub register_utterance : Runtime → Evidence → Utterance → String → ℕ → Result Runtime
unfolding queue_item
register_utterance rt ev u enqueued_at now = do
  raise_if (not (ev.session_id == rt.session_id) || not (u.session_id == rt.session_id))
      session_mismatch
  raise_if (ltb u.sequence 1) utterance_sequence_invalid
  raise_if (has_evidence rt.result.state.evidence ev.id) duplicate_evidence
  raise_if (has_utterance u.sequence rt.result.state.utterances) duplicate_utterance_sequence
  queue ← enqueue rt.queue (queue_item rt.session_id ev u enqueued_at) now
  ok (record rt { result = with_utterance rt.result ev u; queue = queue })

unfoldable pub execute_command : Formats → Runtime → Command → Result Runtime
execute_command formats rt command = do
  done ← handle formats rt.result command
  ok (record rt { result = done.result })

-- What another thread does.
pub data Action : Type 0 where
  registers : (ev : Evidence) (u : Utterance) (enqueued_at : String) (now : ℕ) → Action
  commands : (command : Command) → Action
  retries : (id : String) (now : ℕ) → Action
  closes : Action

abbrev pub after : Runtime → Result Runtime → Runtime
after rt (ok next) = next
after rt (err c) = rt

unfoldable pub retry_item : Runtime → String → ℕ → Result Runtime
retry_item rt id now = do queue ← retry rt.queue id now; ok (record rt { queue = queue })

unfoldable pub close_runtime : Runtime → Runtime
close_runtime rt = record rt { queue = close rt.queue }

unfoldable pub act : Formats → Runtime → Action → Runtime
unfolding register_utterance execute_command retry_item close_runtime
act formats rt (registers ev u enqueued_at now) =
    after rt (register_utterance rt ev u enqueued_at now)
act formats rt (commands command) = after rt (execute_command formats rt command)
act formats rt (retries id now) = after rt (retry_item rt id now)
act formats rt closes = close_runtime rt

unfoldable pub acts : Formats → Runtime → List Action → Runtime
unfolding act
acts formats rt [] = rt
acts formats rt (a ∷ rest) = acts formats (act formats rt a) rest

-- What an Utterance says about a Relation: nothing, an unclear correction, or a Command.
pub data Correction : Type 0 where
  no_correction clarification : Correction
  correction : CommandType → Correction

-- The Analyzer and `interpret_relation_correction`. The Analyzer may answer the same input otherwise
-- the second time, so its first argument tells the two calls of an item apart.
pub record Analyst : Type 0 where
  pub analyze : ℕ → Utterance → Graph → List Event → Result (List CandidateEvent)
  pub interpret : String → Graph → List Event → Correction

-- What other threads do: after the item was claimed, before the correction is applied, while the
-- Analyzer runs, before the Graph is read again, while it runs again, before the Events are appended,
-- and before the item is completed or failed.
pub record Gaps : Type 0 where
  pub claiming : List Action
  pub interpreting : List Action
  pub analyzing : List Action
  pub rereading : List Action
  pub reanalyzing : List Action
  pub committing : List Action
  pub settling : List Action

unfoldable pub find_utterance : ℕ → List Utterance → Result Utterance
find_utterance n [] = err utterance_missing
find_utterance n (u ∷ us) =
    let rest = find_utterance n us in if nat_eq u.sequence n then ok u else rest

-- The loop over the candidates, on a copy of the result.
unfoldable pub stage :
    Formats → ReplayResult → List CandidateEvent → Result (ReplayResult × List Event)
stage formats staged [] = ok (staged, [])
stage formats staged (c ∷ cs) = do
  let event = to_event c (staged.state.graph.last_event_sequence + 1)
  validate_event formats event
  next ← apply_event formats staged event
  (last, events) ← stage formats next cs
  ok (last, event ∷ events)

-- `except (...) as exc: raise QueueProcessingError("candidate_rejected", ...)`
abbrev pub rejected {ℓ} : {A : Type ℓ} → Result A → Result A
rejected (ok a) = ok a
rejected (err c) = err candidate_rejected

-- The item's run: the Runtime after it, and the Events that it appended or the error that it raised.
pub record Processed : Type 0 where
  pub runtime : Runtime
  pub reanalyzed : Bool
  pub outcome : Result (List Event)

abbrev pub finish : Runtime → Bool → Result (ReplayResult × List Event) → Processed
finish rt reanalyzed (ok (staged, events)) = record {
  runtime = record rt { result = staged };
  reanalyzed = reanalyzed;
  outcome = ok events;
}
finish rt reanalyzed (err c) = record { runtime = rt; reanalyzed = reanalyzed; outcome = err c }

-- The end of `_process_item`: the Events are appended if the revision is the one that was analyzed.
unfoldable pub commit : Formats → Runtime → Bool → ℕ → List CandidateEvent → Processed
unfolding stage
commit formats rt reanalyzed current candidates = finish rt reanalyzed (
    if nat_eq (revision rt) current
    then rejected (stage formats rt.result candidates)
    else err revision_conflict)

abbrev pub decide_again : Formats → Gaps → ℕ → Runtime → Result (List CandidateEvent) → Processed
decide_again formats gaps current rt (err c) = finish rt true (err c)
decide_again formats gaps current rt (ok candidates) =
    if nat_eq (revision rt) current
    then commit formats (acts formats rt gaps.committing) true current candidates
    else finish rt true (err revision_conflict)

abbrev pub analyze_again : Formats → Analyst → Gaps → Utterance → ℕ → Runtime → Processed
analyze_again formats analyst gaps u current rt =
    decide_again formats gaps current (acts formats rt gaps.reanalyzing)
      (analyst.analyze 1 u rt.result.state.graph rt.result.events)

abbrev pub decide_first :
    Formats → Analyst → Gaps → Utterance → ℕ → Runtime → Result (List CandidateEvent) → Processed
decide_first formats analyst gaps u start rt (err c) = finish rt false (err c)
decide_first formats analyst gaps u start rt (ok candidates) =
    if nat_eq (revision rt) start
    then commit formats (acts formats rt gaps.committing) false (revision rt) candidates
    else analyze_again formats analyst gaps u (revision rt) (acts formats rt gaps.rereading)

abbrev pub analyze_first : Formats → Analyst → Gaps → Utterance → Runtime → Processed
analyze_first formats analyst gaps u rt =
    decide_first formats analyst gaps u (revision rt) (acts formats rt gaps.analyzing)
      (analyst.analyze 0 u rt.result.state.graph rt.result.events)

abbrev clarified : Runtime → Utterance → Option Code → Runtime
clarified rt u code = record rt {
  clarifications =
      rt.clarifications ++ record { utterance_sequence = u.sequence; code = code } ∷ [];
}

abbrev pub corrected : Runtime → Utterance → Result CommandResult → Processed
corrected rt u (ok done) = record {
  runtime = record rt { result = done.result };
  reanalyzed = false;
  outcome = ok (done.event ∷ []);
}
corrected rt u (err key_error) = record {
  runtime = rt;
  reanalyzed = false;
  outcome = err key_error;
}
corrected rt u (err c) = record {
  runtime = clarified rt u (some c);
  reanalyzed = false;
  outcome = ok [];
}

abbrev pub correction_command : Runtime → Utterance → CommandType → Command
correction_command rt u type = record {
  command_type = type;
  expected_revision = some (revision rt);
  occurred_at = some u.ended_at;
  source_evidence_ids = u.evidence_ids;
}

abbrev pub process_utterance :
    Formats → Analyst → Gaps → Runtime → Utterance → Correction → Processed
process_utterance formats analyst gaps rt u no_correction = analyze_first formats analyst gaps u rt
process_utterance formats analyst gaps rt u clarification = record {
  runtime = clarified (acts formats rt gaps.interpreting) u none;
  reanalyzed = false;
  outcome = ok [];
}
process_utterance formats analyst gaps rt u (correction type) =
    let rt' = acts formats rt gaps.interpreting in
    corrected rt' u (handle formats rt'.result (correction_command rt' u type))

abbrev process_found : Formats → Analyst → Gaps → Runtime → Result Utterance → Processed
process_found formats analyst gaps rt (err c) = finish rt false (err c)
process_found formats analyst gaps rt (ok u) =
    process_utterance formats analyst gaps rt u
      (analyst.interpret u.text rt.result.state.graph rt.result.events)

-- `_process_item`
unfoldable pub process_item : Formats → Analyst → Gaps → Runtime → LiveQueueItem → Processed
unfolding find_utterance acts commit
process_item formats analyst gaps rt item =
    process_found formats analyst gaps rt
      (find_utterance item.utterance_sequence rt.result.state.utterances)
