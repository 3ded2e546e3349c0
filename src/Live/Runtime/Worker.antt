-- ===== src/Live/Runtime/Worker.antt =====
-- `_run` of `SingleAnalyzerWorker`, with what `_process_item` and `_record_failure` note.
use ronro.Prelude.{ℕ, ◌+◌, Bool, Option, some, List, [], ◌∷◌, ◌++◌, if◌then◌else◌}
use ronro.Errors.{
  Code, Result, ok, err, utterance_missing, revision_conflict, candidate_rejected, worker_failure,
  ◌>>=◌,
}
use ronro.Domain.{Event, Utterance}
use ronro.Domain.Schema.{Formats}
use ronro.Live.Queue.{
  LiveQueueItem, LiveUtteranceQueue, claim_next, Claim, claimed, ended, waits, complete, fail,
  put_item,
}
use ronro.Live.Runtime.{
  Runtime, Analyst, Gaps, Processed, revision, process_item, find_utterance, acts,
}

-- An exception other than the QueueProcessingErrors of `_process_item` and `_analyze` is a
-- `worker_failure`.
abbrev pub worker_code : Code → Code
worker_code utterance_missing = utterance_missing
worker_code revision_conflict = revision_conflict
worker_code candidate_rejected = candidate_rejected
worker_code (Code.analyzer_failed code) = Code.analyzer_failed code
worker_code _ = worker_failure

-- What the run writes into the item that it processed.
abbrev pub noted : Option ℕ → Bool → List Event → LiveQueueItem → LiveQueueItem
noted start reanalyzed events x = record x {
  start_graph_revision = start;
  reanalysis_count = if reanalyzed then x.reanalysis_count + 1 else x.reanalysis_count;
  generated_events = events;
}

abbrev pub events_of : LiveQueueItem → Result (List Event) → List Event
events_of x (ok events) = events
events_of x (err c) = x.generated_events

abbrev pub start_of : Runtime → LiveQueueItem → Result Utterance → Option ℕ
start_of rt x (ok u) = some (revision rt)
start_of rt x (err c) = x.start_graph_revision

abbrev pub note_item :
    Option ℕ → Processed → LiveQueueItem → LiveUtteranceQueue → LiveUtteranceQueue
note_item start p x q = record q {
  items = put_item (noted start p.reanalyzed (events_of x p.outcome) x) q.items;
}

abbrev pub settled :
    Runtime → LiveQueueItem → Result (List Event) → LiveUtteranceQueue → Result Runtime
settled rt item (ok events) q = do
  queue ← complete q item.queue_item_id
  ok (record rt { queue = queue })
settled rt item (err c) q = do
  queue ← fail q item.queue_item_id (worker_code c)
  ok record rt {
    queue = queue;
    analysis_errors =
        rt.analysis_errors
        ++ record {
          queue_item_id = item.queue_item_id;
          utterance_sequence = item.utterance_sequence;
          evidence_id = item.evidence_id;
          code = worker_code c;
        }
          ∷ [];
  }

-- One round of the worker's loop. `on_settled`, a callback of the owner, is not modelled. No action
-- reads the errors that `on_failure` notes, so it stands after the last gap.
abbrev pub work_claim : Formats → Analyst → Gaps → Runtime → Claim → Result Runtime
work_claim formats analyst gaps rt (ended q) = ok (record rt { queue = q })
work_claim formats analyst gaps rt (waits q) = ok (record rt { queue = q })
work_claim formats analyst gaps rt (claimed item q) =
    let begun = acts formats (record rt { queue = q }) gaps.claiming in
    let p = process_item formats analyst gaps begun item in
    let start =
      start_of begun item (find_utterance item.utterance_sequence begun.result.state.utterances) in
    let noted_rt : Runtime = record p.runtime { queue = note_item start p item p.runtime.queue } in
    let next = acts formats noted_rt gaps.settling in settled next item p.outcome next.queue

unfoldable pub work : Formats → Analyst → Gaps → Runtime → ℕ → Result Runtime
unfolding process_item
work formats analyst gaps rt now = do
  claim ← claim_next rt.queue now
  work_claim formats analyst gaps rt claim
