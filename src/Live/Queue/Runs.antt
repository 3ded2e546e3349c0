-- ===== src/Live/Queue/Runs.antt =====
-- The queue over any sequence of calls, failed ones included, and what `snapshot` shows of it.
use ronro.Prelude.{
  ℕ, ◌+◌, ◌≤◌, String, ◌≡◌, refl, true, Option, none, some, List, [], ◌∷◌, length, arith,
}
use ronro.Errors.{Code, Result, ok, err, ◌>>=◌}
use ronro.Errors.Ensures.{Ensures}
use ronro.Errors.Returns.{Returns, returned}
use ronro.Live.Queue.{
  LiveQueueItem, LiveUtteranceQueue, ItemState, processing, completed, failed, find_item, depth,
  new_queue, enqueue, claim_next, Claim, complete, fail, retry, close,
}
use ronro.Live.Queue.Snapshots.{
  snapshot, Snapshot, count_state, processing_sequence, delayed_state, by_sequence,
}
use ronro.Live.Queue.Valid.{IsValid, running_ok, is_processing}
use ronro.Live.Queue.Invariant.{
  queue_of, new_queue-IsValid, enqueue-IsValid, complete-IsValid, fail-IsValid, retry-IsValid,
  close-IsValid, claim_next-IsValid,
}

-- A call of a method, with the time that it reads.
pub data Call : Type 0 where
  enqueues : (item : LiveQueueItem) (now : ℕ) → Call
  claims : (now : ℕ) → Call
  completes : (id : String) → Call
  fails : (id : String) (code : Code) → Call
  retries : (id : String) (now : ℕ) → Call
  closes : Call

-- A call that raises leaves the queue as it was.
abbrev pub after : LiveUtteranceQueue → Result LiveUtteranceQueue → LiveUtteranceQueue
after q (ok r) = r
after q (err c) = q

abbrev pub after_claim : LiveUtteranceQueue → Result Claim → LiveUtteranceQueue
after_claim q (ok c) = queue_of c
after_claim q (err c) = q

unfoldable pub call : LiveUtteranceQueue → Call → LiveUtteranceQueue
call q (enqueues item now) = after q (enqueue q item now)
call q (claims now) = after_claim q (claim_next q now)
call q (completes id) = after q (complete q id)
call q (fails id code) = after q (fail q id code)
call q (retries id now) = after q (retry q id now)
call q closes = close q

unfoldable pub run : LiveUtteranceQueue → List Call → LiveUtteranceQueue
unfolding call
run q [] = q
run q (c ∷ cs) = run (call q c) cs

after-IsValid :
    (q : LiveUtteranceQueue) (r : Result LiveUtteranceQueue)
    → IsValid q
    → Ensures IsValid r
    → IsValid (after q r)
after-IsValid q (ok r) v e = e.at r refl
after-IsValid q (err c) v e = v

after_claim-IsValid :
    (q : LiveUtteranceQueue) (r : Result Claim)
    → IsValid q
    → Ensures (λ c. IsValid (queue_of c)) r
    → IsValid (after_claim q r)
after_claim-IsValid q (ok c) v e = e.at c refl
after_claim-IsValid q (err c) v e = v

call-IsValid : (q : LiveUtteranceQueue) (c : Call) → IsValid q → IsValid (call q c)
unfolding call
call-IsValid q (enqueues item now) v = after-IsValid q _ v (enqueue-IsValid q v item now)
call-IsValid q (claims now) v = after_claim-IsValid q _ v (claim_next-IsValid q v now)
call-IsValid q (completes id) v = after-IsValid q _ v (complete-IsValid q v id)
call-IsValid q (fails id code) v = after-IsValid q _ v (fail-IsValid q v id code)
call-IsValid q (retries id now) v = after-IsValid q _ v (retry-IsValid q v id now)
call-IsValid q closes v = close-IsValid q v

run_from-IsValid : (q : LiveUtteranceQueue) (cs : List Call) → IsValid q → IsValid (run q cs)
unfolding run
run_from-IsValid q [] v = v
run_from-IsValid q (c ∷ cs) v = run_from-IsValid (call q c) cs (call-IsValid q c v)

-- Whatever methods are called on a new queue, in whatever order and whether they fail or not: the ids
-- stay distinct, every pending item has an entry in the heap and every entry an item, the heap is in
-- the order of the sequences, the depth is at most the greatest depth, the item that is named as
-- processed is being processed, and no completed item is after the last completed sequence.
pub run-IsValid :
    (delayed critical : ℕ) (cs : List Call) → IsValid (run (new_queue delayed critical) cs)
run-IsValid delayed critical cs =
    run_from-IsValid (new_queue delayed critical) cs (new_queue-IsValid delayed critical)

depth-count_state :
    (items : List LiveQueueItem)
    → count_state ItemState.pending items + count_state processing items ≡ depth items
unfolding count_state depth
depth-count_state [] = refl
depth-count_state (x ∷ xs) = ground (arith, depth-count_state xs)

length-count_state :
    (items : List LiveQueueItem)
    → count_state ItemState.pending items
        + count_state processing items
        + count_state completed items
        + count_state failed items
      ≡ length items
unfolding count_state
length-count_state [] = refl
length-count_state (x ∷ xs) = ground (arith, length-count_state xs)

processing_sequence-Returns : (q : LiveUtteranceQueue) → IsValid q → Returns (processing_sequence q)
unfolding processing_sequence
processing_sequence-Returns q v = go q.processing_id q.items v.running
  where
    found :
        (o : Option LiveQueueItem)
        → is_processing o ≡ true
        → Returns (elim o [ none ↦ err Code.key_error | some x ↦ ok (some x.utterance_sequence) ])
    found none h = cc
    found (some x) h = returned _

    go :
        (p : Option String) (items : List LiveQueueItem)
        → running_ok p items ≡ true
        → Returns (elim p [
          | none ↦ ok none
          | some id ↦ elim (find_item id items) [
            | none ↦ err Code.key_error
            | some x ↦ ok (some x.utterance_sequence)
          ]
        ])
    go none items h = returned _
    go (some id) items h = found (find_item id items) h

-- `snapshot` of a well-formed queue always returns. Its depth is at most its greatest depth, and its
-- counts add up to the number of items.
pub snapshot-Returns :
    (q : LiveUtteranceQueue) (now : ℕ)
    → IsValid q
    → (s : Snapshot) × (snapshot q now ≡ ok s)
      × (s.current_depth ≤ s.max_depth)
      × (s.pending + s.processing + s.completed + s.failed ≡ length q.items)
unfolding snapshot
snapshot-Returns q now v = go (processing_sequence q) (processing_sequence-Returns q v)
  where
    shown : Option ℕ → Snapshot
    shown sequence = record {
      current_depth = count_state ItemState.pending q.items + count_state processing q.items;
      max_depth = q.max_depth;
      pending = count_state ItemState.pending q.items;
      processing = count_state processing q.items;
      failed = count_state failed q.items;
      completed = count_state completed q.items;
      processing_sequence = sequence;
      last_completed_sequence = q.last_completed_sequence;
      delayed_state = delayed_state q now;
      last_error = q.last_error;
      closed = q.closed;
      items = by_sequence q.items;
    }

    go :
        (r : Result (Option ℕ))
        → Returns r
        → (s : Snapshot) × ((r >>= λ sequence. ok (shown sequence)) ≡ ok s)
          × (s.current_depth ≤ s.max_depth)
          × (s.pending + s.processing + s.completed + s.failed ≡ length q.items)
    go r (returned sequence) =
        let b = v.bounded in
        (
          shown sequence,
          unfold ◌>>=◌ in refl,
          omega (arith, depth-count_state q.items),
          length-count_state q.items,
        )
