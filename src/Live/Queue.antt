-- ===== src/Live/Queue.antt =====
-- `LiveUtteranceQueue` of prototype/live_queue.py. Each method holds the lock of the queue, so a call
-- is one step. Monotonic time is a number of ticks, an argument of each call that reads the clock.
pub mod Items
pub mod Valid
pub mod Claiming
pub mod Invariant
pub mod Fifo
pub mod Runs
pub mod Lives
pub mod Snapshots
use ronro.Prelude.{
  ℕ, ◌+◌, ◌-◌, String, Bool, true, false, not, ◌&&◌, ◌||◌, Option, none, some, List, [], ◌∷◌, ◌++◌,
  ◌==◌, any, ltb, leb, nat_eq, if◌then◌else◌,
}
use ronro.Errors.{
  Code, Result, ok, err, raise_if, key_error, queue_closed, queue_invalid_state,
  duplicate_queue_item, duplicate_utterance_sequence, queue_invalid_transition, queue_item_missing,
  value_error, ◌>>=◌, ◌>>◌,
}
use ronro.Domain.{Event}

pub data ItemState : Type 0 where
  pending processing completed failed : ItemState

-- `done` is the flag of `_done`. The stamps that only feed latency figures are left out.
pub record LiveQueueItem : Type 0 where
  pub queue_item_id : String
  pub utterance_sequence : ℕ
  pub evidence_id : String
  pub normalized_text : String
  pub enqueued_at : String
  pub state : ItemState
  pub retry_count : ℕ
  pub queue_wait : Option ℕ
  pub start_graph_revision : Option ℕ
  pub reanalysis_count : ℕ
  pub generated_events : List Event
  pub error : Option Code
  pub enqueued_monotonic : ℕ
  pub done : Bool

-- An element of the heap: (utterance_sequence, counter, queue_item_id).
pub record Entry : Type 0 where
  pub sequence : ℕ
  pub counter : ℕ
  pub id : String

-- `_items` is a dict in the order of insertion. `_pending` is a heap, kept here in ascending order.
pub record LiveUtteranceQueue : Type 0 where
  pub items : List LiveQueueItem
  pub pending : List Entry
  pub counter : ℕ
  pub processing_id : Option String
  pub max_depth : ℕ
  pub last_completed_sequence : Option ℕ
  pub last_error : Option Code
  pub closed : Bool
  pub delayed_after : ℕ
  pub critical_after : ℕ

abbrev pub state_is : ItemState → ItemState → Bool
state_is ItemState.pending ItemState.pending = true
state_is processing processing = true
state_is completed completed = true
state_is failed failed = true
state_is _ _ = false

abbrev pub is_active : LiveQueueItem → Bool
is_active x = state_is x.state ItemState.pending || state_is x.state processing

unfoldable pub new_queue : ℕ → ℕ → LiveUtteranceQueue
new_queue delayed_after critical_after = record {
  items = [];
  pending = [];
  counter = 0;
  processing_id = none;
  max_depth = 0;
  last_completed_sequence = none;
  last_error = none;
  closed = false;
  delayed_after = delayed_after;
  critical_after = critical_after;
}

-- `__init__`: the thresholds must be in order. They are numbers of ticks, so they are not negative.
unfoldable pub make_queue : ℕ → ℕ → Result LiveUtteranceQueue
make_queue delayed_after critical_after = do
  raise_if (ltb critical_after delayed_after) value_error
  ok (new_queue delayed_after critical_after)

-- `_depth_locked`
unfoldable pub depth : List LiveQueueItem → ℕ
depth [] = 0
depth (x ∷ xs) = let rest = depth xs in if is_active x then rest + 1 else rest

abbrev pub max : ℕ → ℕ → ℕ
max a b = if ltb a b then b else a

-- The order of the tuples. Counters are distinct, so the ids are never compared.
abbrev pub before : Entry → Entry → Bool
before a b = ltb a.sequence b.sequence || (nat_eq a.sequence b.sequence && ltb a.counter b.counter)

-- heapq.heappush
unfoldable pub heappush : Entry → List Entry → List Entry
heappush e [] = e ∷ []
heappush e (x ∷ xs) = let rest = heappush e xs in if before e x then e ∷ x ∷ xs else x ∷ rest

-- self._items[item_id]
abbrev pub find_item : String → List LiveQueueItem → Option LiveQueueItem
find_item id [] = none
find_item id (x ∷ xs) = let rest = find_item id xs in if x.queue_item_id == id then some x else rest

-- A change of the item in place.
abbrev pub put_item : LiveQueueItem → List LiveQueueItem → List LiveQueueItem
put_item y [] = []
put_item y (x ∷ xs) =
    let rest = put_item y xs in if x.queue_item_id == y.queue_item_id then y ∷ xs else x ∷ rest

abbrev or_missing_item : Option LiveQueueItem → Result LiveQueueItem
or_missing_item none = err queue_item_missing
or_missing_item (some x) = ok x

unfoldable pub require_item : LiveUtteranceQueue → String → Result LiveQueueItem
require_item q id = or_missing_item (find_item id q.items)

-- `_push_pending`
unfoldable pub push_pending : LiveUtteranceQueue → LiveQueueItem → LiveUtteranceQueue
unfolding heappush
push_pending q x = record q {
  counter = q.counter + 1;
  pending =
      heappush
        record { sequence = x.utterance_sequence; counter = q.counter + 1; id = x.queue_item_id }
        q.pending;
}

abbrev has_item : String → List LiveQueueItem → Bool
has_item id items = any (λ x. x.queue_item_id == id) items

abbrev has_sequence : ℕ → List LiveQueueItem → Bool
has_sequence n items = any (λ x. nat_eq x.utterance_sequence n) items

-- Both `enqueue` and `retry` end by pushing the item and keeping the greatest depth.
unfoldable pub admit : LiveUtteranceQueue → LiveQueueItem → List LiveQueueItem → LiveUtteranceQueue
unfolding push_pending depth
admit q x items =
    push_pending (record q { items = items; max_depth = max q.max_depth (depth items) }) x

unfoldable pub enqueue : LiveUtteranceQueue → LiveQueueItem → ℕ → Result LiveUtteranceQueue
unfolding admit
enqueue q item now = do
  raise_if q.closed queue_closed
  raise_if (not (state_is item.state ItemState.pending)) queue_invalid_state
  raise_if (has_item item.queue_item_id q.items) duplicate_queue_item
  raise_if (has_sequence item.utterance_sequence q.items) duplicate_utterance_sequence
  let item' = record item { enqueued_monotonic = now }
  ok (admit q item' (q.items ++ item' ∷ []))

-- The loop that pops entries of items which are no longer pending: what is left of the heap, and the
-- item that was found.
unfoldable pub claim_loop :
    List LiveQueueItem → List Entry → Result (List Entry × Option LiveQueueItem)
claim_loop items [] = ok ([], none)
claim_loop items (e ∷ es) =
    let rest = claim_loop items es in
    elim (find_item e.id items) [
      | none ↦ err key_error
      | some x ↦ if state_is x.state ItemState.pending then ok (es, some x) else rest
    ]

-- A call of `claim_next`: it returns an item, or None since the queue is closed, or it waits until
-- the queue changes and then starts again (with a timeout, it may return None instead).
pub data Claim : Type 0 where
  claimed : LiveQueueItem → LiveUtteranceQueue → Claim
  ended waits : LiveUtteranceQueue → Claim

abbrev pub start_item : LiveQueueItem → ℕ → LiveQueueItem
start_item x now = record x { state = processing; queue_wait = some (now - x.enqueued_monotonic) }

unfoldable pub take_item : LiveUtteranceQueue → ℕ → List Entry → Option LiveQueueItem → Claim
take_item q now rest (some x) = claimed (start_item x now) record q {
  items = put_item (start_item x now) q.items;
  pending = rest;
  processing_id = some x.queue_item_id;
}
take_item q now rest none =
    if q.closed then ended (record q { pending = rest }) else waits (record q { pending = rest })

unfoldable pub claim_next : LiveUtteranceQueue → ℕ → Result Claim
unfolding claim_loop take_item
claim_next q now = do (rest, found) ← claim_loop q.items q.pending; ok (take_item q now rest found)

abbrev pub released : Option String → String → Option String
released none id = none
released (some p) id = if p == id then none else some p

abbrev pub later_sequence : Option ℕ → ℕ → ℕ
later_sequence none n = n
later_sequence (some last) n = max last n

unfoldable pub complete : LiveUtteranceQueue → String → Result LiveUtteranceQueue
unfolding require_item
complete q id = do
  item ← require_item q id
  raise_if (not (state_is item.state processing)) queue_invalid_transition
  ok record q {
    items = put_item (record item { state = completed; done = true }) q.items;
    processing_id = released q.processing_id id;
    last_completed_sequence =
        some (later_sequence q.last_completed_sequence item.utterance_sequence);
  }

unfoldable pub fail : LiveUtteranceQueue → String → Code → Result LiveUtteranceQueue
unfolding require_item
fail q id code = do
  item ← require_item q id
  raise_if (not (state_is item.state processing)) queue_invalid_transition
  ok record q {
    items = put_item (record item { state = failed; error = some code; done = true }) q.items;
    processing_id = released q.processing_id id;
    last_error = some code;
  }

unfoldable pub retry : LiveUtteranceQueue → String → ℕ → Result LiveUtteranceQueue
unfolding require_item admit
retry q id now = do
  item ← require_item q id
  raise_if (not (state_is item.state failed)) queue_invalid_transition
  raise_if q.closed queue_closed
  let item' = record item {
    state = ItemState.pending;
    retry_count = item.retry_count + 1;
    error = none;
    done = false;
    enqueued_monotonic = now;
  }
  ok (admit q item' (put_item item' q.items))

unfoldable pub close : LiveUtteranceQueue → LiveUtteranceQueue
close q = record q { closed = true }
