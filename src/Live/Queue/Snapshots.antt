-- ===== src/Live/Queue/Snapshots.antt =====
-- `snapshot` and `_delayed_state_locked` of `LiveUtteranceQueue`.
use ronro.Prelude.{ℕ, ◌+◌, ◌-◌, Bool, Option, none, some, List, [], ◌∷◌, ltb, leb, if◌then◌else◌}
use ronro.Errors.{Code, Result, ok, err, key_error, ◌>>=◌}
use ronro.Live.Queue.{
  LiveQueueItem, ItemState, processing, completed, failed, LiveUtteranceQueue, state_is, is_active,
  find_item,
}

pub data DelayedState : Type 0 where
  normal delayed critical : DelayedState

-- min(time.monotonic() - item._enqueued_monotonic for item in active)
unfoldable pub least_age : ℕ → List LiveQueueItem → Option ℕ
least_age now [] = none
least_age now (x ∷ xs) =
    let rest = least_age now xs in
    if is_active x
    then some (elim rest [
      | none ↦ now - x.enqueued_monotonic
      | some a ↦ if ltb a (now - x.enqueued_monotonic) then a else now - x.enqueued_monotonic
    ])
    else rest

-- `_delayed_state_locked`
unfoldable pub delayed_state : LiveUtteranceQueue → ℕ → DelayedState
unfolding least_age
delayed_state q now = elim (least_age now q.items) [
  | none ↦ normal
  | some oldest ↦
      if leb q.critical_after oldest
      then critical
      else (if leb q.delayed_after oldest then delayed else normal)
]

-- The number of items in a state: `counts` of `snapshot`.
unfoldable pub count_state : ItemState → List LiveQueueItem → ℕ
count_state s [] = 0
count_state s (x ∷ xs) =
    let rest = count_state s xs in if state_is x.state s then rest + 1 else rest

abbrev insert_by_sequence : LiveQueueItem → List LiveQueueItem → List LiveQueueItem
insert_by_sequence x [] = x ∷ []
insert_by_sequence x (y ∷ ys) =
    let rest = insert_by_sequence x ys in
    if leb x.utterance_sequence y.utterance_sequence then x ∷ y ∷ ys else y ∷ rest

-- sorted(self._items, key=lambda value: self._items[value].utterance_sequence)
unfoldable pub by_sequence : List LiveQueueItem → List LiveQueueItem
by_sequence [] = []
by_sequence (x ∷ xs) = insert_by_sequence x (by_sequence xs)

pub record Snapshot : Type 0 where
  pub current_depth : ℕ
  pub max_depth : ℕ
  pub pending : ℕ
  pub processing : ℕ
  pub failed : ℕ
  pub completed : ℕ
  pub processing_sequence : Option ℕ
  pub last_completed_sequence : Option ℕ
  pub delayed_state : DelayedState
  pub last_error : Option Code
  pub closed : Bool
  pub items : List LiveQueueItem

-- self._items[self._processing_id].utterance_sequence, if there is one
unfoldable pub processing_sequence : LiveUtteranceQueue → Result (Option ℕ)
processing_sequence q = elim q.processing_id [
  | none ↦ ok none
  | some id ↦ elim (find_item id q.items) [
    | none ↦ err key_error
    | some x ↦ ok (some x.utterance_sequence)
  ]
]

unfoldable pub snapshot : LiveUtteranceQueue → ℕ → Result Snapshot
unfolding count_state delayed_state processing_sequence
snapshot q now = do
  sequence ← processing_sequence q
  let waiting = count_state ItemState.pending q.items
  let running = count_state processing q.items
  ok record {
    current_depth = waiting + running;
    max_depth = q.max_depth;
    pending = waiting;
    processing = running;
    failed = count_state failed q.items;
    completed = count_state completed q.items;
    processing_sequence = sequence;
    last_completed_sequence = q.last_completed_sequence;
    delayed_state = delayed_state q now;
    last_error = q.last_error;
    closed = q.closed;
    items = by_sequence q.items;
  }
