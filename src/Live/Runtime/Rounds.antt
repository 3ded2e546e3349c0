-- ===== src/Live/Runtime/Rounds.antt =====
-- A round of the worker: whatever a run does, its item can be settled afterwards.
use ronro.Prelude.{
  ℕ, String, ◌≡◌, refl, sym, ap, ◌∙◌, true, false, not, ◌||◌, Option, some, List, arith,
}
use ronro.Errors.{Code, Result, ok, err, ◌>>=◌}
use ronro.Errors.Ensures.{Ensures, Ensures-ok, Ensures-bind, Ensures-raise_if}
use ronro.Errors.Returns.{Returns, returned, Returns-bind, Returns-pass, Returns-value}
use ronro.Domain.{Event}
use ronro.Domain.Schema.{Formats}
use ronro.Live.Queue.{
  LiveQueueItem, LiveUtteranceQueue, ItemState, processing, find_item, put_item, state_is, complete,
  fail, require_item, claim_next, Claim, claimed, ended, waits,
}
use ronro.Live.Queue.Items.{find-put_item, find_item-id}
use ronro.Live.Queue.Valid.{IsValid}
use ronro.Live.Queue.Fifo.{IsClaim, claim_next-IsClaim}
use ronro.Live.Runtime.{acts, Runtime, Analyst, Gaps, Processed, process_item, find_utterance}
use ronro.Live.Runtime.Worker.{
  work, work_claim, settled, note_item, noted, start_of, worker_code, events_of,
}
use ronro.Live.Runtime.Held.{IsHeld, process_item-IsHeld, acts-IsHeld}

-- The item is in the queue and its run is over.
abbrev pub IsSettled : String → LiveUtteranceQueue → Type 0
IsSettled id q =
    (y : LiveQueueItem) × (find_item id q.items ≡ some y)
    × ((state_is y.state ItemState.completed || state_is y.state ItemState.failed) ≡ true)

module _ (q : LiveUtteranceQueue) (id : String) where
  required-found : (x : LiveQueueItem) → require_item q id ≡ ok x → find_item id q.items ≡ some x
  unfolding require_item
  required-found x h = ground arith

  found-put_item :
      (x y : LiveQueueItem)
      → require_item q id ≡ ok x
      → y.queue_item_id ≡ x.queue_item_id
      → find_item id (put_item y q.items) ≡ some y
  found-put_item x y there same =
      let found = required-found x there in
      let own : y.queue_item_id ≡ id = same ∙ find_item-id id q.items x found in
      ap (λ i. find_item i (put_item y q.items)) (sym own)
      ∙ find-put_item y q.items x (ap (λ i. find_item i q.items) own ∙ found)

  complete-IsSettled : Ensures (IsSettled id) (complete q id)
  unfolding complete
  complete-IsSettled = Ensures-bind (require_item q id) _ λ x h. Ensures-raise_if _ _ _ λ running.
      Ensures-ok _
        (record x { state = ItemState.completed; done = true }, found-put_item x _ h refl, refl)

  fail-IsSettled : (code : Code) → Ensures (IsSettled id) (fail q id code)
  unfolding fail
  fail-IsSettled code = Ensures-bind (require_item q id) _ λ x h. Ensures-raise_if _ _ _ λ running.
      Ensures-ok _ (
        record x { state = ItemState.failed; error = some code; done = true },
        found-put_item x _ h refl,
        refl,
      )

  module _ (held : IsHeld id q) where
    require-held : require_item q id ≡ ok held.0
    unfolding require_item
    require-held = let (y, found, running) = held in rw found refl

    is_running : not (state_is held.0.state processing) ≡ false
    is_running = let (y, found, running) = held in ground arith

    complete-Returns : Returns (complete q id)
    unfolding complete
    complete-Returns =
        Returns-bind _ held.0 _ require-held (Returns-pass _ _ _ is_running (returned _))

    fail-Returns : (code : Code) → Returns (fail q id code)
    unfolding fail
    fail-Returns code =
        Returns-bind _ held.0 _ require-held (Returns-pass _ _ _ is_running (returned _))

module _ (rt : Runtime) (item : LiveQueueItem) (q : LiveUtteranceQueue) where
  settled-Returns :
      (r : Result (List Event)) → IsHeld item.queue_item_id q → Returns (settled rt item r q)
  settled-Returns (ok events) held =
      let (next, done) = Returns-value (complete-Returns q item.queue_item_id held) in
      Returns-bind _ next _ done (returned _)
  settled-Returns (err c) held =
      let (next, done) = Returns-value (fail-Returns q item.queue_item_id held (worker_code c)) in
      Returns-bind _ next _ done (returned _)

  settled-IsSettled :
      (r : Result (List Event))
      → Ensures (λ next. IsSettled item.queue_item_id next.queue) (settled rt item r q)
  settled-IsSettled (ok events) =
      Ensures-bind _ _ λ next h. Ensures-ok _ ((complete-IsSettled q item.queue_item_id).at next h)
  settled-IsSettled (err c) =
      Ensures-bind _ _
        λ next h. Ensures-ok _ ((fail-IsSettled q item.queue_item_id (worker_code c)).at next h)

-- What a round leaves for each answer of `claim_next`.
abbrev pub IsRound : Runtime → Claim → Runtime → Type 0
IsRound rt (claimed item q) next = IsSettled item.queue_item_id next.queue
IsRound rt (ended q) next = next ≡ record rt { queue = q }
IsRound rt (waits q) next = next ≡ record rt { queue = q }

module _ (formats : Formats) (analyst : Analyst) (gaps : Gaps) (rt : Runtime) where
  noted-IsHeld :
      (item : LiveQueueItem) (start : Option ℕ) (p : Processed)
      → state_is item.state processing ≡ true
      → IsHeld item.queue_item_id p.runtime.queue
      → IsHeld item.queue_item_id (note_item start p item p.runtime.queue)
  noted-IsHeld item start p running (y, found, still) = (
    _,
    find-put_item (noted start p.reanalyzed (events_of item p.outcome) item) p.runtime.queue.items y
        found,
    running,
  )

  work_claim-IsRound :
      (now : ℕ) (c : Claim)
      → IsClaim rt.queue now c
      → (next : Runtime) × (work_claim formats analyst gaps rt c ≡ ok next) × IsRound rt c next
  work_claim-IsRound now (ended q) is = (_, refl, refl)
  work_claim-IsRound now (waits q) is = (_, refl, refl)
  work_claim-IsRound now (claimed item q) first =
      let running : state_is item.state processing ≡ true =
        ap (λ (x : LiveQueueItem). state_is x.state processing) first.started in
      let found : find_item item.queue_item_id q.items ≡ some item =
        ap (find_item item.queue_item_id) first.items
        ∙ find-put_item item rt.queue.items first.old first.there in
      let id = item.queue_item_id in
      let begun = acts formats (record rt { queue = q }) gaps.claiming in
      let begun_held =
        acts-IsHeld id formats (record rt { queue = q }) gaps.claiming (item, found, running) in
      let p = process_item formats analyst gaps begun item in
      let start =
        start_of begun item
          (find_utterance item.utterance_sequence begun.result.state.utterances) in
      let run = process_item-IsHeld id formats analyst gaps begun item begun_held in
      let noted_rt : Runtime = record p.runtime {
        queue = note_item start p item p.runtime.queue;
      } in
      let last = acts formats noted_rt gaps.settling in
      let held =
        acts-IsHeld id formats noted_rt gaps.settling (noted-IsHeld item start p running run) in
      let (next, done) = Returns-value (settled-Returns last item last.queue p.outcome held) in
      (next, done, (settled-IsSettled last item last.queue p.outcome).at next done)

-- From a well-formed queue, a round of the worker that claims an item ends with this item completed
-- or failed, and raises nothing, whatever Utterances, Commands, retries and a close come from other
-- threads from the claim to the end, and whether the run of the item fails or not. A round that
-- claims none has only taken entries off the heap: the worker then ends if the queue is closed, and
-- waits if not.
pub work-IsRound :
    (formats : Formats) (analyst : Analyst) (gaps : Gaps) (rt : Runtime) (now : ℕ)
    → IsValid rt.queue
    → (c : Claim) × (next : Runtime) × (claim_next rt.queue now ≡ ok c)
      × (work formats analyst gaps rt now ≡ ok next)
      × IsRound rt c next
unfolding work
work-IsRound formats analyst gaps rt now v =
    let (c, given, claim) = claim_next-IsClaim rt.queue v now in
    let (next, done, round) = work_claim-IsRound formats analyst gaps rt now c claim in
    (c, next, given, (unfold ◌>>=◌ in rw given done), round)
