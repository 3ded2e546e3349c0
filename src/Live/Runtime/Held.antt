-- ===== src/Live/Runtime/Held.antt =====
-- While an item runs, no other thread takes it out of processing.
use ronro.Prelude.{
  ℕ, String, ◌≡◌, refl, sym, ap, ◌∙◌, Bool, true, false, Bool-cases, some, List, [], ◌∷◌, ◌==◌, inl,
  inr, arith, str_eq→eq, nat_eq, if◌then◌else◌,
}
use ronro.Errors.{Result, ok, err, key_error, revision_conflict}
use ronro.Errors.Ensures.{Ensures, Ensures-ok, Ensures-bind, Ensures-raise_if}
use ronro.Domain.{Event, Evidence, Utterance}
use ronro.Domain.Schema.{Formats}
use ronro.Replay.{ReplayResult}
use ronro.Commands.{Command, CommandResult, handle}
use ronro.Live.Candidate.{CandidateEvent}
use ronro.Live.Queue.{
  close, LiveQueueItem, LiveUtteranceQueue, ItemState, processing, find_item, state_is, enqueue,
  admit, push_pending, retry, require_item,
}
use ronro.Live.Queue.Items.{find-append, find-put_other, find_item-id}
use ronro.Live.Runtime.{
  Runtime, Action, registers, commands, retries, closes, close_runtime, after, register_utterance,
  execute_command, retry_item, queue_item, Analyst, Gaps, Processed, Correction, no_correction,
  clarification, correction, act, acts, revision, finish, commit, decide_again, analyze_again,
  decide_first, corrected, correction_command, process_utterance, process_found, process_item,
  find_utterance,
}

-- The item is in the queue and being processed.
abbrev pub IsHeld : String → LiveUtteranceQueue → Type 0
IsHeld id q =
    (y : LiveQueueItem) × (find_item id q.items ≡ some y) × (state_is y.state processing ≡ true)

module _ (id : String) where
  enqueue-IsHeld :
      (q : LiveUtteranceQueue) (item : LiveQueueItem) (now : ℕ)
      → IsHeld id q
      → Ensures (IsHeld id) (enqueue q item now)
  unfolding enqueue admit push_pending
  enqueue-IsHeld q item now (y, found, running) = Ensures-raise_if _ _ _ λ a.
      Ensures-raise_if _ _ _ λ b.
        Ensures-raise_if _ _ _ λ c.
          Ensures-raise_if _ _ _ λ d. Ensures-ok _ (y, find-append id q.items _ y found, running)

  not_same :
      (q : LiveUtteranceQueue) (i : String) (y old : LiveQueueItem)
      → find_item id q.items ≡ some y
      → state_is y.state processing ≡ true
      → require_item q i ≡ ok old
      → state_is old.state ItemState.failed ≡ true
      → (old.queue_item_id == id) ≡ false
  unfolding require_item
  not_same q i y old found running there failed = elim (Bool-cases (old.queue_item_id == id)) [
    | inr other ↦ other
    | inl same ↦
        let at : find_item i q.items ≡ some old = ground arith in
        let i_is : old.queue_item_id ≡ i = find_item-id i q.items old at in
        let id_is : old.queue_item_id ≡ id = str_eq→eq old.queue_item_id id same in
        let both : some old ≡ some y =
          sym at ∙ ap (λ k. find_item k q.items) (sym i_is ∙ id_is) ∙ found in
        let one : old ≡ y = cc in
        let runs : state_is old.state processing ≡ true =
          ap (λ (x : LiveQueueItem). state_is x.state processing) one ∙ running in
        ground arith
  ]

  retry-IsHeld :
      (q : LiveUtteranceQueue) (i : String) (now : ℕ)
      → IsHeld id q
      → Ensures (IsHeld id) (retry q i now)
  unfolding retry admit push_pending
  retry-IsHeld q i now (y, found, running) = Ensures-bind (require_item q i) _ λ old there.
      Ensures-raise_if _ _ _ λ was_failed. Ensures-raise_if _ _ _ λ b.
        let other = not_same q i y old found running there (ground arith) in
        Ensures-ok _ (y, find-put_other _ q.items id other ∙ found, running)

  after-IsHeld :
      (rt : Runtime) (r : Result Runtime)
      → IsHeld id rt.queue
      → Ensures (λ next. IsHeld id next.queue) r
      → IsHeld id (after rt r).queue
  after-IsHeld rt (ok next) h e = e.at next refl
  after-IsHeld rt (err c) h e = h

  register_utterance-IsHeld :
      (rt : Runtime) (ev : Evidence) (u : Utterance) (enqueued_at : String) (now : ℕ)
      → IsHeld id rt.queue
      → Ensures (λ next. IsHeld id next.queue) (register_utterance rt ev u enqueued_at now)
  unfolding register_utterance
  register_utterance-IsHeld rt ev u enqueued_at now h = Ensures-raise_if _ _ _ λ a.
      Ensures-raise_if _ _ _ λ b. Ensures-raise_if _ _ _ λ c. Ensures-raise_if _ _ _ λ d.
        Ensures-bind _ _ λ q e.
          Ensures-ok _
            ((enqueue-IsHeld rt.queue (queue_item rt.session_id ev u enqueued_at) now h).at q e)

  execute_command-IsHeld :
      (formats : Formats) (rt : Runtime) (command : Command)
      → IsHeld id rt.queue
      → Ensures (λ next. IsHeld id next.queue) (execute_command formats rt command)
  unfolding execute_command
  execute_command-IsHeld formats rt command h = Ensures-bind _ _ λ done e. Ensures-ok _ h

  retry_item-IsHeld :
      (rt : Runtime) (i : String) (now : ℕ)
      → IsHeld id rt.queue
      → Ensures (λ next. IsHeld id next.queue) (retry_item rt i now)
  unfolding retry_item
  retry_item-IsHeld rt i now h =
      Ensures-bind _ _ λ q e. Ensures-ok _ ((retry-IsHeld rt.queue i now h).at q e)

  act-IsHeld :
      (formats : Formats) (rt : Runtime) (a : Action)
      → IsHeld id rt.queue
      → IsHeld id (act formats rt a).queue
  unfolding act
  act-IsHeld formats rt (registers ev u enqueued_at now) h =
      after-IsHeld rt _ h (register_utterance-IsHeld rt ev u enqueued_at now h)
  act-IsHeld formats rt (commands command) h =
      after-IsHeld rt _ h (execute_command-IsHeld formats rt command h)
  act-IsHeld formats rt (retries i now) h = after-IsHeld rt _ h (retry_item-IsHeld rt i now h)
  act-IsHeld formats rt closes h = unfold close_runtime close in h

  pub acts-IsHeld :
      (formats : Formats) (rt : Runtime) (as' : List Action)
      → IsHeld id rt.queue
      → IsHeld id (acts formats rt as').queue
  unfolding acts
  acts-IsHeld formats rt [] h = h
  acts-IsHeld formats rt (a ∷ rest) h =
      acts-IsHeld formats (act formats rt a) rest (act-IsHeld formats rt a h)

  finish-IsHeld :
      (rt : Runtime) (again : Bool) (r : Result (ReplayResult × List Event))
      → IsHeld id rt.queue
      → IsHeld id (finish rt again r).runtime.queue
  finish-IsHeld rt again (ok p) h = h
  finish-IsHeld rt again (err c) h = h

  commit-IsHeld :
      (formats : Formats) (rt : Runtime) (again : Bool) (current : ℕ) (cs : List CandidateEvent)
      → IsHeld id rt.queue
      → IsHeld id (commit formats rt again current cs).runtime.queue
  unfolding commit
  commit-IsHeld formats rt again current cs h = finish-IsHeld rt again _ h

  chosen-IsHeld :
      (b : Bool) (p q : Processed)
      → IsHeld id p.runtime.queue
      → IsHeld id q.runtime.queue
      → IsHeld id (if b then p else q).runtime.queue
  chosen-IsHeld true p q h k = h
  chosen-IsHeld false p q h k = k

  module _ (formats : Formats) (analyst : Analyst) (gaps : Gaps) where
    decide_again-IsHeld :
        (current : ℕ) (rt : Runtime) (r : Result (List CandidateEvent))
        → IsHeld id rt.queue
        → IsHeld id (decide_again formats gaps current rt r).runtime.queue
    decide_again-IsHeld current rt (err c) h = h
    decide_again-IsHeld current rt (ok cs) h =
        chosen-IsHeld (nat_eq (revision rt) current)
          (commit formats (acts formats rt gaps.committing) true current cs)
          (finish rt true (err revision_conflict))
          (commit-IsHeld formats (acts formats rt gaps.committing) true current cs
            (acts-IsHeld formats rt gaps.committing h))
          h

    decide_first-IsHeld :
        (u : Utterance) (start : ℕ) (rt : Runtime) (r : Result (List CandidateEvent))
        → IsHeld id rt.queue
        → IsHeld id (decide_first formats analyst gaps u start rt r).runtime.queue
    decide_first-IsHeld u start rt (err c) h = h
    decide_first-IsHeld u start rt (ok cs) h =
        let read = acts formats rt gaps.rereading in
        let read_held = acts-IsHeld formats rt gaps.rereading h in
        chosen-IsHeld (nat_eq (revision rt) start)
          (commit formats (acts formats rt gaps.committing) false (revision rt) cs)
          (analyze_again formats analyst gaps u (revision rt) read)
          (commit-IsHeld formats (acts formats rt gaps.committing) false (revision rt) cs
            (acts-IsHeld formats rt gaps.committing h))
          (decide_again-IsHeld (revision rt) (acts formats read gaps.reanalyzing)
            (analyst.analyze 1 u read.result.state.graph read.result.events)
            (acts-IsHeld formats read gaps.reanalyzing read_held))

    corrected-IsHeld :
        (rt : Runtime) (u : Utterance) (r : Result CommandResult)
        → IsHeld id rt.queue
        → IsHeld id (corrected rt u r).runtime.queue
    corrected-IsHeld rt u (ok done) h = h
    corrected-IsHeld rt u (err key_error) h = h
    corrected-IsHeld rt u (err c) h = h

    process_utterance-IsHeld :
        (rt : Runtime) (u : Utterance) (c : Correction)
        → IsHeld id rt.queue
        → IsHeld id (process_utterance formats analyst gaps rt u c).runtime.queue
    process_utterance-IsHeld rt u no_correction h =
        decide_first-IsHeld u (revision rt) (acts formats rt gaps.analyzing)
          (analyst.analyze 0 u rt.result.state.graph rt.result.events)
          (acts-IsHeld formats rt gaps.analyzing h)
    process_utterance-IsHeld rt u clarification h = acts-IsHeld formats rt gaps.interpreting h
    process_utterance-IsHeld rt u (correction type) h =
        let rt' = acts formats rt gaps.interpreting in
        corrected-IsHeld rt' u (handle formats rt'.result (correction_command rt' u type))
          (acts-IsHeld formats rt gaps.interpreting h)

    pub process_item-IsHeld :
        (rt : Runtime) (item : LiveQueueItem)
        → IsHeld id rt.queue
        → IsHeld id (process_item formats analyst gaps rt item).runtime.queue
    unfolding process_item
    process_item-IsHeld rt item h =
        found-IsHeld rt (find_utterance item.utterance_sequence rt.result.state.utterances) h
      where
        found-IsHeld :
            (rt : Runtime) (r : Result Utterance)
            → IsHeld id rt.queue
            → IsHeld id (process_found formats analyst gaps rt r).runtime.queue
        found-IsHeld rt (err c) h = h
        found-IsHeld rt (ok u) h =
            process_utterance-IsHeld rt u
              (analyst.interpret u.text rt.result.state.graph rt.result.events) h
