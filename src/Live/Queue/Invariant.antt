-- ===== src/Live/Queue/Invariant.antt =====
-- Every method keeps the queue well-formed.
use ronro.Prelude.{
  ℕ, ◌+◌, ◌≤◌, String, ◌≡◌, refl, sym, ap, ◌∙◌, subst, Bool, true, false, ◌||◌, Bool-cases, Option,
  none, some, List, [], ◌∷◌, ◌++◌, ◌==◌, All, All-map, All-zip, All-append, ◌⊎◌, inl, inr, arith,
  eq_iff, distinct, distinct-append, contains, true-or-absurd, if◌then◌else◌,
}
use ronro.Errors.{Code, ok, ◌>>=◌}
use ronro.Errors.Ensures.{Ensures, Ensures-ok, Ensures-bind, Ensures-raise_if}
use ronro.Live.Queue.{
  LiveQueueItem, LiveUtteranceQueue, Entry, ItemState, completed, failed, find_item, put_item,
  depth, heappush, state_is, new_queue, push_pending, admit, enqueue, claim_next, take_item, Claim,
  claimed, ended, waits, complete, fail, retry, close, require_item, released, later_sequence,
  start_item, has_item,
}
use ronro.Live.Queue.Items.{
  item_ids, weight, find-put_item, find-append_new, depth-put_item, any-heappush, All-put_item,
  All-put_once, All-found, All-heappush, ascending-heappush, find_item-id,
}
use ronro.Live.Queue.Valid.{
  IsValid, entry_ok, is_processing, is_queued, running_ok, is_counted, up_to, entry_ok-put_item,
  distinct-put_item, entry_ok-append, running_ok-put_item, running_ok-append,
}
use ronro.Live.Queue.Claiming.{IsClaimed, claim_loop-Claims}

-- What the items must be for `admit` to keep the queue well-formed.
record IsAdmitted (q : LiveUtteranceQueue) (x : LiveQueueItem) (items : List LiveQueueItem)
    : Type 0 where
  distinct_ids : distinct (item_ids items) ≡ true
  there : find_item x.queue_item_id items ≡ some x
  entries : All (λ e. entry_ok items e ≡ true) q.pending
  queued : All (λ y. (is_queued q.pending y || (x.queue_item_id == y.queue_item_id)) ≡ true) items
  running : running_ok q.processing_id items ≡ true
  finished : All (λ y. is_counted q.last_completed_sequence y ≡ true) items

admit-IsValid :
    (q : LiveUtteranceQueue) (x : LiveQueueItem) (items : List LiveQueueItem)
    → IsValid q
    → IsAdmitted q x items
    → IsValid (admit q x items)
unfolding admit push_pending
admit-IsValid q x items v a = record {
  distinct_ids = a.distinct_ids;
  entries =
      All-heappush (λ e. entry_ok items e ≡ true) entry q.pending (rw a.there (ground arith))
        a.entries;
  queued =
      All-map _ (λ y. is_queued (heappush entry q.pending) y ≡ true) items
        (λ y h. ground (arith, any-heappush (λ e. e.id == y.queue_item_id) entry q.pending))
        a.queued;
  sorted = ascending-heappush entry q.pending v.sorted;
  bounded = ground arith;
  running = a.running;
  finished = a.finished;
}
  where
    entry : Entry
    entry = record {
      sequence = x.utterance_sequence;
      counter = q.counter + 1;
      id = x.queue_item_id;
    }

contains-has_item :
    (id : String) (items : List LiveQueueItem)
    → has_item id items ≡ false
    → contains id (item_ids items) ≡ false
contains-has_item id [] h = refl
contains-has_item id (x ∷ xs) h = ground (arith, contains-has_item id xs)

ids-append :
    (items : List LiveQueueItem) (x : LiveQueueItem)
    → item_ids (items ++ x ∷ []) ≡ item_ids items ++ x.queue_item_id ∷ []
ids-append [] x = refl
ids-append (y ∷ ys) x = ap (λ is. y.queue_item_id ∷ is) (ids-append ys x)

abbrev pub queue_of : Claim → LiveUtteranceQueue
queue_of (claimed x q) = q
queue_of (ended q) = q
queue_of (waits q) = q

pub new_queue-IsValid : (delayed critical : ℕ) → IsValid (new_queue delayed critical)
unfolding new_queue depth
new_queue-IsValid delayed critical = record {
  distinct_ids = refl;
  entries = tt;
  queued = tt;
  sorted = refl;
  bounded = omega arith;
  running = refl;
  finished = tt;
}

module _ (q : LiveUtteranceQueue) (v : IsValid q) where
  pub enqueue-IsValid : (x : LiveQueueItem) (now : ℕ) → Ensures IsValid (enqueue q x now)
  unfolding enqueue
  enqueue-IsValid x now = Ensures-raise_if _ _ _ λ open_q. Ensures-raise_if _ _ _ λ fresh.
      Ensures-raise_if _ _ _ λ new_id. Ensures-raise_if _ _ _ λ new_sequence.
        let y : LiveQueueItem = record x { enqueued_monotonic = now } in
        let absent = contains-has_item x.queue_item_id q.items new_id in
        Ensures-ok _ (
          admit-IsValid q y (q.items ++ y ∷ []) v record {
            distinct_ids =
                ap distinct (ids-append q.items y)
                ∙ distinct-append (item_ids q.items) x.queue_item_id v.distinct_ids absent;
            there = find-append_new q.items y absent;
            entries = All-map _ _ q.pending (λ e. entry_ok-append q.items y e) v.entries;
            queued =
                All-append _ q.items (y ∷ []) (All-map _ _ q.items (λ z h. ground arith) v.queued)
                  (ground (arith, eq_iff x.queue_item_id x.queue_item_id), tt);
            running = running_ok-append q.items y q.processing_id v.running;
            finished = All-append _ q.items (y ∷ []) v.finished (ground arith, tt);
          })

  found_item :
      (id : String) (x : LiveQueueItem)
      → require_item q id ≡ ok x
      → find_item x.queue_item_id q.items ≡ some x
  unfolding require_item
  found_item id x h =
      let f : find_item id q.items ≡ some x = ground arith in
      subst (λ i. find_item i q.items ≡ some x) (sym (find_item-id id q.items x f)) f

  item_named : (id : String) (x : LiveQueueItem) → require_item q id ≡ ok x → x.queue_item_id ≡ id
  unfolding require_item
  item_named id x h =
      let f : find_item id q.items ≡ some x = ground arith in find_item-id id q.items x f

  -- A change of one item, which was not pending or has its entry still.
  changed-IsValid :
      (x y : LiveQueueItem) (r : LiveUtteranceQueue)
      → find_item y.queue_item_id q.items ≡ some x
      → y.utterance_sequence ≡ x.utterance_sequence
      → r.items ≡ put_item y q.items
      → r.pending ≡ q.pending
      → r.max_depth ≡ q.max_depth
      → weight y ≤ weight x
      → is_queued q.pending y ≡ true
      → running_ok r.processing_id (put_item y q.items) ≡ true
      → All (λ z. is_counted r.last_completed_sequence z ≡ true) q.items
      → is_counted r.last_completed_sequence y ≡ true
      → IsValid r
  changed-IsValid x y r found same items pending depth_same lighter queue_y run counts counted =
      record {
        distinct_ids = rw items (distinct-put_item q.items x y found same v.distinct_ids);
        entries =
            rw (items, pending)
              (All-map _ _ q.pending (entry_ok-put_item q.items x y found same) v.entries);
        queued = rw (items, pending) (All-put_item _ y q.items v.queued queue_y);
        sorted = rw pending v.sorted;
        bounded =
            rw (items, depth_same)
              (let b = v.bounded in omega (arith, depth-put_item y q.items x found));
        running = rw items run;
        finished = rw items (All-put_item _ y q.items counts counted);
      }

  released_ok :
      (id : String) (y : LiveQueueItem) (p : Option String)
      → y.queue_item_id ≡ id
      → running_ok p q.items ≡ true
      → running_ok (released p id) (put_item y q.items) ≡ true
  released_ok id y none e h = refl
  released_ok id y (some p) e h = elim (Bool-cases (p == id)) [
    | inl this ↦ rw this refl
    | inr other ↦ rw other (
        running_ok-put_item q.items y (some p)
          (λ k. let r : p ≡ y.queue_item_id = cc in true-or-absurd ((eq_iff p id).1 (r ∙ e)) other)
          h)
  ]

  counted_later :
      (n : ℕ) (last : Option ℕ) (z : LiveQueueItem)
      → is_counted last z ≡ true
      → is_counted (some (later_sequence last n)) z ≡ true
  counted_later n none z h = ground arith
  counted_later n (some l) z h = ground arith

  counts_itself : (n : ℕ) (last : Option ℕ) → up_to (some (later_sequence last n)) n ≡ true
  counts_itself n none = ground arith
  counts_itself n (some l) = ground arith

  pub complete-IsValid : (id : String) → Ensures IsValid (complete q id)
  unfolding complete
  complete-IsValid id = Ensures-bind (require_item q id) _ λ x there.
      Ensures-raise_if _ _ _ λ running.
        let f = found_item id x there in
        let y : LiveQueueItem = record x { state = completed; done = true } in
        Ensures-ok _ (
          changed-IsValid x y _ f refl refl refl refl (ground arith) refl
            (released_ok id y q.processing_id (item_named id x there) v.running)
            (All-map _ _ q.items (counted_later x.utterance_sequence q.last_completed_sequence)
              v.finished)
            (counts_itself x.utterance_sequence q.last_completed_sequence))

  pub fail-IsValid : (id : String) (code : Code) → Ensures IsValid (fail q id code)
  unfolding fail
  fail-IsValid id code = Ensures-bind (require_item q id) _ λ x there.
      Ensures-raise_if _ _ _ λ running.
        let f = found_item id x there in
        let y : LiveQueueItem = record x { state = failed; error = some code; done = true } in
        Ensures-ok _ (
          changed-IsValid x y _ f refl refl refl refl (ground arith) refl
            (released_ok id y q.processing_id (item_named id x there) v.running) v.finished refl)

  -- A failed item is not the one that is being processed.
  not_running :
      (x : LiveQueueItem) (p : Option String)
      → find_item x.queue_item_id q.items ≡ some x
      → state_is x.state failed ≡ true
      → running_ok p q.items ≡ true
      → ¬ (p ≡ some x.queue_item_id)
  not_running x p f failed_x ok_p h =
      let r : running_ok (some x.queue_item_id) q.items ≡ true =
        subst (λ o. running_ok o q.items ≡ true) h ok_p in
      let s : is_processing (some x) ≡ true = subst (λ o. is_processing o ≡ true) f r in
      ground arith

  pub retry-IsValid : (id : String) (now : ℕ) → Ensures IsValid (retry q id now)
  unfolding retry
  retry-IsValid id now = Ensures-bind (require_item q id) _ λ x there.
      Ensures-raise_if _ _ _ λ failed_x. Ensures-raise_if _ _ _ λ open_q.
        let f = found_item id x there in
        let y : LiveQueueItem = record x {
          state = ItemState.pending;
          retry_count = x.retry_count + 1;
          error = none;
          done = false;
          enqueued_monotonic = now;
        } in
        Ensures-ok _ (
          admit-IsValid q y (put_item y q.items) v record {
            distinct_ids = distinct-put_item q.items x y f refl v.distinct_ids;
            there = find-put_item y q.items x f;
            entries = All-map _ _ q.pending (entry_ok-put_item q.items x y f refl) v.entries;
            queued =
                All-put_item _ y q.items (All-map _ _ q.items (λ z h. ground arith) v.queued)
                  (ground (arith, eq_iff x.queue_item_id x.queue_item_id));
            running =
                running_ok-put_item q.items y q.processing_id
                  (not_running x q.processing_id f (ground arith) v.running) v.running;
            finished = All-put_item _ y q.items v.finished refl;
          })

  pub close-IsValid : IsValid (close q)
  unfolding close
  close-IsValid = record {
    distinct_ids = v.distinct_ids;
    entries = v.entries;
    queued = v.queued;
    sorted = v.sorted;
    bounded = v.bounded;
    running = v.running;
    finished = v.finished;
  }

  -- What a claim does to the entries of one item.
  still_queued :
      (rest : List Entry) (found : Option LiveQueueItem) (z : LiveQueueItem)
      → IsClaimed q.items q.pending rest found
      → is_queued q.pending z ≡ true
      → find_item z.queue_item_id q.items ≡ some z
      → (found ≡ some z) ⊎ (is_queued rest z ≡ true)
  still_queued rest found z c h f = elim (Bool-cases (state_is z.state ItemState.pending)) [
    | inl waiting ↦ elim (c.kept z f waiting (ground arith)) [
      | inl this ↦ inl this
      | inr there ↦ inr (ground arith)
    ]
    | inr started ↦ inr (ground arith)
  ]

  abbrev All-in : Type 0
  All-in =
      All (λ z. (is_queued q.pending z ≡ true) × (find_item z.queue_item_id q.items ≡ some z))
        q.items

  queued_and_found : All-in
  queued_and_found = All-zip _ _ q.items v.queued (All-found q.items v.distinct_ids)

  popped-IsValid :
      (rest : List Entry)
      → IsClaimed q.items q.pending rest none
      → IsValid (record q { pending = rest })
  popped-IsValid rest c = record {
    distinct_ids = v.distinct_ids;
    entries = c.entries;
    queued =
        All-map _ (λ z. is_queued rest z ≡ true) q.items
          (λ z (h, f). elim (still_queued rest none z c h f) [
            | inl this ↦ absurd (cc this)
            | inr there ↦ there
          ])
          queued_and_found;
    sorted = c.sorted;
    bounded = v.bounded;
    running = v.running;
    finished = v.finished;
  }

  claimed-IsValid :
      (rest : List Entry) (x : LiveQueueItem) (now : ℕ)
      → IsClaimed q.items q.pending rest (some x)
      → IsValid record q {
        items = put_item (start_item x now) q.items;
        pending = rest;
        processing_id = some x.queue_item_id;
      }
  claimed-IsValid rest x now c =
      let (f, waiting) = c.is_pending x refl in
      let y = start_item x now in
      record {
        distinct_ids = distinct-put_item q.items x y f refl v.distinct_ids;
        entries = All-map _ _ rest (entry_ok-put_item q.items x y f refl) c.entries;
        queued = All-put_once (is_queued rest) y q.items v.distinct_ids refl (
            All-map _ _ q.items
              (λ z (h, g). elim (still_queued rest (some x) z c h g) [
                | inl this ↦
                    let e : x ≡ z = cc in
                    ground (
                      arith,
                      eq_iff x.queue_item_id z.queue_item_id,
                      ap (λ (w : LiveQueueItem). w.queue_item_id) e,
                    )
                | inr there ↦ ground arith
              ])
              queued_and_found);
        sorted = c.sorted;
        bounded =
            let b = v.bounded in
            let same : weight x ≡ 1 = ground arith in
            let w : weight y ≡ 1 = refl in omega (arith, depth-put_item y q.items x f);
        running = rw (find-put_item y q.items x f) refl;
        finished = All-put_item _ y q.items v.finished refl;
      }

  nothing-IsValid :
      (shut : Bool) (r : LiveUtteranceQueue)
      → IsValid r
      → IsValid (queue_of (if shut then ended r else waits r))
  nothing-IsValid true r w = w
  nothing-IsValid false r w = w

  take_item-IsValid :
      (rest : List Entry) (found : Option LiveQueueItem) (now : ℕ)
      → IsClaimed q.items q.pending rest found
      → IsValid (queue_of (take_item q now rest found))
  unfolding take_item
  take_item-IsValid rest (some x) now c = claimed-IsValid rest x now c
  take_item-IsValid rest none now c = nothing-IsValid q.closed _ (popped-IsValid rest c)

  pub claim_next-IsValid : (now : ℕ) → Ensures (λ c. IsValid (queue_of c)) (claim_next q now)
  unfolding claim_next
  claim_next-IsValid now =
      let (rest, found, run, c) = claim_loop-Claims q.items q.pending v.entries v.sorted in
      rw run (unfold ◌>>=◌ in Ensures-ok _ (take_item-IsValid rest found now c))
