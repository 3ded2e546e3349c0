-- ===== src/Live/Queue/Lives.antt =====
-- The life of one item.
use ronro.Prelude.{
  ℕ, String, ◌≡◌, refl, sym, ap, ◌∙◌, subst, Bool, true, false, Bool-cases, some, List, ◌==◌, inl,
  inr, arith, str_eq→eq,
}
use ronro.Errors.{Result, ok, err}
use ronro.Errors.Ensures.{Ensures, Ensures-ok, Ensures-bind, Ensures-raise_if}
use ronro.Live.Queue.{
  LiveQueueItem, LiveUtteranceQueue, ItemState, processing, completed, failed, find_item, put_item,
  enqueue, admit, push_pending, Claim, claimed, ended, waits, complete, fail, retry, close,
  require_item,
}
use ronro.Live.Queue.Items.{find-append, find-put_item, find-put_other, find_item-id}
use ronro.Live.Queue.Valid.{IsValid}
use ronro.Live.Queue.Invariant.{queue_of}
use ronro.Live.Queue.Fifo.{IsClaim, claim_next-IsClaim}
use ronro.Live.Queue.Runs.{Call, enqueues, claims, completes, fails, retries, closes, after, call}

-- The states that an item may have after one call, by the state before.
abbrev pub may_go : ItemState → ItemState → Bool
may_go ItemState.pending ItemState.pending = true
may_go ItemState.pending processing = true
may_go processing processing = true
may_go processing completed = true
may_go processing failed = true
may_go failed failed = true
may_go failed ItemState.pending = true
may_go completed completed = true
may_go _ _ = false

pub record IsKept (x y : LiveQueueItem) : Type 0 where
  pub sequence : y.utterance_sequence ≡ x.utterance_sequence
  pub evidence : y.evidence_id ≡ x.evidence_id
  pub state : may_go x.state y.state ≡ true

-- The item with this id is still there.
abbrev pub Keeps : String → LiveQueueItem → LiveUtteranceQueue → Type 0
Keeps id x r = (y : LiveQueueItem) × (find_item id r.items ≡ some y) × IsKept x y

unchanged : (x : LiveQueueItem) → IsKept x x
unchanged x = record { sequence = refl; evidence = refl; state = ground arith }

IsKept-in :
    (id : String) (x old y : LiveQueueItem) (items : List LiveQueueItem)
    → find_item id items ≡ some x
    → find_item y.queue_item_id items ≡ some old
    → IsKept old y
    → (z : LiveQueueItem) × (find_item id (put_item y items) ≡ some z) × IsKept x z
IsKept-in id x old y items found there moved = elim (Bool-cases (y.queue_item_id == id)) [
  | inl this ↦
      let e = str_eq→eq y.queue_item_id id this in
      let q : some old ≡ some x = sym there ∙ ap (λ i. find_item i items) e ∙ found in
      let q' : old ≡ x = cc in
      (
        y,
        subst (λ i. find_item i (put_item y items) ≡ some y) e (find-put_item y items old there),
        subst (λ w. IsKept w y) q' moved,
      )
  | inr other ↦ (x, find-put_other y items id other ∙ found, unchanged x)
]

after-Keeps :
    (q : LiveUtteranceQueue) (id : String) (x : LiveQueueItem) (r : Result LiveUtteranceQueue)
    → find_item id q.items ≡ some x
    → Ensures (Keeps id x) r
    → Keeps id x (after q r)
after-Keeps q id x (ok r) found e = e.at r refl
after-Keeps q id x (err c) found e = (x, found, unchanged x)

module _ (q : LiveUtteranceQueue) (id : String) (x : LiveQueueItem)
    (found : find_item id q.items ≡ some x) where
  required :
      (i : String) (old : LiveQueueItem)
      → require_item q i ≡ ok old
      → find_item old.queue_item_id q.items ≡ some old
  unfolding require_item
  required i old h =
      let f : find_item i q.items ≡ some old = ground arith in
      subst (λ j. find_item j q.items ≡ some old) (sym (find_item-id i q.items old f)) f

  claim-Keeps : (now : ℕ) (c : Claim) → IsClaim q now c → Keeps id x (queue_of c)
  claim-Keeps now (claimed y r) first =
      let kept : IsKept first.old y = rw first.started record {
        sequence = refl;
        evidence = refl;
        state = let p = first.was_pending in ground arith;
      } in
      let (z, there, moved) = IsKept-in id x first.old y q.items found first.there kept in
      (z, rw first.items there, moved)
  claim-Keeps now (ended r) (_, same, _) = (x, rw same found, unchanged x)
  claim-Keeps now (waits r) (_, same, _) = (x, rw same found, unchanged x)

  -- No call loses an item: it keeps its sequence and its Evidence, and its state goes from pending to
  -- processing, from there to completed or failed, and from failed back to pending, or stays.
  pub call-Keeps : (c : Call) → IsValid q → Keeps id x (call q c)
  unfolding call enqueue admit push_pending complete fail retry close
  call-Keeps (enqueues item now) v = after-Keeps q id x _ found (
      Ensures-raise_if _ _ _ λ _. Ensures-raise_if _ _ _ λ _. Ensures-raise_if _ _ _ λ _.
        Ensures-raise_if _ _ _ λ _. Ensures-ok _ (x, find-append id q.items _ x found, unchanged x))
  call-Keeps (claims now) v =
      let (c, run, claim) = claim_next-IsClaim q v now in rw run (claim-Keeps now c claim)
  call-Keeps (completes i) v = after-Keeps q id x _ found (
      Ensures-bind (require_item q i) _ λ old there. Ensures-raise_if _ _ _ λ running.
        Ensures-ok _ (
          IsKept-in id x old _ q.items found (required i old there)
            record { sequence = refl; evidence = refl; state = ground arith }))
  call-Keeps (fails i code) v = after-Keeps q id x _ found (
      Ensures-bind (require_item q i) _ λ old there. Ensures-raise_if _ _ _ λ running.
        Ensures-ok _ (
          IsKept-in id x old _ q.items found (required i old there)
            record { sequence = refl; evidence = refl; state = ground arith }))
  call-Keeps (retries i now) v = after-Keeps q id x _ found (
      Ensures-bind (require_item q i) _ λ old there. Ensures-raise_if _ _ _ λ was_failed.
        Ensures-raise_if _ _ _ λ _. Ensures-ok _ (
          IsKept-in id x old _ q.items found (required i old there)
            record { sequence = refl; evidence = refl; state = ground arith }))
  call-Keeps closes v = (x, found, unchanged x)
