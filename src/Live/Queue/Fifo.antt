-- ===== src/Live/Queue/Fifo.antt =====
-- Which item `claim_next` gives out, and the queue over a sequence of calls.
use ronro.Prelude.{
  ℕ, ◌≡◌, refl, sym, ap, subst, Bool, true, false, not, ◌||◌, Bool-cases, Option, none, some, List,
  [], ◌∷◌, ◌==◌, All, All-map, All-zip, inl, inr, leb, arith, str_eq→eq, if◌then◌else◌,
}
use ronro.Errors.{ok, ◌>>=◌}
use ronro.Live.Queue.{
  LiveQueueItem, LiveUtteranceQueue, Entry, ItemState, find_item, put_item, state_is, claim_next,
  take_item, Claim, claimed, ended, waits, start_item,
}
use ronro.Live.Queue.Items.{All-found}
use ronro.Live.Queue.Valid.{IsValid, entry_ok, has_entry, found_with, is_queued}
use ronro.Live.Queue.Claiming.{IsClaimed, claim_loop-Claims}

abbrev pub is_pending : LiveQueueItem → Bool
is_pending x = state_is x.state ItemState.pending

abbrev pub NonePending : LiveUtteranceQueue → Type 0
NonePending q = All (λ z. is_pending z ≡ false) q.items

-- A claim that gives out an item: the first of the pending ones, by the sequence of the Utterance.
pub record IsFirst (q : LiveUtteranceQueue) (now : ℕ) (x : LiveQueueItem) (r : LiveUtteranceQueue)
    : Type 0 where
  pub old : LiveQueueItem
  pub there : find_item x.queue_item_id q.items ≡ some old
  pub was_pending : is_pending old ≡ true
  pub started : x ≡ start_item old now
  pub items : r.items ≡ put_item x q.items
  pub least :
      All
        (λ z. (not (is_pending z) || leb x.utterance_sequence z.utterance_sequence) ≡ true)
        q.items

abbrev pub IsClaim : LiveUtteranceQueue → ℕ → Claim → Type 0
IsClaim q now (claimed x r) = IsFirst q now x r
IsClaim q now (ended r) = (q.closed ≡ true) × (r.items ≡ q.items) × NonePending q
IsClaim q now (waits r) = (q.closed ≡ false) × (r.items ≡ q.items) × NonePending q

-- The entry of an item has its sequence.
entry-least :
    (items : List LiveQueueItem) (n : ℕ) (z : LiveQueueItem) (es : List Entry)
    → find_item z.queue_item_id items ≡ some z
    → All (λ e. entry_ok items e ≡ true) es
    → All (λ e. leb n e.sequence ≡ true) es
    → has_entry z.queue_item_id es ≡ true
    → leb n z.utterance_sequence ≡ true
entry-least items n z [] f good least h = cc
entry-least items n z (e ∷ es) f good least h = elim (Bool-cases (e.id == z.queue_item_id)) [
  | inl this ↦
      let at : find_item e.id items ≡ some z =
        subst (λ i. find_item i items ≡ some z) (sym (str_eq→eq e.id z.queue_item_id this)) f in
      let same : found_with e.sequence (some z) ≡ true =
        subst (λ o. found_with e.sequence o ≡ true) at good.0 in
      let low = least.0 in ground arith
  | inr other ↦ entry-least items n z es f good.1 least.1 (ground arith)
]

module _ (q : LiveUtteranceQueue) (v : IsValid q) where
  found_queued :
      All
        (λ z. (is_queued q.pending z ≡ true) × (find_item z.queue_item_id q.items ≡ some z))
        q.items
  found_queued = All-zip _ _ q.items v.queued (All-found q.items v.distinct_ids)

  claimed-least :
      (rest : List Entry) (x z : LiveQueueItem)
      → IsClaimed q.items q.pending rest (some x)
      → is_queued q.pending z ≡ true
      → find_item z.queue_item_id q.items ≡ some z
      → (not (is_pending z) || leb x.utterance_sequence z.utterance_sequence) ≡ true
  claimed-least rest x z c h f = elim (Bool-cases (is_pending z)) [
    | inr started ↦ rw started refl
    | inl waiting ↦ elim (c.kept z f waiting (ground arith)) [
      | inl this ↦
          let e : x ≡ z = cc in
          rw waiting (ground (arith, ap (λ (w : LiveQueueItem). w.utterance_sequence) e))
      | inr there ↦
          rw waiting
            (entry-least q.items x.utterance_sequence z rest f c.entries (c.least x refl) there)
    ]
  ]

  nothing_pending :
      (rest : List Entry)
      → IsClaimed q.items q.pending rest none
      → (z : LiveQueueItem) → is_queued q.pending z ≡ true
      → find_item z.queue_item_id q.items ≡ some z
      → is_pending z ≡ false
  nothing_pending rest c z h f = elim (Bool-cases (is_pending z)) [
    | inr started ↦ started
    | inl waiting ↦ elim (c.kept z f waiting (ground arith)) [
      | inl this ↦ absurd (cc this)
      | inr there ↦
          let none_left : has_entry z.queue_item_id [] ≡ true =
            subst (λ es. has_entry z.queue_item_id es ≡ true) (c.ends refl) there in
          cc
    ]
  ]

  take_item-IsClaim :
      (rest : List Entry) (found : Option LiveQueueItem) (now : ℕ)
      → IsClaimed q.items q.pending rest found
      → IsClaim q now (take_item q now rest found)
  unfolding take_item
  take_item-IsClaim rest (some x) now c = record {
    old = x;
    there = (c.is_pending x refl).0;
    was_pending = (c.is_pending x refl).1;
    started = refl;
    items = refl;
    least = All-map _ _ q.items (λ z (h, f). claimed-least rest x z c h f) found_queued;
  }
  take_item-IsClaim rest none now c =
      ended_or_waits rest q.closed refl
        (All-map _ _ q.items (λ z (h, f). nothing_pending rest c z h f) found_queued)
    where
      ended_or_waits :
          (rest : List Entry) (b : Bool)
          → q.closed ≡ b
          → NonePending q
          → IsClaim q now (
              if b
              then ended (record q { pending = rest })
              else waits (record q { pending = rest }))
      ended_or_waits rest true e none_left = (e, refl, none_left)
      ended_or_waits rest false e none_left = (e, refl, none_left)

  -- On a well-formed queue `claim_next` always answers. If it gives out an item, that item was
  -- pending and no pending item has an Utterance of a smaller sequence, and the item is now being
  -- processed, with its waiting time. If it gives out none, then no item is pending, and it returns
  -- None or waits as the queue is closed or not.
  pub claim_next-IsClaim : (now : ℕ) → (c : Claim) × (claim_next q now ≡ ok c) × IsClaim q now c
  unfolding claim_next
  claim_next-IsClaim now =
      let (rest, found, run, c) = claim_loop-Claims q.items q.pending v.entries v.sorted in
      (
        take_item q now rest found,
        rw run (unfold ◌>>=◌ in refl),
        take_item-IsClaim rest found now c,
      )
