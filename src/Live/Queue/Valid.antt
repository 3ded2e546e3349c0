-- ===== src/Live/Queue/Valid.antt =====
-- When a queue is well-formed, and what a change of one item keeps of that.
use ronro.Prelude.{
  ℕ, ◌≤◌, String, ◌≡◌, refl, sym, ap, ◌∙◌, subst, Bool, true, false, not, ◌||◌, Bool-cases, Option,
  none, some, List, [], ◌∷◌, ◌++◌, ◌==◌, any, All, inl, inr, leb, nat_eq, arith, str_eq→eq,
  distinct,
}
use ronro.Live.Queue.{
  LiveQueueItem, LiveUtteranceQueue, Entry, ItemState, processing, completed, find_item, put_item,
  depth, state_is,
}
use ronro.Live.Queue.Items.{
  item_ids, ascending, find-put_item, find-put_other, find-append, ids-put_item,
}

-- An entry of the heap has the sequence of an item that is there.
abbrev pub found_with : ℕ → Option LiveQueueItem → Bool
found_with n none = false
found_with n (some x) = nat_eq x.utterance_sequence n

abbrev pub entry_ok : List LiveQueueItem → Entry → Bool
entry_ok items e = found_with e.sequence (find_item e.id items)

abbrev pub has_entry : String → List Entry → Bool
has_entry id entries = any (λ e. e.id == id) entries

-- A pending item has an entry in the heap.
abbrev pub is_queued : List Entry → LiveQueueItem → Bool
is_queued entries x = not (state_is x.state ItemState.pending) || has_entry x.queue_item_id entries

abbrev pub is_processing : Option LiveQueueItem → Bool
is_processing none = false
is_processing (some x) = state_is x.state processing

-- The item that `_processing_id` names is being processed.
abbrev pub running_ok : Option String → List LiveQueueItem → Bool
running_ok none items = true
running_ok (some id) items = is_processing (find_item id items)

abbrev pub up_to : Option ℕ → ℕ → Bool
up_to none n = false
up_to (some last) n = leb n last

-- A completed item is not after the last completed sequence.
abbrev pub is_counted : Option ℕ → LiveQueueItem → Bool
is_counted last x = not (state_is x.state completed) || up_to last x.utterance_sequence

pub record IsValid (q : LiveUtteranceQueue) : Type 0 where
  pub distinct_ids : distinct (item_ids q.items) ≡ true
  pub entries : All (λ e. entry_ok q.items e ≡ true) q.pending
  pub queued : All (λ x. is_queued q.pending x ≡ true) q.items
  pub sorted : ascending q.pending ≡ true
  pub bounded : depth q.items ≤ q.max_depth
  pub running : running_ok q.processing_id q.items ≡ true
  pub finished : All (λ x. is_counted q.last_completed_sequence x ≡ true) q.items

module _ (items : List LiveQueueItem) (x y : LiveQueueItem)
    (found : find_item y.queue_item_id items ≡ some x)
    (same : y.utterance_sequence ≡ x.utterance_sequence) where
  pub entry_ok-put_item :
      (e : Entry) → entry_ok items e ≡ true → entry_ok (put_item y items) e ≡ true
  entry_ok-put_item e h = elim (Bool-cases (y.queue_item_id == e.id)) [
    | inl this ↦
        let id = str_eq→eq y.queue_item_id e.id this in
        let at_x : found_with e.sequence (some x) ≡ true =
          subst (λ o. found_with e.sequence o ≡ true) (ap (λ i. find_item i items) (sym id) ∙ found)
            h in
        let at_y : find_item e.id (put_item y items) ≡ some y =
          subst (λ i. find_item i (put_item y items) ≡ some y) id (find-put_item y items x found) in
        rw at_y (ground arith)
    | inr other ↦ rw (find-put_other y items e.id other) h
  ]

  pub distinct-put_item :
      distinct (item_ids items) ≡ true → distinct (item_ids (put_item y items)) ≡ true
  distinct-put_item h = rw (ids-put_item y items) h

pub entry_ok-append :
    (items : List LiveQueueItem) (x : LiveQueueItem) (e : Entry)
    → entry_ok items e ≡ true
    → entry_ok (items ++ x ∷ []) e ≡ true
entry_ok-append items x e h = go (find_item e.id items) refl h
  where
    go :
        (o : Option LiveQueueItem)
        → find_item e.id items ≡ o
        → found_with e.sequence o ≡ true
        → entry_ok (items ++ x ∷ []) e ≡ true
    go none q h = cc
    go (some y) q h = rw (find-append e.id items x y q) h

-- The item of `_processing_id` stays, if it is not the one that changes.
pub running_ok-put_item :
    (items : List LiveQueueItem) (y : LiveQueueItem) (p : Option String)
    → (p ≡ some y.queue_item_id → ⊥)
    → running_ok p items ≡ true
    → running_ok p (put_item y items) ≡ true
running_ok-put_item items y none other h = refl
running_ok-put_item items y (some id) other h = elim (Bool-cases (y.queue_item_id == id)) [
  | inl this ↦ absurd (other (ap (λ i. some i) (sym (str_eq→eq y.queue_item_id id this))))
  | inr differ ↦ rw (find-put_other y items id differ) h
]

pub running_ok-append :
    (items : List LiveQueueItem) (x : LiveQueueItem) (p : Option String)
    → running_ok p items ≡ true
    → running_ok p (items ++ x ∷ []) ≡ true
running_ok-append items x none h = refl
running_ok-append items x (some id) h = go (find_item id items) refl h
  where
    go :
        (o : Option LiveQueueItem)
        → find_item id items ≡ o
        → is_processing o ≡ true
        → running_ok (some id) (items ++ x ∷ []) ≡ true
    go none q h = cc
    go (some y) q h = rw (find-append id items x y q) h
