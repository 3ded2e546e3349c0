-- ===== src/Live/Queue/Claiming.antt =====
-- The loop of `claim_next` over the heap.
use ronro.Prelude.{
  ℕ, ◌≡◌, refl, sym, ap, ◌⊎◌, ◌∙◌, subst, true, false, Bool-cases, Option, none, some, List, [],
  ◌∷◌, ◌==◌, any, All, inl, inr, ltb, leb, arith, str_eq→eq, nat_eq→eq, true-or-absurd,
}
use ronro.Errors.{ok}
use ronro.Live.Queue.{LiveQueueItem, Entry, ItemState, find_item, claim_loop, state_is}
use ronro.Live.Queue.Items.{ascending, find_item-id}
use ronro.Live.Queue.Valid.{entry_ok, has_entry, found_with}

-- What the loop leaves: the entries are still good and in order, and no pending item but the one that
-- was found has lost its entry.
pub record IsClaimed (items : List LiveQueueItem) (es rest : List Entry)
    (found : Option LiveQueueItem) : Type 0 where
  pub entries : All (λ e. entry_ok items e ≡ true) rest
  pub sorted : ascending rest ≡ true
  pub ends : found ≡ none → rest ≡ []
  pub is_pending :
      (x : LiveQueueItem)
      → found ≡ some x
      → (find_item x.queue_item_id items ≡ some x) × (state_is x.state ItemState.pending ≡ true)
  pub kept :
      (y : LiveQueueItem)
      → find_item y.queue_item_id items ≡ some y
      → state_is y.state ItemState.pending ≡ true
      → has_entry y.queue_item_id es ≡ true
      → (found ≡ some y) ⊎ (has_entry y.queue_item_id rest ≡ true)
  pub least :
      (x : LiveQueueItem)
      → found ≡ some x
      → All (λ e. leb x.utterance_sequence e.sequence ≡ true) rest

after_first :
    (n : ℕ) (es : List Entry)
    → any (λ f. ltb f.sequence n) es ≡ false
    → All (λ e. leb n e.sequence ≡ true) es
after_first n [] h = tt
after_first n (e ∷ es) h = (ground arith, after_first n es (ground arith))

abbrev Claims : List LiveQueueItem → List Entry → Type 0
Claims items es =
    (rest : List Entry) × (found : Option LiveQueueItem) × (claim_loop items es ≡ ok (rest, found))
    × IsClaimed items es rest found

module _ (items : List LiveQueueItem) (e : Entry) (es : List Entry) (x : LiveQueueItem)
    (there : find_item e.id items ≡ some x) where
  same_item :
      (y : LiveQueueItem)
      → find_item y.queue_item_id items ≡ some y
      → (e.id == y.queue_item_id) ≡ true
      → x ≡ y
  same_item y q h =
      let i = str_eq→eq e.id y.queue_item_id h in
      let r : some x ≡ some y = sym there ∙ ap (λ j. find_item j items) i ∙ q in cc

  Claims-here :
      state_is x.state ItemState.pending ≡ true
      → entry_ok items e ≡ true
      → All (λ f. entry_ok items f ≡ true) es
      → ascending (e ∷ es) ≡ true
      → Claims items (e ∷ es)
  unfolding claim_loop
  Claims-here waiting good others order = (
    es,
    some x,
    rw (there, waiting, claim_loop) refl,
    record {
      entries = others;
      sorted = ground arith;
      ends = λ h. absurd (cc h);
      is_pending = λ y h.
          let q : x ≡ y = cc in
          subst
            (λ z.
              (find_item z.queue_item_id items ≡ some z)
              × (state_is z.state ItemState.pending ≡ true))
            q
            (
              subst (λ i. find_item i items ≡ some x) (sym (find_item-id e.id items x there)) there,
              waiting,
            );
      kept = λ y q _ h. elim (Bool-cases (e.id == y.queue_item_id)) [
        | inl this ↦ inl (ap (λ z. some z) (same_item y q this))
        | inr other ↦ inr (ground arith)
      ];
      least = λ y h.
          let q : x ≡ y = cc in
          let at_e : found_with e.sequence (some x) ≡ true =
            subst (λ o. found_with e.sequence o ≡ true) there good in
          let n : e.sequence ≡ y.utterance_sequence =
            sym (nat_eq→eq x.utterance_sequence e.sequence at_e)
            ∙ ap (λ z. z.utterance_sequence) q in
          subst (λ k. All (λ f. leb k f.sequence ≡ true) es) n
            (after_first e.sequence es (ground arith));
    },
  )

  Claims-later :
      state_is x.state ItemState.pending ≡ false → Claims items es → Claims items (e ∷ es)
  unfolding claim_loop
  Claims-later started (rest, found, run, claimed) = (
    rest,
    found,
    rw (there, started, claim_loop) run,
    record {
      entries = claimed.entries;
      sorted = claimed.sorted;
      ends = claimed.ends;
      is_pending = claimed.is_pending;
      kept = λ y q waiting h. elim (Bool-cases (e.id == y.queue_item_id)) [
        | inl this ↦
            let s = same_item y q this in
            absurd (
              true-or-absurd waiting (
                subst (λ (z : LiveQueueItem). state_is z.state ItemState.pending ≡ false) s
                  started))
        | inr other ↦ claimed.kept y q waiting (ground arith)
      ];
      least = claimed.least;
    },
  )

Claims-first :
    (items : List LiveQueueItem) (e : Entry) (es : List Entry) (o : Option LiveQueueItem)
    → find_item e.id items ≡ o
    → All (λ f. entry_ok items f ≡ true) (e ∷ es)
    → ascending (e ∷ es) ≡ true
    → Claims items es
    → Claims items (e ∷ es)
Claims-first items e es none q good order below =
    let h : found_with e.sequence none ≡ true =
      subst (λ o. found_with e.sequence o ≡ true) q good.0 in
    cc
Claims-first items e es (some x) q good order below =
    elim (Bool-cases (state_is x.state ItemState.pending)) [
      | inl waiting ↦ Claims-here items e es x q waiting good.0 good.1 order
      | inr started ↦ Claims-later items e es x q started below
    ]

-- On a heap whose entries are good the loop returns.
pub claim_loop-Claims :
    (items : List LiveQueueItem) (es : List Entry)
    → All (λ e. entry_ok items e ≡ true) es
    → ascending es ≡ true
    → (rest : List Entry) × (found : Option LiveQueueItem) × (claim_loop items es
        ≡ ok (rest, found))
      × IsClaimed items es rest found
claim_loop-Claims items [] good order = (
  [],
  none,
  unfold claim_loop in refl,
  record {
    entries = tt;
    sorted = refl;
    ends = λ h. refl;
    is_pending = λ x h. absurd (cc h);
    kept = λ y _ _ h. absurd (cc h);
    least = λ x h. absurd (cc h);
  },
)
claim_loop-Claims items (e ∷ es) good order =
    Claims-first items e es (find_item e.id items) refl good order
      (claim_loop-Claims items es good.1 (ground arith))
