-- ===== src/Live/Turns/Finals.antt =====
-- Each item is completed once.
use ronro.Prelude.{
  ℕ, zero, suc, String, ◌≡◌, refl, sym, ap, ◌∙◌, arith, Bool, true, false, not, ◌||◌, any,
  Bool-cases, Option, none, some, List, [], ◌∷◌, ◌==◌, inl, inr, eq_iff, str_eq→eq, length,
  if◌then◌else◌,
}
use ronro.Live.Turns.Runs.{
  IsMild, find-change_turn, turn_or_new, Call, call, run, appends, requests, reconciles, observes,
  completes, acknowledges, takes,
}
use ronro.Live.Turns.{
  Turn, TurnLedger, Intent, find_turn, change_turn, append, request, reconcile_empty_commit,
  reconcile, covers, names_other, meaningful,
}
use ronro.Live.Turns.Observing.{
  is_due, put_turn, visit, release_pass, release_loop, release, is_completed, keys, update,
  complete, has_completion, pop, duplicate_final, acknowledge, observe, observed, commit_turn,
  commit_of, bounded, vad_end_of, is_committed, Message, key_of, speech_started, speech_stopped,
  delta, committed, other,
}

abbrev IsDone : String → TurnLedger → Type 0
IsDone k t = has_completion (find_turn k t.items) ≡ true

done-put_turn :
    (k : String) (y : Turn) (items : List Turn)
    → is_completed y ≡ true
    → has_completion (find_turn k items) ≡ true
    → has_completion (find_turn k (put_turn y items)) ≡ true
done-put_turn k y [] c h = h
done-put_turn k y (x ∷ xs) c h =
    ground (arith, done-put_turn k y xs, eq_iff x.key y.key, eq_iff y.key k, eq_iff x.key k)

visit-IsDone : (k : String) (t : TurnLedger) (o : Option Turn) → IsDone k t → IsDone k (visit t o).1
visit-IsDone k t none h = h
visit-IsDone k t (some x) h = elim (Bool-cases (is_due t.items x)) [
  | inl due ↦ rw due (done-put_turn k (record x { emitted = true }) t.items (ground arith) h)
  | inr differ ↦ rw differ h
]

release_pass-IsDone :
    (k : String) (ks : List String) (t : TurnLedger) → IsDone k t → IsDone k (release_pass ks t).1
unfolding release_pass
release_pass-IsDone k [] t h = h
release_pass-IsDone k (i ∷ is) t h =
    release_pass-IsDone k is (visit t (find_turn i t.items)).1
      (visit-IsDone k t (find_turn i t.items) h)

release_loop-IsDone :
    (k : String) (fuel : ℕ) (t : TurnLedger) → IsDone k t → IsDone k (release_loop fuel t)
unfolding release_loop
release_loop-IsDone k zero t h = h
release_loop-IsDone k (suc fuel) t h =
    let p = release_pass (keys t.items) t in
    let h' = release_pass-IsDone k (keys t.items) t h in
    elim (Bool-cases p.0) [
      | inl more ↦ rw more (release_loop-IsDone k fuel p.1 h')
      | inr end ↦ rw end h'
    ]

change_turn-done :
    (k event : String) (items : List Turn)
    → has_completion (find_turn k (change_turn (λ x. record x { completion = some event }) k items))
      ≡ true
unfolding change_turn
change_turn-done k event [] = ground (arith, eq_iff k k)
change_turn-done k event (x ∷ xs) = ground (arith, change_turn-done k event xs)

pop-IsDone : (k : String) (t : TurnLedger) (es : List String) → IsDone k t → IsDone k (pop t es).1
pop-IsDone k t [] h = h
pop-IsDone k t (e ∷ es) h = h

complete-IsDone : (t : TurnLedger) (k event : String) → IsDone k (complete t k event).1
unfolding complete release
complete-IsDone t k event =
    let started = update t k (λ x. record x { completion = some event }) in
    let released = release started in
    elim (Bool-cases (has_completion (find_turn k t.items))) [
      | inl again ↦ rw again again
      | inr first ↦ rw first (
          pop-IsDone k released released.ready (
            release_loop-IsDone k (suc (length started.items)) started
              (change_turn-done k event t.items)))
    ]

-- A change that keeps the completion of its item.
module _ (k : String) (t : TurnLedger) (h : IsDone k t) where
  update-IsDone :
      (f : Turn → Turn) (key : String)
      → IsMild f
      → ((x : Turn) → (f x).completion ≡ x.completion)
      → IsDone k (update t key f)
  update-IsDone f key mild same =
      ap has_completion (find-change_turn f mild key k t.items) ∙ kept (find_turn key t.items) refl
    where
      turned :
          (o : Option Turn) → has_completion o ≡ true → is_completed (f (turn_or_new key o)) ≡ true
      turned none at = cc
      turned (some x) at = rw (same x) at

      kept :
          (o : Option Turn)
          → find_turn key t.items ≡ o
          → has_completion (if key == k then some (f (turn_or_new key o)) else find_turn k t.items)
            ≡ true
      kept o there = elim (Bool-cases (key == k)) [
        | inr differ ↦ rw differ h
        | inl this ↦
            let at : has_completion o ≡ true =
              ap has_completion (sym there ∙ ap (λ i. find_turn i t.items) (str_eq→eq key k this))
              ∙ h in
            rw this (turned o at)
      ]

  commit_turn-IsDone :
      (key : String) (previous event_id : Option String) (now : ℕ)
      → IsDone k (commit_turn t key previous event_id now)
  unfolding commit_turn
  commit_turn-IsDone key previous event_id now =
      let c = commit_of t (vad_end_of (find_turn key t.items)) t.intents in
      update-IsDone (bounded c previous event_id now) key
        (record { key = λ x. refl; emitted = λ x. refl }) λ x. refl

  observed-IsDone : (m : Message) → IsDone k (observed t m)
  observed-IsDone (speech_started key ms) =
      update-IsDone _ key (record { key = λ x. refl; emitted = λ x. refl }) λ x. refl
  observed-IsDone (speech_stopped key ms id) =
      update-IsDone _ key (record { key = λ x. refl; emitted = λ x. refl }) λ x. refl
  observed-IsDone (delta key) =
      update-IsDone _ key (record { key = λ x. refl; emitted = λ x. refl }) λ x. refl
  observed-IsDone (committed key previous id now) =
      elim (Bool-cases (is_committed (find_turn key t.items))) [
        | inl again ↦
            rw again (
              update-IsDone (λ x. x) key (record { key = λ x. refl; emitted = λ x. refl })
                λ x. refl)
        | inr first ↦ rw first (commit_turn-IsDone key previous id now)
      ]
  observed-IsDone (other key) =
      update-IsDone (λ x. x) key (record { key = λ x. refl; emitted = λ x. refl }) λ x. refl

  observe-IsDone : (m : Message) → IsDone k (observe t m)
  unfolding observe
  observe-IsDone m = elim (Bool-cases (key_of m == "")) [
    | inl unnamed ↦ rw unnamed h
    | inr named ↦ rw named (observed-IsDone m)
  ]

  either-IsDone :
      (b : Bool) (u v : Bool × TurnLedger)
      → IsDone k u.1
      → IsDone k v.1
      → IsDone k (if b then u else v).1
  either-IsDone true u v a b = a
  either-IsDone false u v a b = b

  reconcile-IsDone :
      (event_id : Option String) (is : List Intent) → IsDone k (reconcile t event_id is).1
  reconcile-IsDone event_id [] = h
  reconcile-IsDone event_id (i ∷ []) =
      either-IsDone
        (names_other event_id i.event_id
          || not (any (λ x. covers t.allocated i x.boundary) t.items)
          || meaningful t t.allocated i.end)
        (false, t) (true, record t { intents = [] }) h h
  reconcile-IsDone event_id (i ∷ j ∷ is) = h

  set-IsDone :
      (event : String) (key : String)
      → IsDone k (update t key (λ x. record x { completion = some event }))
  set-IsDone event key =
      ap has_completion
        (find-change_turn _ (record { key = λ x. refl; emitted = λ x. refl }) key k t.items)
      ∙ elim (Bool-cases (key == k)) [ inl this ↦ rw this refl | inr differ ↦ rw differ h ]

  completed-IsDone : (key event : String) → IsDone k (complete t key event).1
  unfolding complete release
  completed-IsDone key event =
      let started = update t key (λ x. record x { completion = some event }) in
      let released = release started in
      elim (Bool-cases (has_completion (find_turn key t.items))) [
        | inl again ↦ rw again h
        | inr first ↦ rw first (
            pop-IsDone k released released.ready
              (release_loop-IsDone k (suc (length started.items)) started (set-IsDone event key)))
      ]

  call-IsDone : (c : Call) → IsDone k (call t c)
  unfolding call
  call-IsDone (appends pcm) = unfold append in h
  call-IsDone (requests sequence reason now event_id) = unfold request in h
  call-IsDone (reconciles event_id) =
      unfold reconcile_empty_commit in reconcile-IsDone event_id t.intents
  call-IsDone (observes m) = observe-IsDone m
  call-IsDone (completes key event) = completed-IsDone key event
  call-IsDone (acknowledges key) = unfold acknowledge in h
  call-IsDone takes = pop-IsDone k t t.ready h

run-IsDone : (k : String) (t : TurnLedger) (cs : List Call) → IsDone k t → IsDone k (run t cs)
unfolding run
run-IsDone k t [] h = h
run-IsDone k t (c ∷ cs) h = run-IsDone k (call t c) cs (call-IsDone k t h c)

-- After a final for an item arrived, whatever is called in between: every further final for this item
-- is answered as a duplicate and changes nothing.
pub complete-once :
    (t : TurnLedger) (key event : String) (cs : List Call) (event' : String)
    → complete (run (complete t key event).1 cs) key event'
      ≡ (duplicate_final key, run (complete t key event).1 cs)
complete-once t key event cs event' =
    again (run (complete t key event).1 cs)
      (run-IsDone key (complete t key event).1 cs (complete-IsDone t key event))
  where
    again : (u : TurnLedger) → IsDone key u → complete u key event' ≡ (duplicate_final key, u)
    again u h = unfold complete in rw h refl
