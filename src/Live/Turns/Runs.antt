-- ===== src/Live/Turns/Runs.antt =====
-- The ledger over any sequence of calls.
use ronro.Prelude.{
  ℕ, String, ◌≡◌, refl, sym, ap, ◌∙◌, subst, arith, Bool, true, false, not, ◌&&◌, ◌||◌, Bool-cases,
  Option, none, some, List, [], ◌∷◌, ◌==◌, ◌⊎◌, inl, inr, eq_iff, if◌then◌else◌, any,
}
use ronro.Live.Turns.{
  Turn, TurnLedger, new_ledger, find_turn, change_turn, new_turn, append, request,
  reconcile_empty_commit, meaningful, Intent, reconcile, names_other, covers,
}
use ronro.Live.Turns.Observing.{
  Message, speech_started, speech_stopped, delta, committed, other, key_of, bounded, commit_turn,
  observed, observe, is_due, is_completed, is_free, is_committed, previous_of, was_emitted, update,
  complete, acknowledge, pop, has_completion, Commit, commit_of, vad_end_of, release,
}
use ronro.Live.Turns.Release.{due_at, IsSettled, release-IsSettled}

-- The item that `setdefault` gives.
abbrev pub turn_or_new : String → Option Turn → Turn
turn_or_new key none = new_turn key
turn_or_new key (some x) = x

-- A change of an item that keeps its key and whether it was emitted.
pub record IsMild (f : Turn → Turn) : Type 0 where
  pub key : (x : Turn) → (f x).key ≡ x.key
  pub emitted : (x : Turn) → (f x).emitted ≡ x.emitted

module _ (f : Turn → Turn) (mild : IsMild f) (key : String) where
  emitted-change_turn :
      (k : String) (items : List Turn)
      → was_emitted k (change_turn f key items) ≡ was_emitted k items
  unfolding change_turn
  emitted-change_turn k [] =
      let a = mild.key (new_turn key) in let b = mild.emitted (new_turn key) in ground arith
  emitted-change_turn k (x ∷ xs) =
      let a = mild.key x in
      let b = mild.emitted x in let rest = emitted-change_turn k xs in ground arith

  free-change_turn :
      (items : List Turn) (previous : Option String)
      → is_free (change_turn f key items) previous ≡ is_free items previous
  free-change_turn items none = refl
  free-change_turn items (some k) = emitted-change_turn k items

  due-change_turn :
      (items : List Turn) (o : Option Turn) → due_at (change_turn f key items) o ≡ due_at items o
  due-change_turn items none = refl
  due-change_turn items (some x) =
      ap (λ b. is_completed x && not x.emitted && b) (free-change_turn items (previous_of x))

  pub find-change_turn :
      (k : String) (items : List Turn)
      → find_turn k (change_turn f key items)
        ≡ (if key == k then some (f (turn_or_new key (find_turn key items))) else find_turn k items)
  unfolding change_turn
  find-change_turn k [] = let a = mild.key (new_turn key) in rw a refl
  find-change_turn k (x ∷ xs) =
      let a = mild.key x in
      let rest = find-change_turn k xs in
      ground (arith, eq_iff x.key key, eq_iff key k, eq_iff x.key k)

  update-IsSettled :
      (t : TurnLedger)
      → IsSettled t
      → is_due t.items (f (turn_or_new key (find_turn key t.items))) ≡ false
      → IsSettled (update t key f)
  update-IsSettled t s due k =
      due-change_turn t.items (find_turn k (change_turn f key t.items))
      ∙ ap (due_at t.items) (find-change_turn k t.items)
      ∙ at (Bool-cases (key == k))
    where
      at :
          ((key == k) ≡ true) ⊎ ((key == k) ≡ false)
          → due_at t.items (
              if key == k
              then some (f (turn_or_new key (find_turn key t.items)))
              else find_turn k t.items)
            ≡ false
      at (inl this) = rw this due
      at (inr that) = rw that (s k)

-- A call of a method, with the time that it reads. `takes` is the transport's popleft on `ready`.
pub data Call : Type 0 where
  appends : (pcm : List ℕ) → Call
  requests : (sequence : ℕ) (reason : String) (now : ℕ) (event_id : Option String) → Call
  reconciles : (event_id : Option String) → Call
  observes : (m : Message) → Call
  completes : (key event : String) → Call
  acknowledges : (key : String) → Call
  takes : Call

unfoldable pub call : TurnLedger → Call → TurnLedger
call t (appends pcm) = append t pcm
call t (requests sequence reason now event_id) = request t sequence reason now event_id
call t (reconciles event_id) = (reconcile_empty_commit t event_id).1
call t (observes m) = observe t m
call t (completes key event) = (complete t key event).1
call t (acknowledges key) = acknowledge t key
call t takes = (pop t t.ready).1

unfoldable pub run : TurnLedger → List Call → TurnLedger
unfolding call
run t [] = t
run t (c ∷ cs) = run (call t c) cs

-- The items are all that `IsSettled` reads.
same_items : (t u : TurnLedger) → u.items ≡ t.items → IsSettled t → IsSettled u
same_items t u same s k = subst (λ xs. due_at xs (find_turn k xs) ≡ false) (sym same) (s k)

popped : (u : TurnLedger) (es : List String) → IsSettled u → IsSettled (pop u es).1
popped u [] h = h
popped u (e ∷ es) h = h

either :
    (b : Bool) (p q : Bool × TurnLedger)
    → IsSettled p.1
    → IsSettled q.1
    → IsSettled (if b then p else q).1
either true p q s r = s
either false p q s r = r

reconciled :
    (t : TurnLedger) (event_id : Option String) (is : List Intent)
    → IsSettled t
    → IsSettled (reconcile t event_id is).1
reconciled t event_id [] s = s
reconciled t event_id (i ∷ []) s =
    either
      (names_other event_id i.event_id
        || not (any (λ x. covers t.allocated i x.boundary) t.items)
        || meaningful t t.allocated i.end)
      (false, t) (true, record t { intents = [] }) s s
reconciled t event_id (i ∷ j ∷ is) s = s

module _ (t : TurnLedger) (s : IsSettled t) where
  due-turn_or_new :
      (key : String) (o : Option Turn)
      → due_at t.items o ≡ false
      → is_due t.items (turn_or_new key o) ≡ false
  due-turn_or_new key none h = refl
  due-turn_or_new key (some x) h = h

  -- A change that keeps the completion and the predecessor too.
  plain-IsSettled :
      (f : Turn → Turn) (key : String)
      → IsMild f
      → ((x : Turn) → is_due t.items (f x) ≡ is_due t.items x)
      → IsSettled (update t key f)
  plain-IsSettled f key mild same = update-IsSettled f mild key t s (
      same (turn_or_new key (find_turn key t.items))
      ∙ due-turn_or_new key (find_turn key t.items) (s key))

  -- Before its commit an item has no predecessor, so a commit can only hold it back.
  due-bounded :
      (c : Commit) (previous event_id : Option String) (now : ℕ) (key : String) (o : Option Turn)
      → is_committed o ≡ false
      → due_at t.items o ≡ false
      → is_due t.items (bounded c previous event_id now (turn_or_new key o)) ≡ false
  due-bounded c previous event_id now key none h d = refl
  due-bounded c previous event_id now key (some x) h d =
      let free = unbounded x h in
      let held : (is_completed x && not x.emitted && true) ≡ false =
        ap (λ b. is_completed x && not x.emitted && b) (sym free) ∙ d in
      ground arith
    where
      unbounded :
          (x : Turn) → is_committed (some x) ≡ false → is_free t.items (previous_of x) ≡ true
      unbounded x h = ground arith

  commit_turn-IsSettled :
      (key : String) (previous event_id : Option String) (now : ℕ)
      → is_committed (find_turn key t.items) ≡ false
      → IsSettled (commit_turn t key previous event_id now)
  unfolding commit_turn
  commit_turn-IsSettled key previous event_id now h =
      let c = commit_of t (vad_end_of (find_turn key t.items)) t.intents in
      same_items (update t key (bounded c previous event_id now))
        (commit_turn t key previous event_id now) refl
        (update-IsSettled (bounded c previous event_id now)
          (record { key = λ x. refl; emitted = λ x. refl }) key t s
          (due-bounded c previous event_id now key (find_turn key t.items) h (s key)))

  observed-IsSettled : (m : Message) → IsSettled (observed t m)
  observed-IsSettled (speech_started key ms) =
      plain-IsSettled _ key (record { key = λ x. refl; emitted = λ x. refl }) λ x. refl
  observed-IsSettled (speech_stopped key ms id) =
      plain-IsSettled _ key (record { key = λ x. refl; emitted = λ x. refl }) λ x. refl
  observed-IsSettled (delta key) =
      plain-IsSettled _ key (record { key = λ x. refl; emitted = λ x. refl }) λ x. refl
  observed-IsSettled (committed key previous id now) =
      elim (Bool-cases (is_committed (find_turn key t.items))) [
        | inl again ↦
            rw again
              (plain-IsSettled _ key (record { key = λ x. refl; emitted = λ x. refl }) λ x. refl)
        | inr first ↦ rw first (commit_turn-IsSettled key previous id now first)
      ]
  observed-IsSettled (other key) =
      plain-IsSettled _ key (record { key = λ x. refl; emitted = λ x. refl }) λ x. refl

  observe-IsSettled : (m : Message) → IsSettled (observe t m)
  unfolding observe
  observe-IsSettled m = elim (Bool-cases (key_of m == "")) [
    | inl unnamed ↦ rw unnamed s
    | inr named ↦ rw named (observed-IsSettled m)
  ]

  complete-IsSettled : (key event : String) → IsSettled (complete t key event).1
  unfolding complete
  complete-IsSettled key event =
      let started = update t key (λ x. record x { completion = some event }) in
      let released = release started in
      elim (Bool-cases (has_completion (find_turn key t.items))) [
        | inl again ↦ rw again s
        | inr first ↦ rw first (popped released released.ready (release-IsSettled started))
      ]

  call-IsSettled : (c : Call) → IsSettled (call t c)
  unfolding call
  call-IsSettled (appends pcm) = unfold append in s
  call-IsSettled (requests sequence reason now event_id) = unfold request in s
  call-IsSettled (reconciles event_id) =
      unfold reconcile_empty_commit in reconciled t event_id t.intents s
  call-IsSettled (observes m) = observe-IsSettled m
  call-IsSettled (completes key event) = complete-IsSettled key event
  call-IsSettled (acknowledges key) = unfold acknowledge in s
  call-IsSettled takes = popped t t.ready s

run_from-IsSettled : (t : TurnLedger) (cs : List Call) → IsSettled t → IsSettled (run t cs)
unfolding run
run_from-IsSettled t [] s = s
run_from-IsSettled t (c ∷ cs) s = run_from-IsSettled (call t c) cs (call-IsSettled t s c)

-- Whatever is called on a new ledger, in whatever order the provider's messages come: no item is held
-- back that is completed and not given out, and that follows none or an item that was given out.
pub run-IsSettled :
    (vad_reason : String) (cs : List Call) → IsSettled (run (new_ledger vad_reason) cs)
run-IsSettled vad_reason cs =
    run_from-IsSettled (new_ledger vad_reason) cs λ k. unfold new_ledger in refl
