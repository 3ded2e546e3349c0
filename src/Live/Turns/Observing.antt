-- ===== src/Live/Turns/Observing.antt =====
-- `observe`, `complete`, `release` and the questions of `TurnLedger`.
use ronro.Prelude.{
  ℕ, zero, suc, ◌+◌, ◌-◌, ◌*◌, String, Bool, true, false, not, ◌&&◌, ◌||◌, Option, none, some, List,
  [], ◌∷◌, ◌++◌, ◌==◌, map, any, contains, length, ltb, if◌then◌else◌,
}
use ronro.Live.Turns.{Intent, Turn, TurnLedger, larger, find_turn, change_turn}

-- A message of the provider, with the time of its arrival. An `item_id` that is missing is "".
pub data Message : Type 0 where
  speech_started : (key : String) (audio_start_ms : ℕ) → Message
  speech_stopped : (key : String) (audio_end_ms : ℕ) (event_id : Option String) → Message
  delta : (key : String) → Message
  committed : (key : String) (previous event_id : Option String) (now : ℕ) → Message
  other : (key : String) → Message

abbrev pub key_of : Message → String
key_of (speech_started key ms) = key
key_of (speech_stopped key ms id) = key
key_of (delta key) = key
key_of (committed key previous id now) = key
key_of (other key) = key

-- a or b
abbrev pub or_else : Option String → Option String → Option String
or_else none b = b
or_else (some a) b = if a == "" then b else some a

-- The range, the reason and the sequence that a commit gives an item, and the intents that are left.
pub record Commit : Type 0 where
  pub range : Option (ℕ × ℕ)
  pub reason : String
  pub sequence : Option ℕ
  pub intents : List Intent

unfoldable pub commit_of : TurnLedger → Option ℕ → List Intent → Commit
commit_of t (some vad_end) is = record {
  range = some (t.allocated, vad_end * 24);
  reason = t.vad_reason;
  sequence = none;
  intents = is;
}
commit_of t none (i ∷ is) = record {
  range = if ltb i.start t.allocated then none else some (i.start, i.end);
  reason = i.reason;
  sequence = some i.sequence;
  intents = is;
}
commit_of t none [] = record { range = none; reason = "unknown"; sequence = none; intents = [] }

abbrev pub bounded : Commit → Option String → Option String → ℕ → Turn → Turn
bounded c previous event_id now x = record x {
  boundary = some record {
    previous = previous;
    boundary_event_id = or_else x.vad_event_id event_id;
    at = now;
    range = c.range;
    reason = c.reason;
    sequence = c.sequence;
  };
}

abbrev pub allocated_by : ℕ → Option (ℕ × ℕ) → ℕ
allocated_by n none = n
allocated_by n (some (start, end)) = larger n end

abbrev pub vad_end_of : Option Turn → Option ℕ
vad_end_of none = none
vad_end_of (some x) = x.vad_end

abbrev pub is_committed : Option Turn → Bool
is_committed none = false
is_committed (some x) = elim x.boundary [ none ↦ false | some b ↦ true ]

unfoldable pub commit_turn : TurnLedger → String → Option String → Option String → ℕ → TurnLedger
unfolding change_turn commit_of
commit_turn t key previous event_id now =
    let c = commit_of t (vad_end_of (find_turn key t.items)) t.intents in
    record t {
      items = change_turn (bounded c previous event_id now) key t.items;
      intents = c.intents;
      allocated = allocated_by t.allocated c.range;
    }

abbrev pub update : TurnLedger → String → (Turn → Turn) → TurnLedger
update t key f = record t { items = change_turn f key t.items }

abbrev pub observed : TurnLedger → Message → TurnLedger
observed t (speech_started key ms) = update t key λ x. record x { vad_start = some ms }
observed t (speech_stopped key ms id) =
    update t key λ x. record x { vad_end = some ms; vad_event_id = id }
observed t (delta key) = update t key λ x. record x { delta_count = x.delta_count + 1 }
observed t (committed key previous id now) =
    if is_committed (find_turn key t.items)
    then update t key (λ x. x)
    else commit_turn t key previous id now
observed t (other key) = update t key λ x. x

unfoldable pub observe : TurnLedger → Message → TurnLedger
unfolding commit_turn
observe t m = if key_of m == "" then t else observed t m

-- `self.items.get(previous, {}).get('emitted')`
abbrev pub was_emitted : String → List Turn → Bool
was_emitted key items = elim (find_turn key items) [ none ↦ false | some x ↦ x.emitted ]

abbrev pub previous_of : Turn → Option String
previous_of x = elim x.boundary [ none ↦ none | some b ↦ b.previous ]

abbrev pub is_free : List Turn → Option String → Bool
is_free items none = true
is_free items (some key) = was_emitted key items

abbrev pub is_completed : Turn → Bool
is_completed x = elim x.completion [ none ↦ false | some e ↦ true ]

-- The condition of `release`.
abbrev pub is_due : List Turn → Turn → Bool
is_due items x = is_completed x && not x.emitted && is_free items (previous_of x)

abbrev pub put_turn : Turn → List Turn → List Turn
put_turn y [] = []
put_turn y (x ∷ xs) = let rest = put_turn y xs in if x.key == y.key then y ∷ xs else x ∷ rest

abbrev pub completion_of : Turn → List String
completion_of x = elim x.completion [ none ↦ [] | some e ↦ e ∷ [] ]

abbrev pub emit : TurnLedger → Turn → TurnLedger
emit t x = record t {
  items = put_turn (record x { emitted = true }) t.items;
  ready = t.ready ++ completion_of x;
}

abbrev pub visit : TurnLedger → Option Turn → Bool × TurnLedger
visit t none = (false, t)
visit t (some x) = if is_due t.items x then (true, emit t x) else (false, t)

-- The `for` loop of `release`: whether it changed an item, and the ledger after it.
unfoldable pub release_pass : List String → TurnLedger → Bool × TurnLedger
release_pass [] t = (false, t)
release_pass (k ∷ ks) t =
    let here = visit t (find_turn k t.items) in
    let rest = release_pass ks here.1 in (here.0 || rest.0, rest.1)

abbrev pub keys : List Turn → List String
keys items = map (λ x. x.key) items

-- The `while` loop, on fuel. A round that changes something emits an item, so one round more than
-- there are items is enough.
unfoldable pub release_loop : ℕ → TurnLedger → TurnLedger
unfolding release_pass
release_loop zero t = t
release_loop (suc fuel) t =
    let pass = release_pass (keys t.items) t in
    let more = release_loop fuel pass.1 in if pass.0 then more else pass.1

unfoldable pub release : TurnLedger → TurnLedger
unfolding release_loop
release t = release_loop (suc (length t.items)) t

pub data Answer : Type 0 where
  duplicate_final : (key : String) → Answer
  final : (completion : String) → Answer
  ignored : Answer

abbrev pub pop : TurnLedger → List String → Answer × TurnLedger
pop t [] = (ignored, t)
pop t (e ∷ es) = (final e, record t { ready = es })

abbrev pub has_completion : Option Turn → Bool
has_completion none = false
has_completion (some x) = is_completed x

unfoldable pub complete : TurnLedger → String → String → Answer × TurnLedger
unfolding release change_turn
complete t key event =
    if has_completion (find_turn key t.items)
    then (duplicate_final key, t)
    else (let released = release (update t key λ x. record x { completion = some event }) in
        pop released released.ready)

unfoldable pub acknowledge : TurnLedger → String → TurnLedger
acknowledge t key = record t { delivered = key ∷ t.delivered }

abbrev pub is_waiting : List String → Turn → Bool
is_waiting delivered x = is_committed (some x) && not (contains x.key delivered)

unfoldable pub has_pending : TurnLedger → Bool
has_pending t = any (λ i. true) t.intents || any (is_waiting t.delivered) t.items

abbrev pub is_late : ℕ → ℕ → Turn → Bool
is_late now timeout x = elim x.boundary [ none ↦ false | some b ↦ ltb timeout (now - b.at) ]

unfoldable pub expired : TurnLedger → ℕ → ℕ → Bool
expired t timeout now =
    any (λ i. ltb timeout (now - i.at)) t.intents
    || any (λ x. is_waiting t.delivered x && is_late now timeout x) t.items
