-- ===== src/Live/Turns.antt =====
-- `TurnLedger` of prototype/live_turns.py: which samples each item of the transcription provider owns,
-- and in which order completed items are given out. A frame of PCM is the list of the absolute values
-- of its samples. `items` is a dict in the order of insertion. Times are numbers of ticks and ranges
-- numbers of samples; the divisions by the sample rate and `context`, a report, are not modelled.
pub mod Observing
pub mod Release
pub mod Runs
pub mod Finals
use ronro.Prelude.{
  ℕ, suc, ◌+◌, ◌-◌, ◌*◌, String, Bool, true, false, not, ◌&&◌, ◌||◌, Option, none, some, List, [],
  ◌∷◌, ◌++◌, ◌==◌, map, any, contains, length, ltb, leb, if◌then◌else◌,
}

pub record Frame : Type 0 where
  pub start : ℕ
  pub end : ℕ
  pub speech : Bool

-- An element of `frame_levels`.
pub record Level : Type 0 where
  pub squared : ℕ
  pub peak : ℕ
  pub count : ℕ

pub record Intent : Type 0 where
  pub sequence : ℕ
  pub reason : String
  pub start : ℕ
  pub end : ℕ
  pub at : ℕ
  pub event_id : Option String

-- What an item has from its commit on. `range` is none where `start` and `end` are None.
pub record Boundary : Type 0 where
  pub previous : Option String
  pub boundary_event_id : Option String
  pub at : ℕ
  pub range : Option (ℕ × ℕ)
  pub reason : String
  pub sequence : Option ℕ

pub record Turn : Type 0 where
  pub key : String
  pub vad_start : Option ℕ
  pub vad_end : Option ℕ
  pub vad_event_id : Option String
  pub delta_count : ℕ
  pub boundary : Option Boundary
  pub completion : Option String
  pub emitted : Bool

pub record TurnLedger : Type 0 where
  pub vad_reason : String
  pub samples : ℕ
  pub allocated : ℕ
  pub frames : List Frame
  pub frame_levels : List Level
  pub items : List Turn
  pub intents : List Intent
  pub ready : List String
  pub delivered : List String

unfoldable pub new_ledger : String → TurnLedger
new_ledger vad_reason = record {
  vad_reason = vad_reason;
  samples = 0;
  allocated = 0;
  frames = [];
  frame_levels = [];
  items = [];
  intents = [];
  ready = [];
  delivered = [];
}

abbrev pub larger : ℕ → ℕ → ℕ
larger a b = if ltb a b then b else a

abbrev pub peak_of : List ℕ → ℕ
peak_of [] = 0
peak_of (s ∷ ss) = let rest = peak_of ss in larger s rest

abbrev pub squares : List ℕ → ℕ
squares [] = 0
squares (s ∷ ss) = s * s + squares ss

unfoldable pub append : TurnLedger → List ℕ → TurnLedger
append t pcm = record t {
  samples = t.samples + length pcm;
  frames =
      t.frames
      ++ record { start = t.samples; end = t.samples + length pcm; speech = ltb 8 (peak_of pcm) }
        ∷ [];
  frame_levels =
      t.frame_levels
      ++ record { squared = squares pcm; peak = peak_of pcm; count = length pcm } ∷ [];
}

unfoldable pub meaningful : TurnLedger → ℕ → ℕ → Bool
meaningful t start end = any (λ f. ltb f.start end && ltb start f.end && f.speech) t.frames

abbrev pub last_end : ℕ → List Intent → ℕ
last_end n [] = n
last_end n (i ∷ is) = let rest = last_end n is in larger i.end rest

unfoldable pub cursor : TurnLedger → ℕ
cursor t = last_end t.allocated t.intents

unfoldable pub request : TurnLedger → ℕ → String → ℕ → Option String → TurnLedger
unfolding cursor
request t sequence reason now event_id = record t {
  intents =
      t.intents
      ++ record {
        sequence = sequence;
        reason = reason;
        start = cursor t;
        end = t.samples;
        at = now;
        event_id = event_id;
      }
        ∷ [];
}

abbrev pub is_vad : String → Bool
is_vad reason = reason == "server_vad" || reason == "semantic_vad"

abbrev pub covers : ℕ → Intent → Option Boundary → Bool
covers allocated i none = false
covers allocated i (some b) = elim b.range [
  | none ↦ false
  | some (start, end) ↦
      is_vad b.reason
      && leb start i.start
      && ltb i.start end
      && (leb i.end end || leb allocated end)
]

abbrev pub names_other : Option String → Option String → Bool
names_other none _ = false
names_other (some id) none = true
names_other (some id) (some own) = not (id == own)

abbrev pub reconcile : TurnLedger → Option String → List Intent → Bool × TurnLedger
reconcile t event_id (i ∷ []) =
    if names_other event_id i.event_id
      || not (any (λ x. covers t.allocated i x.boundary) t.items)
      || meaningful t t.allocated i.end
    then (false, t)
    else (true, record t { intents = [] })
reconcile t event_id _ = (false, t)

unfoldable pub reconcile_empty_commit : TurnLedger → Option String → Bool × TurnLedger
unfolding meaningful
reconcile_empty_commit t event_id = reconcile t event_id t.intents

abbrev pub new_turn : String → Turn
new_turn key = record {
  key = key;
  vad_start = none;
  vad_end = none;
  vad_event_id = none;
  delta_count = 0;
  boundary = none;
  completion = none;
  emitted = false;
}

abbrev pub find_turn : String → List Turn → Option Turn
find_turn key [] = none
find_turn key (x ∷ xs) = let rest = find_turn key xs in if x.key == key then some x else rest

-- `self.items.setdefault(key, {})`, changed by `f`.
unfoldable pub change_turn : (Turn → Turn) → String → List Turn → List Turn
change_turn f key [] = f (new_turn key) ∷ []
change_turn f key (x ∷ xs) =
    let rest = change_turn f key xs in if x.key == key then f x ∷ xs else x ∷ rest
