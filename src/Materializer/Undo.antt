-- ===== src/Materializer/Undo.antt =====
-- prototype/materializer.py: `_undo_last_correction`.
use ronro.Prelude.{String, not, Option, none, some, List, [], ◌∷◌, ◌==◌, if◌then◌else◌}
use ronro.Errors.{Result, ok, err, unsupported_correction, raise_if, ◌>>=◌, ◌>>◌}
use ronro.Domain.{State, Event, Payload, is_human}
use ronro.Materializer.Nodes.{require_node, change_node, touch_node}
use ronro.Materializer.Detection.{node_id, relabel}

-- The label that one Event of the history gave to the Node.
abbrev pub label_given : String → Event → Option String
label_given id e = elim e.payload [
  | Payload.rename_node renamed label ↦ if renamed == id then some label else none
  | Payload.node_detected _ label _ ↦
      if node_id e.session_id e.event_id == id then some label else none
  | _ ↦ none
]

-- The latest label among `reversed(history[:-1])`.
unfoldable pub previous_label : String → List Event → Option String
unfolding node_id
previous_label id [] = none
previous_label id (e ∷ es) = elim (previous_label id es) [
  | some l ↦ some l
  | none ↦ label_given id e
]

-- `history[:-1]` and `history[-1]`.
unfoldable pub split_last {ℓ} : {A : Type ℓ} → List A → Option (List A × A)
split_last [] = none
split_last (e ∷ es) = elim (split_last es) [
  | none ↦ some ([], e)
  | some (init, last) ↦ some (e ∷ init, last)
]

abbrev pub or_unsupported {ℓ} : {A : Type ℓ} → Option A → Result A
or_unsupported none = err unsupported_correction
or_unsupported (some a) = ok a

-- The Node of the latest Event, if that is a Human rename.
abbrev pub renamed_by : Event → Option String
renamed_by e = elim e.payload [
  | Payload.rename_node id _ ↦ if is_human e.actor then some id else none
  | _ ↦ none
]

unfoldable pub undo_last_correction : State → Event → List Event → String → Result State
unfolding split_last previous_label require_node relabel touch_node
undo_last_correction s e history target_event_id = do
  (earlier, target) ← or_unsupported (split_last history)
  raise_if (not (target.event_id == target_event_id)) unsupported_correction
  id ← or_unsupported (renamed_by target)
  node ← require_node s id
  label ← or_unsupported (previous_label id earlier)
  node' ← relabel node label
  ok (change_node s (touch_node node' e))
