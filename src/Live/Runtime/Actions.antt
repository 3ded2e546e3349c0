-- ===== src/Live/Runtime/Actions.antt =====
-- What the actions of other threads do to the result: they extend it.
use ronro.Prelude.{
  ◌+◌, ◌≤◌, ◌≡◌, refl, sym, ap, ◌∙◌, List, [], ◌∷◌, ◌++◌, append-nil, append_assoc, arith,
}
use ronro.Errors.{Result, ok, err, >>=-eq-ok, ok-injective}
use ronro.Errors.Ensures.{Ensures, Ensures-ok, Ensures-bind, Ensures-raise_if}
use ronro.Domain.{Event, Evidence, Utterance}
use ronro.Domain.Schema.{Formats}
use ronro.Materializer.Apply.{apply}
use ronro.Replay.{ReplayResult, apply_event}
use ronro.Replay.Log.{IsReplayed, apply_event_lem}
use ronro.Replay.Runs.{apply_event-IsReplayed, apply_event-events}
use ronro.Lifecycle.Frame.{apply-IsAdvanced}
use ronro.Commands.{handle}
use ronro.Commands.Handling.{handle-IsHandled}
use ronro.Live.Queue.{retry}
use ronro.Live.Runtime.{
  Runtime, Action, registers, commands, retries, closes, close_runtime, after, act, acts,
  register_utterance, execute_command, retry_item, with_utterance,
}

-- A later result: it is one of a replay, its revision is no smaller, and with the same revision it
-- has the same Graph and the same Events; the Events of before are its first ones.
pub record Extends (formats : Formats) (r t : ReplayResult) : Type 0 where
  pub replayed : IsReplayed formats t
  pub grows : r.state.graph.revision ≤ t.state.graph.revision
  pub graph : r.state.graph.revision ≡ t.state.graph.revision → t.state.graph ≡ r.state.graph
  pub events : r.state.graph.revision ≡ t.state.graph.revision → t.events ≡ r.events
  pub kept : (more : List Event) × (t.events ≡ r.events ++ more)

module _ (formats : Formats) where
  pub Extends-refl : (r : ReplayResult) → IsReplayed formats r → Extends formats r r
  Extends-refl r inv = record {
    replayed = inv;
    grows = omega arith;
    graph = λ _. refl;
    events = λ _. refl;
    kept = ([], sym (append-nil r.events));
  }

  pub Extends-trans :
      (r s t : ReplayResult) → Extends formats r s → Extends formats s t → Extends formats r t
  Extends-trans r s t a b = record {
    replayed = b.replayed;
    grows = let p = a.grows in let q = b.grows in omega arith;
    graph =
        λ e. let p = a.grows in let q = b.grows in b.graph (omega arith) ∙ a.graph (omega arith);
    events =
        λ e. let p = a.grows in let q = b.grows in b.events (omega arith) ∙ a.events (omega arith);
    kept =
        let (more, first) = a.kept in
        let (rest, second) = b.kept in
        (more ++ rest, second ∙ ap (λ es. es ++ rest) first ∙ append_assoc r.events more rest);
  }

  pub apply_event-advances :
      (r : ReplayResult) (e : Event) (t : ReplayResult)
      → IsReplayed formats r
      → apply_event formats r e ≡ ok t
      → t.state.graph.revision ≡ r.state.graph.revision + 1
  apply_event-advances r e t inv h =
      let (next, done, end) =
        >>=-eq-ok (apply formats r.state e r.events) _
          (sym (apply_event_lem formats r e inv) ∙ h) in
      ap (λ x. x.state.graph.revision) (sym (ok-injective _ _ end))
      ∙ (apply-IsAdvanced formats r.state e r.events next done).revision

  pub apply_event-Extends :
      (r : ReplayResult) (e : Event) (t : ReplayResult)
      → IsReplayed formats r
      → apply_event formats r e ≡ ok t
      → Extends formats r t
  apply_event-Extends r e t inv h =
      let next = apply_event-advances r e t inv h in
      record {
        replayed = apply_event-IsReplayed formats r e t inv h;
        grows = omega arith;
        graph = λ same. absurd (omega arith);
        events = λ same. absurd (omega arith);
        kept = (e ∷ [], apply_event-events formats r e t h);
      }

  with_utterance-Extends :
      (r : ReplayResult) (ev : Evidence) (u : Utterance)
      → IsReplayed formats r
      → Extends formats r (with_utterance r ev u)
  with_utterance-Extends r ev u inv = record {
    replayed = record {
      well_formed = record {
        same_session = inv.well_formed.same_session;
        same_revision = inv.well_formed.same_revision;
        same_sequence = inv.well_formed.same_sequence;
        nodes_ok = inv.well_formed.nodes_ok;
        distinct_ids = inv.well_formed.distinct_ids;
        edges_ok = inv.well_formed.edges_ok;
        acyclic = inv.well_formed.acyclic;
        topic = inv.well_formed.topic;
      };
      counted = inv.counted;
      stored = inv.stored;
    };
    grows = omega arith;
    graph = λ _. refl;
    events = λ _. refl;
    kept = ([], sym (append-nil r.events));
  }

  module _ (rt : Runtime) (inv : IsReplayed formats rt.result) where
    abbrev pub Later : Runtime → Type 0
    Later next = Extends formats rt.result next.result

    after-Later : (r : Result Runtime) → Ensures Later r → Later (after rt r)
    after-Later (ok next) e = e.at next refl
    after-Later (err c) e = Extends-refl rt.result inv

    pub act-Later : (a : Action) → Later (act formats rt a)
    unfolding act register_utterance execute_command retry_item
    act-Later (registers ev u at now) = after-Later _ (
        Ensures-raise_if _ _ _ λ _. Ensures-raise_if _ _ _ λ _. Ensures-raise_if _ _ _ λ _.
          Ensures-raise_if _ _ _ λ _.
            Ensures-bind _ _ λ queue _. Ensures-ok _ (with_utterance-Extends rt.result ev u inv))
    act-Later (commands c) = after-Later _ (
        Ensures-bind (handle formats rt.result c) _ λ done handled.
          let h = handle-IsHandled formats rt.result c done handled in
          Ensures-ok _ (apply_event-Extends rt.result done.event done.result inv h.applied))
    act-Later (retries id now) = after-Later _ (
        Ensures-bind (retry rt.queue id now) _ λ queue _. Ensures-ok _ (Extends-refl rt.result inv))
    act-Later closes = unfold close_runtime in Extends-refl rt.result inv

  pub acts-Extends :
      (rt : Runtime) (during : List Action)
      → IsReplayed formats rt.result
      → Extends formats rt.result (acts formats rt during).result
  unfolding acts
  acts-Extends rt [] inv = Extends-refl rt.result inv
  acts-Extends rt (a ∷ rest) inv =
      let first = act-Later rt inv a in
      Extends-trans rt.result (act formats rt a).result _ first
        (acts-Extends (act formats rt a) rest first.replayed)
