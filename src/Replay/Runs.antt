-- ===== src/Replay/Runs.antt =====
-- Replays of many Events: what holds of their results, replays in parts, and the replay of a result
-- from its own data.
use ronro.Prelude.{
  ℕ, ◌+◌, String, ◌≡◌, refl, sym, ap, ◌∙◌, subst, some, List, [], ◌∷◌, ◌++◌, length, length-append,
  append_assoc, append-nil, fun_ext,
}
use ronro.Errors.{ok, ◌>>=◌, ◌>>◌, >>=-eq-ok, >>=_assoc, ok-injective}
use ronro.Domain.{State, Event, Evidence, Utterance}
use ronro.Domain.Schema.{Formats}
use ronro.Materializer.Apply.{initial_state, apply}
use ronro.EventStore.{EventStore, new_store, validate_append, append, append_events, from_events}
use ronro.Replay.{
  ReplayResult, apply_to_store, with_code, apply_event, apply_events, initial_result, replay_events,
}
use ronro.Replay.Equivalence.{accepted_by_both}
use ronro.Lifecycle.Frame.{frame_of, IsFramed, apply-IsAdvanced}
use ronro.Invariant.Apply.{apply-IsWellFormed, initial_state-IsWellFormed}
use ronro.Replay.Log.{store_of, IsReplayed, append_events-append, apply_event_lem}

-- A replay of a well-formed Session starts from its initial state.
pub initial_result-IsReplayed :
    (formats : Formats) (session_id : String) (evidence : List Evidence)
    (utterances : List Utterance)
    → IsReplayed formats (initial_result session_id evidence utterances)
unfolding initial_result
initial_result-IsReplayed formats session_id evidence utterances = record {
  well_formed = initial_state-IsWellFormed session_id evidence utterances;
  counted = unfold initial_state in refl;
  stored = unfold initial_state from_events append_events new_store in refl;
}

append-accepted :
    (formats : Formats) (store : EventStore) (e : Event) (revision : ℕ)
    → validate_append formats store e (some revision) ≡ ok tt
    → append formats store e (some revision) ≡ ok (record store { events = store.events ++ e ∷ [] })
unfolding append
append-accepted formats store e revision h =
    ap (λ q. q >> ok (record store { events = store.events ++ e ∷ [] })) h ∙ unfold ◌>>◌ in refl

append_events-accepted :
    (formats : Formats) (store : EventStore) (e : Event)
    → validate_append formats store e (some (length store.events)) ≡ ok tt
    → append_events formats store (e ∷ []) ≡ ok (record store { events = store.events ++ e ∷ [] })
unfolding append_events
append_events-accepted formats store e h =
    ap (λ q. q >>= λ after. ok after) (append-accepted formats store e (length store.events) h)
    ∙ unfold ◌>>=◌ in refl

-- The Event Store takes an Event that `apply` accepted.
stored_more :
    (formats : Formats) (r : ReplayResult) (e : Event) (next : State)
    → IsReplayed formats r
    → apply formats r.state e r.events ≡ ok next
    → from_events formats r.state.graph.session_id (r.events ++ e ∷ [])
      ≡ ok record { session_id = r.state.graph.session_id; events = r.events ++ e ∷ [] }
unfolding from_events
stored_more formats r e next inv done =
    let in_step = inv.well_formed.same_sequence ∙ inv.counted in
    let stored : append_events formats (new_store r.state.graph.session_id) r.events
        ≡ ok (store_of r) =
      unfold from_events in inv.stored in
    append_events-append formats (new_store r.state.graph.session_id) r.events e
    ∙ rw stored (
        unfold ◌>>=◌ in
        append_events-accepted formats (store_of r) e (
          subst (λ k. validate_append formats (store_of r) e (some k) ≡ ok tt) inv.counted
            (accepted_by_both formats (store_of r) r e refl refl in_step next done)))

-- An Event that is applied to a replayed result gives a replayed result: its state is well-formed,
-- its revision is the number of its Events, and the Event Store takes all of them again.
pub apply_event-IsReplayed :
    (formats : Formats) (r : ReplayResult) (e : Event) (r' : ReplayResult)
    → IsReplayed formats r
    → apply_event formats r e ≡ ok r'
    → IsReplayed formats r'
apply_event-IsReplayed formats r e r' inv h =
    let (next, done, end) =
      >>=-eq-ok (apply formats r.state e r.events) _ (sym (apply_event_lem formats r e inv) ∙ h) in
    let advanced = apply-IsAdvanced formats r.state e r.events next done in
    let same_session = ap (λ f. f.graph_session) advanced.framed in
    subst (IsReplayed formats) (ok-injective _ _ end) record {
      well_formed = apply-IsWellFormed formats r.state e r.events next inv.well_formed done;
      counted =
          advanced.revision ∙ ap (λ n. n + 1) inv.counted ∙ sym (length-append r.events (e ∷ []));
      stored = rw same_session (stored_more formats r e next inv done);
    }

apply_events-IsReplayed :
    (formats : Formats) (r : ReplayResult) (es : List Event) (r' : ReplayResult)
    → IsReplayed formats r
    → apply_events formats r es ≡ ok r'
    → IsReplayed formats r'
unfolding apply_events
apply_events-IsReplayed formats r [] r' inv h = subst (IsReplayed formats) (ok-injective _ _ h) inv
apply_events-IsReplayed formats r (e ∷ es) r' inv h =
    let (next, done, rest) = >>=-eq-ok (apply_event formats r e) _ h in
    apply_events-IsReplayed formats next es r' (apply_event-IsReplayed formats r e next inv done)
      rest

-- Whatever Events are replayed from the initial state: if the replay returns, the state is
-- well-formed, its revision is the number of the Events of the result, and the Event Store takes
-- all of these again.
pub replay_events-IsReplayed :
    (formats : Formats) (session_id : String) (evidence : List Evidence)
    (utterances : List Utterance) (events : List Event) (r : ReplayResult)
    → replay_events formats session_id evidence utterances events ≡ ok r
    → IsReplayed formats r
unfolding replay_events
replay_events-IsReplayed formats session_id evidence utterances events r h =
    apply_events-IsReplayed formats (initial_result session_id evidence utterances) events r
      (initial_result-IsReplayed formats session_id evidence utterances) h

-- A replay in two parts: what `apply_event` does later is what a replay of all does.
pub apply_events-append :
    (formats : Formats) (r : ReplayResult) (first second : List Event)
    → apply_events formats r (first ++ second)
      ≡ (apply_events formats r first >>= λ middle. apply_events formats middle second)
unfolding apply_events
apply_events-append formats r [] second = unfold ◌>>=◌ in refl
apply_events-append formats r (e ∷ es) second =
    ap (λ f. apply_event formats r e >>= f)
      (fun_ext (λ next. apply_events-append formats next es second))
    ∙ sym (
        >>=_assoc (apply_event formats r e) (λ next. apply_events formats next es)
          (λ middle. apply_events formats middle second))

pub apply_event-events :
    (formats : Formats) (r : ReplayResult) (e : Event) (r' : ReplayResult)
    → apply_event formats r e ≡ ok r'
    → r'.events ≡ r.events ++ e ∷ []
unfolding apply_event
apply_event-events formats r e r' h =
    let (store, stored, rest) =
      >>=-eq-ok (from_events formats r.state.graph.session_id r.events) _ h in
    let (next, done, end) = >>=-eq-ok (with_code (apply_to_store formats store r e)) _ rest in
    sym (ap (λ x. x.events) (ok-injective _ _ end))

-- The Events of the result are the Events that were given, in their order, after those it had.
pub apply_events-events :
    (formats : Formats) (r : ReplayResult) (es : List Event) (r' : ReplayResult)
    → apply_events formats r es ≡ ok r'
    → r'.events ≡ r.events ++ es
unfolding apply_events
apply_events-events formats r [] r' h =
    sym (ap (λ x. x.events) (ok-injective _ _ h)) ∙ sym (append-nil r.events)
apply_events-events formats r (e ∷ es) r' h =
    let (next, done, rest) = >>=-eq-ok (apply_event formats r e) _ h in
    apply_events-events formats next es r' rest
    ∙ ap (λ xs. xs ++ es) (apply_event-events formats r e next done)
    ∙ append_assoc r.events (e ∷ []) es

apply_event-Frames :
    (formats : Formats) (r : ReplayResult) (e : Event) (r' : ReplayResult)
    → IsReplayed formats r
    → apply_event formats r e ≡ ok r'
    → IsFramed r.state r'.state
apply_event-Frames formats r e r' inv h =
    let (next, done, end) =
      >>=-eq-ok (apply formats r.state e r.events) _ (sym (apply_event_lem formats r e inv) ∙ h) in
    ap (λ x. frame_of x.state) (sym (ok-injective _ _ end))
    ∙ (apply-IsAdvanced formats r.state e r.events next done).framed

-- The Evidence, the Utterances and the ids of the Session are those that the replay began with.
apply_events-Frames :
    (formats : Formats) (r : ReplayResult) (es : List Event) (r' : ReplayResult)
    → IsReplayed formats r
    → apply_events formats r es ≡ ok r'
    → IsFramed r.state r'.state
unfolding apply_events
apply_events-Frames formats r [] r' inv h = ap (λ x. frame_of x.state) (sym (ok-injective _ _ h))
apply_events-Frames formats r (e ∷ es) r' inv h =
    let (next, done, rest) = >>=-eq-ok (apply_event formats r e) _ h in
    apply_events-Frames formats next es r' (apply_event-IsReplayed formats r e next inv done) rest
    ∙ apply_event-Frames formats r e next inv done

replay_same :
    (formats : Formats) {id id' : String} {evidence evidence' : List Evidence}
    {utterances utterances' : List Utterance} {events events' : List Event}
    → id ≡ id'
    → evidence ≡ evidence'
    → utterances ≡ utterances'
    → events ≡ events'
    → replay_events formats id evidence utterances events
      ≡ replay_events formats id' evidence' utterances' events'
replay_same formats p q r t = rw (p, q, r, t) refl

-- A result is rebuilt from its own data: a replay of the Events that it holds, with its own Session,
-- Evidence and Utterances, gives the same result again.
pub replay_events-again :
    (formats : Formats) (session_id : String) (evidence : List Evidence)
    (utterances : List Utterance) (events : List Event) (r : ReplayResult)
    → replay_events formats session_id evidence utterances events ≡ ok r
    → replay_events formats r.state.session.id r.state.evidence r.state.utterances r.events ≡ ok r
unfolding replay_events initial_result
replay_events-again formats session_id evidence utterances events r h =
    let start = initial_result session_id evidence utterances in
    let framed =
      apply_events-Frames formats start events r
        (initial_result-IsReplayed formats session_id evidence utterances) h in
    let same_id : r.state.session.id ≡ session_id = ap (λ f. f.session_id) framed in
    let same_evidence : r.state.evidence ≡ evidence = ap (λ f. f.evidence) framed in
    let same_utterances : r.state.utterances ≡ utterances = ap (λ f. f.utterances) framed in
    replay_same formats same_id same_evidence same_utterances
      (apply_events-events formats start events r h)
    ∙ h
