-- ===== src/Replay/Order.antt =====
-- What a log of Events that `ReplayRunner` accepts looks like, said without its checks.
use ronro.Prelude.{
  ℕ, ◌+◌, String, Bool, ◌≡◌, refl, sym, ap, ◌∙◌, subst, true, false, not, ◌&&◌, ◌||◌, Option, none,
  some, List, [], ◌∷◌, ◌++◌, ◌==◌, nat_eq, length, length-append, contains, distinct,
  distinct-append, arith, eq_iff, Bool-cases, inl, inr,
}
use ronro.Errors.{ok, >>=-eq-ok, ok-injective}
use ronro.Domain.{Event, Evidence, Utterance, is_human}
use ronro.Domain.Schema.{Formats}
use ronro.Materializer.Apply.{apply, has_event, initial_state}
use ronro.Invariant.Apply.{IsEnveloped, apply-IsApplied}
use ronro.Lifecycle.Frame.{apply-IsAdvanced}
use ronro.Replay.{ReplayResult, apply_event, apply_events, initial_result, replay_events}
use ronro.Replay.Log.{IsReplayed, apply_event_lem}
use ronro.Replay.Runs.{
  initial_result-IsReplayed, apply_event-IsReplayed, apply_event-events, apply_events-events,
}

abbrev expects : ℕ → Option ℕ → Bool
expects n none = false
expects n (some k) = nat_eq k n

-- The Event has the place after `n` others, and a Human sent it knowing all of these.
abbrev is_placed : String → ℕ → Event → Bool
is_placed session n e =
    (e.session_id == session)
    && nat_eq e.sequence (n + 1)
    && (not (is_human e.actor) || expects n e.expected_revision)

abbrev pub is_placed_from : String → ℕ → List Event → Bool
is_placed_from session n [] = true
is_placed_from session n (e ∷ es) = is_placed session n e && is_placed_from session (n + 1) es

abbrev pub event_ids : List Event → List String
event_ids [] = []
event_ids (e ∷ es) = e.event_id ∷ event_ids es

-- The Events of a Session in their places, and no two of them with the same id.
pub record IsLog (session : String) (es : List Event) : Type 0 where
  pub placed : is_placed_from session 0 es ≡ true
  pub ids : distinct (event_ids es) ≡ true

event_ids-append :
    (es : List Event) (e : Event) → event_ids (es ++ e ∷ []) ≡ event_ids es ++ e.event_id ∷ []
event_ids-append [] e = refl
event_ids-append (x ∷ es) e = ap (λ xs. x.event_id ∷ xs) (event_ids-append es e)

contains-event_ids : (id : String) (es : List Event) → contains id (event_ids es) ≡ has_event id es
contains-event_ids id [] = refl
contains-event_ids id (e ∷ es) = ground (arith, contains-event_ids id es)

module _ (formats : Formats) where
  apply_event-IsEnveloped :
      (r : ReplayResult) (e : Event) (r' : ReplayResult)
      → IsReplayed formats r
      → apply_event formats r e ≡ ok r'
      → IsEnveloped r.state e r.events
  apply_event-IsEnveloped r e r' inv h =
      let (next, done, end) =
        >>=-eq-ok (apply formats r.state e r.events) _
          (sym (apply_event_lem formats r e inv) ∙ h) in
      (apply-IsApplied formats r.state e r.events next done).enveloped

  placed :
      (r : ReplayResult) (e : Event)
      → IsReplayed formats r
      → IsEnveloped r.state e r.events
      → is_placed r.state.graph.session_id (length r.events) e ≡ true
  placed r e inv env =
      let in_step = inv.well_formed.same_sequence ∙ inv.counted in
      elim (Bool-cases (is_human e.actor)) [
        | inl human ↦
            let sent = env.revision human ∙ ap some inv.counted in
            rw (env.session, env.sequence, in_step, sent)
              (ground (arith, eq_iff r.state.graph.session_id r.state.graph.session_id))
        | inr other ↦
            rw (env.session, env.sequence, in_step, other)
              (ground (arith, eq_iff r.state.graph.session_id r.state.graph.session_id))
      ]

  same_session :
      (r : ReplayResult) (e : Event) (r' : ReplayResult)
      → IsReplayed formats r
      → apply_event formats r e ≡ ok r'
      → r'.state.graph.session_id ≡ r.state.graph.session_id
  same_session r e r' inv h =
      let (next, done, end) =
        >>=-eq-ok (apply formats r.state e r.events) _
          (sym (apply_event_lem formats r e inv) ∙ h) in
      ap (λ x. x.state.graph.session_id) (sym (ok-injective _ _ end))
      ∙ ap (λ f. f.graph_session) (apply-IsAdvanced formats r.state e r.events next done).framed

  apply_events-placed :
      (r : ReplayResult) (es : List Event) (r' : ReplayResult)
      → IsReplayed formats r
      → apply_events formats r es ≡ ok r'
      → is_placed_from r.state.graph.session_id (length r.events) es ≡ true
  unfolding apply_events
  apply_events-placed r [] r' inv h = refl
  apply_events-placed r (e ∷ es) r' inv h =
      let (next, done, rest) = >>=-eq-ok (apply_event formats r e) _ h in
      let first = placed r e inv (apply_event-IsEnveloped r e next inv done) in
      let counted : length next.events ≡ length r.events + 1 =
        ap length (apply_event-events formats r e next done) ∙ length-append r.events (e ∷ []) in
      let later =
        apply_events-placed next es r' (apply_event-IsReplayed formats r e next inv done) rest in
      let moved : is_placed_from r.state.graph.session_id (length r.events + 1) es ≡ true =
        rw (← same_session r e next inv done, ← counted) later in
      rw (first, moved) refl

  apply_events-ids :
      (r : ReplayResult) (es : List Event) (r' : ReplayResult)
      → IsReplayed formats r
      → distinct (event_ids r.events) ≡ true
      → apply_events formats r es ≡ ok r'
      → distinct (event_ids r'.events) ≡ true
  unfolding apply_events
  apply_events-ids r [] r' inv d h =
      subst (λ x. distinct (event_ids x.events) ≡ true) (ok-injective _ _ h) d
  apply_events-ids r (e ∷ es) r' inv d h =
      let (next, done, rest) = >>=-eq-ok (apply_event formats r e) _ h in
      let fresh =
        contains-event_ids e.event_id r.events
        ∙ (apply_event-IsEnveloped r e next inv done).new_id in
      let more : distinct (event_ids next.events) ≡ true =
        rw (apply_event-events formats r e next done, event_ids-append r.events e)
          (distinct-append (event_ids r.events) e.event_id d fresh) in
      apply_events-ids next es r' (apply_event-IsReplayed formats r e next inv done) more rest

-- Whatever Events are replayed: if the replay returns, its result has exactly these Events; they are
-- all of the Session and numbered from 1 without a gap, no two have the same id, and each that a Human
-- sent expects the revision which is the number of the Events before it.
pub replay_events-IsLog :
    (formats : Formats) (session_id : String) (evidence : List Evidence)
    (utterances : List Utterance) (events : List Event) (r : ReplayResult)
    → replay_events formats session_id evidence utterances events ≡ ok r
    → (r.events ≡ events) × IsLog session_id events
unfolding replay_events initial_result initial_state
replay_events-IsLog formats session_id evidence utterances events r h =
    let start = initial_result session_id evidence utterances in
    let replayed = initial_result-IsReplayed formats session_id evidence utterances in
    let same = apply_events-events formats start events r h in
    (
      same,
      record {
        placed = apply_events-placed formats start events r replayed h;
        ids =
            subst (λ es. distinct (event_ids es) ≡ true) same
              (apply_events-ids formats start events r replayed refl h);
      },
    )
