-- ===== src/Commands/Handling.antt =====
-- What `HumanCommandHandler.handle` and `CommandSession.execute` do with a Command, as a whole.
use ronro.Prelude.{
  ℕ, ◌+◌, String, ◌≡◌, refl, sym, ap, ◌∙◌, subst, ◌⊎◌, inl, inr, Bool, true, false, not, Option,
  none, some, [], ◌∷◌, ◌++◌, arith,
}
use ronro.Errors.{
  Result, Code, ok, err, raise_if, ◌>>◌, >>=-eq-ok, >>-eq-ok, raise_if-eq-ok, ok-injective,
}
use ronro.Errors.Returns.{Returns, returned, Returns-bind, Returns-value}
use ronro.Domain.{Actor, Event}
use ronro.Domain.Schema.{Formats, valid_event, validate_event}
use ronro.Materializer.Apply.{has_event, misses_evidence, apply}
use ronro.Replay.{ReplayResult, apply_event}
use ronro.Replay.Log.{IsReplayed, apply_event_lem}
use ronro.Replay.Runs.{apply_event-IsReplayed, apply_event-events}
use ronro.Lifecycle.Frame.{apply-IsAdvanced}
use ronro.Commands.{
  Command, CommandResult, command_payload, build_event, handle, execute, require_text, revision_is,
  is_supported,
}
use ronro.Commands.Guards.{is_single, command_payload-Accepts}
use ronro.Invariant.Apply.{IsEnveloped, validate_envelope_iff}

-- What is in an Event that the handler built.
pub record IsBuilt (r : ReplayResult) (c : Command) (at : String) (e : Event) : Type 0 where
  pub session : e.session_id ≡ r.state.graph.session_id
  pub sequence : e.sequence ≡ r.state.graph.last_event_sequence + 1
  pub revision : e.expected_revision ≡ some r.state.graph.revision
  pub actor : e.actor ≡ Actor.human
  pub evidence : e.source_evidence_ids ≡ c.source_evidence_ids
  pub time : e.occurred_at ≡ at
  pub payload : command_payload r c.command_type ≡ ok e.payload

pub build_event-IsBuilt :
    (r : ReplayResult) (c : Command) (at : String) (e : Event)
    → build_event r c at ≡ ok e
    → IsBuilt r c at e
unfolding build_event
build_event-IsBuilt r c at e h =
    let (p, chosen, built) = >>=-eq-ok (command_payload r c.command_type) _ h in
    subst (IsBuilt r c at) (ok-injective _ _ built) record {
      session = refl;
      sequence = refl;
      revision = refl;
      actor = refl;
      evidence = refl;
      time = refl;
      payload = chosen;
    }

-- Of the checks on the envelope only two are left to fail: the id may be taken, and the Evidence
-- that the Command names may be missing.
build_event-IsEnveloped :
    (r : ReplayResult) (c : Command) (at : String) (e : Event)
    → IsBuilt r c at e
    → has_event e.event_id r.events ≡ false
    → misses_evidence r.state.evidence e.source_evidence_ids ≡ false
    → IsEnveloped r.state e r.events
build_event-IsEnveloped r c at e built new_id evidence = record {
  session = built.session;
  new_id = new_id;
  sequence = built.sequence;
  revision = λ _. built.revision;
  evidence = evidence;
}

validate_event-ok :
    (formats : Formats) (e : Event)
    → valid_event formats e ≡ true
    → validate_event formats e ≡ ok tt
unfolding validate_event raise_if
validate_event-ok formats e h = rw h refl

Returns-then {ℓ} :
    {A : Type ℓ} (m : Result (Unit {0})) (k : Result A) → m ≡ ok tt → Returns k → Returns (m >> k)
unfolding ◌>>◌
Returns-then m k h r = rw h r

built-applies :
    (formats : Formats) (r : ReplayResult) (c : Command) (at : String) (e : Event)
    → IsReplayed formats r
    → IsBuilt r c at e
    → is_single c.command_type ≡ true
    → valid_event formats e ≡ true
    → has_event e.event_id r.events ≡ false
    → misses_evidence r.state.evidence e.source_evidence_ids ≡ false
    → Returns (apply formats r.state e r.events)
unfolding apply
built-applies formats r c at e inv built single valid new_id evidence =
    let enveloped = build_event-IsEnveloped r c at e built new_id evidence in
    let (next, done) = Returns-value (
      (command_payload-Accepts r inv.well_formed e c.command_type single).at e.payload
        built.payload) in
    Returns-then _ _ (validate_event-ok formats e valid) (
      Returns-then _ _ ((validate_envelope_iff r.state e r.events).1 enveloped)
        (Returns-bind _ next _ done (returned _)))

-- A Command on one Node whose guards let it pass (`build_event` returns an Event) is never refused
-- later: if the Event meets the schema, its id is new and its Evidence is there, `apply_event`
-- returns. The Materializer's guards on this Node refuse nothing that the handler's let pass.
pub apply_event-Returns :
    (formats : Formats) (r : ReplayResult) (c : Command) (at : String) (e : Event)
    → IsReplayed formats r
    → build_event r c at ≡ ok e
    → is_single c.command_type ≡ true
    → valid_event formats e ≡ true
    → has_event e.event_id r.events ≡ false
    → misses_evidence r.state.evidence c.source_evidence_ids ≡ false
    → Returns (apply_event formats r e)
apply_event-Returns formats r c at e inv built single valid new_id evidence =
    let fields = build_event-IsBuilt r c at e built in
    let (next, done) = Returns-value (
      built-applies formats r c at e inv fields single valid new_id (
        subst (λ es. misses_evidence r.state.evidence es ≡ false) (sym fields.evidence)
          evidence)) in
    subst Returns (sym (apply_event_lem formats r e inv)) (Returns-bind _ next _ done (returned _))

not-not : (b : Bool) → not b ≡ false → b ≡ true
not-not true h = refl
not-not false h = sym h

-- What `handle` has done when it returns.
pub record IsHandled (formats : Formats) (r : ReplayResult) (c : Command) (done : CommandResult)
    : Type 0 where
  pub revision : revision_is r.state.graph.revision c.expected_revision ≡ true
  pub at : String
  pub time : require_text c.occurred_at ≡ ok at
  pub built : IsBuilt r c at done.event
  pub applied : apply_event formats r done.event ≡ ok done.result

pub handle-IsHandled :
    (formats : Formats) (r : ReplayResult) (c : Command) (done : CommandResult)
    → handle formats r c ≡ ok done
    → IsHandled formats r c done
unfolding handle
handle-IsHandled formats r c done h =
    let (_, h₁) = >>-eq-ok (raise_if (not (is_supported c.command_type)) _) _ h in
    let (same, h₂) =
      >>-eq-ok (raise_if (not (revision_is r.state.graph.revision c.expected_revision)) _) _ h₁ in
    let (at, time, h₃) = >>=-eq-ok (require_text c.occurred_at) _ h₂ in
    let (e, built, h₄) = >>=-eq-ok (build_event r c at) _ h₃ in
    let (next, applied, end) = >>=-eq-ok (apply_event formats r e) _ h₄ in
    subst (IsHandled formats r c) (ok-injective _ _ end) record {
      revision = not-not _ (raise_if-eq-ok _ _ same);
      at = at;
      time = time;
      built = build_event-IsBuilt r c at e built;
      applied = applied;
    }

-- What `execute` has done with a Command that it did not refuse.
pub record IsStep (formats : Formats) (r : ReplayResult) (c : Command) (done : CommandResult)
    (after : ReplayResult) : Type 0 where
  pub expected : c.expected_revision ≡ some r.state.graph.revision
  pub at : String
  pub time : require_text c.occurred_at ≡ ok at
  pub built : IsBuilt r c at done.event
  pub held : after ≡ done.result
  pub applied : apply formats r.state done.event r.events ≡ ok after.state
  pub events : after.events ≡ r.events ++ done.event ∷ []
  pub revision : after.state.graph.revision ≡ r.state.graph.revision + 1
  pub replayed : IsReplayed formats after

abbrev pub IsExecuted :
    Formats → ReplayResult → Command → Result CommandResult → ReplayResult → Type 0
IsExecuted formats r c answer after =
    ((code : Code) × (answer ≡ err code) × (after ≡ r))
    ⊎ ((done : CommandResult) × (answer ≡ ok done) × IsStep formats r c done after)

revision_is-eq : (n : ℕ) (o : Option ℕ) → revision_is n o ≡ true → o ≡ some n
revision_is-eq n none h = absurd (cc h)
revision_is-eq n (some k) h = ground arith

applied_state :
    (formats : Formats) (r : ReplayResult) (e : Event) (r' : ReplayResult)
    → IsReplayed formats r
    → apply_event formats r e ≡ ok r'
    → apply formats r.state e r.events ≡ ok r'.state
applied_state formats r e r' inv h =
    let (next, done, end) =
      >>=-eq-ok (apply formats r.state e r.events) _ (sym (apply_event_lem formats r e inv) ∙ h) in
    done ∙ ap (λ x. ok x.state) (ok-injective _ _ end)

handled-IsStep :
    (formats : Formats) (r : ReplayResult) (c : Command) (done : CommandResult)
    → IsReplayed formats r
    → IsHandled formats r c done
    → IsStep formats r c done done.result
handled-IsStep formats r c done inv handled =
    let applied = applied_state formats r done.event done.result inv handled.applied in
    record {
      expected = revision_is-eq r.state.graph.revision c.expected_revision handled.revision;
      at = handled.at;
      time = handled.time;
      built = handled.built;
      held = refl;
      applied = applied;
      events = apply_event-events formats r done.event done.result handled.applied;
      revision = (apply-IsAdvanced formats r.state done.event r.events _ applied).revision;
      replayed = apply_event-IsReplayed formats r done.event done.result inv handled.applied;
    }

-- Whatever Command is executed in a Session whose result came from a replay: either `execute`
-- answers with an error, and the Session holds the result that it held before; or the Command's
-- expected revision is the one of that result, the Event is the one that the handler builds (with
-- the next sequence, that revision, the Human as its actor and the payload of the Command), and the
-- Session holds what the Materializer's `apply` makes of it: the old Events and this one, one
-- revision further, in a state that is well-formed and whose log the Event Store takes again.
pub execute-IsExecuted :
    (formats : Formats) (r : ReplayResult) (c : Command)
    → IsReplayed formats r
    → IsExecuted formats r c (execute formats r c).0 (execute formats r c).1
unfolding execute
execute-IsExecuted formats r c inv = go (handle formats r c) refl
  where
    go :
        (answer : Result CommandResult)
        → handle formats r c ≡ answer
        → IsExecuted formats r c answer (elim answer [ ok done ↦ done.result | err c ↦ r ])
    go (err code) h = inl (code, refl, refl)
    go (ok done) h =
        inr (done, refl, handled-IsStep formats r c done inv (handle-IsHandled formats r c done h))
