-- ===== src/Live/Runtime/Commits.antt =====
-- What a run of one item commits, whatever other threads do in the meantime.
use ronro.Prelude.{
  ℕ, ◌+◌, ◌≤◌, ◌≡◌, refl, sym, ap, ◌∙◌, subst, Bool, true, false, List, [], ◌∷◌, nat_eq, nat_eq→eq,
  arith, if◌then◌else◌,
}
use ronro.Errors.{Result, ok, err, revision_conflict, >>=-eq-ok, >>-eq-ok, ok-injective}
use ronro.Domain.{Event, Utterance}
use ronro.Domain.Schema.{Formats, validate_event}
use ronro.Replay.{ReplayResult, apply_event}
use ronro.Replay.Log.{IsReplayed}
use ronro.Live.Candidate.{CandidateEvent, to_event}
use ronro.Live.Queue.{LiveQueueItem}
use ronro.Live.Runtime.{
  Runtime, Analyst, Gaps, Processed, no_correction, acts, revision, stage, rejected, finish, commit,
  decide_again, analyze_again, decide_first, analyze_first, process_utterance, process_found,
  process_item, find_utterance,
}
use ronro.Live.Runtime.Actions.{
  Extends, Extends-refl, Extends-trans, acts-Extends, apply_event-Extends,
}

module _ (formats : Formats) where
  -- The Events of the candidates are appended one by one, each with the next sequence.
  pub stage-Extends :
      (r : ReplayResult) (cs : List CandidateEvent) (t : ReplayResult) (es : List Event)
      → IsReplayed formats r
      → stage formats r cs ≡ ok (t, es)
      → Extends formats r t
  unfolding stage
  stage-Extends r [] t es inv h =
      let q : r ≡ t = ap (λ x. x.0) (ok-injective _ _ h) in
      subst (Extends formats r) q (Extends-refl formats r inv)
  stage-Extends r (c ∷ cs) t es inv h =
      let e = to_event c (r.state.graph.last_event_sequence + 1) in
      let (_, h₁) = >>-eq-ok (validate_event formats e) _ h in
      let (next, applied, h₂) = >>=-eq-ok (apply_event formats r e) _ h₁ in
      let ((last, events), staged, end) = >>=-eq-ok (stage formats next cs) _ h₂ in
      let first = apply_event-Extends formats r e next inv applied in
      let q : last ≡ t = ap (λ x. x.0) (ok-injective _ _ end) in
      Extends-trans formats r next t first
        (subst (Extends formats next) q (stage-Extends next cs last events first.replayed staged))

  -- What a run that appended the Events of an analysis has done: the Analyzer proposed these
  -- candidates for this very Graph and these very Events, to which they were then appended.
  pub record IsFresh (analyst : Analyst) (u : Utterance) (base : ReplayResult) (p : Processed)
      (events : List Event) : Type 0 where
    pub call : ℕ
    pub candidates : List CandidateEvent
    pub proposed : analyst.analyze call u base.state.graph base.events ≡ ok candidates
    pub staged : stage formats base candidates ≡ ok (p.runtime.result, events)

  abbrev pub Commits : Analyst → Utterance → Runtime → Processed → Type 0
  Commits analyst u rt p =
      (events : List Event)
      → p.outcome ≡ ok events
      → (base : ReplayResult) × Extends formats rt.result base × IsFresh analyst u base p events

  rejected-ok :
      (r : Result (ReplayResult × List Event)) (x : ReplayResult × List Event)
      → rejected r ≡ ok x
      → r ≡ ok x
  rejected-ok (ok y) x h = h
  rejected-ok (err c) x h = cc

  finish-outcome :
      (rt : Runtime) (again : Bool) (r : Result (ReplayResult × List Event)) (es : List Event)
      → (finish rt again r).outcome ≡ ok es
      → r ≡ ok ((finish rt again r).runtime.result, es)
  finish-outcome rt again (ok (t, fs)) es h =
      let q : fs ≡ es = ok-injective fs es h in ap (λ (x : List Event). ok (t, x)) q
  finish-outcome rt again (err c) es h = absurd (cc h)

  module _ (analyst : Analyst) (gaps : Gaps) (u : Utterance) where
    module _ (rt now : Runtime) (again : Bool) (call current : ℕ) (cs : List CandidateEvent)
        (later : Extends formats rt.result now.result) (same : revision rt ≡ current)
        (proposed : analyst.analyze call u rt.result.state.graph rt.result.events ≡ ok cs) where
      staged_if :
          (b : Bool)
          → nat_eq (revision now) current ≡ b
          → Commits analyst u rt (
              finish now again
                (if b then rejected (stage formats now.result cs) else err revision_conflict))
      staged_if false moved es h =
          absurd (cc (finish-outcome now again (err revision_conflict) es h))
      staged_if true still es h =
          let e : revision rt ≡ revision now =
            same ∙ sym (nat_eq→eq (revision now) current still) in
          (
            now.result,
            later,
            record {
              call = call;
              candidates = cs;
              proposed = rw (later.graph e, later.events e) proposed;
              staged =
                  rejected-ok _ _
                    (finish-outcome now again (rejected (stage formats now.result cs)) es h);
            },
          )

      -- The Graph that was analyzed is the one that the Events are appended to.
      commit-Commits : Commits analyst u rt (commit formats now again current cs)
      unfolding commit
      commit-Commits = staged_if (nat_eq (revision now) current) refl

    -- The second analysis read the Graph after `current` was taken. No revision goes back, so if the
    -- revision is still `current` at the end, it was when the Graph was read.
    again_if :
        (rt now : Runtime) (current : ℕ) (b : Bool) (cs : List CandidateEvent)
        → Extends formats rt.result now.result
        → nat_eq (revision now) current ≡ b
        → current ≤ revision rt
        → analyst.analyze 1 u rt.result.state.graph rt.result.events ≡ ok cs
        → Commits analyst u rt (
            if b
            then commit formats (acts formats now gaps.committing) true current cs
            else finish now true (err revision_conflict))
    again_if rt now current true cs later e le proposed =
        let g = later.grows in
        commit-Commits rt (acts formats now gaps.committing) true 1 current cs
          (Extends-trans formats rt.result now.result _ later
            (acts-Extends formats now gaps.committing later.replayed))
          (let q = nat_eq→eq (revision now) current e in omega arith) proposed
    again_if rt now current false cs later e le proposed = λ es h. absurd (cc h)

    decide_again-Commits :
        (rt now : Runtime) (current : ℕ) (r : Result (List CandidateEvent))
        → Extends formats rt.result now.result
        → current ≤ revision rt
        → analyst.analyze 1 u rt.result.state.graph rt.result.events ≡ r
        → Commits analyst u rt (decide_again formats gaps current now r)
    decide_again-Commits rt now current (err c) later le proposed = λ es h. absurd (cc h)
    decide_again-Commits rt now current (ok cs) later le proposed =
        again_if rt now current (nat_eq (revision now) current) cs later refl le proposed

    -- Commits from a later Runtime are commits from an earlier one.
    Commits-earlier :
        (rt next : Runtime) (p : Processed)
        → Extends formats rt.result next.result
        → Commits analyst u next p
        → Commits analyst u rt p
    Commits-earlier rt next p first c es h =
        let (base, later, fresh) = c es h in
        (base, Extends-trans formats rt.result next.result base first later, fresh)

    first_if :
        (rt now : Runtime) (b : Bool) (cs : List CandidateEvent)
        → Extends formats rt.result now.result
        → nat_eq (revision now) (revision rt) ≡ b
        → analyst.analyze 0 u rt.result.state.graph rt.result.events ≡ ok cs
        → Commits analyst u rt (
            if b
            then commit formats (acts formats now gaps.committing) false (revision now) cs
            else analyze_again formats analyst gaps u
                (revision now)
                (acts formats now gaps.rereading))
    first_if rt now true cs later e proposed =
        commit-Commits rt (acts formats now gaps.committing) false 0 (revision now) cs
          (Extends-trans formats rt.result now.result _ later
            (acts-Extends formats now gaps.committing later.replayed))
          (sym (nat_eq→eq (revision now) (revision rt) e)) proposed
    first_if rt now false cs later e proposed =
        let read = acts-Extends formats now gaps.rereading later.replayed in
        let next = acts formats now gaps.rereading in
        Commits-earlier rt next _
          (Extends-trans formats rt.result now.result next.result later read)
          (decide_again-Commits next (acts formats next gaps.reanalyzing) (revision now) _
            (acts-Extends formats next gaps.reanalyzing read.replayed) read.grows refl)

    decide_first-Commits :
        (rt now : Runtime) (r : Result (List CandidateEvent))
        → Extends formats rt.result now.result
        → analyst.analyze 0 u rt.result.state.graph rt.result.events ≡ r
        → Commits analyst u rt (decide_first formats analyst gaps u (revision rt) now r)
    decide_first-Commits rt now (err c) later proposed = λ es h. absurd (cc h)
    decide_first-Commits rt now (ok cs) later proposed =
        first_if rt now (nat_eq (revision now) (revision rt)) cs later refl proposed

-- Whatever other threads do while an item runs in whose Utterance no correction of a Relation is
-- found (`interpret` finds none when the run starts): if the run returns Events, then the Analyzer was
-- asked about exactly the Graph and the Events that they are appended to. That is a result which
-- extends the one that the run started from, and the Events are all the candidates of that answer,
-- each with the next sequence.
pub process_item-IsFresh :
    (formats : Formats) (analyst : Analyst) (gaps : Gaps) (rt : Runtime) (item : LiveQueueItem)
    (u : Utterance) (events : List Event)
    → IsReplayed formats rt.result
    → find_utterance item.utterance_sequence rt.result.state.utterances ≡ ok u
    → analyst.interpret u.text rt.result.state.graph rt.result.events ≡ no_correction
    → (process_item formats analyst gaps rt item).outcome ≡ ok events
    → (base : ReplayResult) × Extends formats rt.result base
      × IsFresh formats analyst u base (process_item formats analyst gaps rt item) events
process_item-IsFresh formats analyst gaps rt item u events inv there plain h =
    let run : process_item formats analyst gaps rt item ≡ analyze_first formats analyst gaps u rt =
      unfold process_item in
      ap (process_found formats analyst gaps rt) there
      ∙ ap (process_utterance formats analyst gaps rt u) plain in
    subst (λ p. Commits formats analyst u rt p) (sym run)
      (decide_first-Commits formats analyst gaps u rt (acts formats rt gaps.analyzing) _
        (acts-Extends formats rt gaps.analyzing inv) refl)
      events h
