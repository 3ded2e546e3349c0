-- ===== src/Service/Results.antt =====
-- What `_append_locked` and `accept_job_result` leave in the rows.
use ronro.Prelude.{
  ℕ, String, ◌≡◌, refl, ap, ◌∙◌, arith, Bool, true, ◌||◌, Bool-cases, Option, none, some, List, [],
  ◌∷◌, ◌++◌, inl, inr, subst, eq_iff, any,
}
use ronro.Errors.{Result, ok, err, job_not_found, ◌>>=◌}
use ronro.Errors.Ensures.{Ensures, Ensures-ok, Ensures-bind, Ensures-then, Ensures-raise_if}
use ronro.Domain.{State, Event}
use ronro.Domain.Schema.{Formats}
use ronro.Replay.{ReplayResult, apply_events, replay_events}
use ronro.Replay.Runs.{apply_events-append}
use ronro.Service.Store.{
  Report, JobState, Job, Rows, is_open, append_locked, accept_job_result, accept_output, find_job,
  put_job, require_job, replay, job_state_is, is_finalizing,
}

-- The rows of the Events give the result back when they are replayed, and the revision of the row is
-- that of the result.
pub record IsStored (formats : Formats) (p : ReplayResult × Rows) : Type 0 where
  pub replayed : replay formats p.1 ≡ ok p.0
  pub counted : p.1.graph_revision ≡ p.0.state.graph.revision

module _ (formats : Formats) (valid : State → Result (Unit {0})) where
  -- The rows that an append leaves alone.
  pub record IsAppended (rows : Rows) (es : List Event) (p : ReplayResult × Rows) : Type 0 where
    pub stored : IsStored formats p
    pub same_state : p.1.service_state ≡ rows.service_state
    pub same_jobs : p.1.jobs ≡ rows.jobs
    pub same_finals : p.1.finals ≡ rows.finals
    pub longer : p.1.events ≡ rows.events ++ es

  replay-more :
      (rows : Rows) (es : List Event) (first next : ReplayResult) (closed : Bool) (revision : ℕ)
      → replay formats rows ≡ ok first
      → apply_events formats first es ≡ ok next
      → replay formats (record rows {
        events = rows.events ++ es;
        graph_revision = revision;
        intake_closed = closed;
      })
        ≡ ok next
  unfolding replay replay_events
  replay-more rows es first next closed revision h k =
      apply_events-append formats _ rows.events es ∙ unfold ◌>>=◌ in rw h k

  pub append_locked-IsAppended :
      (rows : Rows) (es : List Event)
      → Ensures (IsAppended rows es) (append_locked formats valid rows es)
  unfolding append_locked
  append_locked-IsAppended rows es = Ensures-bind _ _ λ first h. Ensures-bind _ _ λ next k.
      Ensures-then _ _ λ v. Ensures-ok _ (record {
        stored = record {
          replayed =
              replay-more rows es first next (rows.intake_closed || any is_finalizing es)
                next.state.graph.revision h k;
          counted = refl;
        };
        same_state = refl;
        same_jobs = refl;
        same_finals = refl;
        longer = refl;
      })

pub find_job-id : (id : String) (js : List Job) (x : Job) → find_job id js ≡ some x → x.job_id ≡ id
find_job-id id [] x h = cc
find_job-id id (y ∷ ys) x h = ground (arith, find_job-id id ys x, eq_iff y.job_id id)

pub find-put_job :
    (k : Job) (js : List Job) (x : Job)
    → find_job k.job_id js ≡ some x
    → find_job k.job_id (put_job k js) ≡ some k
find-put_job k [] x h = cc
find-put_job k (y ∷ ys) x h = ground (arith, find-put_job k ys x, eq_iff k.job_id k.job_id)

pub require_job-found :
    (rows : Rows) (id : String) (j : Job)
    → require_job rows id ≡ ok j
    → find_job id rows.jobs ≡ some j
require_job-found rows id j h = found (find_job id rows.jobs) h
  where
    found :
        (o : Option Job) → (elim o [ none ↦ err job_not_found | some k ↦ ok k ]) ≡ ok j → o ≡ some j
    found none h = cc
    found (some k) h = cc

pub found-require_job :
    (rows : Rows) (id : String) (j : Job)
    → find_job id rows.jobs ≡ some j
    → require_job rows id ≡ ok j
found-require_job rows id j h = ap (λ o. elim o [ none ↦ err job_not_found | some k ↦ ok k ]) h

-- The Session is open, its Job `id` is completed, and the result is the replay of the rows.
pub record IsAccepted (formats : Formats) (id : String) (p : ReplayResult × Rows) : Type 0 where
  pub live : is_open p.1.service_state ≡ true
  pub job : Job
  pub found : find_job id p.1.jobs ≡ some job
  pub done : job_state_is job.state JobState.completed ≡ true
  pub replayed : replay formats p.1 ≡ ok p.0

module _ (formats : Formats) (valid : State → Result (Unit {0})) where
  accept_output-IsAccepted :
      (rows : Rows) (id : String) (j : Job) (attempt start : ℕ) (output : Report) (es : List Event)
      → is_open rows.service_state ≡ true
      → find_job id rows.jobs ≡ some j
      → Ensures (IsAccepted formats id) (accept_output formats valid rows j attempt start output es)
  unfolding accept_output
  accept_output-IsAccepted rows id j attempt start output es live found =
      Ensures-raise_if _ _ _ λ h. Ensures-raise_if _ _ _ λ h. Ensures-bind _ _ λ p k.
        Ensures-then _ _ λ valid_delta.
          let a = (append_locked-IsAppended formats valid rows es).at p k in
          let same = find_job-id id rows.jobs j found in
          let j' : Job = record j {
            state = JobState.completed;
            claim_until = none;
            output = some output.accepted_output;
          } in
          let there : find_job j.job_id p.1.jobs ≡ some j =
            ap (find_job j.job_id) a.same_jobs ∙ ap (λ q. find_job q rows.jobs) same ∙ found in
          Ensures-ok _ (record {
            live = ap is_open a.same_state ∙ live;
            job = j';
            found =
                subst (λ q. find_job q (put_job j' p.1.jobs) ≡ some j') same
                  (find-put_job j' p.1.jobs j there);
            done = refl;
            replayed = unfold replay in a.stored.replayed;
          })

  pub accept_job_result-IsAccepted :
      (rows : Rows) (id : String) (attempt start : ℕ) (output : Report) (es : List Event)
      → Ensures
          (IsAccepted formats id)
          (accept_job_result formats valid rows id attempt start output es)
  unfolding accept_job_result
  accept_job_result-IsAccepted rows id attempt start output es = Ensures-raise_if _ _ _ λ closed.
      Ensures-bind _ _ λ j h.
        let live : is_open rows.service_state ≡ true = ground arith in
        let found = require_job-found rows id j h in
        elim (Bool-cases (job_state_is j.state JobState.completed)) [
          | inl done ↦ rw done (
              Ensures-bind _ _ λ result k.
                Ensures-ok _
                  (record { live = live; job = j; found = found; done = done; replayed = k }))
          | inr other ↦
              rw other (accept_output-IsAccepted rows id j attempt start output es live found)
        ]
