-- ===== src/Tests/Service.antt =====
-- The theorems on the service's store at a Session with two Finals.
use ronro.Prelude.{
  arith, ℕ, String, ◌≡◌, refl, Bool, true, false, Option, none, some, List, [], ◌∷◌,
}
use ronro.Errors.{Result, ok, err, stale_claim, ◌>>=◌}
use ronro.Domain.{State, DrainStatus, NodeType, Payload, Event}
use ronro.Replay.{ReplayResult}
use ronro.Service.Store.{
  Report, Job, is_open, find_job, Rows, JobState, new_rows, append_events, append_locked, replay,
  accept_job_result, accept_output,
}
use ronro.Service.Intake.{Final, accept_final, accept_new, accept_found, finalize, end_session}
use ronro.Service.Jobs.{
  claim_first, JobClaim, claim_job, require_owned, renew_job_lease, fail_job, retry_job, job_state,
}
use ronro.Service.Frozen.{IsFrozen, finalize-IsFrozen}
use ronro.Service.Completed.{accept_job_result-later}
use ronro.Service.Sound.{IsSound}
use ronro.Service.Leases.{claim_job-exclusive}
use ronro.Service.Runs.{
  Request, accepts, appends, claims, fails, retries, request, requests, requests-IsSound,
}
use ronro.Tests.{lenient, program, system_event, analyzer_event, or_start}

-- `validate_domain` accepts every state.
abbrev accepting : State → Result (Unit {0})
accepting s = ok tt

abbrev final : String → ℕ → String → Final
final id n job = record {
  evidence = record { id = id; session_id = "s"; sequence = n };
  utterance = record {
    session_id = "s";
    sequence = n;
    evidence_ids = id ∷ [];
    text = "We ship on Monday.";
    ended_at = "2026-01-01T00:00:00Z";
  };
  job_id = job;
  contract_version = "v1";
  provider_item_id = some id;
}

-- The definitions that a run of the store unfolds.
unfoldable store_program : Unit {0}
unfolding program new_rows append_events append_locked replay accept_job_result accept_output
    accept_final accept_new accept_found finalize end_session claim_first claim_job require_owned
    renew_job_lease fail_job retry_job job_state request requests
store_program = tt

-- The first Job is claimed, fails, and is retried and claimed again; the second waits.
abbrev history : List Request
history =
    appends (
      system_event "e-1" 1 (Payload.session_created (some "Weekly") none)
      ∷ system_event "e-2" 2 Payload.session_started
      ∷ [])
    ∷ accepts (final "ev-1" 1 "j-1")
    ∷ accepts (final "ev-1" 1 "j-1")
    ∷ accepts (final "ev-2" 2 "j-2")
    ∷ claims 10 30
    ∷ fails "j-1" 1 "timeout"
    ∷ retries "j-1"
    ∷ claims 20 30
    ∷ []

abbrev rows : Rows
rows = requests lenient accepting (new_rows "s") history

requests-IsSound_example : IsSound rows
requests-IsSound_example = requests-IsSound lenient accepting "s" history

-- A report without presentation hints.
abbrev plain : String → Report
plain output = record { accepted_output = output; valid_delta = λ result es. ok tt }

abbrev is_ok {ℓ} : {A : Type ℓ} → Result A → Bool
is_ok (ok a) = true
is_ok (err c) = false

abbrev value_or {ℓ} : {A : Type ℓ} → A → Result A → A
value_or a (ok b) = b
value_or a (err c) = a

is_ok-value {ℓ} : {A : Type ℓ} (a : A) (r : Result A) → is_ok r ≡ true → r ≡ ok (value_or a r)
is_ok-value a (ok b) h = refl
is_ok-value a (err c) h = cc

abbrev detected : List Event
detected = analyzer_event "e-3" 3 (Payload.node_detected NodeType.topic "Release" none) ∷ []

abbrev report : Result (ReplayResult × Rows)
report = accept_job_result lenient accepting rows "j-1" 2 2 (plain "{}") detected

abbrev reported : ReplayResult × Rows
reported = value_or (or_start (err stale_claim), rows) report

report_returns : is_ok report ≡ true
unfolding store_program
report_returns = refl

reported_ok : report ≡ ok reported
reported_ok = is_ok-value (or_start (err stale_claim), rows) report report_returns

reported_state : job_state reported.1 "j-1" ≡ ok JobState.completed
unfolding store_program
reported_state = refl

-- The first attempt may not report any more.
stale_refused :
    accept_job_result lenient accepting rows "j-1" 1 2 (plain "{}") detected ≡ err stale_claim
unfolding store_program
stale_refused = refl

-- An Event and a claim of the second Job follow the report.
abbrev later : List Request
later = appends (system_event "e-4" 4 (Payload.session_finalizing 2) ∷ []) ∷ claims 60 30 ∷ []

abbrev later_rows : Rows
later_rows = requests lenient accepting reported.1 later

later_open : is_open later_rows.service_state ≡ true
unfolding store_program
later_open = refl

later_revision : later_rows.graph_revision ≡ 4
unfolding store_program
later_revision = refl

accept_job_result-later_example :
    accept_job_result lenient accepting later_rows "j-1" 1 0 (plain "other") []
    ≡ (replay lenient later_rows >>= λ result. ok (result, later_rows))
accept_job_result-later_example =
    accept_job_result-later lenient accepting rows "j-1" 2 2 (plain "{}") detected reported.0
      reported.1 later (requests-IsSound lenient accepting "s" history) reported_ok later_open 1 0
      (plain "other") []

abbrev stopped : Rows
stopped =
    request lenient accepting reported.1
      (appends (system_event "e-4" 4 (Payload.session_finalizing 2) ∷ []))

abbrev ending : Event
ending = system_event "e-5" 5 (Payload.session_ended DrainStatus.partial 4 true)

abbrev finish : Result (Option ℕ × Rows)
finish = finalize lenient accepting stopped ending true

abbrev finished : Option ℕ × Rows
finished = value_or (none, rows) finish

finish_returns : is_ok finish ≡ true
unfolding store_program
finish_returns = refl

finished_ok : finish ≡ ok finished
finished_ok = is_ok-value (none, rows) finish finish_returns

finished_revision : finished.0 ≡ some 5
unfolding store_program
finished_revision = refl

finalize-IsFrozen_example :
    IsFrozen lenient accepting finished.1 finished.0
    × ((rs : List Request) → requests lenient accepting finished.1 rs ≡ finished.1)
finalize-IsFrozen_example =
    finalize-IsFrozen lenient accepting stopped ending true finished.0 finished.1 finished_ok

abbrev no_job : Job
no_job = record {
  job_id = "";
  evidence_id = "";
  utterance_sequence = 0;
  contract_version = "";
  state = JobState.pending;
  attempt = 0;
  claim_until = none;
  start_revision = none;
  output = none;
  error = none;
}

abbrev job_or : Option Job → Job
job_or none = no_job
job_or (some j) = j

abbrev has_job : Option Job → Bool
has_job none = false
has_job (some j) = true

job_or-there : (o : Option Job) → has_job o ≡ true → o ≡ some (job_or o)
job_or-there none h = cc
job_or-there (some j) h = refl

abbrev held_job : Job
held_job = job_or (find_job "j-1" rows.jobs)

held_there : has_job (find_job "j-1" rows.jobs) ≡ true
unfolding store_program
held_there = refl

abbrev given : Result (Option JobClaim × Rows) → Option String
given (err c) = none
given (ok (none, next)) = none
given (ok (some c, next)) = some c.job_id

held_found : find_job "j-1" rows.jobs ≡ some held_job
held_found = job_or-there (find_job "j-1" rows.jobs) held_there

held_processing : held_job.state ≡ JobState.processing
unfolding store_program
held_processing = refl

held_until : held_job.claim_until ≡ some 50
unfolding store_program
held_until = refl

claim_job-exclusive_example : claim_job rows 50 30 ≡ ok (none, rows)
claim_job-exclusive_example =
    claim_job-exclusive lenient accepting "s" history "j-1" held_job 50 50 29 held_found
      held_processing held_until (omega arith)

-- The first claim has lapsed at 51 and its Job is given out again.
reclaimed : given (claim_job rows 51 30) ≡ some "j-1"
unfolding store_program
reclaimed = refl
