-- ===== src/Service/Completed.antt =====
-- A completed Job stays completed, whatever methods are called.
use ronro.Prelude.{
  ℕ, String, ◌≡◌, refl, ap, ◌∙◌, arith, Bool, true, false, Bool-cases, Option, none, some, List, [],
  ◌∷◌, ◌++◌, ◌==◌, inl, inr, eq_iff,
}
use ronro.Errors.{Result, ok, err, raise_if, ◌>>=◌, ◌>>◌}
use ronro.Errors.Ensures.{Ensures, Ensures-ok, Ensures-bind, Ensures-then, Ensures-raise_if}
use ronro.Domain.{State, Event}
use ronro.Domain.Schema.{Formats}
use ronro.Replay.{ReplayResult}
use ronro.Service.Store.{
  Report, JobState, FinalRow, Job, Rows, is_open, append_locked, append_events, accept_job_result,
  accept_output, find_job, put_job, replay, job_state_is,
}
use ronro.Service.Intake.{
  Final, accept_final, accept_found, accept_new, find_existing, joined, end_session, finalize,
}
use ronro.Service.Jobs.{
  JobClaim, claim_first, claim_job, require_owned, renew_job_lease, fail_job, retry_job,
  next_claimable, start_job, claim_of, is_claimable,
}
use ronro.Service.Results.{
  append_locked-IsAppended, accept_job_result-IsAccepted, found-require_job,
}
use ronro.Service.Claiming.{next_claimable-IsNext}
use ronro.Service.Sound.{IsSound, is_begun, own_id, failed-begun, owned-begun, require_owned-IsHeld}
use ronro.Service.Methods.{accept_job_result-IsSound}
use ronro.Service.Runs.{
  Request, accepts, appends, claims, renews, reports, fails, retries, ends, committed,
  committed_with, request, requests, request-IsSound,
}

abbrev pub is_completed_job : Option Job → Bool
is_completed_job none = false
is_completed_job (some j) = job_state_is j.state JobState.completed

abbrev IsDone : String → Rows → Type 0
IsDone id rows = is_completed_job (find_job id rows.jobs) ≡ true

-- A Job that is replaced was not completed, so it is not the one with this id.
done-put_job :
    (id : String) (js : List Job) (j k : Job)
    → find_job k.job_id js ≡ some j
    → job_state_is j.state JobState.completed ≡ false
    → is_completed_job (find_job id js) ≡ true
    → is_completed_job (find_job id (put_job k js)) ≡ true
done-put_job id [] j k f u h = h
done-put_job id (x ∷ xs) j k f u h = elim (Bool-cases (x.job_id == k.job_id)) [
  | inl same ↦
      let q : some x ≡ some j = rw same at f in
      let q' : x ≡ j = cc in
      let open_x : job_state_is x.state JobState.completed ≡ false =
        ap (λ (y : Job). job_state_is y.state JobState.completed) q' ∙ u in
      rw same (ground (arith, eq_iff x.job_id k.job_id))
  | inr other ↦ let rest = done-put_job id xs j k (rw other at f) u in rw other (ground arith)
]

done-append :
    (id : String) (js : List Job) (k : Job)
    → is_completed_job (find_job id js) ≡ true
    → is_completed_job (find_job id (js ++ k ∷ [])) ≡ true
done-append id [] k h = cc
done-append id (x ∷ xs) k h = ground (arith, done-append id xs k)

committed-IsDone :
    (id : String) (rows : Rows) (r : Result Rows)
    → IsDone id rows
    → Ensures (IsDone id) r
    → IsDone id (committed rows r)
committed-IsDone id rows (ok next) d e = e.at next refl
committed-IsDone id rows (err c) d e = d

committed_with-IsDone {ℓ} :
    {A : Type ℓ} (id : String) (rows : Rows) (r : Result (A × Rows))
    → IsDone id rows
    → Ensures {A = A × Rows} (λ p. IsDone id p.1) r
    → IsDone id (committed_with rows r)
committed_with-IsDone id rows (ok p) d e = e.at p refl
committed_with-IsDone id rows (err c) d e = d

claimable-open :
    (now : ℕ) (jobs : List Job) (j : Job)
    → is_claimable now jobs j ≡ true
    → job_state_is j.state JobState.completed ≡ false
claimable-open now jobs j h = ground arith

begun-open : (j : Job) → is_begun j ≡ true → job_state_is j.state JobState.completed ≡ false
begun-open j h = ground arith

module _ (id : String) (rows : Rows) (d : IsDone id rows) where
  accept_found-IsDone :
      (f : Final) (o : Option (FinalRow × Job)) → Ensures (IsDone id) (accept_found rows f o)
  unfolding accept_found accept_new
  accept_found-IsDone f none = Ensures-raise_if _ _ _ λ _. Ensures-raise_if _ _ _ λ _.
      Ensures-raise_if _ _ _
        λ _. Ensures-raise_if _ _ _ λ _. Ensures-ok _ (done-append id rows.jobs _ d)
  accept_found-IsDone f (some (row, j)) = Ensures-raise_if _ _ _ λ _. Ensures-ok _ d

  accept_final-IsDone : (f : Final) → Ensures (IsDone id) (accept_final rows f)
  unfolding accept_final
  accept_final-IsDone f = Ensures-raise_if _ _ _ λ _. Ensures-raise_if _ _ _ λ _.
      Ensures-raise_if _ _ _ λ _. Ensures-raise_if _ _ _ λ _.
        Ensures-raise_if _ _ _
          λ _. accept_found-IsDone f (find_existing f (joined rows.finals rows.jobs))

  claim_first-IsDone : (now lease : ℕ) → IsSound rows → IsDone id (claim_first rows now lease).1
  unfolding claim_first
  claim_first-IsDone now lease s = elim (Bool-cases (is_open rows.service_state)) [
    | inl live ↦ rw live (picked (next_claimable now rows.jobs rows.jobs) refl)
    | inr closed ↦ rw closed d
  ]
    where
      picked :
          (o : Option Job)
          → next_claimable now rows.jobs rows.jobs ≡ o
          → IsDone id
              (elim o as (λ _. Option JobClaim × Rows) [
                | none ↦ (none, rows)
                | some j ↦ (some (claim_of rows j), start_job rows j now lease)
              ]).1
      picked none h = d
      picked (some j) h =
          let i = next_claimable-IsNext now rows.jobs rows.jobs j s.identified h in
          let may = i.claimable in
          done-put_job id rows.jobs j _ i.found (claimable-open now rows.jobs j may) d

  claim_job-IsDone :
      (now lease : ℕ)
      → IsSound rows
      → Ensures {A = Option JobClaim × Rows} (λ p. IsDone id p.1) (claim_job rows now lease)
  unfolding claim_job
  claim_job-IsDone now lease s =
      Ensures-raise_if _ _ _ λ _. Ensures-ok _ (claim_first-IsDone now lease s)

  owned-IsDone :
      (j k : Job) (i : String) (attempt : ℕ)
      → require_owned rows i attempt ≡ ok j
      → k.job_id ≡ j.job_id
      → IsDone id (record rows { jobs = put_job k rows.jobs })
  owned-IsDone j k i attempt h same =
      let (found, begun) = (require_owned-IsHeld rows i attempt).at j h in
      done-put_job id rows.jobs j k (ap (λ q. find_job q rows.jobs) same ∙ found)
        (begun-open j begun) d

  renew_job_lease-IsDone :
      (i : String) (attempt now lease : ℕ)
      → Ensures (IsDone id) (renew_job_lease rows i attempt now lease)
  unfolding renew_job_lease
  renew_job_lease-IsDone i attempt now lease =
      Ensures-raise_if _ _ _
        λ _. Ensures-bind _ _ λ j h. Ensures-ok _ (owned-IsDone j _ i attempt h refl)

  fail_job-IsDone :
      (i : String) (attempt : ℕ) (message : String)
      → Ensures (IsDone id) (fail_job rows i attempt message)
  unfolding fail_job
  fail_job-IsDone i attempt message =
      Ensures-bind _ _ λ j h. Ensures-ok _ (owned-IsDone j _ i attempt h refl)

  retry_job-IsDone : (i : String) → Ensures (IsDone id) (retry_job rows i)
  unfolding retry_job
  retry_job-IsDone i = Ensures-raise_if _ _ _ λ _. Ensures-bind _ _ λ j h.
      Ensures-raise_if _ _ _ λ failed. Ensures-ok _ (
        done-put_job id rows.jobs j _ (own_id rows i j h)
          (begun-open j (failed-begun j (ground arith))) d)

  module _ (formats : Formats) (valid : State → Result (Unit {0})) where
    appended-IsDone :
        (es : List Event)
        → Ensures {A = ReplayResult × Rows}
            (λ p. IsDone id p.1)
            (append_locked formats valid rows es)
    appended-IsDone es = record {
      at = λ p h.
          ap (λ js. is_completed_job (find_job id js))
            ((append_locked-IsAppended formats valid rows es).at p h).same_jobs
          ∙ d;
    }

    append_events-IsDone :
        (es : List Event)
        → Ensures {A = ReplayResult × Rows}
            (λ p. IsDone id p.1)
            (append_events formats valid rows es)
    unfolding append_events
    append_events-IsDone es =
        Ensures-raise_if _ _ _
          λ _. Ensures-raise_if _ _ _ λ _. Ensures-raise_if _ _ _ λ _. appended-IsDone es

    accept_output-IsDone :
        (j : Job) (attempt start : ℕ) (report : Report) (es : List Event)
        → find_job j.job_id rows.jobs ≡ some j
        → Ensures {A = ReplayResult × Rows}
            (λ p. IsDone id p.1)
            (accept_output formats valid rows j attempt start report es)
    unfolding accept_output
    accept_output-IsDone j attempt start report es found = Ensures-raise_if _ _ _ λ held.
        Ensures-raise_if _ _ _ λ _. Ensures-bind _ _ λ p h. Ensures-then _ _ λ _.
          let same = ((append_locked-IsAppended formats valid rows es).at p h).same_jobs in
          let own = owned-begun attempt j (ground arith) in
          Ensures-ok _ (
            done-put_job id p.1.jobs j _ (ap (find_job j.job_id) same ∙ found) (begun-open j own)
              ((appended-IsDone es).at p h))

    accept_job_result-IsDone :
        (i : String) (attempt start : ℕ) (report : Report) (es : List Event)
        → Ensures {A = ReplayResult × Rows}
            (λ p. IsDone id p.1)
            (accept_job_result formats valid rows i attempt start report es)
    unfolding accept_job_result
    accept_job_result-IsDone i attempt start report es = Ensures-raise_if _ _ _ λ _.
        Ensures-bind _ _ λ j h. elim (Bool-cases (job_state_is j.state JobState.completed)) [
          | inl done ↦ rw done (Ensures-bind _ _ λ result k. Ensures-ok _ d)
          | inr other ↦
              rw other (accept_output-IsDone j attempt start report es (own_id rows i j h))
        ]

    finalize-IsDone :
        (e : Event) (b : Bool)
        → Ensures {A = Option ℕ × Rows} (λ p. IsDone id p.1) (finalize formats valid rows e b)
    unfolding finalize end_session
    finalize-IsDone e b = elim (Bool-cases (is_open rows.service_state)) [
      | inl live ↦ rw live (
          Ensures-raise_if _ _ _ λ _.
            Ensures-then _ _
              λ _. Ensures-bind _ _ λ p h. Ensures-ok _ ((appended-IsDone (e ∷ [])).at p h))
      | inr closed ↦ rw closed (Ensures-ok _ d)
    ]

    request-IsDone : (r : Request) → IsSound rows → IsDone id (request formats valid rows r)
    unfolding request
    request-IsDone (accepts f) s = committed-IsDone id rows _ d (accept_final-IsDone f)
    request-IsDone (appends es) s = committed_with-IsDone id rows _ d (append_events-IsDone es)
    request-IsDone (claims now lease) s =
        committed_with-IsDone id rows _ d (claim_job-IsDone now lease s)
    request-IsDone (renews i attempt now lease) s =
        committed-IsDone id rows _ d (renew_job_lease-IsDone i attempt now lease)
    request-IsDone (reports i attempt start report es) s =
        committed_with-IsDone id rows _ d (accept_job_result-IsDone i attempt start report es)
    request-IsDone (fails i attempt message) s =
        committed-IsDone id rows _ d (fail_job-IsDone i attempt message)
    request-IsDone (retries i) s = committed-IsDone id rows _ d (retry_job-IsDone i)
    request-IsDone (ends e b) s = committed_with-IsDone id rows _ d (finalize-IsDone e b)

module _ (formats : Formats) (valid : State → Result (Unit {0})) (id : String) where
  requests-IsDone :
      (rows : Rows) (rs : List Request)
      → IsSound rows
      → IsDone id rows
      → IsDone id (requests formats valid rows rs)
  unfolding requests
  requests-IsDone rows [] s d = d
  requests-IsDone rows (r ∷ rs) s d =
      requests-IsDone (request formats valid rows r) rs (request-IsSound formats valid rows r s)
        (request-IsDone id rows d formats valid r s)

  completed-again :
      (rows : Rows) (o : Option Job)
      → find_job id rows.jobs ≡ o
      → is_completed_job o ≡ true
      → is_open rows.service_state ≡ true
      → (attempt start : ℕ) (report : Report) (es : List Event)
      → accept_job_result formats valid rows id attempt start report es
        ≡ (replay formats rows >>= λ result. ok (result, rows))
  unfolding accept_job_result
  completed-again rows none found done live attempt start report es = cc
  completed-again rows (some j) found done live attempt start report es =
      unfold raise_if ◌>>◌ ◌>>=◌ in rw (live, found-require_job rows id j found, done) refl

-- After a result of a Job was accepted, whatever other methods are called and whether they are refused
-- or not: as long as the Session is open, every report for this Job, whatever its attempt, revision,
-- output and Events, changes no row, and answers the replay of the rows as they then are.
pub accept_job_result-later :
    (formats : Formats) (valid : State → Result (Unit {0})) (rows : Rows) (id : String)
    (attempt start : ℕ) (report : Report) (es : List Event) (result : ReplayResult) (next : Rows)
    (rs : List Request)
    → IsSound rows
    → accept_job_result formats valid rows id attempt start report es ≡ ok (result, next)
    → is_open (requests formats valid next rs).service_state ≡ true
    → (attempt' start' : ℕ) (report' : Report) (es' : List Event)
    → accept_job_result formats valid
        (requests formats valid next rs)
        id
        attempt'
        start'
        report'
        es'
      ≡ (replay formats (requests formats valid next rs) >>= λ result'.
          ok (result', requests formats valid next rs))
accept_job_result-later formats valid rows id attempt start report es result next rs s h live =
    let a =
      (accept_job_result-IsAccepted formats valid rows id attempt start report es).at (result, next)
        h in
    let sound =
      (accept_job_result-IsSound rows s formats valid id attempt start report es).at (result, next)
        h in
    completed-again formats valid id (requests formats valid next rs) _ refl
      (requests-IsDone formats valid id next rs sound (ap is_completed_job a.found ∙ a.done)) live
