-- ===== src/Service/Methods.antt =====
-- Each method of the store keeps its rows sound, and so does any sequence of calls.
use ronro.Prelude.{
  ℕ, ◌+◌, String, ◌≡◌, refl, ap, ◌∙◌, arith, Bool, true, false, Bool-cases, Option, none, some,
  List, [], ◌∷◌, inl, inr, nat_eq, distinct, distinct-append, contains, map-append,
}
use ronro.Errors.{Result}
use ronro.Errors.Ensures.{Ensures, Ensures-ok, Ensures-bind, Ensures-then, Ensures-raise_if}
use ronro.Domain.{State, Event}
use ronro.Domain.Schema.{Formats}
use ronro.Replay.{ReplayResult}
use ronro.Service.Store.{
  Report, JobState, FinalRow, Job, Rows, is_open, append_locked, append_events, accept_job_result,
  accept_output, find_job, job_state_is,
}
use ronro.Service.Intake.{
  Final, accept_final, accept_found, accept_new, find_existing, joined, insert_final, end_session,
  finalize, is_present, last_sequence,
}
use ronro.Service.Jobs.{
  JobClaim, claim_first, claim_job, renew_job_lease, fail_job, retry_job, next_claimable, start_job,
  claim_of,
}
use ronro.Service.Results.{IsAppended, append_locked-IsAppended}
use ronro.Service.Order.{job_ids, in_order-append}
use ronro.Service.Matching.{final_ids, matched-append, last_sequence-length, find_existing-absent}
use ronro.Service.Claiming.{IsNext, next_claimable-IsNext, in_order-claimed}
use ronro.Service.Sound.{
  IsSound, replay-counts, put_job-IsSound, begun-IsSound, failed-begun, own_id,
  require_owned-IsHeld, owned-begun,
}

absent-contains :
    (id : String) (js : List Job)
    → is_present (find_job id js) ≡ false
    → contains id (job_ids js) ≡ false
absent-contains id [] h = refl
absent-contains id (x ∷ xs) h = ground (arith, absent-contains id xs)

module _ (rows : Rows) (s : IsSound rows) where
  insert_final-IsSound :
      (f : Final)
      → find_existing f (joined rows.finals rows.jobs) ≡ none
      → nat_eq f.evidence.sequence (last_sequence rows.finals + 1) ≡ true
      → is_present (find_job f.job_id rows.jobs) ≡ false
      → IsSound (insert_final rows f)
  insert_final-IsSound f absent next fresh =
      let last = last_sequence-length rows.finals rows.jobs s.paired in
      record {
        paired = matched-append 0 rows.finals rows.jobs _ _ s.paired (ground arith) refl refl;
        ordered = in_order-append rows.jobs _ s.ordered refl;
        evidences =
            ap distinct (map-append _ rows.finals _)
            ∙ distinct-append (final_ids rows.finals) f.evidence.id s.evidences
                (find_existing-absent f rows.finals rows.jobs s.paired absent);
        identified =
            ap distinct (map-append _ rows.jobs _)
            ∙ distinct-append (job_ids rows.jobs) f.job_id s.identified
                (absent-contains f.job_id rows.jobs fresh);
        counted = s.counted;
        concluded = s.concluded;
      }

  accept_found-IsSound :
      (f : Final) (found : Option (FinalRow × Job))
      → find_existing f (joined rows.finals rows.jobs) ≡ found
      → Ensures IsSound (accept_found rows f found)
  unfolding accept_found accept_new
  accept_found-IsSound f none h = Ensures-raise_if _ _ _ λ a. Ensures-raise_if _ _ _ λ b.
      Ensures-raise_if _ _ _ λ next.
        Ensures-raise_if _ _ _ λ fresh. Ensures-ok _ (insert_final-IsSound f h (ground arith) fresh)
  accept_found-IsSound f (some (row, j)) h = Ensures-raise_if _ _ _ λ a. Ensures-ok _ s

  pub accept_final-IsSound : (f : Final) → Ensures IsSound (accept_final rows f)
  unfolding accept_final
  accept_final-IsSound f = Ensures-raise_if _ _ _ λ a. Ensures-raise_if _ _ _ λ b.
      Ensures-raise_if _ _ _
        λ c. Ensures-raise_if _ _ _ λ d. Ensures-raise_if _ _ _ λ e. accept_found-IsSound f _ refl

  claimed-IsSound :
      (j : Job) (now lease : ℕ)
      → IsNext now rows.jobs rows.jobs j
      → IsSound (start_job rows j now lease)
  claimed-IsSound j now lease i =
      let started =
        put_job-IsSound rows j _ s i.found
          (record { same_id = refl; same_evidence = refl; same_sequence = refl })
          (in_order-claimed now rows.finals rows.jobs j _ s.paired s.ordered i refl) in
      record {
        paired = started.paired;
        ordered = started.ordered;
        evidences = started.evidences;
        identified = started.identified;
        counted = started.counted;
        concluded = started.concluded;
      }

  claim_first-IsSound : (now lease : ℕ) → IsSound (claim_first rows now lease).1
  unfolding claim_first
  claim_first-IsSound now lease = elim (Bool-cases (is_open rows.service_state)) [
    | inl live ↦ rw live (picked (next_claimable now rows.jobs rows.jobs) refl)
    | inr closed ↦ rw closed s
  ]
    where
      picked :
          (o : Option Job)
          → next_claimable now rows.jobs rows.jobs ≡ o
          → IsSound
              (elim o as (λ _. Option JobClaim × Rows) [
                | none ↦ (none, rows)
                | some j ↦ (some (claim_of rows j), start_job rows j now lease)
              ]).1
      picked none h = s
      picked (some j) h =
          let i = next_claimable-IsNext now rows.jobs rows.jobs j s.identified h in
          claimed-IsSound j now lease i

  pub claim_job-IsSound :
      (now lease : ℕ)
      → Ensures {A = Option JobClaim × Rows} (λ p. IsSound p.1) (claim_job rows now lease)
  unfolding claim_job
  claim_job-IsSound now lease =
      Ensures-raise_if _ _ _ λ _. Ensures-ok _ (claim_first-IsSound now lease)

  pub renew_job_lease-IsSound :
      (id : String) (attempt now lease : ℕ)
      → Ensures IsSound (renew_job_lease rows id attempt now lease)
  unfolding renew_job_lease
  renew_job_lease-IsSound id attempt now lease = Ensures-raise_if _ _ _ λ _. Ensures-bind _ _ λ j h.
      let (found, begun) = (require_owned-IsHeld rows id attempt).at j h in
      Ensures-ok _ (
        begun-IsSound rows j _ s found begun
          (record { same_id = refl; same_evidence = refl; same_sequence = refl }))

  pub fail_job-IsSound :
      (id : String) (attempt : ℕ) (message : String)
      → Ensures IsSound (fail_job rows id attempt message)
  unfolding fail_job
  fail_job-IsSound id attempt message = Ensures-bind _ _ λ j h.
      let (found, begun) = (require_owned-IsHeld rows id attempt).at j h in
      Ensures-ok _ (
        begun-IsSound rows j _ s found begun
          (record { same_id = refl; same_evidence = refl; same_sequence = refl }))

  pub retry_job-IsSound : (id : String) → Ensures IsSound (retry_job rows id)
  unfolding retry_job
  retry_job-IsSound id = Ensures-raise_if _ _ _ λ closed. Ensures-bind _ _ λ j h.
      Ensures-raise_if _ _ _ λ held. Ensures-ok _ (
        begun-IsSound rows j _ s (own_id rows id j h) (failed-begun j (ground arith))
          (record { same_id = refl; same_evidence = refl; same_sequence = refl }))

  module _ (formats : Formats) (valid : State → Result (Unit {0})) where
    appended-IsSound :
        (es : List Event) (p : ReplayResult × Rows)
        → is_open rows.service_state ≡ true
        → IsAppended formats valid rows es p
        → IsSound p.1
    appended-IsSound es p live a = record {
      paired = rw (a.same_finals, a.same_jobs) s.paired;
      ordered = rw a.same_jobs s.ordered;
      evidences = rw a.same_finals s.evidences;
      identified = rw a.same_jobs s.identified;
      counted = a.stored.counted ∙ replay-counts formats p.1 p.0 a.stored.replayed;
      concluded = rw (a.same_state, live) refl;
    }

    appended :
        (es : List Event)
        → is_open rows.service_state ≡ true
        → Ensures {A = ReplayResult × Rows} (λ p. IsSound p.1) (append_locked formats valid rows es)
    appended es live = record {
      at = λ p h.
          appended-IsSound es p live ((append_locked-IsAppended formats valid rows es).at p h);
    }

    pub append_events-IsSound :
        (es : List Event)
        → Ensures {A = ReplayResult × Rows} (λ p. IsSound p.1) (append_events formats valid rows es)
    unfolding append_events
    append_events-IsSound es =
        Ensures-raise_if _ _ _ λ a.
          Ensures-raise_if _ _ _ λ closed. Ensures-raise_if _ _ _ λ b. appended es (ground arith)

    accept_output-IsSound :
        (j : Job) (attempt start : ℕ) (output : Report) (es : List Event)
        → is_open rows.service_state ≡ true
        → find_job j.job_id rows.jobs ≡ some j
        → Ensures {A = ReplayResult × Rows}
            (λ p. IsSound p.1)
            (accept_output formats valid rows j attempt start output es)
    unfolding accept_output
    accept_output-IsSound j attempt start output es live found = Ensures-raise_if _ _ _ λ held.
        Ensures-raise_if _ _ _ λ c. Ensures-bind _ _ λ p h. Ensures-then _ _ λ valid_delta.
          let a = (append_locked-IsAppended formats valid rows es).at p h in
          let there : find_job j.job_id p.1.jobs ≡ some j =
            ap (find_job j.job_id) a.same_jobs ∙ found in
          Ensures-ok _ (
            begun-IsSound p.1 j _ (appended-IsSound es p live a) there
              (owned-begun attempt j (ground arith))
              (record { same_id = refl; same_evidence = refl; same_sequence = refl }))

    pub accept_job_result-IsSound :
        (id : String) (attempt start : ℕ) (output : Report) (es : List Event)
        → Ensures {A = ReplayResult × Rows}
            (λ p. IsSound p.1)
            (accept_job_result formats valid rows id attempt start output es)
    unfolding accept_job_result
    accept_job_result-IsSound id attempt start output es = Ensures-raise_if _ _ _ λ closed.
        Ensures-bind _ _ λ j h. elim (Bool-cases (job_state_is j.state JobState.completed)) [
          | inl done ↦ rw done (Ensures-bind _ _ λ result k. Ensures-ok _ s)
          | inr other ↦
              rw other (
                accept_output-IsSound j attempt start output es (ground arith) (own_id rows id j h))
        ]

    end_session-IsSound :
        (e : Event) (b : Bool)
        → is_open rows.service_state ≡ true
        → Ensures {A = Option ℕ × Rows} (λ p. IsSound p.1) (end_session formats valid rows e b)
    unfolding end_session
    end_session-IsSound e b live = Ensures-raise_if _ _ _ λ u. Ensures-then _ _ λ g.
        Ensures-bind _ _ λ p h.
          let a = (append_locked-IsAppended formats valid rows (e ∷ [])).at p h in
          let sound = appended-IsSound (e ∷ []) p live a in
          Ensures-ok _ (record {
            paired = sound.paired;
            ordered = sound.ordered;
            evidences = sound.evidences;
            identified = sound.identified;
            counted = sound.counted;
            concluded = let same = a.stored.counted in ground arith;
          })

    pub finalize-IsSound :
        (e : Event) (b : Bool)
        → Ensures {A = Option ℕ × Rows} (λ p. IsSound p.1) (finalize formats valid rows e b)
    unfolding finalize
    finalize-IsSound e b = elim (Bool-cases (is_open rows.service_state)) [
      | inl live ↦ rw live (end_session-IsSound e b live)
      | inr closed ↦ rw closed (Ensures-ok _ s)
    ]
