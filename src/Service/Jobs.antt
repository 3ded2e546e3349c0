-- ===== src/Service/Jobs.antt =====
-- The methods on Jobs of prototype/service_store.py: a Job is claimed for a time by an attempt, which
-- completes it, fails it, or lets the claim lapse.
use ronro.Prelude.{
  ℕ, ◌+◌, String, Bool, false, not, ◌&&◌, ◌||◌, Option, none, some, List, [], ◌∷◌, any, ltb, zero,
  suc, true, if◌then◌else◌,
}
use ronro.Errors.{
  Result, ok, raise_if, session_closed, stale_claim, job_not_failed, value_error, ◌>>=◌, ◌>>◌,
}
use ronro.Service.Store.{JobState, Job, Rows, job_state_is, is_open, put_job, require_job, owned}
use ronro.Service.Intake.{is_unresolved}

-- `lease_seconds <= 0`
abbrev pub is_zero : ℕ → Bool
is_zero zero = true
is_zero (suc n) = false

-- `claim_until < now`
abbrev pub has_lapsed : ℕ → Option ℕ → Bool
has_lapsed now none = false
has_lapsed now (some t) = ltb t now

abbrev pub has_prior : Job → List Job → Bool
has_prior j jobs = any (λ p. is_unresolved p && ltb p.utterance_sequence j.utterance_sequence) jobs

abbrev pub is_claimable : ℕ → List Job → Job → Bool
is_claimable now jobs j =
    (job_state_is j.state JobState.pending
      || job_state_is j.state JobState.processing && has_lapsed now j.claim_until)
    && not (has_prior j jobs)

-- The first row of the query: the least sequence among the claimable Jobs of a list.
abbrev pub first_of : Job → Option Job → Job
first_of j none = j
first_of j (some k) = if ltb k.utterance_sequence j.utterance_sequence then k else j

abbrev pub next_claimable : ℕ → List Job → List Job → Option Job
next_claimable now jobs [] = none
next_claimable now jobs (j ∷ js) =
    let rest = next_claimable now jobs js in
    if is_claimable now jobs j then some (first_of j rest) else rest

-- What `claim_job` returns.
pub record JobClaim : Type 0 where
  pub job_id : String
  pub evidence_id : String
  pub contract_version : String
  pub start_revision : ℕ
  pub attempt : ℕ

abbrev pub claim_of : Rows → Job → JobClaim
claim_of rows j = record {
  job_id = j.job_id;
  evidence_id = j.evidence_id;
  contract_version = j.contract_version;
  start_revision = rows.graph_revision;
  attempt = j.attempt + 1;
}

-- The two updates of `claim_job`.
abbrev pub start_job : Rows → Job → ℕ → ℕ → Rows
start_job rows j now lease = record rows {
  jobs =
      put_job
        (record j {
          state = JobState.processing;
          attempt = j.attempt + 1;
          claim_until = some (now + lease);
          start_revision = some rows.graph_revision;
        })
        rows.jobs;
  last_claim_at = some now;
}

-- The transaction of `claim_job`, for the Session.
unfoldable pub claim_first : Rows → ℕ → ℕ → Option JobClaim × Rows
claim_first rows now lease =
    if is_open rows.service_state
    then elim (next_claimable now rows.jobs rows.jobs) [
      | none ↦ (none, rows)
      | some j ↦ (some (claim_of rows j), start_job rows j now lease)
    ]
    else (none, rows)

unfoldable pub claim_job : Rows → ℕ → ℕ → Result (Option JobClaim × Rows)
unfolding claim_first
claim_job rows now lease = do raise_if (is_zero lease) value_error; ok (claim_first rows now lease)

-- The guards that `renew_job_lease` and `fail_job` share.
unfoldable pub require_owned : Rows → String → ℕ → Result Job
require_owned rows id attempt = do
  raise_if (not (is_open rows.service_state)) session_closed
  j ← require_job rows id
  raise_if (not (owned attempt j)) stale_claim
  ok j

unfoldable pub renew_job_lease : Rows → String → ℕ → ℕ → ℕ → Result Rows
unfolding require_owned
renew_job_lease rows id attempt now lease = do
  raise_if (is_zero lease) value_error
  j ← require_owned rows id attempt
  ok (record rows { jobs = put_job (record j { claim_until = some (now + lease) }) rows.jobs })

unfoldable pub fail_job : Rows → String → ℕ → String → Result Rows
unfolding require_owned
fail_job rows id attempt message = do
  j ← require_owned rows id attempt
  let j' = record j { state = JobState.failed; claim_until = none; error = some message }
  ok (record rows { jobs = put_job j' rows.jobs })

unfoldable pub retry_job : Rows → String → Result Rows
retry_job rows id = do
  raise_if (not (is_open rows.service_state)) session_closed
  j ← require_job rows id
  raise_if (not (job_state_is j.state JobState.failed)) job_not_failed
  let j' = record j { state = JobState.pending; error = none }
  ok (record rows { jobs = put_job j' rows.jobs })

unfoldable pub job_state : Rows → String → Result JobState
job_state rows id = do j ← require_job rows id; ok j.state
