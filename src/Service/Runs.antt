-- ===== src/Service/Runs.antt =====
-- A Session's rows over any sequence of calls of the store's methods, refused ones included.
use ronro.Prelude.{ℕ, String, refl, Bool, List, [], ◌∷◌}
use ronro.Errors.{Result, ok, err}
use ronro.Errors.Ensures.{Ensures}
use ronro.Domain.{State, Event}
use ronro.Domain.Schema.{Formats}
use ronro.Service.Store.{Report, Rows, new_rows, append_events, accept_job_result}
use ronro.Service.Intake.{Final, accept_final, finalize}
use ronro.Service.Jobs.{claim_job, renew_job_lease, fail_job, retry_job}
use ronro.Service.Sound.{IsSound, new_rows-IsSound}
use ronro.Service.Methods.{
  accept_final-IsSound, claim_job-IsSound, renew_job_lease-IsSound, fail_job-IsSound,
  retry_job-IsSound, append_events-IsSound, accept_job_result-IsSound, finalize-IsSound,
}

-- A call of a method for the Session, with the time that it reads.
pub data Request : Type 0 where
  accepts : (final : Final) → Request
  appends : (events : List Event) → Request
  claims : (now lease : ℕ) → Request
  renews : (id : String) (attempt now lease : ℕ) → Request
  reports : (id : String) (attempt start : ℕ) (output : Report) (events : List Event) → Request
  fails : (id : String) (attempt : ℕ) (message : String) → Request
  retries : (id : String) → Request
  ends : (end_event : Event) (incomplete : Bool) → Request

-- A transaction that fails leaves the rows as they were.
abbrev pub committed : Rows → Result Rows → Rows
committed rows (ok next) = next
committed rows (err c) = rows

abbrev pub committed_with {ℓ} : {A : Type ℓ} → Rows → Result (A × Rows) → Rows
committed_with rows (ok p) = p.1
committed_with rows (err c) = rows

module _ (formats : Formats) (valid : State → Result (Unit {0})) where
  unfoldable pub request : Rows → Request → Rows
  request rows (accepts f) = committed rows (accept_final rows f)
  request rows (appends es) = committed_with rows (append_events formats valid rows es)
  request rows (claims now lease) = committed_with rows (claim_job rows now lease)
  request rows (renews id attempt now lease) =
      committed rows (renew_job_lease rows id attempt now lease)
  request rows (reports id attempt start output es) =
      committed_with rows (accept_job_result formats valid rows id attempt start output es)
  request rows (fails id attempt message) = committed rows (fail_job rows id attempt message)
  request rows (retries id) = committed rows (retry_job rows id)
  request rows (ends e b) = committed_with rows (finalize formats valid rows e b)

  unfoldable pub requests : Rows → List Request → Rows
  unfolding request
  requests rows [] = rows
  requests rows (r ∷ rs) = requests (request rows r) rs

committed-IsSound :
    (rows : Rows) (r : Result Rows) → IsSound rows → Ensures IsSound r → IsSound (committed rows r)
committed-IsSound rows (ok next) s e = e.at next refl
committed-IsSound rows (err c) s e = s

committed_with-IsSound {ℓ} :
    {A : Type ℓ} (rows : Rows) (r : Result (A × Rows))
    → IsSound rows
    → Ensures {A = A × Rows} (λ p. IsSound p.1) r
    → IsSound (committed_with rows r)
committed_with-IsSound rows (ok p) s e = e.at p refl
committed_with-IsSound rows (err c) s e = s

module _ (formats : Formats) (valid : State → Result (Unit {0})) where
  pub request-IsSound :
      (rows : Rows) (r : Request) → IsSound rows → IsSound (request formats valid rows r)
  unfolding request
  request-IsSound rows (accepts f) s = committed-IsSound rows _ s (accept_final-IsSound rows s f)
  request-IsSound rows (appends es) s =
      committed_with-IsSound rows _ s (append_events-IsSound rows s formats valid es)
  request-IsSound rows (claims now lease) s =
      committed_with-IsSound rows _ s (claim_job-IsSound rows s now lease)
  request-IsSound rows (renews id attempt now lease) s =
      committed-IsSound rows _ s (renew_job_lease-IsSound rows s id attempt now lease)
  request-IsSound rows (reports id attempt start output es) s =
      committed_with-IsSound rows _ s
        (accept_job_result-IsSound rows s formats valid id attempt start output es)
  request-IsSound rows (fails id attempt message) s =
      committed-IsSound rows _ s (fail_job-IsSound rows s id attempt message)
  request-IsSound rows (retries id) s = committed-IsSound rows _ s (retry_job-IsSound rows s id)
  request-IsSound rows (ends e b) s =
      committed_with-IsSound rows _ s (finalize-IsSound rows s formats valid e b)

  pub requests_from-IsSound :
      (rows : Rows) (rs : List Request) → IsSound rows → IsSound (requests formats valid rows rs)
  unfolding requests
  requests_from-IsSound rows [] s = s
  requests_from-IsSound rows (r ∷ rs) s =
      requests_from-IsSound (request formats valid rows r) rs (request-IsSound rows r s)

-- Whatever methods are called for a new Session, in whatever order and whether they are refused or
-- not: its Finals are numbered 1, 2, ... and have one Job each, with distinct ids; at most one Job is
-- neither pending nor completed, those before it are completed and those after it are pending; the
-- revision is the number of Events; and an ended Session's final revision is its revision.
pub requests-IsSound :
    (formats : Formats) (valid : State → Result (Unit {0})) (id : String) (rs : List Request)
    → IsSound (requests formats valid (new_rows id) rs)
requests-IsSound formats valid id rs =
    requests_from-IsSound formats valid (new_rows id) rs (new_rows-IsSound id)
