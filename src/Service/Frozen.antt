-- ===== src/Service/Frozen.antt =====
-- An ended Session: what each method does with it.
use ronro.Prelude.{
  ℕ, zero, suc, ◌∙◌, ap, [], ◌∷◌, String, ◌≡◌, ◌≢◌, refl, arith, Bool, true, false, not, Bool-cases,
  Option, none, List, inl, inr, subst,
}
use ronro.Errors.{Result, ok, err, raise_if, session_closed, ◌>>=◌, ◌>>◌}
use ronro.Errors.Ensures.{Ensures, Ensures-ok, Ensures-bind, Ensures-then, Ensures-raise_if}
use ronro.Domain.{State, Event}
use ronro.Domain.Schema.{Formats}
use ronro.Replay.{ReplayResult}
use ronro.Service.Store.{Report, Rows, is_open, append_events, accept_job_result}
use ronro.Service.Intake.{Final, accept_final, end_session, finalize, ended_state}
use ronro.Service.Runs.{
  Request, accepts, appends, claims, renews, reports, fails, retries, ends, committed,
  committed_with, request, requests,
}
use ronro.Service.Jobs.{claim_first, claim_job, require_owned, renew_job_lease, fail_job, retry_job}

-- What each method gives of the rows of an ended Session.
pub record IsFrozen (formats : Formats) (valid : State → Result (Unit {0})) (rows : Rows)
    (revision : Option ℕ) : Type 0 where
  pub answered : (e : Event) (b : Bool) → finalize formats valid rows e b ≡ ok (revision, rows)
  pub no_final : (f : Final) (next : Rows) → accept_final rows f ≢ ok next
  pub no_events :
      (es : List Event) (next : ReplayResult × Rows) → append_events formats valid rows es ≢ ok next
  pub no_result :
      (id : String) (attempt start : ℕ) (output : Report) (es : List Event)
      → accept_job_result formats valid rows id attempt start output es ≡ err session_closed
  pub no_claim : (now lease : ℕ) → claim_job rows now (suc lease) ≡ ok (none, rows)
  pub no_renewal :
      (id : String) (attempt now lease : ℕ)
      → renew_job_lease rows id attempt now (suc lease) ≡ err session_closed
  pub no_failure :
      (id : String) (attempt : ℕ) (message : String)
      → fail_job rows id attempt message ≡ err session_closed
  pub no_retry : (id : String) → retry_job rows id ≡ err session_closed

module _ (rows : Rows) (closed : is_open rows.service_state ≡ false) where
  no_final : (f : Final) → Ensures (λ _. true ≡ false) (accept_final rows f)
  unfolding accept_final
  no_final f = Ensures-raise_if _ _ _ λ h. Ensures-raise_if _ _ _ λ h.
      Ensures-raise_if _ _ _
        λ h. Ensures-raise_if _ _ _ λ h. Ensures-raise_if _ _ _ λ h. ground arith

  no_events :
      (formats : Formats) (valid : State → Result (Unit {0})) (es : List Event)
      → Ensures (λ _. true ≡ false) (append_events formats valid rows es)
  unfolding append_events
  no_events formats valid es = Ensures-raise_if _ _ _ λ h. Ensures-raise_if _ _ _ λ h. ground arith

  refused {ℓ} :
      {A : Type ℓ} (k : Result A)
      → raise_if (not (is_open rows.service_state)) session_closed >> k ≡ err session_closed
  unfolding raise_if ◌>>◌
  refused k = rw closed refl

  unowned : (id : String) (attempt : ℕ) → require_owned rows id attempt ≡ err session_closed
  unfolding require_owned
  unowned id attempt = refused _

  closed-IsFrozen :
      (formats : Formats) (valid : State → Result (Unit {0}))
      → IsFrozen formats valid rows rows.final_revision
  closed-IsFrozen formats valid = record {
    answered = λ e b. unfold finalize in rw closed refl;
    no_final = λ f next h. let bad = (no_final f).at next h in cc;
    no_events = λ es next h. let bad = (no_events formats valid es).at next h in cc;
    no_result = λ id attempt start output es. unfold accept_job_result in refused _;
    no_claim = λ now lease. unfold claim_job claim_first raise_if ◌>>◌ in rw closed refl;
    no_renewal = λ id attempt now lease.
        unfold renew_job_lease raise_if ◌>>◌ ◌>>=◌ in rw (unowned id attempt) refl;
    no_failure = λ id attempt message. unfold fail_job ◌>>=◌ in rw (unowned id attempt) refl;
    no_retry = λ id. unfold retry_job in refused _;
  }

abbrev IsEnd : Option ℕ × Rows → Type 0
IsEnd p = (is_open p.1.service_state ≡ false) × (p.1.final_revision ≡ p.0)

ended_closed : (b : Bool) → is_open (ended_state b) ≡ false
ended_closed true = refl
ended_closed false = refl

module _ (formats : Formats) (valid : State → Result (Unit {0})) where
  end_session-IsEnd :
      (rows : Rows) (e : Event) (b : Bool) → Ensures IsEnd (end_session formats valid rows e b)
  unfolding end_session
  end_session-IsEnd rows e b =
      Ensures-raise_if _ _ _
        λ h. Ensures-then _ _ λ g. Ensures-bind _ _ λ p hp. Ensures-ok _ (ended_closed b, refl)

  finalize-IsEnd :
      (rows : Rows) (e : Event) (b : Bool) → Ensures IsEnd (finalize formats valid rows e b)
  unfolding finalize
  finalize-IsEnd rows e b = elim (Bool-cases (is_open rows.service_state)) [
    | inl live ↦ rw live (end_session-IsEnd rows e b)
    | inr closed ↦ rw closed (Ensures-ok _ (closed, refl))
  ]

module _ (formats : Formats) (valid : State → Result (Unit {0})) (rows : Rows) (revision : Option ℕ)
    (f : IsFrozen formats valid rows revision) where
  unchanged : (r : Result Rows) → ((next : Rows) → r ≢ ok next) → committed rows r ≡ rows
  unchanged (ok next) h = absurd (h next refl)
  unchanged (err c) h = refl

  unchanged_with {ℓ} :
      {A : Type ℓ} (r : Result (A × Rows))
      → ((next : A × Rows) → r ≢ ok next)
      → committed_with rows r ≡ rows
  unchanged_with (ok next) h = absurd (h next refl)
  unchanged_with (err c) h = refl

  request-same : (r : Request) → request formats valid rows r ≡ rows
  unfolding request
  request-same (accepts final) = unchanged _ (f.no_final final)
  request-same (appends es) = unchanged_with _ (f.no_events es)
  request-same (claims now zero) = unfold claim_job raise_if ◌>>◌ in refl
  request-same (claims now (suc lease)) = ap (committed_with rows) (f.no_claim now lease)
  request-same (renews id attempt now zero) = unfold renew_job_lease raise_if ◌>>◌ in refl
  request-same (renews id attempt now (suc lease)) =
      ap (committed rows) (f.no_renewal id attempt now lease)
  request-same (reports id attempt start report es) =
      ap (committed_with rows) (f.no_result id attempt start report es)
  request-same (fails id attempt message) = ap (committed rows) (f.no_failure id attempt message)
  request-same (retries id) = ap (committed rows) (f.no_retry id)
  request-same (ends e b) = ap (committed_with rows) (f.answered e b)

  requests-same : (rs : List Request) → requests formats valid rows rs ≡ rows
  unfolding requests
  requests-same [] = refl
  requests-same (r ∷ rs) =
      ap (λ next. requests formats valid next rs) (request-same r) ∙ requests-same rs

-- After `finalize` returned: it returns the same revision for whatever Event it is called with; taking
-- a Final or Events fails; `claim_job` with a lease above zero answers that there is no Job; reports,
-- renewals, failures and retries of Jobs raise `session_closed`; and no sequence of calls changes a
-- row. The methods that only read, `replay` and `job_state`, are not meant.
pub finalize-IsFrozen :
    (formats : Formats) (valid : State → Result (Unit {0})) (rows : Rows) (e : Event) (b : Bool)
    (revision : Option ℕ) (next : Rows)
    → finalize formats valid rows e b ≡ ok (revision, next)
    → IsFrozen formats valid next revision
      × ((rs : List Request) → requests formats valid next rs ≡ next)
finalize-IsFrozen formats valid rows e b revision next h =
    let (closed, same) = (finalize-IsEnd formats valid rows e b).at (revision, next) h in
    let frozen =
      subst (IsFrozen formats valid next) same (closed-IsFrozen next closed formats valid) in
    (frozen, requests-same formats valid next revision frozen)
