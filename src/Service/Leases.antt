-- ===== src/Service/Leases.antt =====
-- At most one Job is given out while its claim has not lapsed.
use ronro.Prelude.{
  ℕ, suc, ◌+◌, ◌≤◌, String, ◌≡◌, refl, ap, ◌∙◌, subst, arith, Bool, true, false, not, ◌&&◌, ◌||◌,
  Bool-cases, Option, none, some, List, [], ◌∷◌, ◌==◌, inl, inr,
}
use ronro.Service.Store.{new_rows, JobState, FinalRow, Job, Rows, is_open, find_job, job_state_is}
use ronro.Service.Intake.{is_unresolved}
use ronro.Service.Jobs.{JobClaim, claim_first, claim_job, next_claimable, has_prior, has_lapsed}
use ronro.Service.Order.{matched, in_order, all_pending}
use ronro.Service.Matching.{matched-later}
use ronro.Service.Claiming.{next_claimable-IsNext}
use ronro.Service.Sound.{IsSound}
use ronro.Service.Runs.{Request, requests, requests-IsSound}
use ronro.Errors.{Result, ok, raise_if, ◌>>◌}
use ronro.Domain.{State}
use ronro.Domain.Schema.{Formats}

-- The Job at this id is being processed, by a claim up to this time.
abbrev is_leased : ℕ → Option Job → Bool
is_leased now none = false
is_leased now (some j) =
    job_state_is j.state JobState.processing && not (has_lapsed now j.claim_until)

abbrev is_free : ℕ → Job → Bool
is_free now k =
    job_state_is k.state JobState.pending
    || job_state_is k.state JobState.processing && has_lapsed now k.claim_until

all_pending-has_none :
    (now : ℕ) (id : String) (js : List Job)
    → all_pending js ≡ true
    → is_leased now (find_job id js) ≡ false
all_pending-has_none now id [] h = refl
all_pending-has_none now id (j ∷ js) h = ground (arith, all_pending-has_none now id js)

-- No Job that may be claimed stands beside a leased one.
none_beside :
    (now n : ℕ) (fs : List FinalRow) (js : List Job) (id : String) (k : Job)
    → matched n fs js ≡ true
    → in_order js ≡ true
    → is_leased now (find_job id js) ≡ true
    → find_job k.job_id js ≡ some k
    → has_prior k js ≡ false
    → is_free now k ≡ false
unfolding in_order matched
none_beside now n fs [] id k m o l f p = cc
none_beside now n [] (x ∷ xs) id k m o l f p = ground arith
none_beside now n (g ∷ gs) (x ∷ xs) id k m o l f p = elim (Bool-cases (is_unresolved x)) [
  | inl live ↦
      let late : all_pending xs ≡ true = ground arith in
      let none_later = all_pending-has_none now id xs late in
      elim (Bool-cases (x.job_id == k.job_id)) [
        | inl same ↦
            let q : some x ≡ some k = rw same at f in
            let q' : x ≡ k = cc in
            let held : is_free now x ≡ false = ground arith in
            subst (λ y. is_free now y ≡ false) q' held
        | inr other ↦
            let above = matched-later (n + 1) gs xs k.job_id k (ground arith) (rw other at f) in
            ground arith
      ]
  | inr done ↦ elim (Bool-cases (x.job_id == k.job_id)) [
    | inl same ↦
        let q : some x ≡ some k = rw same at f in
        let q' : x ≡ k = cc in
        let over : is_free now x ≡ false = ground arith in
        subst (λ y. is_free now y ≡ false) q' over
    | inr other ↦
        let tail : is_leased now (find_job id xs) ≡ true = ground arith in
        none_beside now (n + 1) gs xs id k (ground arith) (ground arith) tail (rw other at f)
          (ground arith)
  ]
]

module _ (rows : Rows) (s : IsSound rows) where
  nothing-claimable :
      (now : ℕ) (id : String) (o : Option Job)
      → is_leased now (find_job id rows.jobs) ≡ true
      → next_claimable now rows.jobs rows.jobs ≡ o
      → o ≡ none
  nothing-claimable now id none l h = refl
  nothing-claimable now id (some k) l h =
      let i = next_claimable-IsNext now rows.jobs rows.jobs k s.identified h in
      let may = i.claimable in
      let not_free =
        none_beside now 0 rows.finals rows.jobs id k s.paired s.ordered l i.found (ground arith) in
      ground arith

  leased-none :
      (now lease : ℕ) (id : String)
      → is_leased now (find_job id rows.jobs) ≡ true
      → claim_first rows now lease ≡ (none, rows)
  unfolding claim_first
  leased-none now lease id l = elim (Bool-cases (is_open rows.service_state)) [
    | inl live ↦
        let gone = nothing-claimable now id (next_claimable now rows.jobs rows.jobs) l refl in
        rw (live, gone) refl
    | inr closed ↦ rw closed refl
  ]

-- Whatever methods were called for a new Session before: while one of its Jobs is being processed and
-- the claim of this Job has not lapsed, `claim_job` gives out no Job of the Session and changes no row.
pub claim_job-exclusive :
    (formats : Formats) (valid : State → Result (Unit {0})) (session : String) (rs : List Request)
    (id : String) (j : Job) (until now lease : ℕ)
    → find_job id (requests formats valid (new_rows session) rs).jobs ≡ some j
    → j.state ≡ JobState.processing
    → j.claim_until ≡ some until
    → now ≤ until
    → claim_job (requests formats valid (new_rows session) rs) now (suc lease)
      ≡ ok (none, requests formats valid (new_rows session) rs)
unfolding claim_job raise_if ◌>>◌
claim_job-exclusive formats valid session rs id j until now lease found running claim le =
    let rows = requests formats valid (new_rows session) rs in
    let leased : is_leased now (some j) ≡ true = rw (running, claim) (ground arith) in
    ap (λ (p : Option JobClaim × Rows). ok p)
      (leased-none rows (requests-IsSound formats valid session rs) now (suc lease) id
        (ap (is_leased now) found ∙ leased))
