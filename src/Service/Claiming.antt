-- ===== src/Service/Claiming.antt =====
-- The Job that `claim_job` picks.
use ronro.Prelude.{
  ℕ, ◌+◌, String, ◌≡◌, refl, ap, ◌∙◌, arith, true, false, Bool-cases, Option, none, some, List, [],
  ◌∷◌, inl, inr, if◌then◌else◌, ◌==◌, eq_iff, ltb, contains, distinct, subst,
}
use ronro.Service.Store.{FinalRow, Job, find_job, put_job}
use ronro.Service.Intake.{is_unresolved}
use ronro.Service.Jobs.{has_prior, is_claimable, next_claimable, first_of}
use ronro.Service.Order.{job_ids, matched, in_order, in_order-head}
use ronro.Service.Matching.{matched-later}

find_job-contains :
    (id : String) (js : List Job) (k : Job)
    → find_job id js ≡ some k
    → contains id (job_ids js) ≡ true
find_job-contains id [] k h = cc
find_job-contains id (x ∷ xs) k h = ground (arith, find_job-contains id xs k)

-- The Job `k` stands in the list under its own id and may be claimed.
pub record IsNext (now : ℕ) (jobs js : List Job) (k : Job) : Type 0 where
  pub claimable : is_claimable now jobs k ≡ true
  pub found : find_job k.job_id js ≡ some k

IsNext-later :
    (now : ℕ) (jobs : List Job) (x : Job) (xs : List Job) (k : Job)
    → distinct (job_ids (x ∷ xs)) ≡ true
    → IsNext now jobs xs k
    → IsNext now jobs (x ∷ xs) k
IsNext-later now jobs x xs k d i =
    let there = find_job-contains k.job_id xs k i.found in
    let other : (x.job_id == k.job_id) ≡ false = ground (arith, eq_iff x.job_id k.job_id) in
    let there' = i.found in record { claimable = i.claimable; found = ground arith }

IsNext-here :
    (now : ℕ) (jobs : List Job) (x : Job) (xs : List Job)
    → is_claimable now jobs x ≡ true
    → IsNext now jobs (x ∷ xs) x
IsNext-here now jobs x xs h = record {
  claimable = h;
  found = ground (arith, eq_iff x.job_id x.job_id);
}

IsNext-pick :
    (now : ℕ) (jobs : List Job) (x : Job) (xs : List Job) (k : Job) (rest : Option Job)
    → distinct (job_ids (x ∷ xs)) ≡ true
    → ((k' : Job) → rest ≡ some k' → IsNext now jobs xs k')
    → (if is_claimable now jobs x then some (first_of x rest) else rest) ≡ some k
    → IsNext now jobs (x ∷ xs) k
IsNext-pick now jobs x xs k none d ih h = elim (Bool-cases (is_claimable now jobs x)) [
  | inl here ↦
      let q : some x ≡ some k = rw here at h in
      let q' : x ≡ k = cc in subst (IsNext now jobs (x ∷ xs)) q' (IsNext-here now jobs x xs here)
  | inr other ↦ let q : none ≡ some k = rw other at h in cc
]
IsNext-pick now jobs x xs k (some y) d ih h =
    let later = IsNext-later now jobs x xs y d (ih y refl) in
    elim (Bool-cases (is_claimable now jobs x)) [
      | inl here ↦
          let q : some (first_of x (some y)) ≡ some k = rw here at h in
          let q' : first_of x (some y) ≡ k = cc in
          subst (IsNext now jobs (x ∷ xs)) q'
            (elim (Bool-cases (ltb y.utterance_sequence x.utterance_sequence)) [
              | inl lower ↦ rw lower later
              | inr upper ↦ rw upper (IsNext-here now jobs x xs here)
            ])
      | inr other ↦
          let q : some y ≡ some k = rw other at h in
          let q' : y ≡ k = cc in subst (IsNext now jobs (x ∷ xs)) q' later
    ]

pub next_claimable-IsNext :
    (now : ℕ) (jobs js : List Job) (k : Job)
    → distinct (job_ids js) ≡ true
    → next_claimable now jobs js ≡ some k
    → IsNext now jobs js k
next_claimable-IsNext now jobs [] k d h = cc
next_claimable-IsNext now jobs (x ∷ xs) k d h =
    IsNext-pick now jobs x xs k (next_claimable now jobs xs) d
      (λ k' g. next_claimable-IsNext now jobs xs k' (ground arith) g) h

-- A Job with no unresolved Job before it may go to any state.
in_order-started :
    (n : ℕ) (fs : List FinalRow) (js : List Job) (j k : Job)
    → matched n fs js ≡ true
    → in_order js ≡ true
    → find_job k.job_id js ≡ some j
    → is_unresolved j ≡ true
    → has_prior j js ≡ false
    → in_order (put_job k js) ≡ true
unfolding in_order matched
in_order-started n fs [] j k m o f u p = cc
in_order-started n [] (x ∷ xs) j k m o f u p = ground arith
in_order-started n (g ∷ gs) (x ∷ xs) j k m o f u p = elim (Bool-cases (x.job_id == k.job_id)) [
  | inl same ↦
      let q : some x ≡ some j = rw same at f in
      let q' : x ≡ j = cc in
      let live : is_unresolved x ≡ true = ap is_unresolved q' ∙ u in
      rw same (in_order-head k xs (ground arith))
  | inr other ↦
      let f' : find_job k.job_id xs ≡ some j = rw other at f in
      let above = matched-later (n + 1) gs xs k.job_id j (ground arith) f' in
      let done : is_unresolved x ≡ false = ground arith in
      rw (other, done)
        (in_order-started (n + 1) gs xs j k (ground arith) (ground arith) f' u (ground arith))
]

-- The Job that is given out may be started.
pub in_order-claimed :
    (now : ℕ) (fs : List FinalRow) (js : List Job) (j k : Job)
    → matched 0 fs js ≡ true
    → in_order js ≡ true
    → IsNext now js js j
    → k.job_id ≡ j.job_id
    → in_order (put_job k js) ≡ true
in_order-claimed now fs js j k m o i same =
    let claimable = i.claimable in
    in_order-started 0 fs js j k m o (ap (λ id. find_job id js) same ∙ i.found)
      (unresolved claimable) (ground arith)
  where
    unresolved : is_claimable now js j ≡ true → is_unresolved j ≡ true
    unresolved h = ground arith
