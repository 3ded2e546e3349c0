-- ===== src/Service/Order.antt =====
-- The Jobs of a Session as a list in the order of their Utterances.
use ronro.Prelude.{
  ℕ, ◌+◌, String, ◌≡◌, refl, sym, ap, ◌∙◌, arith, Bool, true, false, ◌&&◌, Bool-cases, some, List,
  [], ◌∷◌, ◌++◌, inl, inr, if◌then◌else◌, ◌==◌, map, nat_eq,
}
use ronro.Service.Store.{JobState, FinalRow, Job, find_job, put_job, job_state_is}
use ronro.Service.Intake.{is_unresolved}

abbrev pub job_ids : List Job → List String
job_ids js = map (λ j. j.job_id) js

abbrev pub is_pending : Job → Bool
is_pending j = job_state_is j.state JobState.pending

abbrev pub all_pending : List Job → Bool
all_pending [] = true
all_pending (j ∷ js) = is_pending j && all_pending js

-- Completed Jobs, then at most one Job of any state, then pending ones.
unfoldable pub in_order : List Job → Bool
in_order [] = true
in_order (j ∷ js) = let rest = in_order js in if is_unresolved j then all_pending js else rest

-- The Finals after the `n`-th are numbered without a gap, and each has its Job at the same place.
unfoldable pub matched : ℕ → List FinalRow → List Job → Bool
matched n [] [] = true
matched n (f ∷ fs) (j ∷ js) =
    nat_eq f.evidence.sequence (n + 1)
    && nat_eq j.utterance_sequence (n + 1)
    && j.evidence_id == f.evidence.id
    && matched (n + 1) fs js
matched n _ _ = false

all_pending-in_order : (js : List Job) → all_pending js ≡ true → in_order js ≡ true
unfolding in_order
all_pending-in_order [] h = refl
all_pending-in_order (j ∷ js) h = ground (arith, all_pending-in_order js)

all_pending-find :
    (id : String) (js : List Job) (j : Job)
    → all_pending js ≡ true
    → find_job id js ≡ some j
    → is_pending j ≡ true
all_pending-find id [] j h k = cc
all_pending-find id (x ∷ xs) j h k = elim (Bool-cases (x.job_id == id)) [
  | inl same ↦
      let q : some x ≡ some j = rw same at k in
      let q' : x ≡ j = cc in
      let p : is_pending x ≡ true = ground arith in ap is_pending (sym q') ∙ p
  | inr other ↦ all_pending-find id xs j (ground arith) (rw other at k)
]

pub in_order-head : (k : Job) (js : List Job) → all_pending js ≡ true → in_order (k ∷ js) ≡ true
unfolding in_order
in_order-head k js h = ground (arith, all_pending-in_order js)

pub in_order-append :
    (js : List Job) (k : Job)
    → in_order js ≡ true
    → is_pending k ≡ true
    → in_order (js ++ k ∷ []) ≡ true
unfolding in_order
in_order-append [] k h p = ground arith
in_order-append (j ∷ js) k h p = ground (arith, in_order-append js k, pending-append js k)
  where
    pending-append :
        (js : List Job) (k : Job)
        → all_pending js ≡ true
        → is_pending k ≡ true
        → all_pending (js ++ k ∷ []) ≡ true
    pending-append [] k h p = ground arith
    pending-append (j ∷ js) k h p = ground (arith, pending-append js k)

-- A Job that is being processed or failed may go to any state.
pub in_order-put_job :
    (k : Job) (js : List Job) (j : Job)
    → in_order js ≡ true
    → find_job k.job_id js ≡ some j
    → is_pending j ≡ false
    → is_unresolved j ≡ true
    → in_order (put_job k js) ≡ true
unfolding in_order
in_order-put_job k [] j h f p u = cc
in_order-put_job k (x ∷ xs) j h f p u = elim (Bool-cases (x.job_id == k.job_id)) [
  | inl same ↦
      let q : some x ≡ some j = rw same at f in
      let q' : x ≡ j = cc in
      let open_x : is_unresolved x ≡ true = ap is_unresolved q' ∙ u in
      rw same (in_order-head k xs (ground arith))
  | inr other ↦
      let f' : find_job k.job_id xs ≡ some j = rw other at f in
      elim (Bool-cases (is_unresolved x)) [
        | inl live ↦ let late = all_pending-find k.job_id xs j (ground arith) f' in ground arith
        | inr done ↦ rw (other, done) (in_order-put_job k xs j (ground arith) f' p u)
      ]
]
