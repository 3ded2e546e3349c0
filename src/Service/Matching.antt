-- ===== src/Service/Matching.antt =====
-- Each Final beside its Job, and the Job that a claim gives out.
use ronro.Prelude.{
  ℕ, ◌+◌, ◌<◌, String, ◌≡◌, refl, sym, ap, ◌∙◌, arith, true, false, ◌&&◌, Bool-cases, none, some,
  List, [], ◌∷◌, ◌++◌, inl, inr, if◌then◌else◌, ◌==◌, eq_iff, map, length, contains,
  contains-append, append_assoc,
}
use ronro.Service.Store.{FinalRow, Job, find_job, put_job}
use ronro.Service.Intake.{Final, last_sequence, find_existing, joined, jobs_of, is_taken}
use ronro.Service.Order.{job_ids, matched}

abbrev pub final_ids : List FinalRow → List String
final_ids fs = map (λ f. f.evidence.id) fs

abbrev evidence_ids : List Job → List String
evidence_ids js = map (λ j. j.evidence_id) js

pub ids-put_job : (k : Job) (js : List Job) → job_ids (put_job k js) ≡ job_ids js
ids-put_job k [] = refl
ids-put_job k (x ∷ xs) = ground (arith, ids-put_job k xs, eq_iff x.job_id k.job_id)

pub matched-put_job :
    (n : ℕ) (fs : List FinalRow) (js : List Job) (k j : Job)
    → matched n fs js ≡ true
    → find_job k.job_id js ≡ some j
    → k.evidence_id ≡ j.evidence_id
    → k.utterance_sequence ≡ j.utterance_sequence
    → matched n fs (put_job k js) ≡ true
unfolding matched
matched-put_job n [] [] k j m f e s = refl
matched-put_job n [] (x ∷ xs) k j m f e s = ground arith
matched-put_job n (g ∷ gs) [] k j m f e s = m
matched-put_job n (g ∷ gs) (x ∷ xs) k j m f e s = elim (Bool-cases (x.job_id == k.job_id)) [
  | inl same ↦
      let q : some x ≡ some j = rw same at f in
      let q' : x ≡ j = cc in
      let e' : x.evidence_id ≡ k.evidence_id = ap (λ y. y.evidence_id) q' ∙ sym e in
      let s' : x.utterance_sequence ≡ k.utterance_sequence =
        ap (λ y. y.utterance_sequence) q' ∙ sym s in
      rw same
        (ground (arith, eq_iff x.evidence_id g.evidence.id, eq_iff k.evidence_id g.evidence.id))
  | inr other ↦
      let rest = matched-put_job (n + 1) gs xs k j (ground arith) (rw other at f) e s in
      rw other (ground arith)
]

pub last_sequence-matched :
    (n : ℕ) (f : FinalRow) (fs : List FinalRow) (js : List Job)
    → matched n (f ∷ fs) js ≡ true
    → last_sequence (f ∷ fs) ≡ n + length (f ∷ fs)
unfolding matched
last_sequence-matched n f fs [] m = ground arith
last_sequence-matched n f [] (j ∷ js) m = ground arith
last_sequence-matched n f (g ∷ gs) (j ∷ js) m =
    ground (arith, last_sequence-matched (n + 1) g gs js)

pub last_sequence-length :
    (fs : List FinalRow) (js : List Job) → matched 0 fs js ≡ true → last_sequence fs ≡ length fs
last_sequence-length [] js m = refl
last_sequence-length (f ∷ fs) js m = last_sequence-matched 0 f fs js m ∙ omega arith

pub matched-append :
    (n : ℕ) (fs : List FinalRow) (js : List Job) (f : FinalRow) (j : Job)
    → matched n fs js ≡ true
    → f.evidence.sequence ≡ n + length fs + 1
    → j.utterance_sequence ≡ f.evidence.sequence
    → j.evidence_id ≡ f.evidence.id
    → matched n (fs ++ f ∷ []) (js ++ j ∷ []) ≡ true
unfolding matched
matched-append n [] [] f j m s t e = ground (arith, eq_iff j.evidence_id f.evidence.id)
matched-append n [] (x ∷ xs) f j m s t e = ground arith
matched-append n (g ∷ gs) [] f j m s t e = ground arith
matched-append n (g ∷ gs) (x ∷ xs) f j m s t e =
    let rest = matched-append (n + 1) gs xs f j (ground arith) (omega arith) t e in ground arith

-- The sequences of the Jobs after the `n`-th are greater than `n`.
pub matched-later :
    (n : ℕ) (fs : List FinalRow) (js : List Job) (id : String) (j : Job)
    → matched n fs js ≡ true
    → find_job id js ≡ some j
    → n < j.utterance_sequence
unfolding matched
matched-later n fs [] id j m f = cc
matched-later n [] (x ∷ xs) id j m f = ground arith
matched-later n (g ∷ gs) (x ∷ xs) id j m f = elim (Bool-cases (x.job_id == id)) [
  | inl same ↦
      let q : some x ≡ some j = rw same at f in
      let q' : x ≡ j = cc in
      let s : x.utterance_sequence ≡ j.utterance_sequence = ap (λ y. y.utterance_sequence) q' in
      ground arith
  | inr other ↦
      let rest = matched-later (n + 1) gs xs id j (ground arith) (rw other at f) in omega arith
]

evidence_ids-matched :
    (n : ℕ) (fs : List FinalRow) (js : List Job)
    → matched n fs js ≡ true
    → evidence_ids js ≡ final_ids fs
unfolding matched
evidence_ids-matched n [] [] m = refl
evidence_ids-matched n [] (x ∷ xs) m = ground arith
evidence_ids-matched n (g ∷ gs) [] m = ground arith
evidence_ids-matched n (g ∷ gs) (x ∷ xs) m =
    let rest = evidence_ids-matched (n + 1) gs xs (ground arith) in
    let same : (x.evidence_id == g.evidence.id) ≡ true = ground arith in
    ground (arith, eq_iff x.evidence_id g.evidence.id)

-- A row with a Job is seen by the query for a row that is there.
seen :
    (f : Final) (row : FinalRow) (js : List Job) (rest : List (FinalRow × Job))
    → find_existing f (jobs_of row js ++ rest) ≡ none
    → (contains row.evidence.id (evidence_ids js) && is_taken f row ≡ false)
      × (find_existing f rest ≡ none)
seen f row [] rest h = (refl, h)
seen f row (j ∷ js) rest h =
    let tail = seen f row js rest in
    elim (Bool-cases (j.evidence_id == row.evidence.id)) [
      | inl same ↦
          let h' : find_existing f ((row, j) ∷ (jobs_of row js ++ rest)) ≡ none = rw same at h in
          elim (Bool-cases (is_taken f row)) [
            | inl taken ↦
                let bad : (if is_taken f row
                      then some (row, j)
                      else find_existing f (jobs_of row js ++ rest))
                    ≡ none =
                  h' in
                ground arith
            | inr free ↦ let (a, b) = tail (rw free at h') in (ground arith, b)
          ]
      | inr other ↦ let (a, b) = tail (rw other at h) in (ground arith, b)
    ]

absent_after :
    (f : Final) (before : List String) (fs : List FinalRow) (js : List Job)
    → evidence_ids js ≡ before ++ final_ids fs
    → find_existing f (joined fs js) ≡ none
    → contains f.evidence.id (final_ids fs) ≡ false
absent_after f before [] js same h = refl
absent_after f before (g ∷ gs) js same h =
    let (a, b) = seen f g js (joined gs js) h in
    let rest =
      absent_after f (before ++ g.evidence.id ∷ []) gs js
        (same ∙ sym (append_assoc before (g.evidence.id ∷ []) (final_ids gs))) b in
    let there : contains g.evidence.id (evidence_ids js) ≡ true =
      ap (contains g.evidence.id) same
      ∙ contains-append g.evidence.id before (final_ids (g ∷ gs))
      ∙ ground (arith, eq_iff g.evidence.id g.evidence.id) in
    ground arith

-- An Evidence id that the query does not find is new.
pub find_existing-absent :
    (f : Final) (fs : List FinalRow) (js : List Job)
    → matched 0 fs js ≡ true
    → find_existing f (joined fs js) ≡ none
    → contains f.evidence.id (final_ids fs) ≡ false
find_existing-absent f fs js m h = absent_after f [] fs js (evidence_ids-matched 0 fs js m) h
