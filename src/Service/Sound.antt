-- ===== src/Service/Sound.antt =====
-- The rows of a Session under every method: the invariant, and that each method keeps it.
use ronro.Prelude.{
  ℕ, String, ◌≡◌, refl, ap, ◌∙◌, arith, Bool, true, not, ◌&&◌, ◌||◌, some, length, distinct,
}
use ronro.Errors.{ok}
use ronro.Errors.Ensures.{Ensures, Ensures-ok, Ensures-bind, Ensures-raise_if}
use ronro.Domain.Schema.{Formats}
use ronro.Replay.{ReplayResult, initial_result, replay_events}
use ronro.Replay.Runs.{replay_events-IsReplayed, apply_events-events}
use ronro.Service.Store.{
  JobState, Job, Rows, is_open, find_job, put_job, require_job, owned, replay, job_state_is,
  option_is, new_rows,
}
use ronro.Service.Intake.{is_unresolved}
use ronro.Service.Jobs.{require_owned}
use ronro.Service.Results.{require_job-found, find_job-id}
use ronro.Service.Order.{job_ids, matched, in_order, is_pending, in_order-put_job}
use ronro.Service.Matching.{final_ids, ids-put_job, matched-put_job}

pub record IsSound (rows : Rows) : Type 0 where
  -- Finals 1, 2, ... with one Job each.
  pub paired : matched 0 rows.finals rows.jobs ≡ true
  -- Jobs are worked on one at a time, in the order of their Finals.
  pub ordered : in_order rows.jobs ≡ true
  pub evidences : distinct (final_ids rows.finals) ≡ true
  pub identified : distinct (job_ids rows.jobs) ≡ true
  pub counted : rows.graph_revision ≡ length rows.events
  pub concluded :
      (is_open rows.service_state || option_is rows.final_revision rows.graph_revision) ≡ true

pub new_rows-IsSound : (id : String) → IsSound (new_rows id)
unfolding new_rows matched in_order
new_rows-IsSound id = record {
  paired = refl;
  ordered = refl;
  evidences = refl;
  identified = refl;
  counted = refl;
  concluded = refl;
}

pub replay-counts :
    (formats : Formats) (rows : Rows) (r : ReplayResult)
    → replay formats rows ≡ ok r
    → r.state.graph.revision ≡ length rows.events
unfolding replay
replay-counts formats rows r h =
    (replay_events-IsReplayed formats _ _ _ rows.events r h).counted
    ∙ ap length
        (unfold replay_events initial_result in apply_events-events formats _ rows.events r h)

-- A Job is replaced by one with the same Final.
pub record IsSameJob (j k : Job) : Type 0 where
  pub same_id : k.job_id ≡ j.job_id
  pub same_evidence : k.evidence_id ≡ j.evidence_id
  pub same_sequence : k.utterance_sequence ≡ j.utterance_sequence

pub put_job-IsSound :
    (rows : Rows) (j k : Job)
    → IsSound rows
    → find_job j.job_id rows.jobs ≡ some j
    → IsSameJob j k
    → in_order (put_job k rows.jobs) ≡ true
    → IsSound (record rows { jobs = put_job k rows.jobs })
put_job-IsSound rows j k s found same o = record {
  paired =
      matched-put_job 0 rows.finals rows.jobs k j s.paired
        (ap (λ id. find_job id rows.jobs) same.same_id ∙ found) same.same_evidence
        same.same_sequence;
  ordered = o;
  evidences = s.evidences;
  identified = ap distinct (ids-put_job k rows.jobs) ∙ s.identified;
  counted = s.counted;
  concluded = s.concluded;
}

-- A Job that has left the pending state and is not completed.
abbrev pub is_begun : Job → Bool
is_begun j = not (is_pending j) && is_unresolved j

pub begun-IsSound :
    (rows : Rows) (j k : Job)
    → IsSound rows
    → find_job j.job_id rows.jobs ≡ some j
    → is_begun j ≡ true
    → IsSameJob j k
    → IsSound (record rows { jobs = put_job k rows.jobs })
begun-IsSound rows j k s found begun same = put_job-IsSound rows j k s found same (
    in_order-put_job k rows.jobs j s.ordered (ap (λ id. find_job id rows.jobs) same.same_id ∙ found)
      (ground arith) (ground arith))

abbrev pub IsHeld : Rows → Job → Type 0
IsHeld rows j = (find_job j.job_id rows.jobs ≡ some j) × (is_begun j ≡ true)

pub owned-begun : (attempt : ℕ) (j : Job) → owned attempt j ≡ true → is_begun j ≡ true
owned-begun attempt j h = ground arith

pub failed-begun : (j : Job) → job_state_is j.state JobState.failed ≡ true → is_begun j ≡ true
failed-begun j h = ground arith

pub own_id :
    (rows : Rows) (id : String) (j : Job)
    → require_job rows id ≡ ok j
    → find_job j.job_id rows.jobs ≡ some j
own_id rows id j h =
    let found = require_job-found rows id j h in
    ap (λ i. find_job i rows.jobs) (find_job-id id rows.jobs j found) ∙ found

pub require_owned-IsHeld :
    (rows : Rows) (id : String) (attempt : ℕ)
    → Ensures (IsHeld rows) (require_owned rows id attempt)
unfolding require_owned
require_owned-IsHeld rows id attempt = Ensures-raise_if _ _ _ λ closed. Ensures-bind _ _ λ j h.
    Ensures-raise_if _ _ _
      λ held. Ensures-ok _ (own_id rows id j h, owned-begun attempt j (ground arith))
