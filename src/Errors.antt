-- ===== src/Errors.antt =====
-- prototype/errors.py: the code of each error, and results that may be one. The message, the path
-- and the other details of an error are not modelled; no code branches on them.
pub mod Safe
pub mod Ensures
pub mod Returns
use ronro.Prelude.{String, Bool, true, false, ◌≡◌, refl}

-- Of PrototypeError, then of QueueError in prototype/live_queue.py, then of ServiceStoreError in
-- prototype/service_store.py. `key_error` and `value_error` are Python's KeyError and ValueError,
-- which carry no code; `analyzer_failed` carries the code that an Analyzer reports;
-- `integrity_error` is the error of SQLite where a row breaks a UNIQUE or PRIMARY KEY constraint.
pub data Code : Type 0 where
  schema_invalid session_mismatch duplicate_event_id duplicate_sequence sequence_gap : Code
  revision_mismatch missing_reference invalid_transition unsupported_relation : Code
  human_correction_preserved duplicate_relation unsupported_correction command_invalid : Code
  replay_failed key_error value_error : Code
  queue_closed queue_invalid_state duplicate_queue_item duplicate_utterance_sequence : Code
  queue_invalid_transition queue_item_missing utterance_sequence_invalid duplicate_evidence : Code
  utterance_missing revision_conflict candidate_rejected worker_failure : Code
  analyzer_failed : (code : String) → Code
  session_not_found session_closed session_invalid created_event_invalid evidence_mismatch : Code
  sequence_invalid job_invalid duplicate_final session_finalizing job_not_found stale_claim : Code
  analyzer_job_required unresolved_jobs end_event_invalid drain_status_mismatch : Code
  pending_analysis_mismatch job_not_failed integrity_error : Code

pub data Result {ℓ} (A : Type ℓ) : Type ℓ where
  ok : A → Result A
  err : Code → Result A

infixl 10 ◌>>=◌ ◌>>◌
unfoldable pub ◌>>=◌ {ℓ κ} : {A : Type ℓ} {B : Type κ} → Result A → (A → Result B) → Result B
ok a >>= f = f a
err c >>= f = err c

unfoldable pub ◌>>◌ {ℓ} : {B : Type ℓ} → Result (Unit {0}) → Result B → Result B
ok _ >> k = k
err c >> k = err c

-- `if test: raise ...`
unfoldable pub raise_if : Bool → Code → Result (Unit {0})
raise_if true c = err c
raise_if false c = ok tt

-- A chain of steps that returned: each of its steps did.
module _ {ℓ} {B : Type ℓ} where
  pub >>=-eq-ok {κ} :
      {A : Type κ} (step : Result A) (next : A → Result B) {result : B}
      → (step >>= next) ≡ ok result
      → (x : A) × (step ≡ ok x) × (next x ≡ ok result)
  unfolding ◌>>=◌
  >>=-eq-ok (err code) next returned = cc
  >>=-eq-ok (ok x) next returned = (x, refl, returned)

  pub >>-eq-ok :
      (check : Result (Unit {0})) (next : Result B) {result : B}
      → (check >> next) ≡ ok result
      → (check ≡ ok tt) × (next ≡ ok result)
  unfolding ◌>>◌
  >>-eq-ok (err code) next returned = cc
  >>-eq-ok (ok u) next returned = (refl, returned)

-- `raise_if` passes exactly if its test is false.
pub raise_if-eq-ok : (test : Bool) (c : Code) → raise_if test c ≡ ok tt → test ≡ false
unfolding raise_if
raise_if-eq-ok true c h = cc
raise_if-eq-ok false c h = refl

pub >>_assoc {ℓ} :
    {B : Type ℓ} (m k : Result (Unit {0})) (l : Result B) → (m >> k) >> l ≡ m >> (k >> l)
unfolding ◌>>◌
>>_assoc (ok u) k l = refl
>>_assoc (err c) k l = refl

pub >>=_ok {ℓ} : {A : Type ℓ} (m : Result A) → (m >>= λ a. ok a) ≡ m
unfolding ◌>>=◌
>>=_ok (ok a) = refl
>>=_ok (err c) = refl

pub >>=_assoc {ℓ κ μ} :
    {A : Type ℓ} {B : Type κ} {D : Type μ} (m : Result A) (f : A → Result B) (g : B → Result D)
    → ((m >>= f) >>= g) ≡ (m >>= λ a. f a >>= g)
unfolding ◌>>=◌
>>=_assoc (ok a) f g = refl
>>=_assoc (err c) f g = refl

pub ok-injective {ℓ} : {A : Type ℓ} (a b : A) → ok a ≡ ok b → a ≡ b
ok-injective a b h = cc
