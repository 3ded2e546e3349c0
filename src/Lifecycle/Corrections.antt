-- ===== src/Lifecycle/Corrections.antt =====
-- What `_relation_detected` owes to a Human who removed the Relation.
use ronro.Prelude.{
  ℕ, ◌<◌, String, ◌≡◌, refl, sym, subst, Bool, true, false, not, Bool-cases, Option, none, some,
  List, [], ◌∷◌, ◌++◌, inl, inr, any, contains, ltb, arith, eq_iff, contains_self,
}
use ronro.Errors.{Result, ok, raise_if, >>=-eq-ok, >>-eq-ok, raise_if-eq-ok}
use ronro.Domain.{State, Event, Payload, Relation, Evidence}
use ronro.Domain.Schema.{Formats}
use ronro.Materializer.Nodes.{require_node}
use ronro.Materializer.Matrix.{key_eq}
use ronro.Materializer.Relations.{
  removes, last_removal, evidence_sequence, or_later, has_later_evidence, check_removal,
  relation_detected,
}
use ronro.Materializer.Apply.{dispatch, apply}
use ronro.Invariant.Apply.{apply-IsApplied}

last_removal-none :
    (key : Relation) (es : List Event)
    → any (λ e. removes key e.payload) es ≡ false
    → last_removal key es ≡ none
unfolding last_removal
last_removal-none key [] h = refl
last_removal-none key (e ∷ es) h =
    rw (last_removal-none key es (ground arith))
      (let q : removes key e.payload ≡ false = ground arith in rw q refl)

key_eq_refl : (r : Relation) → key_eq r r ≡ true
key_eq_refl r =
    ground
      (arith, eq_iff r.source_node_id r.source_node_id, eq_iff r.target_node_id r.target_node_id)

-- The last correction of the Relation gives the watermark.
last_removal_found :
    (old : Relation) (new : Option Relation) (watermark : ℕ) (independent : Option Bool) (c : Event)
    (earlier later : List Event)
    → c.payload ≡ Payload.correct_relation (some old) new watermark independent
    → any (λ e. removes old e.payload) later ≡ false
    → last_removal old (earlier ++ c ∷ later) ≡ some watermark
unfolding last_removal
last_removal_found old new w i c [] later p none_later =
    rw (last_removal-none old later none_later, p, key_eq_refl old) refl
last_removal_found old new w i c (e ∷ es) later p none_later =
    rw (last_removal_found old new w i c es later p none_later) refl

-- A reference to Evidence that came after the watermark.
pub IsLater : ℕ → List Evidence → List String → Type 0
IsLater watermark evidence refs =
    (ref : String) × (n : ℕ) × (contains ref refs ≡ true)
    × (evidence_sequence ref evidence ≡ some n)
    × (watermark < n)

or_later-IsLater :
    (w : ℕ) (evidence : List Evidence) (ref : String) (refs : List String) (o : Option ℕ)
    (rest : Result Bool)
    → evidence_sequence ref evidence ≡ o
    → (rest ≡ ok true → IsLater w evidence refs)
    → or_later w o rest ≡ ok true
    → IsLater w evidence (ref ∷ refs)
unfolding IsLater
or_later-IsLater w evidence ref refs none rest found below h = cc
or_later-IsLater w evidence ref refs (some n) rest found below h = elim (Bool-cases (ltb w n)) [
  | inl late ↦ (ref, n, contains_self ref refs, found, ground arith)
  | inr early ↦
      let (ref', n', member, found', late) = below (rw early at h) in
      (ref', n', ground arith, found', late)
]

has_later_evidence-IsLater :
    (w : ℕ) (evidence : List Evidence) (refs : List String)
    → has_later_evidence w evidence refs ≡ ok true
    → IsLater w evidence refs
unfolding has_later_evidence
has_later_evidence-IsLater w evidence [] h = cc
has_later_evidence-IsLater w evidence (ref ∷ refs) h =
    or_later-IsLater w evidence ref refs (evidence_sequence ref evidence)
      (has_later_evidence w evidence refs) refl (has_later_evidence-IsLater w evidence refs) h

check_removal-IsLater :
    (s : State) (e : Event) (r : Relation) (w : ℕ)
    → check_removal s e r (some w) ≡ ok tt
    → IsLater w s.evidence e.source_evidence_ids
unfolding check_removal
check_removal-IsLater s e r w h =
    let (late, found, passed) =
      >>=-eq-ok (has_later_evidence w s.evidence e.source_evidence_ids) _ h in
    has_later_evidence-IsLater w s.evidence e.source_evidence_ids (
      subst (λ b. has_later_evidence w s.evidence e.source_evidence_ids ≡ ok b)
        (not_false late (raise_if-eq-ok _ _ passed)) found)
  where
    not_false : (b : Bool) → not b ≡ false → b ≡ true
    not_false true q = refl
    not_false false q = sym q

relation_detected-check_removal :
    (s : State) (e : Event) (history : List Event) (r : Relation) (next : State)
    → relation_detected s e history r ≡ ok next
    → check_removal s e r (last_removal r history) ≡ ok tt
unfolding relation_detected
relation_detected-check_removal s e history r next h =
    let (source, _, h₁) = >>=-eq-ok (require_node s r.source_node_id) _ h in
    let (target, _, h₂) = >>=-eq-ok (require_node s r.target_node_id) _ h₁ in
    let (_, h₃) = >>-eq-ok (raise_if _ _) _ h₂ in
    let (_, h₄) = >>-eq-ok (raise_if _ _) _ h₃ in
    let (_, h₅) = >>-eq-ok (raise_if _ _) _ h₄ in
    let (_, h₆) = >>-eq-ok (raise_if _ _) _ h₅ in
    (>>-eq-ok (check_removal s e r (last_removal r history)) _ h₆).0

-- A removed Relation is detected again only with later Evidence: if an Event detects the Relation
-- that the last correction of it in the history removed, and `apply` returns, then the Event names some Evidence whose sequence is after the one that the correction wrote down.
pub apply-IsLater :
    (formats : Formats) (s : State) (e : Event) (earlier later : List Event) (c : Event)
    (old : Relation) (new : Option Relation) (watermark : ℕ) (independent : Option Bool)
    (next : State)
    → c.payload ≡ Payload.correct_relation (some old) new watermark independent
    → any (λ x. removes old x.payload) later ≡ false
    → e.payload ≡ Payload.relation_detected old
    → apply formats s e (earlier ++ c ∷ later) ≡ ok next
    → IsLater watermark s.evidence e.source_evidence_ids
apply-IsLater formats s e earlier later c old new w i next correction last detects h =
    let applied = apply-IsApplied formats s e (earlier ++ c ∷ later) next h in
    let detected : relation_detected s e (earlier ++ c ∷ later) old ≡ ok applied.dispatched =
      unfold dispatch in
      subst (λ p. dispatch p s e (earlier ++ c ∷ later) ≡ ok applied.dispatched) detects
        applied.handler in
    check_removal-IsLater s e old w (
      subst (λ o. check_removal s e old o ≡ ok tt)
        (last_removal_found old new w i c earlier later correction last)
        (relation_detected-check_removal s e (earlier ++ c ∷ later) old applied.dispatched
          detected))
