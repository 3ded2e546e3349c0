-- ===== src/Invariant/Relations.antt =====
-- The handlers that add, remove and replace Relations keep the state well-formed.
use ronro.Prelude.{
  ℕ, String, ◌≡◌, ◌≢◌, refl, sym, subst, ◌∙◌, Bool, true, false, not, Option, none, some, List, [],
  ◌∷◌, ◌++◌, ◌==◌, All-append, ltb, Bool-cases, inl, inr, arith,
}
use ronro.Errors.{
  Code, Result, key_error, raise_if, invalid_transition, unsupported_relation, missing_reference,
  human_correction_preserved, duplicate_relation,
}
use ronro.Errors.Safe.{Safe, Safe-bind, Safe-then, Safe-raise_if}
use ronro.Domain.{Node, Edge, State, Event, Relation, Evidence}
use ronro.Materializer.Nodes.{find_node, require_node, or_missing}
use ronro.Materializer.Matrix.{set_edges}
use ronro.Materializer.Relations.{
  relation_detected, check_removal, last_removal, has_later_evidence, evidence_sequence, or_later,
  add_detected, new_edge, extend_edge, reaches_back, correct_relation, remove_old, add_new,
  remove_edge,
}
use ronro.Materializer.Apply.{has_evidence, misses_evidence}
use ronro.Materializer.Provenance.Changes.{
  IsAcyclic-fewer, IsAcyclic-append, HasChild-remove_edge, children-extend_edge,
}
use ronro.Invariant.{IsWellFormed, has_node, edge_ok}
use ronro.Invariant.Nodes.{require_node-Safe, find_node-id, find_node-has}
use ronro.Invariant.Edges.{EdgesOk-extend_edge, EdgesOk-remove_edge, edge_ok-new_edge}
use ronro.Invariant.Changes.{set_edges-IsWellFormed}

-- Evidence that the envelope found has a sequence.
has_evidence-sequence :
    (ref : String) (xs : List Evidence)
    → has_evidence xs ref ≡ true
    → evidence_sequence ref xs ≢ none
unfolding evidence_sequence
has_evidence-sequence ref [] h = absurd (cc h)
has_evidence-sequence ref (x ∷ xs) h = ground (arith, has_evidence-sequence ref xs)

or_later-Safe :
    (w : ℕ) (o : Option ℕ) (rest : Result Bool)
    → o ≢ none
    → Safe (λ _. Unit {0}) rest
    → Safe (λ _. Unit {0}) (or_later w o rest)
or_later-Safe w none rest given safe = absurd (given refl)
or_later-Safe w (some n) rest given safe = elim (Bool-cases (ltb w n)) [
  | inl later ↦ rw later (Safe.returns _ tt)
  | inr earlier ↦ rw earlier safe
]

has_later_evidence-Safe :
    (w : ℕ) (xs : List Evidence) (refs : List String)
    → misses_evidence xs refs ≡ false
    → Safe (λ _. Unit {0}) (has_later_evidence w xs refs)
unfolding has_later_evidence
has_later_evidence-Safe w xs [] h = Safe.returns _ tt
has_later_evidence-Safe w xs (ref ∷ refs) h =
    or_later-Safe w (evidence_sequence ref xs) (has_later_evidence w xs refs)
      (has_evidence-sequence ref xs (ground arith))
      (has_later_evidence-Safe w xs refs (ground arith))

raise_if-Safe : (test : Bool) (c : Code) → c ≢ key_error → Safe (λ _. Unit {0}) (raise_if test c)
unfolding raise_if
raise_if-Safe true c n = Safe.raises c n
raise_if-Safe false c n = Safe.returns tt tt

or_missing-Safe {ℓ} : {A : Type ℓ} (o : Option A) → Safe (λ a. o ≡ some a) (or_missing o)
or_missing-Safe none = Safe.raises missing_reference (λ q. cc)
or_missing-Safe (some a) = Safe.returns a refl

module _ (s : State) (e : Event) (wf : IsWellFormed s)
    (same : e.session_id ≡ s.graph.session_id) where
  -- The found Nodes have the ids that the Relation names.
  ends_differ :
      (r : Relation) {n k : Node}
      → find_node r.source_node_id s.graph.nodes ≡ some n
      → find_node r.target_node_id s.graph.nodes ≡ some k
      → (n.id == k.id) ≡ false
      → (r.source_node_id == r.target_node_id) ≡ false
  ends_differ r {n} {k} n_found k_found differ =
      subst (λ i. (i == r.target_node_id) ≡ false)
        (find_node-id r.source_node_id s.graph.nodes n_found)
        (subst (λ i. (n.id == i) ≡ false) (find_node-id r.target_node_id s.graph.nodes k_found)
          differ)

  add_edge-IsWellFormed :
      (r : Relation)
      → has_node r.source_node_id s.graph.nodes ≡ true
      → has_node r.target_node_id s.graph.nodes ≡ true
      → (r.source_node_id == r.target_node_id) ≡ false
      → reaches_back s r ≡ false
      → IsWellFormed (set_edges s (s.graph.edges ++ new_edge e r ∷ []))
  add_edge-IsWellFormed r source target differ free =
      set_edges-IsWellFormed s wf _
        (All-append (λ x. edge_ok s.graph.session_id s.graph.nodes x ≡ true) s.graph.edges
          (new_edge e r ∷ []) wf.edges_ok
          (edge_ok-new_edge s.graph.session_id s.graph.nodes e r same source target differ, tt))
        (IsAcyclic-append s.graph.edges (new_edge e r) free wf.acyclic)

  add_detected-Safe :
      (r : Relation) (o : Option Edge)
      → has_node r.source_node_id s.graph.nodes ≡ true
      → has_node r.target_node_id s.graph.nodes ≡ true
      → (r.source_node_id == r.target_node_id) ≡ false
      → Safe IsWellFormed (add_detected s e r o)
  unfolding add_detected
  add_detected-Safe r (some x) source target differ = Safe.returns _ (
      set_edges-IsWellFormed s wf _
        (EdgesOk-extend_edge s.graph.session_id s.graph.nodes x.id (e.event_id ∷ []) s.graph.edges
          wf.edges_ok)
        (IsAcyclic-fewer s.graph.edges (extend_edge x.id (e.event_id ∷ []) s.graph.edges)
          (λ a c h. rw (children-extend_edge x.id (e.event_id ∷ []) s.graph.edges a) at h)
          wf.acyclic))
  add_detected-Safe r none source target differ =
      Safe-raise_if _ unsupported_relation _ (λ q. cc)
        λ free. Safe.returns _ (add_edge-IsWellFormed r source target differ free)

  check_removal-Safe :
      (r : Relation) (w : Option ℕ)
      → misses_evidence s.evidence e.source_evidence_ids ≡ false
      → Safe (λ _. Unit {0}) (check_removal s e r w)
  unfolding check_removal
  check_removal-Safe r none h = Safe.returns _ tt
  check_removal-Safe r (some w) h =
      Safe-bind (has_later_evidence w s.evidence e.source_evidence_ids) _
        (has_later_evidence-Safe w s.evidence e.source_evidence_ids h)
        λ later _ _. raise_if-Safe (not later) human_correction_preserved (λ q. cc)

  pub relation_detected-Safe :
      (history : List Event) (r : Relation)
      → misses_evidence s.evidence e.source_evidence_ids ≡ false
      → Safe IsWellFormed (relation_detected s e history r)
  unfolding relation_detected
  relation_detected-Safe history r known =
      Safe-bind (require_node s r.source_node_id) _ (require_node-Safe s r.source_node_id)
        λ n _ n_found.
          Safe-bind (require_node s r.target_node_id) _ (require_node-Safe s r.target_node_id)
            λ k _ k_found.
              Safe-raise_if _ unsupported_relation _ (λ q. cc)
                λ differ.
                  Safe-raise_if _ unsupported_relation _ (λ q. cc)
                    λ _.
                      Safe-raise_if _ unsupported_relation _ (λ q. cc)
                        λ _.
                          Safe-raise_if _ missing_reference _ (λ q. cc)
                            λ _.
                              Safe-then (check_removal s e r (last_removal r history)) _
                                (check_removal-Safe r (last_removal r history) known)
                                λ _.
                                  add_detected-Safe r _
                                    (find_node-has r.source_node_id s.graph.nodes n_found)
                                    (find_node-has r.target_node_id s.graph.nodes k_found)
                                    (ends_differ r n_found k_found differ)

  pub add_new-Safe : (new : Option Relation) → Safe IsWellFormed (add_new s e new)
  unfolding add_new
  add_new-Safe none = Safe.returns s wf
  add_new-Safe (some r) =
      Safe-bind (require_node s r.source_node_id) _ (require_node-Safe s r.source_node_id)
        λ n _ n_found.
          Safe-bind (require_node s r.target_node_id) _ (require_node-Safe s r.target_node_id)
            λ k _ k_found.
              Safe-raise_if _ unsupported_relation _ (λ q. cc)
                λ differ.
                  Safe-raise_if _ unsupported_relation _ (λ q. cc)
                    λ _.
                      Safe-raise_if _ unsupported_relation _ (λ q. cc)
                        λ _.
                          Safe-raise_if _ duplicate_relation _ (λ q. cc)
                            λ _.
                              Safe-raise_if _ unsupported_relation _ (λ q. cc)
                                λ free. Safe.returns _ (
                                  add_edge-IsWellFormed r
                                    (find_node-has r.source_node_id s.graph.nodes n_found)
                                    (find_node-has r.target_node_id s.graph.nodes k_found)
                                    (ends_differ r n_found k_found (ground arith)) free)

-- What the removal of the old Relation keeps besides.
abbrev Kept : State → State → Type 0
Kept s t = IsWellFormed t × (t.graph.session_id ≡ s.graph.session_id)

remove_old-Safe :
    (s : State) → IsWellFormed s → (old : Option Relation) → Safe (Kept s) (remove_old s old)
unfolding remove_old
remove_old-Safe s wf none = Safe.returns s (wf, refl)
remove_old-Safe s wf (some r) =
    Safe-bind (or_missing (remove_edge r s.graph.edges)) _
      (or_missing-Safe (remove_edge r s.graph.edges))
      λ es _ removed. Safe.returns _ (
        set_edges-IsWellFormed s wf es
            (EdgesOk-remove_edge s.graph.session_id s.graph.nodes r s.graph.edges es removed
              wf.edges_ok)
            (IsAcyclic-fewer s.graph.edges es
              (λ a c h. HasChild-remove_edge r s.graph.edges es a c removed h) wf.acyclic),
        refl,
      )

pub correct_relation-Safe :
    (s : State) (e : Event)
    → IsWellFormed s
    → e.session_id ≡ s.graph.session_id
    → (old new : Option Relation) → Safe IsWellFormed (correct_relation s e old new)
unfolding correct_relation
correct_relation-Safe s e wf same old new =
    Safe-raise_if _ invalid_transition _ (λ q. cc)
      λ _.
        Safe-raise_if _ invalid_transition _ (λ q. cc)
          λ _.
            Safe-bind (remove_old s old) _ (remove_old-Safe s wf old)
              λ t _ (wf', kept). add_new-Safe t e wf' (same ∙ sym kept) new
