-- ===== src/Materializer/Provenance/Links.antt =====
-- `_provenance_reaches` and `_has_provenance_cycle` against the Edges themselves: what a chain of
-- provenance Edges is does not go through `adjacency`.
use ronro.Prelude.{
  ◌+◌, String, ◌≡◌, refl, sym, ◌∙◌, ◌≢◌, ◌↔◌, Bool, true, false, ◌&&◌, ◌||◌, some, List, [], ◌∷◌,
  ◌==◌, contains, length, eq_iff, arith,
}
use ronro.Domain.{Edge, EdgeType, edge_type_eq}
use ronro.Materializer.Provenance.{
  children, reach_loop, provenance_reaches, out_of_fuel, cycle_search, has_provenance_cycle,
}
use ronro.Materializer.Provenance.Reaching.{
  Reaches, here, step, reach_loop_ends, provenance_reaches_iff,
}
use ronro.Materializer.Provenance.Visits.{Chain}
use ronro.Materializer.Provenance.Cycles.{cycle_search_ends, has_provenance_cycle_iff}

-- Whether one of the Edges is a provenance Edge from `a` to `b`.
abbrev pub linked : List Edge → String → String → Bool
linked [] a b = false
linked (e ∷ es) a b =
    (edge_type_eq e.type EdgeType.discussion_provenance
      && (e.source_node_id == a)
      && (e.target_node_id == b))
    || linked es a b

-- A chain of provenance Edges from a Node to `goal`, which may have none.
pub data Leads (edges : List Edge) (goal : String) : String → Type 0 where
  arrived : {a : String} → a ≡ goal → Leads edges goal a
  along :
      {a : String} (c : String) → linked edges a c ≡ true → Leads edges goal c → Leads edges goal a

-- A Node that a chain of one provenance Edge or more leads back to.
abbrev pub IsOnCycle : List Edge → String → Type 0
IsOnCycle edges a = (c : String) × (linked edges a c ≡ true) × Leads edges a c

children-linked : (es : List Edge) (a b : String) → contains b (children es a) ≡ linked es a b
unfolding children
children-linked [] a b = refl
children-linked (e ∷ es) a b =
    ground (arith, children-linked es a b, eq_iff e.source_node_id a, eq_iff e.target_node_id b)

module _ (edges : List Edge) where
  leads : (goal a : String) → Reaches edges goal a → Leads edges goal a
  leads goal a (here q) = arrived q
  leads goal a (step c h r) = along c (sym (children-linked edges a c) ∙ h) (leads goal c r)

  reaches : (goal a : String) → Leads edges goal a → Reaches edges goal a
  reaches goal a (arrived q) = here q
  reaches goal a (along c h r) = step c (children-linked edges a c ∙ h) (reaches goal c r)

  on_cycle : (a : String) → Chain edges a a → IsOnCycle edges a
  on_cycle a (c, h, r) = (c, sym (children-linked edges a c) ∙ h, leads a c r)

  chain : (a : String) → IsOnCycle edges a → Chain edges a a
  chain a (c, h, r) = (c, children-linked edges a c ∙ h, reaches a c r)

-- On the fuel that it is given, the worklist loop of `_provenance_reaches` ends, with some answer;
-- the function returns that answer, and it is true exactly if a chain of provenance Edges leads
-- from the start to the goal, whatever the Edges, cycles included.
pub provenance_reaches-Decides :
    (edges : List Edge) (start goal : String)
    → (b : Bool) × (reach_loop edges goal (length edges + 2) (start ∷ []) [] ≡ some b)
      × (provenance_reaches edges start goal ≡ b)
      × (b ≡ true ↔ Leads edges goal start)
unfolding provenance_reaches
provenance_reaches-Decides edges start goal =
    let (b, ended) = reach_loop_ends edges start goal in
    let answer : provenance_reaches edges start goal ≡ b = rw ended refl in
    let (to, from) = provenance_reaches_iff edges start goal in
    (
      b,
      ended,
      answer,
      (
        (λ yes_b. leads edges goal start (to (answer ∙ yes_b))),
        (λ way. sym answer ∙ from (reaches edges goal start way)),
      ),
    )

-- The recursive search of `_has_provenance_cycle` ends on the fuel that it is given, without
-- running out. If the function answers true, some Node is on a cycle of provenance Edges; it
-- answers false exactly if none is.
pub has_provenance_cycle-Decides :
    (edges : List Edge)
    → (cycle_search edges ≢ out_of_fuel)
      × (has_provenance_cycle edges ≡ true → (a : String) × IsOnCycle edges a)
      × (has_provenance_cycle edges ≡ false ↔ ((a : String) → ¬ IsOnCycle edges a))
has_provenance_cycle-Decides edges =
    let (cyclic, (free, none_found)) = has_provenance_cycle_iff edges in
    (
      cycle_search_ends edges,
      (λ h. let (a, round) = cyclic h in (a, on_cycle edges a round)),
      (
        (λ h a round. free h a (chain edges a round)),
        (λ no_round. none_found (λ a round. no_round a (on_cycle edges a round))),
      ),
    )
