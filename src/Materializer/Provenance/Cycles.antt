-- ===== src/Materializer/Provenance/Cycles.antt =====
-- `_has_provenance_cycle` against the relation that it decides.
use ronro.Prelude.{
  ℕ, zero, suc, ◌+◌, String, ◌≡◌, refl, ◌≢◌, ◌⊎◌, inl, inr, ◌↔◌, true, false, List, [], ◌∷◌, ◌==◌,
  contains, length, eq_iff, Bool-cases, arith, subst, str_eq→eq, distinct, length-le_of_distinct,
  true-or-absurd,
}
use ronro.Domain.{Edge}
use ronro.Materializer.Provenance.{
  children, sources, Visit, out_of_fuel, cycle, done, visit_all, visit, cycle_search,
  has_provenance_cycle,
}
use ronro.Materializer.Provenance.Reaching.{HasChild}
use ronro.Materializer.Provenance.Visits.{
  Chain, IsAcyclic, stuck, found, left, ended, visit_all_stops, visit_sound, visit_all-IsVisited,
  visit-IsVisited,
}

pub contains-sources :
    (edges : List Edge) (a c : String) → HasChild edges a c → contains a (sources edges) ≡ true
unfolding children sources
contains-sources [] a c h = absurd (cc h)
contains-sources (e ∷ es) a c h = ground (arith, contains-sources es a c, eq_iff e.source_node_id a)

module _ (edges : List Edge) where
  -- The Nodes being visited are distinct sources, so their number and the fuel left add up.
  visit_fuel :
      (fuel : ℕ) (visiting visited : List String) (n : String)
      → distinct visiting ≡ true
      → ((x : String) → contains x visiting ≡ true → contains x (sources edges) ≡ true)
      → length visiting + fuel ≡ length (sources edges) + 1
      → visit edges fuel visiting visited n ≢ out_of_fuel
  unfolding visit
  visit_fuel zero visiting visited n d sub bound h =
      absurd (omega (arith, length-le_of_distinct visiting (sources edges) d sub))
  visit_fuel (suc fuel) visiting visited n d sub bound h = elim (Bool-cases (contains n visiting)) [
    | inl again ↦ cc (rw again at h)
    | inr first ↦ elim (Bool-cases (contains n visited)) [
      | inl old ↦ cc (rw (first, old) at h)
      | inr new ↦
          elim (ended (visit_all (visit edges fuel (n ∷ visiting)) visited (children edges n))) [
            | found e ↦ cc (rw (first, new, e) at h)
            | left v e ↦ cc (rw (first, new, e) at h)
            | stuck e ↦
                let (c, v, m, k) =
                  visit_all_stops (visit edges fuel (n ∷ visiting)) out_of_fuel (λ v e. cc)
                    (children edges n) visited e in
                visit_fuel fuel (n ∷ visiting) v c (ground arith)
                  (λ x mx. elim (Bool-cases (n == x)) [
                    | inl same ↦
                        subst (λ y. contains y (sources edges) ≡ true) (str_eq→eq n x same)
                          (contains-sources edges n c m)
                    | inr differ ↦ sub x (ground arith)
                  ])
                  (omega arith) k
          ]
    ]
  ]

  abbrev visit_first : List String → String → Visit
  visit_first = visit edges (length (sources edges) + 1) []

  pub cycle_search_ends : cycle_search edges ≢ out_of_fuel
  unfolding cycle_search
  cycle_search_ends h =
      let (c, v, m, k) = visit_all_stops visit_first out_of_fuel (λ v e. cc) (sources edges) [] h in
      visit_fuel (length (sources edges) + 1) [] v c refl (λ x mx. absurd (cc mx)) (omega arith) k

  cycle_search_cycle : cycle_search edges ≡ cycle → (a : String) × Chain edges a a
  unfolding cycle_search
  cycle_search_cycle h =
      let (c, v, m, k) = visit_all_stops visit_first cycle (λ v e. cc) (sources edges) [] h in
      visit_sound edges (length (sources edges) + 1) [] v c (λ x mx. absurd (cc mx)) k

  cycle_search_done : (visited : List String) → cycle_search edges ≡ done visited → IsAcyclic edges
  unfolding cycle_search
  cycle_search_done visited h a (c, k, r) =
      let all =
        visit_all-IsVisited edges visit_first []
          (λ v w d s e. visit-IsVisited edges (length (sources edges) + 1) [] v w d s e)
          (sources edges) [] visited
          (record {
            closed = λ x c m h. absurd (cc m);
            acyclic = λ x m. absurd (cc m);
            apart = λ x m. refl;
          })
          h in
      all.settled.acyclic a (all.visited_all a (contains-sources edges a c k)) (c, k, r)

  cycle_cases :
      ((a : String) × Chain edges a a × (has_provenance_cycle edges ≡ true))
      ⊎ (IsAcyclic edges × (has_provenance_cycle edges ≡ false))
  unfolding has_provenance_cycle
  cycle_cases = elim (ended (cycle_search edges)) [
    | stuck e ↦ absurd (cycle_search_ends e)
    | found e ↦ let (a, chain) = cycle_search_cycle e in inl (a, chain, rw e refl)
    | left v e ↦ inr (cycle_search_done v e, rw e refl)
  ]

-- `_has_provenance_cycle` decides whether the provenance Edges have a cycle: if it answers true,
-- some Node reaches itself by one Edge or more, and if it answers false, none does.
pub has_provenance_cycle_iff :
    (edges : List Edge)
    → (has_provenance_cycle edges ≡ true → (a : String) × Chain edges a a)
      × (has_provenance_cycle edges ≡ false ↔ IsAcyclic edges)
has_provenance_cycle_iff edges = elim (cycle_cases edges) [
  | inl (a, chain, e) ↦
      (λ _. (a, chain), ((λ f. absurd (true-or-absurd e f)), (λ free. absurd (free a chain))))
  | inr (free, e) ↦ ((λ t. absurd (true-or-absurd t e)), ((λ _. free), (λ _. e)))
]
