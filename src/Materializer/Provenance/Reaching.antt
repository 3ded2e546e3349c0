-- ===== src/Materializer/Provenance/Reaching.antt =====
-- `_provenance_reaches` against the relation that it decides.
use ronro.Prelude.{
  ℕ, zero, suc, ◌+◌, ◌≤◌, ◌<◌, String, ◌≡◌, refl, inl, inr, ◌↔◌, Bool, true, false, not, ◌&&◌, ◌||◌,
  Option, some, List, [], ◌∷◌, ◌++◌, ◌==◌, contains, length, if◌then◌else◌, length-append,
  contains-append, eq_iff, Bool-cases, arith, subst, str_eq→eq,
}
use ronro.Domain.{Edge}
use ronro.Materializer.Provenance.{
  is_provenance, children, reach_loop, provenance_reaches, is_some_true,
}

-- A provenance Edge from `a` to `b`.
abbrev pub HasChild : List Edge → String → String → Type 0
HasChild edges a b = contains b (children edges a) ≡ true

-- A chain of provenance Edges, none of them at least, that ends at `goal`.
pub data Reaches (edges : List Edge) (goal : String) : String → Type 0 where
  here : {a : String} → a ≡ goal → Reaches edges goal a
  step :
      {a : String} (c : String) → HasChild edges a c → Reaches edges goal c → Reaches edges goal a

-- Edges whose source has not been seen.
open_edges : List Edge → List String → ℕ
open_edges [] seen = 0
open_edges (e ∷ es) seen =
    if is_provenance e.type && not (contains e.source_node_id seen)
    then suc (open_edges es seen)
    else open_edges es seen

open_edges-le : (es : List Edge) (seen : List String) → open_edges es seen ≤ length es
unfolding open_edges
open_edges-le [] seen = omega arith
open_edges-le (e ∷ es) seen = ground (arith, open_edges-le es seen)

open_edges-children :
    (es : List Edge) (n : String) (seen : List String)
    → contains n seen ≡ false
    → open_edges es (n ∷ seen) + length (children es n) ≤ open_edges es seen
unfolding open_edges children
open_edges-children [] n seen h = omega arith
open_edges-children (e ∷ es) n seen h =
    ground
      (arith, open_edges-children es n seen h, eq_iff e.source_node_id n, eq_iff n e.source_node_id)

module _ (edges : List Edge) (goal : String) where
  abbrev run : ℕ → List String → List String → Option Bool
  run = reach_loop edges goal

  reach_loop_total :
      (fuel : ℕ) (pending seen : List String)
      → length pending + open_edges edges seen < fuel
      → (b : Bool) × (run fuel pending seen ≡ some b)
  unfolding reach_loop
  reach_loop_total zero pending seen h = elim h [ ]
  reach_loop_total (suc fuel) [] seen h = (false, refl)
  reach_loop_total (suc fuel) (n ∷ pending) seen h = elim (Bool-cases (n == goal)) [
    | inl found ↦ (true, rw found refl)
    | inr other ↦ elim (Bool-cases (contains n seen)) [
      | inl old ↦ rw (other, old) (reach_loop_total fuel pending seen (omega arith))
      | inr new ↦
          rw (other, new)
            (reach_loop_total fuel (children edges n ++ pending) (n ∷ seen) (
              omega (
                arith,
                length-append (children edges n) pending,
                open_edges-children edges n seen new,
              )))
    ]
  ]

  -- The search answers true only if the goal can be reached from a Node that is pending.
  reach_loop_sound :
      (fuel : ℕ) (pending seen : List String)
      → run fuel pending seen ≡ some true
      → (x : String) × (contains x pending ≡ true) × Reaches edges goal x
  unfolding reach_loop
  reach_loop_sound zero pending seen h = cc
  reach_loop_sound (suc fuel) [] seen h = cc
  reach_loop_sound (suc fuel) (n ∷ pending) seen h = elim (Bool-cases (n == goal)) [
    | inl found ↦ (n, ground (arith, eq_iff n n), here (str_eq→eq n goal found))
    | inr other ↦ elim (Bool-cases (contains n seen)) [
      | inl old ↦
          let (x, m, r) = reach_loop_sound fuel pending seen (rw (other, old) at h) in
          (x, ground arith, r)
      | inr new ↦
          let (x, m, r) =
            reach_loop_sound fuel (children edges n ++ pending) (n ∷ seen) (rw (other, new) at h) in
          elim (Bool-cases (contains x (children edges n))) [
            | inl child ↦ (n, ground (arith, eq_iff n n), step x child r)
            | inr later ↦ (x, ground (arith, contains-append x (children edges n) pending), r)
          ]
    ]
  ]

  -- What was seen is not the goal, and its children were seen or are pending.
  record IsExplored (pending seen : List String) : Type 0 where
    not_goal : (x : String) → contains x seen ≡ true → (x == goal) ≡ false
    closed :
        (x c : String)
        → contains x seen ≡ true
        → HasChild edges x c
        → (contains c seen || contains c pending) ≡ true

  explored_none :
      (seen : List String) (x : String)
      → IsExplored [] seen
      → contains x seen ≡ true
      → ¬ Reaches edges goal x
  explored_none seen x inv m (here e) = ground (arith, inv.not_goal x m, eq_iff x goal)
  explored_none seen x inv m (step c h r) =
      explored_none seen c inv (ground (arith, inv.closed x c m h)) r

  IsExplored-old :
      (n : String) (pending seen : List String)
      → contains n seen ≡ true
      → IsExplored (n ∷ pending) seen
      → IsExplored pending seen
  IsExplored-old n pending seen old inv = record {
    not_goal = inv.not_goal;
    closed = λ x c m h. ground (arith, inv.closed x c m h, eq_iff n c);
  }

  IsExplored-new :
      (n : String) (pending seen : List String)
      → (n == goal) ≡ false
      → IsExplored (n ∷ pending) seen
      → IsExplored (children edges n ++ pending) (n ∷ seen)
  IsExplored-new n pending seen other inv = record {
    not_goal = λ x m. elim (Bool-cases (n == x)) [
      | inl same ↦ ground (arith, eq_iff n x)
      | inr differ ↦ inv.not_goal x (ground arith)
    ];
    closed = λ x c m h. elim (Bool-cases (n == x)) [
      | inl same ↦ ground (arith, eq_iff n x, contains-append c (children edges n) pending)
      | inr differ ↦
          ground
            (arith, inv.closed x c (ground arith) h, contains-append c (children edges n) pending)
    ];
  }

  -- The search answers false only if the goal can be reached from no Node that is pending.
  reach_loop_complete :
      (fuel : ℕ) (pending seen : List String) (x : String)
      → run fuel pending seen ≡ some false
      → IsExplored pending seen
      → (contains x seen || contains x pending) ≡ true
      → ¬ Reaches edges goal x
  unfolding reach_loop
  reach_loop_complete zero pending seen x h inv m = cc
  reach_loop_complete (suc fuel) [] seen x h inv m = explored_none seen x inv (ground arith)
  reach_loop_complete (suc fuel) (n ∷ pending) seen x h inv m = elim (Bool-cases (n == goal)) [
    | inl found ↦ λ _. cc (rw found at h)
    | inr other ↦ elim (Bool-cases (contains n seen)) [
      | inl old ↦
          reach_loop_complete fuel pending seen x (rw (other, old) at h)
            (IsExplored-old n pending seen old inv) (ground (arith, eq_iff n x))
      | inr new ↦
          reach_loop_complete fuel (children edges n ++ pending) (n ∷ seen) x (rw (other, new) at h)
            (IsExplored-new n pending seen other inv)
            (ground (arith, contains-append x (children edges n) pending))
    ]
  ]

pub reach_loop_ends :
    (edges : List Edge) (start goal : String)
    → (b : Bool) × (reach_loop edges goal (length edges + 2) (start ∷ []) [] ≡ some b)
reach_loop_ends edges start goal =
    reach_loop_total edges goal (length edges + 2) (start ∷ []) []
      (omega (arith, open_edges-le edges []))

-- `_provenance_reaches` answers true exactly if a chain of provenance Edges leads from the start
-- to the goal, whatever the Edges, cycles included.
pub provenance_reaches_iff :
    (edges : List Edge) (start goal : String)
    → (provenance_reaches edges start goal ≡ true) ↔ Reaches edges goal start
unfolding provenance_reaches
provenance_reaches_iff edges start goal = (to, from)
  where
    answer : (b : Bool) × (reach_loop edges goal (length edges + 2) (start ∷ []) [] ≡ some b)
    answer = reach_loop_ends edges start goal

    only : (x : String) → contains x (start ∷ []) ≡ true → x ≡ start
    only x m = ground (arith, eq_iff start x)

    to :
        is_some_true (reach_loop edges goal (length edges + 2) (start ∷ []) []) ≡ true
        → Reaches edges goal start
    to h =
        let (b, e) = answer in
        let (x, m, r) =
          reach_loop_sound edges goal (length edges + 2) (start ∷ []) [] (ground (arith)) in
        subst (Reaches edges goal) (only x m) r

    from :
        Reaches edges goal start
        → is_some_true (reach_loop edges goal (length edges + 2) (start ∷ []) []) ≡ true
    from r =
        let (b, e) = answer in
        elim (Bool-cases b) [
          | inl yes_b ↦ rw (e, yes_b) refl
          | inr no_b ↦ absurd (
              reach_loop_complete edges goal (length edges + 2) (start ∷ []) [] start (rw no_b at e)
                (record { not_goal = λ x m. cc; closed = λ x c m h. cc })
                (ground (arith, eq_iff start start)) r)
        ]
