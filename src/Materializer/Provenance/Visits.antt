-- ===== src/Materializer/Provenance/Visits.antt =====
-- One call of `visit` in `_has_provenance_cycle`: what it means that it reports a cycle, and that it
-- returns.
use ronro.Prelude.{
  ℕ, zero, suc, String, ◌≡◌, refl, sym, ◌∙◌, ◌≢◌, inl, inr, true, false, List, [], ◌∷◌, ◌==◌,
  contains, eq_iff, Bool-cases, arith, subst, str_eq→eq,
}
use ronro.Domain.{Edge}
use ronro.Materializer.Provenance.{children, Visit, out_of_fuel, cycle, done, visit_all, visit}
use ronro.Materializer.Provenance.Reaching.{HasChild, Reaches, here, step}

-- One provenance Edge and then any number of them.
abbrev pub Chain : List Edge → String → String → Type 0
Chain edges a b = (c : String) × HasChild edges a c × Reaches edges b c

abbrev pub IsAcyclic : List Edge → Type 0
IsAcyclic edges = (a : String) → ¬ Chain edges a a

Reaches-snoc :
    (edges : List Edge) (b c a : String)
    → HasChild edges b c
    → Reaches edges b a
    → Reaches edges c a
Reaches-snoc edges b c a h (here e) = step c (subst (λ x. HasChild edges x c) (sym e) h) (here refl)
Reaches-snoc edges b c a h (step d k r) = step d k (Reaches-snoc edges b c d h r)

-- How a call of `visit` can end.
pub data Ended (r : Visit) : Type 0 where
  stuck : r ≡ out_of_fuel → Ended r
  found : r ≡ cycle → Ended r
  left : (visited : List String) → r ≡ done visited → Ended r

pub ended : (r : Visit) → Ended r
ended out_of_fuel = stuck refl
ended cycle = found refl
ended (done v) = left v refl

-- Where the loop over some Nodes does not return, one of the calls did not.
pub visit_all_stops :
    (call : List String → String → Visit) (stop : Visit)
    → ((v : List String) → done v ≢ stop)
    → (cs visited : List String) → visit_all call visited cs ≡ stop
    → (c : String) × (v : List String) × (contains c cs ≡ true) × (call v c ≡ stop)
unfolding visit_all
visit_all_stops call stop never [] visited h = absurd (never visited h)
visit_all_stops call stop never (c ∷ cs) visited h = elim (ended (call visited c)) [
  | stuck e ↦ (c, visited, ground (arith, eq_iff c c), e ∙ (rw (e, visit_all) at h))
  | found e ↦ (c, visited, ground (arith, eq_iff c c), e ∙ (rw (e, visit_all) at h))
  | left v e ↦
      let (d, w, m, k) = visit_all_stops call stop never cs v (rw (e, visit_all) at h) in
      (d, w, ground arith, k)
]

module _ (edges : List Edge) where
  -- A cycle that is reported is one.
  pub visit_sound :
      (fuel : ℕ) (visiting visited : List String) (n : String)
      → ((x : String) → contains x visiting ≡ true → Chain edges x n)
      → visit edges fuel visiting visited n ≡ cycle
      → (a : String) × Chain edges a a
  unfolding visit
  visit_sound zero visiting visited n chain h = absurd (cc h)
  visit_sound (suc fuel) visiting visited n chain h = elim (Bool-cases (contains n visiting)) [
    | inl again ↦ (n, chain n again)
    | inr first ↦ elim (Bool-cases (contains n visited)) [
      | inl old ↦ absurd (cc (rw (first, old) at h))
      | inr new ↦
          elim (ended (visit_all (visit edges fuel (n ∷ visiting)) visited (children edges n))) [
            | stuck e ↦ absurd (cc (rw (first, new, e) at h))
            | left v e ↦ absurd (cc (rw (first, new, e) at h))
            | found e ↦
                let (c, v, m, k) =
                  visit_all_stops (visit edges fuel (n ∷ visiting)) cycle (λ v e. cc)
                    (children edges n) visited e in
                visit_sound fuel (n ∷ visiting) v c
                  (λ x mx. elim (Bool-cases (n == x)) [
                    | inl same ↦ subst (λ y. Chain edges y c) (str_eq→eq n x same) (c, m, here refl)
                    | inr differ ↦
                        let (d, hd, r) = chain x (ground arith) in
                        (d, hd, Reaches-snoc edges n c d m r)
                  ])
                  k
          ]
    ]
  ]

  -- The Nodes whose visit returned: nothing leads out of them, and no cycle goes through them.
  pub record IsSettled (visiting visited : List String) : Type 0 where
    pub closed :
        (x c : String) → contains x visited ≡ true → HasChild edges x c → contains c visited ≡ true
    pub acyclic : (x : String) → contains x visited ≡ true → ¬ Chain edges x x
    pub apart : (x : String) → contains x visiting ≡ true → contains x visited ≡ false

  settled-Reaches :
      (visiting visited : List String) (b x : String)
      → IsSettled visiting visited
      → contains x visited ≡ true
      → Reaches edges b x
      → contains b visited ≡ true
  settled-Reaches visiting visited b x s m (here e) = subst (λ y. contains y visited ≡ true) e m
  settled-Reaches visiting visited b x s m (step c h r) =
      settled-Reaches visiting visited b c s (s.closed x c m h) r

  IsSettled-add :
      (n : String) (visiting visited : List String)
      → contains n visiting ≡ false
      → IsSettled (n ∷ visiting) visited
      → ((c : String) → HasChild edges n c → contains c visited ≡ true)
      → IsSettled visiting (n ∷ visited)
  IsSettled-add n visiting visited first s below = record {
    closed = λ x c m h. elim (Bool-cases (n == x)) [
      | inl same ↦
          ground (arith, below c (subst (λ y. HasChild edges y c) (sym (str_eq→eq n x same)) h))
      | inr differ ↦ ground (arith, s.closed x c (ground arith) h)
    ];
    acyclic = λ x m (c, h, r). elim (Bool-cases (n == x)) [
      | inl same ↦
          let e = str_eq→eq n x same in
          let h' = below c (subst (λ y. HasChild edges y c) (sym e) h) in
          ground (
            arith,
            settled-Reaches (n ∷ visiting) visited x c s h' r,
            s.apart n (ground (arith, eq_iff n n)),
          )
      | inr differ ↦ s.acyclic x (ground arith) (c, h, r)
    ];
    apart = λ x m. elim (Bool-cases (n == x)) [
      | inl same ↦ ground (arith, eq_iff n x)
      | inr differ ↦ ground (arith, s.apart x (ground arith))
    ];
  }

  IsSettled-enter :
      (n : String) (visiting visited : List String)
      → IsSettled visiting visited
      → contains n visited ≡ false
      → IsSettled (n ∷ visiting) visited
  IsSettled-enter n visiting visited s new = record {
    closed = s.closed;
    acyclic = s.acyclic;
    apart = λ x m. elim (Bool-cases (n == x)) [
      | inl same ↦ subst (λ y. contains y visited ≡ false) (str_eq→eq n x same) new
      | inr differ ↦ s.apart x (ground arith)
    ];
  }

  -- What a call leaves that returns `after`, having been given `before` and the Nodes `cs`.
  pub record IsVisited (visiting before after : List String) (cs : List String) : Type 0 where
    pub settled : IsSettled visiting after
    pub grows : (x : String) → contains x before ≡ true → contains x after ≡ true
    pub visited_all : (c : String) → contains c cs ≡ true → contains c after ≡ true

  pub visit_all-IsVisited :
      (call : List String → String → Visit) (visiting : List String)
      → ((v w : List String) (c : String)
          → IsSettled visiting v
          → call v c ≡ done w
          → IsVisited visiting v w (c ∷ []))
      → (cs before after : List String) → IsSettled visiting before
      → visit_all call before cs ≡ done after
      → IsVisited visiting before after cs
  unfolding visit_all
  visit_all-IsVisited call visiting one [] before after s h =
      let e : before ≡ after = cc in
      subst (λ w. IsVisited visiting before w []) e
        (record { settled = s; grows = λ x m. m; visited_all = λ c m. absurd (cc m) })
  visit_all-IsVisited call visiting one (c ∷ cs) before after s h = elim (ended (call before c)) [
    | stuck e ↦ absurd (cc (rw (e, visit_all) at h))
    | found e ↦ absurd (cc (rw (e, visit_all) at h))
    | left v e ↦
        let first = one before v c s e in
        let later =
          visit_all-IsVisited call visiting one cs v after first.settled (rw (e, visit_all) at h) in
        record {
          settled = later.settled;
          grows = λ x m. later.grows x (first.grows x m);
          visited_all = λ x m. elim (Bool-cases (c == x)) [
            | inl same ↦ later.grows x (first.visited_all x (ground arith))
            | inr differ ↦ later.visited_all x (ground arith)
          ];
        }
  ]

  pub visit-IsVisited :
      (fuel : ℕ) (visiting before after : List String) (n : String)
      → IsSettled visiting before
      → visit edges fuel visiting before n ≡ done after
      → IsVisited visiting before after (n ∷ [])
  unfolding visit
  visit-IsVisited zero visiting before after n s h = absurd (cc h)
  visit-IsVisited (suc fuel) visiting before after n s h = elim (Bool-cases (contains n visiting)) [
    | inl again ↦ absurd (cc (rw again at h))
    | inr first ↦ elim (Bool-cases (contains n before)) [
      | inl old ↦
          let same : done before ≡ done after = rw (first, old) at h in
          let e : before ≡ after = cc in
          subst (λ w. IsVisited visiting before w (n ∷ [])) e
            record {
              settled = s;
              grows = λ x m. m;
              visited_all = λ c m. ground (arith, eq_iff n c);
            }
      | inr new ↦
          elim (ended (visit_all (visit edges fuel (n ∷ visiting)) before (children edges n))) [
            | stuck e ↦ absurd (cc (rw (first, new, e) at h))
            | found e ↦ absurd (cc (rw (first, new, e) at h))
            | left v e ↦
                let same : done (n ∷ v) ≡ done after = rw (first, new, e) at h in
                let e' : n ∷ v ≡ after = cc in
                let below =
                  visit_all-IsVisited (visit edges fuel (n ∷ visiting)) (n ∷ visiting)
                    (λ w w' c sw hw. visit-IsVisited fuel (n ∷ visiting) w w' c sw hw)
                    (children edges n) before v (IsSettled-enter n visiting before s new) e in
                subst (λ w. IsVisited visiting before w (n ∷ [])) e'
                  record {
                    settled = IsSettled-add n visiting v first below.settled below.visited_all;
                    grows = λ x m. ground (arith, below.grows x m);
                    visited_all = λ c m. ground (arith, eq_iff n c);
                  }
          ]
    ]
  ]
