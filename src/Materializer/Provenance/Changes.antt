-- ===== src/Materializer/Provenance/Changes.antt =====
-- Which changes of the Edges keep the provenance Relations free of cycles.
use ronro.Prelude.{
  String, ◌≡◌, refl, sym, subst, ◌⊎◌, inl, inr, true, false, ◌&&◌, Option, none, some, List, [],
  ◌∷◌, ◌++◌, ◌==◌, eq_iff, Bool-cases, arith, true-or-absurd,
}
use mathlib.Core.Option
use ronro.Domain.{Edge, Relation}
use ronro.Materializer.Matrix.{key_eq, edge_key}
use ronro.Materializer.Relations.{extend_edge, remove_edge}
use ronro.Materializer.Provenance.{is_provenance, children, provenance_reaches}
use ronro.Materializer.Provenance.Reaching.{HasChild, Reaches, here, step, provenance_reaches_iff}
use ronro.Materializer.Provenance.Visits.{IsAcyclic}

-- No further provenance Edges: no cycle.
module _ (es es' : List Edge) (fewer : (a c : String) → HasChild es' a c → HasChild es a c) where
  Reaches-fewer : (b a : String) → Reaches es' b a → Reaches es b a
  Reaches-fewer b a (here e) = here e
  Reaches-fewer b a (step c h r) = step c (fewer a c h) (Reaches-fewer b c r)

  pub IsAcyclic-fewer : IsAcyclic es → IsAcyclic es'
  IsAcyclic-fewer free a (c, h, r) = free a (c, fewer a c h, Reaches-fewer a c r)

pub children-extend_edge :
    (id : String) (events : List String) (es : List Edge) (a : String)
    → children (extend_edge id events es) a ≡ children es a
unfolding children
children-extend_edge id events [] a = refl
children-extend_edge id events (e ∷ es) a = elim (Bool-cases (e.id == id)) [
  | inl same ↦ rw same refl
  | inr differ ↦ rw differ (rw (children-extend_edge id events es a) refl)
]

HasChild-cons :
    (e : Edge) (es : List Edge) (a c : String)
    → HasChild (e ∷ es) a c
    → HasChild es a c
      ⊎ ((is_provenance e.type ≡ true) × (e.source_node_id ≡ a) × (e.target_node_id ≡ c))
unfolding children
HasChild-cons e es a c h = ground (arith, eq_iff e.source_node_id a, eq_iff e.target_node_id c)

HasChild-later :
    (e : Edge) (es : List Edge) (a c : String) → HasChild es a c → HasChild (e ∷ es) a c
unfolding children
HasChild-later e es a c h = ground arith

HasChild-first :
    (e : Edge) (es : List Edge)
    → is_provenance e.type ≡ true
    → HasChild (e ∷ es) e.source_node_id e.target_node_id
unfolding children
HasChild-first e es h =
    ground
      (arith, eq_iff e.source_node_id e.source_node_id, eq_iff e.target_node_id e.target_node_id)

HasChild-edge :
    (e : Edge) (es : List Edge) (a c : String)
    → is_provenance e.type ≡ true
    → e.source_node_id ≡ a
    → e.target_node_id ≡ c
    → HasChild (e ∷ es) a c
HasChild-edge e es a c p s t =
    subst (λ y. HasChild (e ∷ es) a y) t
      (subst (λ y. HasChild (e ∷ es) y e.target_node_id) s (HasChild-first e es p))

some_path : (xs ys : List Edge) → some xs ≡ some ys → xs ≡ ys
some_path xs ys h = cc

pub map-eq-some :
    (x : Edge) (o : Option (List Edge)) (es : List Edge)
    → Option.map (λ ys. x ∷ ys) o ≡ some es
    → (ys : List Edge) × (o ≡ some ys) × (es ≡ x ∷ ys)
map-eq-some x none es h = absurd (cc h)
map-eq-some x (some ys) es h = (ys, refl, cc)

pub HasChild-append :
    (es : List Edge) (e : Edge) (a c : String)
    → HasChild (es ++ e ∷ []) a c
    → HasChild es a c
      ⊎ ((is_provenance e.type ≡ true) × (e.source_node_id ≡ a) × (e.target_node_id ≡ c))
HasChild-append [] e a c h = HasChild-cons e [] a c h
HasChild-append (x ∷ es) e a c h = elim (HasChild-cons x (es ++ e ∷ []) a c h) [
  | inl later ↦ elim (HasChild-append es e a c later) [
    | inl old ↦ inl (HasChild-later x es a c old)
    | inr new ↦ inr new
  ]
  | inr (p, s, t) ↦ inl (HasChild-edge x es a c p s t)
]

-- A removed Edge only takes children away.
pub HasChild-remove_edge :
    (r : Relation) (es es' : List Edge) (a c : String)
    → remove_edge r es ≡ some es'
    → HasChild es' a c
    → HasChild es a c
unfolding remove_edge
HasChild-remove_edge r [] es' a c e h = cc
HasChild-remove_edge r (x ∷ es) es' a c e h = elim (Bool-cases (key_eq (edge_key x) r)) [
  | inl same ↦
      let q : some es ≡ some es' = rw same at e in
      HasChild-later x es a c (subst (λ ys. HasChild ys a c) (some_path es' es (sym q)) h)
  | inr differ ↦
      let (ys, p, q) = map-eq-some x (remove_edge r es) es' (rw differ at e) in
      elim (HasChild-cons x ys a c (subst (λ zs. HasChild zs a c) q h)) [
        | inl later ↦ HasChild-later x es a c (HasChild-remove_edge r es ys a c p later)
        | inr (p', s, t) ↦ HasChild-edge x es a c p' s t
      ]
]

-- A chain through one further Edge has an old part that leads to the Edge, and one that follows it.
module _ (es : List Edge) (e : Edge) where
  abbrev more : List Edge
  more = es ++ e ∷ []

  Reaches-append :
      (b a : String)
      → Reaches more b a
      → Reaches es b a
        ⊎ ((is_provenance e.type ≡ true)
            × Reaches es e.source_node_id a
            × Reaches es b e.target_node_id)
  Reaches-append b a (here q) = inl (here q)
  Reaches-append b a (step c h r) = elim (HasChild-append es e a c h) [
    | inl old ↦ elim (Reaches-append b c r) [
      | inl k ↦ inl (step c old k)
      | inr (p, k, l) ↦ inr (p, step c old k, l)
    ]
    | inr (p, s, t) ↦ elim (Reaches-append b c r) [
      | inl k ↦ inr (p, here (sym s), subst (λ y. Reaches es b y) (sym t) k)
      | inr (q, k, l) ↦ inr (p, here (sym s), l)
    ]
  ]

  Reaches-trans : (b c a : String) → Reaches es c a → Reaches es b c → Reaches es b a
  Reaches-trans b c a (here q) r = subst (λ y. Reaches es b y) (sym q) r
  Reaches-trans b c a (step d h k) r = step d h (Reaches-trans b c d k r)

  -- The check before an Edge is added keeps the provenance Relations free of cycles.
  pub IsAcyclic-append :
      (is_provenance e.type && provenance_reaches es e.target_node_id e.source_node_id) ≡ false
      → IsAcyclic es
      → IsAcyclic more
  IsAcyclic-append check free a (c, h, r) = elim (HasChild-append es e a c h) [
    | inl old ↦ elim (Reaches-append a c r) [
      | inl k ↦ free a (c, old, k)
      | inr (p, k, l) ↦
          no_way p (Reaches-trans e.source_node_id a e.target_node_id l (step c old k))
    ]
    | inr (p, s, t) ↦ elim (Reaches-append a c r) [
      | inl k ↦ no_way p (
          subst (λ y. Reaches es y e.target_node_id) (sym s)
            (subst (λ y. Reaches es a y) (sym t) k))
      | inr (q, k, l) ↦ no_way p (subst (λ y. Reaches es y e.target_node_id) (sym s) l)
    ]
  ]
    where
      no_way : is_provenance e.type ≡ true → ¬ Reaches es e.source_node_id e.target_node_id
      no_way p r' =
          true-or-absurd ((provenance_reaches_iff es e.target_node_id e.source_node_id).1 r')
            (ground arith)
