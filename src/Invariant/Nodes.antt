-- ===== src/Invariant/Nodes.antt =====
-- Looking Nodes up after one was changed or added.
use ronro.Prelude.{
  String, ◌≡◌, refl, sym, ◌∙◌, ap, subst, true, false, ◌||◌, Option, none, some, List, [], ◌∷◌,
  ◌++◌, ◌==◌, All, contains, if◌then◌else◌, eq_iff, arith, Bool-cases, inl, inr, str_eq→eq,
}
use ronro.Errors.{missing_reference}
use ronro.Errors.Safe.{Safe}
use ronro.Domain.{Node, State}
use ronro.Materializer.Nodes.{find_node, require_node, put_node, or_missing}
use ronro.Invariant.{node_ok, has_node, ids}

pub find_node-id : (id : String) (ns : List Node) {n : Node} → find_node id ns ≡ some n → n.id ≡ id
find_node-id id [] h = cc
find_node-id id (m ∷ ns) {n} h = elim (Bool-cases (m.id == id)) [
  | inl same ↦
      let e : some m ≡ some n = rw same at h in
      let e' : m ≡ n = cc in subst (λ (x : Node). x.id ≡ id) e' (str_eq→eq m.id id same)
  | inr differ ↦ find_node-id id ns (rw differ at h)
]

pub require_node-Safe :
    (s : State) (id : String) → Safe (λ n. find_node id s.graph.nodes ≡ some n) (require_node s id)
unfolding require_node
require_node-Safe s id = go (find_node id s.graph.nodes) refl
  where
    go :
        (o : Option Node)
        → find_node id s.graph.nodes ≡ o
        → Safe (λ n. find_node id s.graph.nodes ≡ some n) (or_missing o)
    go none e = Safe.raises missing_reference (λ q. cc)
    go (some n) e = Safe.returns n e

pub find_node-ok :
    (id : String) (ns : List Node) {n : Node}
    → All (λ m. node_ok m ≡ true) ns
    → find_node id ns ≡ some n
    → node_ok n ≡ true
find_node-ok id [] all h = cc
find_node-ok id (m ∷ ns) {n} all h = elim (Bool-cases (m.id == id)) [
  | inl same ↦
      let e : some m ≡ some n = rw same at h in
      let e' : m ≡ n = cc in subst (λ (x : Node). node_ok x ≡ true) e' all.0
  | inr differ ↦ find_node-ok id ns all.1 (rw differ at h)
]

pub All-put_node :
    (m : Node) (ns : List Node)
    → All (λ n. node_ok n ≡ true) ns
    → node_ok m ≡ true
    → All (λ n. node_ok n ≡ true) (put_node m ns)
All-put_node m [] all h = tt
All-put_node m (n ∷ ns) all h = elim (Bool-cases (n.id == m.id)) [
  | inl same ↦ rw same (h, all.1)
  | inr differ ↦ rw differ (all.0, All-put_node m ns all.1 h)
]

pub ids-put_node : (m : Node) (ns : List Node) → ids (put_node m ns) ≡ ids ns
ids-put_node m [] = refl
ids-put_node m (n ∷ ns) = elim (Bool-cases (n.id == m.id)) [
  | inl same ↦ rw same (ap (λ x. x ∷ ids ns) (sym (str_eq→eq n.id m.id same)))
  | inr differ ↦ rw differ (ap (λ xs. n.id ∷ xs) (ids-put_node m ns))
]

pub has_node-ids : (id : String) (ns : List Node) → has_node id ns ≡ contains id (ids ns)
has_node-ids id [] = refl
has_node-ids id (n ∷ ns) = ap (λ b. (n.id == id) || b) (has_node-ids id ns)

pub has_node-put_node :
    (id : String) (m : Node) (ns : List Node) → has_node id (put_node m ns) ≡ has_node id ns
has_node-put_node id m ns =
    has_node-ids id (put_node m ns)
    ∙ ap (contains id) (ids-put_node m ns)
    ∙ sym (has_node-ids id ns)

pub has_node-append :
    (id : String) (ns ms : List Node) → has_node id (ns ++ ms) ≡ (has_node id ns || has_node id ms)
has_node-append id [] ms = refl
has_node-append id (n ∷ ns) ms = ground (arith, has_node-append id ns ms)

pub find_node-has :
    (id : String) (ns : List Node) {n : Node} → find_node id ns ≡ some n → has_node id ns ≡ true
find_node-has id [] h = cc
find_node-has id (m ∷ ns) h = elim (Bool-cases (m.id == id)) [
  | inl same ↦ rw same refl
  | inr differ ↦ rw differ (find_node-has id ns (rw differ at h))
]

-- A changed Node is found under its id, and every other Node as before.
pub find_node-put_node :
    (id : String) (m : Node) (ns : List Node)
    → has_node m.id ns ≡ true
    → find_node id (put_node m ns) ≡ (if m.id == id then some m else find_node id ns)
find_node-put_node id m [] h = cc
find_node-put_node id m (n ∷ ns) h = elim (Bool-cases (n.id == m.id)) [
  | inl same ↦ rw same (ground (arith, eq_iff n.id m.id, eq_iff n.id id, eq_iff m.id id))
  | inr differ ↦ rw differ (
      ground (
        arith,
        find_node-put_node id m ns (rw differ at h),
        eq_iff n.id id,
        eq_iff m.id id,
        eq_iff n.id m.id,
      ))
]

pub find_node-append :
    (id : String) (ns : List Node) (m : Node) {n : Node}
    → find_node id ns ≡ some n
    → find_node id (ns ++ m ∷ []) ≡ some n
find_node-append id [] m h = cc
find_node-append id (k ∷ ns) m h = elim (Bool-cases (k.id == id)) [
  | inl same ↦ rw same (rw same at h)
  | inr differ ↦ rw differ (find_node-append id ns m (rw differ at h))
]

pub not-has_node : (id : String) (ns : List Node) → find_node id ns ≡ none → has_node id ns ≡ false
not-has_node id [] h = refl
not-has_node id (n ∷ ns) h = elim (Bool-cases (n.id == id)) [
  | inl same ↦ absurd (cc (rw same at h))
  | inr differ ↦ rw differ (not-has_node id ns (rw differ at h))
]

pub ids-append : (ns : List Node) (m : Node) → ids (ns ++ m ∷ []) ≡ ids ns ++ m.id ∷ []
ids-append [] m = refl
ids-append (n ∷ ns) m = ap (λ xs. n.id ∷ xs) (ids-append ns m)
