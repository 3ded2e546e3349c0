-- ===== src/Lifecycle/Nodes.antt =====
-- How the Nodes of a state follow from those before an Event.
use ronro.Prelude.{
  String, ◌≡◌, refl, sym, subst, ◌∙◌, true, none, some, List, [], ◌∷◌, ◌++◌, ◌==◌, if◌then◌else◌,
  Bool-cases, inl, inr, arith, str_eq→eq,
}
use ronro.Domain.{Event, Node, NodeStatus, Payload}
use ronro.Materializer.Nodes.{find_node, put_node}
use ronro.Invariant.Nodes.{find_node-put_node, find_node-append, find_node-has, find_node-id}
use ronro.Lifecycle.{IsMoved, may_move, may_appear}

-- Every Node that was found is found again, moved as the table allows, and any other Node that is
-- found is one that the Event may leave.
pub record NodesMoved (e : Event) (p : Payload) (ns ms : List Node) : Type 0 where
  pub moved :
      (id : String) (n : Node)
      → find_node id ns ≡ some n
      → (m : Node) × (find_node id ms ≡ some m) × IsMoved id p n m
  pub appeared :
      (id : String) (m : Node)
      → find_node id ns ≡ none
      → find_node id ms ≡ some m
      → may_appear e p m ≡ true

pub stays : (id : String) (a : NodeStatus) (p : Payload) → may_move id a p a ≡ true
stays id a p = ground arith

pub NodesMoved-refl : (e : Event) (p : Payload) (ns : List Node) → NodesMoved e p ns ns
NodesMoved-refl e p ns = record {
  moved = λ id n found.
      (n, found, record { type = refl; status = stays id n.status p; label = λ _. refl });
  appeared = λ id m absent found. cc;
}

some_path : (n m : Node) → some n ≡ some m → n ≡ m
some_path n m h = cc

found-append :
    (id : String) (ns : List Node) (m k : Node)
    → find_node id ns ≡ none
    → find_node id (ns ++ m ∷ []) ≡ some k
    → m ≡ k
found-append id [] m k absent found = elim (Bool-cases (m.id == id)) [
  | inl same ↦ some_path m k (rw same at found)
  | inr differ ↦ cc (rw differ at found)
]
found-append id (n ∷ ns) m k absent found = elim (Bool-cases (n.id == id)) [
  | inl same ↦ absurd (cc (rw same at absent))
  | inr differ ↦ found-append id ns m k (rw differ at absent) (rw differ at found)
]

pub NodesMoved-append :
    (e : Event) (p : Payload) (ns : List Node) (m : Node)
    → may_appear e p m ≡ true
    → NodesMoved e p ns (ns ++ m ∷ [])
NodesMoved-append e p ns m born = record {
  moved = λ id n found. (
    n,
    find_node-append id ns m found,
    record { type = refl; status = stays id n.status p; label = λ _. refl },
  );
  appeared = λ id k absent found.
      subst (λ x. may_appear e p x ≡ true) (found-append id ns m k absent found) born;
}

-- One Node was changed.
IsMoved-put_node :
    (p : Payload) (ns : List Node) (i : String) (n m : Node)
    → find_node i ns ≡ some n
    → m.id ≡ n.id
    → IsMoved i p n m
    → (id : String) (k : Node) → find_node id ns ≡ some k
    → (l : Node) × (find_node id (put_node m ns) ≡ some l) × IsMoved id p k l
IsMoved-put_node p ns i n m found same moved id k k_found = elim (Bool-cases (m.id == id)) [
  | inl here ↦
      let e : i ≡ id = sym (find_node-id i ns found) ∙ sym same ∙ str_eq→eq m.id id here in
      let q : n ≡ k =
        some_path n k (sym found ∙ subst (λ x. find_node x ns ≡ some k) (sym e) k_found) in
      (
        m,
        rw (put, here) refl,
        subst (λ x. IsMoved id p x m) q (subst (λ x. IsMoved x p n m) e moved),
      )
  | inr differ ↦ (
    k,
    rw (put, differ) k_found,
    record { type = refl; status = stays id k.status p; label = λ _. refl },
  )
]
  where
    m_id : m.id ≡ i
    m_id = same ∙ find_node-id i ns found

    put : find_node id (put_node m ns) ≡ (if m.id == id then some m else find_node id ns)
    put = find_node-put_node id m ns (rw m_id (find_node-has i ns found))

pub NodesMoved-put_node :
    (e : Event) (p : Payload) (ns : List Node) (i : String) (n m : Node)
    → find_node i ns ≡ some n
    → m.id ≡ n.id
    → IsMoved i p n m
    → NodesMoved e p ns (put_node m ns)
NodesMoved-put_node e p ns i n m found same moved = record {
  moved = IsMoved-put_node p ns i n m found same moved;
  appeared = λ id k absent k_found.
      let e = same ∙ find_node-id i ns found in
      let put = find_node-put_node id m ns (rw e (find_node-has i ns found)) in
      elim (Bool-cases (m.id == id)) [
        | inl here ↦ let q : i ≡ id = sym e ∙ str_eq→eq m.id id here in cc (rw q at found)
        | inr differ ↦ cc (rw (put, differ) at k_found)
      ];
}
