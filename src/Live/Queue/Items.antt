-- ===== src/Live/Queue/Items.antt =====
-- The dict of items and the heap of entries, as lists.
use ronro.Prelude.{
  ℕ, ◌+◌, ◌≤◌, String, ◌≡◌, refl, ◌∙◌, Bool, true, false, not, ◌&&◌, ◌||◌, Bool-cases, some, List,
  [], ◌∷◌, ◌++◌, ◌==◌, map, any, All, inl, inr, ltb, arith, eq_iff, str_eq→eq, subst, if◌then◌else◌,
  contains, distinct,
}
use ronro.Live.Queue.{LiveQueueItem, Entry, find_item, put_item, is_active, depth, heappush, before}

abbrev pub item_ids : List LiveQueueItem → List String
item_ids items = map (λ x. x.queue_item_id) items

-- How much an item adds to the depth.
abbrev pub weight : LiveQueueItem → ℕ
weight x = if is_active x then 1 else 0

pub find_item-id :
    (id : String) (items : List LiveQueueItem) (x : LiveQueueItem)
    → find_item id items ≡ some x
    → x.queue_item_id ≡ id
find_item-id id [] x h = cc
find_item-id id (y ∷ ys) x h = ground (arith, find_item-id id ys x, eq_iff y.queue_item_id id)

pub find-put_item :
    (y : LiveQueueItem) (items : List LiveQueueItem) (x : LiveQueueItem)
    → find_item y.queue_item_id items ≡ some x
    → find_item y.queue_item_id (put_item y items) ≡ some y
find-put_item y [] x h = cc
find-put_item y (z ∷ zs) x h =
    ground (arith, find-put_item y zs x, eq_iff y.queue_item_id y.queue_item_id)

pub find-put_other :
    (y : LiveQueueItem) (items : List LiveQueueItem) (id : String)
    → (y.queue_item_id == id) ≡ false
    → find_item id (put_item y items) ≡ find_item id items
find-put_other y [] id h = refl
find-put_other y (z ∷ zs) id h =
    ground (arith, find-put_other y zs id, eq_iff z.queue_item_id y.queue_item_id)

pub ids-put_item :
    (y : LiveQueueItem) (items : List LiveQueueItem) → item_ids (put_item y items) ≡ item_ids items
ids-put_item y [] = refl
ids-put_item y (z ∷ zs) = ground (arith, ids-put_item y zs, eq_iff z.queue_item_id y.queue_item_id)

pub depth-put_item :
    (y : LiveQueueItem) (items : List LiveQueueItem) (x : LiveQueueItem)
    → find_item y.queue_item_id items ≡ some x
    → depth (put_item y items) + weight x ≡ depth items + weight y
unfolding depth
depth-put_item y [] x h = cc
depth-put_item y (z ∷ zs) x h = ground (arith, depth-put_item y zs x)

pub depth-append :
    (items : List LiveQueueItem) (x : LiveQueueItem)
    → depth (items ++ x ∷ []) ≡ depth items + weight x
unfolding depth
depth-append [] x = ground arith
depth-append (z ∷ zs) x = ground (arith, depth-append zs x)

pub find-append :
    (id : String) (items : List LiveQueueItem) (x y : LiveQueueItem)
    → find_item id items ≡ some y
    → find_item id (items ++ x ∷ []) ≡ some y
find-append id [] x y h = cc
find-append id (z ∷ zs) x y h = ground (arith, find-append id zs x y)

pub find-append_new :
    (items : List LiveQueueItem) (x : LiveQueueItem)
    → contains x.queue_item_id (item_ids items) ≡ false
    → find_item x.queue_item_id (items ++ x ∷ []) ≡ some x
find-append_new [] x h = ground (arith, eq_iff x.queue_item_id x.queue_item_id)
find-append_new (z ∷ zs) x h = ground (arith, find-append_new zs x)

pub any-heappush :
    (test : Entry → Bool) (e : Entry) (es : List Entry)
    → any test (heappush e es) ≡ (test e || any test es)
unfolding heappush
any-heappush test e [] = refl
any-heappush test e (x ∷ xs) = ground (arith, any-heappush test e xs)

module _ {ℓ} (P : LiveQueueItem → Type ℓ) where
  pub All-put_item :
      (y : LiveQueueItem) (items : List LiveQueueItem)
      → All P items
      → P y
      → All P (put_item y items)
  All-put_item y [] all p = tt
  All-put_item y (z ∷ zs) all p = elim (Bool-cases (z.queue_item_id == y.queue_item_id)) [
    | inl same ↦ rw same (p, all.1)
    | inr other ↦ rw other (all.0, All-put_item y zs all.1 p)
  ]

  pub All-find_item :
      (id : String) (items : List LiveQueueItem) (x : LiveQueueItem)
      → All P items
      → find_item id items ≡ some x
      → P x
  All-find_item id [] x all h = cc
  All-find_item id (z ∷ zs) x all h = elim (Bool-cases (z.queue_item_id == id)) [
    | inl same ↦ let q : some z ≡ some x = rw same at h in let q' : z ≡ x = cc in subst P q' all.0
    | inr other ↦ All-find_item id zs x all.1 (rw other at h)
  ]

pub All-heappush {ℓ} :
    (P : Entry → Type ℓ) (e : Entry) (es : List Entry) → P e → All P es → All P (heappush e es)
unfolding heappush
All-heappush P e [] p all = (p, tt)
All-heappush P e (x ∷ xs) p all = elim (Bool-cases (before e x)) [
  | inl first ↦ rw first (p, all)
  | inr later ↦ rw later (all.0, All-heappush P e xs p all.1)
]

-- Entries in ascending order of the sequence.
abbrev pub ascending : List Entry → Bool
ascending [] = true
ascending (e ∷ es) = not (any (λ f. ltb f.sequence e.sequence) es) && ascending es

none_below :
    (a b : ℕ) (es : List Entry)
    → a ≤ b
    → any (λ f. ltb f.sequence b) es ≡ false
    → any (λ f. ltb f.sequence a) es ≡ false
none_below a b [] le h = refl
none_below a b (x ∷ xs) le h = ground (arith, none_below a b xs le)

pub ascending-heappush :
    (e : Entry) (es : List Entry) → ascending es ≡ true → ascending (heappush e es) ≡ true
unfolding heappush
ascending-heappush e [] h = refl
ascending-heappush e (x ∷ xs) h = elim (Bool-cases (before e x)) [
  | inl first ↦
      let le : e.sequence ≤ x.sequence = ground arith in
      let low = none_below e.sequence x.sequence xs le (ground arith) in rw first (ground arith)
  | inr later ↦
      let rest = ascending-heappush e xs (ground arith) in
      let same = any-heappush (λ f. ltb f.sequence x.sequence) e xs in
      let low : any (λ f. ltb f.sequence x.sequence) (heappush e xs) ≡ false =
        same ∙ ground arith in
      rw later (rw (low, rest) refl)
]

-- Where the ids are distinct, every item is the one that its id finds.
others_differ :
    (id : String) (items : List LiveQueueItem)
    → contains id (item_ids items) ≡ false
    → All (λ z. (id == z.queue_item_id) ≡ false) items
others_differ id [] h = tt
others_differ id (z ∷ zs) h = (
  ground (arith, eq_iff id z.queue_item_id, eq_iff z.queue_item_id id),
  others_differ id zs (ground arith),
)

found_after :
    (x : LiveQueueItem) (items zs : List LiveQueueItem)
    → All (λ z. (x.queue_item_id == z.queue_item_id) ≡ false) zs
    → All (λ z. find_item z.queue_item_id items ≡ some z) zs
    → All (λ z. find_item z.queue_item_id (x ∷ items) ≡ some z) zs
found_after x items [] other all = tt
found_after x items (z ∷ zs) other all = (rw other.0 all.0, found_after x items zs other.1 all.1)

pub All-found :
    (items : List LiveQueueItem)
    → distinct (item_ids items) ≡ true
    → All (λ z. find_item z.queue_item_id items ≡ some z) items
All-found [] d = tt
All-found (x ∷ xs) d = (
  ground (arith, eq_iff x.queue_item_id x.queue_item_id),
  found_after x xs xs (others_differ x.queue_item_id xs (ground arith))
      (All-found xs (ground arith)),
)

all_others :
    (R : LiveQueueItem → Bool) (id : String) (zs : List LiveQueueItem)
    → All (λ z. (id == z.queue_item_id) ≡ false) zs
    → All (λ z. (R z || (id == z.queue_item_id)) ≡ true) zs
    → All (λ z. R z ≡ true) zs
all_others R id [] other all = tt
all_others R id (z ∷ zs) other all =
    (ground (arith, other.0, all.0), all_others R id zs other.1 all.1)

-- A change of one item, for a test that the old one may fail.
pub All-put_once :
    (R : LiveQueueItem → Bool) (y : LiveQueueItem) (items : List LiveQueueItem)
    → distinct (item_ids items) ≡ true
    → R y ≡ true
    → All (λ z. (R z || (y.queue_item_id == z.queue_item_id)) ≡ true) items
    → All (λ z. R z ≡ true) (put_item y items)
All-put_once R y [] d h all = tt
All-put_once R y (z ∷ zs) d h all = elim (Bool-cases (z.queue_item_id == y.queue_item_id)) [
  | inl same ↦
      let id = str_eq→eq z.queue_item_id y.queue_item_id same in
      let other = others_differ z.queue_item_id zs (ground arith) in
      rw same (
        h,
        all_others R y.queue_item_id zs
            (subst (λ i. All (λ w. (i == w.queue_item_id) ≡ false) zs) id other) all.1,
      )
  | inr differ ↦ rw differ (
    ground (
      arith,
      all.0,
      eq_iff z.queue_item_id y.queue_item_id,
      eq_iff y.queue_item_id z.queue_item_id,
    ),
    All-put_once R y zs (ground arith) h all.1,
  )
]
