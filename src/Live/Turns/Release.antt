-- ===== src/Live/Turns/Release.antt =====
-- The loop of `release` ends and leaves no item that is due.
use ronro.Prelude.{
  ℕ, zero, suc, ◌+◌, ◌≤◌, ◌<◌, String, ◌≡◌, refl, sym, ap, ◌∙◌, subst, arith, Bool, true, false,
  Bool-cases, Option, none, some, List, [], ◌∷◌, ◌==◌, contains, length, inl, inr, eq_iff,
  str_eq→eq, if◌then◌else◌,
}
use ronro.Live.Turns.{Turn, TurnLedger, find_turn}
use ronro.Live.Turns.Observing.{
  is_due, put_turn, emit, visit, release_pass, release_loop, release, keys,
}

-- The number of items that are not emitted.
abbrev unemitted : List Turn → ℕ
unemitted [] = 0
unemitted (x ∷ xs) = if x.emitted then unemitted xs else suc (unemitted xs)

abbrev weight : Turn → ℕ
weight x = if x.emitted then 0 else 1

unemitted-length : (items : List Turn) → unemitted items ≤ length items
unemitted-length [] = omega arith
unemitted-length (x ∷ xs) = ground (arith, unemitted-length xs)

pub find_turn-key :
    (key : String) (items : List Turn) (x : Turn) → find_turn key items ≡ some x → x.key ≡ key
find_turn-key key [] x h = cc
find_turn-key key (y ∷ ys) x h = ground (arith, find_turn-key key ys x, eq_iff y.key key)

unemitted-put_turn :
    (y : Turn) (items : List Turn) (x : Turn)
    → find_turn y.key items ≡ some x
    → unemitted (put_turn y items) + weight x ≡ unemitted items + weight y
unemitted-put_turn y [] x h = cc
unemitted-put_turn y (z ∷ zs) x h = ground (arith, unemitted-put_turn y zs x)

-- Whether the item with this key is due.
abbrev pub due_at : List Turn → Option Turn → Bool
due_at items none = false
due_at items (some x) = is_due items x

abbrev pub counted : Bool → ℕ
counted b = if b then 1 else 0

-- A pass emits items, or it changes nothing and found none of its keys due.
record IsPass (t : TurnLedger) (ks : List String) (p : Bool × TurnLedger) : Type 0 where
  lowered : unemitted p.1.items + counted p.0 ≤ unemitted t.items
  same : p.0 ≡ false → p.1 ≡ t
  settled :
      p.0 ≡ false
      → (k : String) → contains k ks ≡ true
      → due_at t.items (find_turn k t.items) ≡ false

emit-lowers :
    (t : TurnLedger) (x : Turn)
    → find_turn x.key t.items ≡ some x
    → is_due t.items x ≡ true
    → unemitted (emit t x).items + 1 ≤ unemitted t.items
emit-lowers t x found due =
    let moved = unemitted-put_turn (record x { emitted = true }) t.items x found in ground arith

visited :
    (t : TurnLedger) (k : String) (o : Option Turn)
    → find_turn k t.items ≡ o
    → (unemitted (visit t o).1.items + counted (visit t o).0 ≤ unemitted t.items)
      × ((visit t o).0 ≡ false → ((visit t o).1 ≡ t) × (due_at t.items o ≡ false))
visited t k none found = (omega arith, λ h. (refl, refl))
visited t k (some x) found = elim (Bool-cases (is_due t.items x)) [
  | inl due ↦
      let own : find_turn x.key t.items ≡ some x =
        ap (λ i. find_turn i t.items) (find_turn-key k t.items x found) ∙ found in
      rw due (emit-lowers t x own due, λ h. cc)
  | inr other ↦ rw other (omega arith, λ h. (refl, refl))
]

release_pass-IsPass : (ks : List String) (t : TurnLedger) → IsPass t ks (release_pass ks t)
unfolding release_pass
release_pass-IsPass [] t = record {
  lowered = omega arith;
  same = λ h. refl;
  settled = λ h k c. ground arith;
}
release_pass-IsPass (k ∷ ks) t =
    let here = visit t (find_turn k t.items) in
    let (low, clear) = visited t k (find_turn k t.items) refl in
    let rest = release_pass-IsPass ks here.1 in
    let lower = rest.lowered in
    record {
      lowered = ground arith;
      same = λ h. rest.same (ground arith) ∙ (clear (ground arith)).0;
      settled = λ h i c.
          let (still, free) = clear (ground arith) in
          elim (Bool-cases (k == i)) [
            | inl this ↦
                subst (λ j. due_at t.items (find_turn j t.items) ≡ false) (str_eq→eq k i this) free
            | inr that ↦
                subst (λ u. due_at u.items (find_turn i u.items) ≡ false) still
                  (rest.settled (ground arith) i (ground arith))
          ];
    }

absent-turn :
    (k : String) (items : List Turn) → contains k (keys items) ≡ false → find_turn k items ≡ none
absent-turn k [] h = refl
absent-turn k (x ∷ xs) h = ground (arith, absent-turn k xs)

-- No item of the ledger is due.
abbrev pub IsSettled : TurnLedger → Type 0
IsSettled t = (k : String) → due_at t.items (find_turn k t.items) ≡ false

pass-IsSettled :
    (t : TurnLedger) (p : Bool × TurnLedger)
    → IsPass t (keys t.items) p
    → p.0 ≡ false
    → IsSettled p.1
pass-IsSettled t p pass h k =
    subst (λ u. due_at u.items (find_turn k u.items) ≡ false) (sym (pass.same h))
      (elim (Bool-cases (contains k (keys t.items))) [
        | inl there ↦ pass.settled h k there
        | inr absent ↦ ap (due_at t.items) (absent-turn k t.items absent)
      ])

release_loop-IsSettled :
    (fuel : ℕ) (t : TurnLedger) → unemitted t.items < fuel → IsSettled (release_loop fuel t)
unfolding release_loop
release_loop-IsSettled zero t h = absurd (omega arith)
release_loop-IsSettled (suc fuel) t h =
    let p = release_pass (keys t.items) t in
    let pass = release_pass-IsPass (keys t.items) t in
    let low = pass.lowered in
    elim (Bool-cases p.0) [
      | inl more ↦ rw more (release_loop-IsSettled fuel p.1 (ground arith))
      | inr done ↦ rw done (pass-IsSettled t p pass done)
    ]

-- `release` ends with no item that is due: the loop runs until nothing changes.
pub release-IsSettled : (t : TurnLedger) → IsSettled (release t)
unfolding release
release-IsSettled t =
    let few = unemitted-length t.items in
    release_loop-IsSettled (suc (length t.items)) t (omega arith)
