-- ===== src/Store/Ordered.antt =====
-- ORDER BY received_at, id in PendingForDigest of internal/store/store.go.
use suzie_filtering_system.Base.{
  ◌≤◌, ◌<◌, true, false, ltb, List, [], ◌∷◌, All, ◌≡◌, ◌⊎◌, arith, Bool-cases, inl, inr,
}
use suzie_filtering_system.Tables.{Email, order_rows, insert_ordered, before}
use mathlib.Core.List.{Perm}
use mathlib.Core.List.Perm

-- The first row was received earlier, or both in the same second, and its id is no larger.
abbrev pub ComesFirst : Email → Email → Type 0
ComesFirst r s = (r.received_at < s.received_at) ⊎ ((r.received_at ≡ s.received_at) × (r.id ≤ s.id))

-- Each row comes before the next.
abbrev pub InOrder : List Email → Type 0
InOrder [] = Unit
InOrder (r ∷ []) = Unit
InOrder (r ∷ s ∷ rest) = ComesFirst r s × InOrder (s ∷ rest)

before-ComesFirst : (a b : Email) → before a b ≡ true → ComesFirst a b
unfolding before
before-ComesFirst a b h = elim (Bool-cases (ltb a.received_at b.received_at)) [
  | inl e ↦ inl (ground arith)
  | inr e ↦ inr (ground arith)
]

after-ComesFirst : (a b : Email) → before a b ≡ false → ComesFirst b a
unfolding before
after-ComesFirst a b h = elim (Bool-cases (ltb b.received_at a.received_at)) [
  | inl e ↦ inl (ground arith)
  | inr e ↦ inr (ground arith)
]

insert_ordered-InOrder :
    (e : Email) (rows : List Email) → InOrder rows → InOrder (insert_ordered e rows)
unfolding insert_ordered
insert_ordered-InOrder e [] h = tt
insert_ordered-InOrder e (r ∷ []) h = elim (Bool-cases (before e r)) [
  | inl b ↦ rw b (before-ComesFirst e r b, tt)
  | inr b ↦ rw b (after-ComesFirst e r b, tt)
]
insert_ordered-InOrder e (r ∷ s ∷ rest) h =
    let tail = insert_ordered-InOrder e (s ∷ rest) h.1 in
    elim (Bool-cases (before e r)) [
      | inl b ↦ rw b (before-ComesFirst e r b, h)
      | inr b ↦ rw b (elim (Bool-cases (before e s)) [
        | inl c ↦ rw c (after-ComesFirst e r b, rw c at tail)
        | inr c ↦ rw c (h.0, rw c at tail)
      ])
    ]

pub order_rows-InOrder : (rows : List Email) → InOrder (order_rows rows)
unfolding order_rows
order_rows-InOrder [] = tt
order_rows-InOrder (r ∷ rows) = insert_ordered-InOrder r _ (order_rows-InOrder rows)

insert_ordered-perm : (e : Email) (rows : List Email) → Perm (insert_ordered e rows) (e ∷ rows)
unfolding insert_ordered
insert_ordered-perm e [] = Perm.refl _
insert_ordered-perm e (r ∷ rows) = elim (Bool-cases (before e r)) [
  | inl h ↦ rw h (Perm.refl _)
  | inr h ↦ rw h (Perm.trans (Perm.cons r (insert_ordered-perm e rows)) (Perm.swap e r rows))
]

pub order_rows-perm : (rows : List Email) → Perm (order_rows rows) rows
unfolding order_rows
order_rows-perm [] = Perm.refl _
order_rows-perm (r ∷ rows) =
    Perm.trans (insert_ordered-perm r (order_rows rows)) (Perm.cons r (order_rows-perm rows))

insert_ordered-All :
    (P : Email → Type 0) (e : Email) (rows : List Email)
    → P e
    → All P rows
    → All P (insert_ordered e rows)
unfolding insert_ordered
insert_ordered-All P e [] p h = (p, tt)
insert_ordered-All P e (r ∷ rows) p h = elim (Bool-cases (before e r)) [
  | inl b ↦ rw b (p, h)
  | inr b ↦ rw b (h.0, insert_ordered-All P e rows p h.1)
]

pub order_rows-All : (P : Email → Type 0) (rows : List Email) → All P rows → All P (order_rows rows)
unfolding order_rows
order_rows-All P [] h = tt
order_rows-All P (r ∷ rows) h = insert_ordered-All P r _ h.0 (order_rows-All P rows h.1)
