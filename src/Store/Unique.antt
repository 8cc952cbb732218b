-- ===== src/Store/Unique.antt =====
-- The UNIQUE constraints of table emails are an invariant of InsertEmail.
use suzie_filtering_system.Base.{
  ℕ, ◌≤◌, ◌<◌, Text, Bool, false, ◌||◌, Option, none, some, List, [], ◌∷◌, ◌++◌, ◌==◌, ◌≡◌, refl,
  arith, any, any-append, text_eq, text_eq_iff, Bool-cases, inl, inr,
}
use suzie_filtering_system.Tables.{Email, collides, same_key, next_id, insert_row}

-- No two rows collide, under a UNIQUE constraint or by their ids.
abbrev pub Unique : List Email → Type 0
Unique [] = Unit
Unique (r ∷ rows) =
    (any (collides r) rows ≡ false) × (any (λ x. r.id == x.id) rows ≡ false) × Unique rows

text_eq_sym : (s t : Text) → text_eq s t ≡ text_eq t s
text_eq_sym s t = ground (arith, text_eq_iff s t, text_eq_iff t s)

same_key_sym : (k l : Option Text) → same_key k l ≡ same_key l k
unfolding same_key
same_key_sym none none = refl
same_key_sym none (some m) = refl
same_key_sym (some m) none = refl
same_key_sym (some m) (some l) = text_eq_sym m l

collides_sym : (e r : Email) → collides e r ≡ collides r e
unfolding collides
collides_sym e r = ground (arith, same_key_sym e.message_id r.message_id)

-- the id does not matter to the keys
collides_id : (e r : Email) (n : ℕ) → collides (record e { id = n }) r ≡ collides e r
unfolding collides
collides_id e r n = refl

next_id-cons :
    (r : Email) (rows : List Email)
    → (r.id < next_id (r ∷ rows)) × (next_id rows ≤ next_id (r ∷ rows))
unfolding next_id
next_id-cons r rows = ground arith

no_or : (a b : Bool) → (a || b) ≡ false → (a ≡ false) × (b ≡ false)
no_or a b h = ground arith

Unique-snoc :
    (e : Email) (rows : List Email)
    → any (collides e) rows ≡ false
    → next_id rows ≤ e.id
    → Unique rows
    → Unique (rows ++ e ∷ [])
Unique-snoc e [] h fresh u = (refl, refl, tt)
Unique-snoc e (r ∷ rows) h fresh (keys, ids, rest) =
    let (apart, others) = no_or (collides e r) (any (collides e) rows) h in
    let (above, more) = next_id-cons r rows in
    (
      rw (any-append (collides r) rows (e ∷ []), keys, ← collides_sym e r, apart) refl,
      rw (any-append (λ (x : Email). r.id == x.id) rows (e ∷ []), ids) (ground arith),
      Unique-snoc e rows others (omega arith) rest,
    )

-- If no two rows collide, under a UNIQUE constraint or by their ids, then none do after an insert,
-- made or refused.
pub insert_row-Unique : (e : Email) (rows : List Email) → Unique rows → Unique (insert_row e rows).0
unfolding insert_row
insert_row-Unique e rows u = elim (Bool-cases (any (collides e) rows)) [
  | inl old ↦ rw old u
  | inr new ↦ rw new (Unique-snoc (record e { id = next_id rows }) rows new (omega arith) u)
]
