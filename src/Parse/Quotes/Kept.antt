-- ===== src/Parse/Quotes/Kept.antt =====
-- What StripQuotedText keeps of a body.
use suzie_filtering_system.Base.{
  Text, Bool, true, false, ◌&&◌, ◌||◌, List, [], ◌∷◌, ◌≡◌, refl, ap, All, All-map, is_empty, split,
  join-split, trim_space, Bool-cases, inl, inr, arith,
}
use suzie_filtering_system.Parse.Quotes.{
  is_quoted, is_signature, is_quote_header, next_is_quoted, is_dropped, before_signature, unquoted,
  strip_quoted_text,
}

-- A line that is no quote and no signature delimiter.
abbrev pub IsOwn : Text → Type 0
IsOwn l = (is_quoted l ≡ false) × (is_signature l ≡ false)

before_signature-IsOwn :
    (ls : List Text) → All (λ l. is_signature l ≡ false) ls → before_signature ls ≡ ls
unfolding before_signature
before_signature-IsOwn [] h = refl
before_signature-IsOwn (l ∷ ls) (own, rest) =
    rw own (ap (λ (t : List Text). l ∷ t) (before_signature-IsOwn ls rest))

before_signature_none : (ls : List Text) → All (λ l. is_signature l ≡ false) (before_signature ls)
unfolding before_signature
before_signature_none [] = tt
before_signature_none (l ∷ ls) = elim (Bool-cases (is_signature l)) [
  | inl e ↦ rw e tt
  | inr e ↦ rw e (e, before_signature_none ls)
]

next_is_quoted-IsOwn :
    (ls : List Text) → All (λ l. is_quoted l ≡ false) ls → next_is_quoted ls ≡ false
unfolding next_is_quoted
next_is_quoted-IsOwn [] h = refl
next_is_quoted-IsOwn (l ∷ ls) (own, rest) = elim (Bool-cases (is_empty l)) [
  | inl e ↦ rw e (next_is_quoted-IsOwn ls rest)
  | inr e ↦ rw e own
]

||-false : (a b c : Bool) → a ≡ false → c ≡ false → (a || b && c) ≡ false
||-false a true c h k = rw (h, k) refl
||-false a false c h k = rw h refl

is_dropped-IsOwn :
    (l : Text) (ls : List Text)
    → is_quoted l ≡ false
    → next_is_quoted ls ≡ false
    → is_dropped l ls ≡ false
unfolding is_dropped
is_dropped-IsOwn l ls = ||-false (is_quoted l) (is_quote_header l) (next_is_quoted ls)

unquoted-IsOwn : (ls : List Text) → All (λ l. is_quoted l ≡ false) ls → unquoted ls ≡ ls
unfolding unquoted
unquoted-IsOwn [] h = refl
unquoted-IsOwn (l ∷ ls) (own, rest) =
    rw (is_dropped-IsOwn l ls own (next_is_quoted-IsOwn ls rest))
      (ap (λ (t : List Text). l ∷ t) (unquoted-IsOwn ls rest))

not_dropped : (l : Text) (ls : List Text) → is_dropped l ls ≡ false → is_quoted l ≡ false
unfolding is_dropped
not_dropped l ls h = ground arith

unquoted_none :
    (P : Text → Type 0) (ls : List Text)
    → All P ls
    → All (λ l. (is_quoted l ≡ false) × P l) (unquoted ls)
unfolding unquoted
unquoted_none P [] h = tt
unquoted_none P (l ∷ ls) (here, rest) = elim (Bool-cases (is_dropped l ls)) [
  | inl e ↦ rw e (unquoted_none P ls rest)
  | inr e ↦ rw e ((not_dropped l ls e, here), unquoted_none P ls rest)
]

-- The lines that are kept are no quotes and no signature delimiters.
pub unquoted-All-IsOwn : (ls : List Text) → All IsOwn (unquoted (before_signature ls))
unquoted-All-IsOwn ls = unquoted_none _ (before_signature ls) (before_signature_none ls)

-- Lines that are own are all kept, quote headers among them.
pub kept-IsOwn : (ls : List Text) → All IsOwn ls → unquoted (before_signature ls) ≡ ls
kept-IsOwn ls h =
    rw (before_signature-IsOwn ls (All-map (λ l own. own.1) ls h))
      (unquoted-IsOwn ls (All-map (λ l own. own.0) ls h))

-- A body with no quoted line and no signature delimiter loses nothing but the white space around it.
pub strip_quoted_text-IsOwn :
    (body : Text) → All IsOwn (split 10 body) → strip_quoted_text body ≡ trim_space body
unfolding strip_quoted_text
strip_quoted_text-IsOwn body h = rw (kept-IsOwn (split 10 body) h, join-split 10 body) refl

-- What is kept is kept again: the loop and the cut are idempotent.
unquoted_again :
    (ls : List Text)
    → let kept = unquoted (before_signature ls) in unquoted (before_signature kept) ≡ kept
unquoted_again ls = kept-IsOwn _ (unquoted-All-IsOwn ls)
