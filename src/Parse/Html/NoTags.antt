-- ===== src/Parse/Html/NoTags.antt =====
-- What is left after stripHTML has removed the tags, and what it leaves alone.
use suzie_filtering_system.Base.{
  ℕ, zero, suc, Text, false, Option, none, some, [], ◌∷◌, ◌++◌, ◌==◌, ◌≡◌, ◌≢◌, ◌⊎◌, refl, ap, inl,
  inr, arith,
}
use suzie_filtering_system.Parse.Html.{
  Rule, replace, until_gt, tag_rule, script_rule, block_rule, first_entity, entities, strip_tags,
  strip_html,
}

-- The expression <[^>]+> matches nowhere in the text.
abbrev pub NoTag : Text → Type 0
NoTag [] = Unit
NoTag (c ∷ s) = (tag_rule (c ∷ s) ≡ none) × NoTag s

tag_rule_out : (c : ℕ) (s : Text) (n : ℕ) (out : Text) → tag_rule (c ∷ s) ≡ some (n, out) → out ≡ []
unfolding tag_rule
tag_rule_out c s n out h = ground arith

until_gt-cons :
    (c : ℕ) (s : Text) → until_gt (c ∷ s) ≡ none → ((c == b'>') ≡ false) × (until_gt s ≡ none)
unfolding until_gt
until_gt-cons c s h = ground arith

until_gt_more :
    (c : ℕ) (s : Text) → (c == b'>') ≡ false → until_gt s ≡ none → until_gt (c ∷ s) ≡ none
unfolding until_gt
until_gt_more c s h k = rw (h, k) refl

-- no `>` comes from a text without one
until_gt-replace : (k : ℕ) (s : Text) → until_gt s ≡ none → until_gt (replace tag_rule k s) ≡ none
unfolding replace
until_gt-replace zero [] h = h
until_gt-replace (suc k) [] h = h
until_gt-replace (suc k) (c ∷ s) h = until_gt-replace k s (until_gt-cons c s h).1
until_gt-replace zero (c ∷ s) h =
    let (other, rest) = until_gt-cons c s h in
    go other (until_gt-replace zero s rest) (λ n. until_gt-replace n s rest) (tag_rule (c ∷ s)) refl
  where
    go :
        (c == b'>') ≡ false
        → until_gt (replace tag_rule zero s) ≡ none
        → ((n : ℕ) → until_gt (replace tag_rule n s) ≡ none)
        → (r : Option (ℕ × Text)) → tag_rule (c ∷ s) ≡ r
        → until_gt (elim r [
          | none ↦ c ∷ replace tag_rule zero s
          | some (n, out) ↦ out ++ replace tag_rule n s
        ])
          ≡ none
    go other here later none e = until_gt_more c _ other here
    go other here later (some (n, out)) e = rw (tag_rule_out c s n out e) (later n)

-- a match needs the first `>` to come after more than `<`
tag_at :
    (c : ℕ) (s : Text)
    → tag_rule (c ∷ s) ≡ none
    → (c ≢ b'<') ⊎ ((until_gt s ≡ none) ⊎ (until_gt s ≡ some 1))
unfolding tag_rule
tag_at c s h = ground arith

tag_none :
    (c : ℕ) (s : Text)
    → (c ≢ b'<') ⊎ ((until_gt s ≡ none) ⊎ (until_gt s ≡ some 1))
    → tag_rule (c ∷ s) ≡ none
unfolding tag_rule
tag_none c s h = ground arith

until_gt-ne-zero : (s : Text) → until_gt s ≢ some 0
unfolding until_gt
until_gt-ne-zero [] h = cc
until_gt-ne-zero (c ∷ s) h = ground arith

until_gt_one : (s : Text) → until_gt s ≡ some 1 → (t : Text) × (s ≡ b'>' ∷ t)
unfolding until_gt
until_gt_one [] h = absurd (cc)
until_gt_one (c ∷ s) h = (s, ground (arith, until_gt-ne-zero s))

one-replace : (t : Text) → until_gt (replace tag_rule 0 (b'>' ∷ t)) ≡ some 1
unfolding replace tag_rule until_gt
one-replace t = refl

tag_rule-replace :
    (c : ℕ) (s : Text) → tag_rule (c ∷ s) ≡ none → tag_rule (c ∷ replace tag_rule 0 s) ≡ none
tag_rule-replace c s h = tag_none c _ (elim (tag_at c s h) [
  | inl other ↦ inl other
  | inr (inl never) ↦ inr (inl (until_gt-replace 0 s never))
  | inr (inr one) ↦ let (t, e) = until_gt_one s one in inr (inr (rw e (one-replace t)))
])

replace-NoTag : (k : ℕ) (s : Text) → NoTag (replace tag_rule k s)
unfolding replace
replace-NoTag zero [] = tt
replace-NoTag (suc k) [] = tt
replace-NoTag (suc k) (c ∷ s) = replace-NoTag k s
replace-NoTag zero (c ∷ s) =
    go (replace-NoTag zero s) (λ n. replace-NoTag n s) (tag_rule (c ∷ s)) refl
  where
    go :
        NoTag (replace tag_rule zero s)
        → ((n : ℕ) → NoTag (replace tag_rule n s))
        → (r : Option (ℕ × Text)) → tag_rule (c ∷ s) ≡ r
        → NoTag (elim r [
          | none ↦ c ∷ replace tag_rule zero s
          | some (n, out) ↦ out ++ replace tag_rule n s
        ])
    go here later none e = (tag_rule-replace c s e, here)
    go here later (some (n, out)) e = rw (tag_rule_out c s n out e) (later n)

-- After the tags are removed, none is there: removing one never makes another.
pub strip_tags-NoTag : (s : Text) → NoTag (strip_tags s)
unfolding strip_tags
strip_tags-NoTag s = replace-NoTag 0 s

-- Neither the start of a tag nor of an entity.
abbrev pub IsPlain : Text → Type 0
IsPlain [] = Unit
IsPlain (c ∷ s) = ((c == b'<') ≡ false) × ((c == b'&') ≡ false) × IsPlain s

replace-IsPlain :
    (rule : Rule)
    → ((c : ℕ) (s : Text) → (c == b'<') ≡ false → (c == b'&') ≡ false → rule (c ∷ s) ≡ none)
    → (s : Text) → IsPlain s
    → replace rule 0 s ≡ s
unfolding replace
replace-IsPlain rule never [] h = refl
replace-IsPlain rule never (c ∷ s) (tag, entity, rest) =
    rw (never c s tag entity, replace)
      (ap (λ (t : Text). c ∷ t) (replace-IsPlain rule never s rest))

script_none :
    (c : ℕ) (s : Text) → (c == b'<') ≡ false → (c == b'&') ≡ false → script_rule (c ∷ s) ≡ none
unfolding script_rule
script_none c s h k = rw h refl

block_none :
    (c : ℕ) (s : Text) → (c == b'<') ≡ false → (c == b'&') ≡ false → block_rule (c ∷ s) ≡ none
unfolding block_rule
block_none c s h k = rw h refl

tag_rule-none :
    (c : ℕ) (s : Text) → (c == b'<') ≡ false → (c == b'&') ≡ false → tag_rule (c ∷ s) ≡ none
unfolding tag_rule
tag_rule-none c s h k = rw h refl

entity_none :
    (c : ℕ) (s : Text)
    → (c == b'<') ≡ false
    → (c == b'&') ≡ false
    → first_entity entities (c ∷ s) ≡ none
unfolding first_entity
entity_none c s h k = rw k refl

-- A text with no `<` and no `&` is left as it is.
pub strip_html-IsPlain : (s : Text) → IsPlain s → strip_html s ≡ s
unfolding strip_html strip_tags
strip_html-IsPlain s h =
    rw
      (
        replace-IsPlain script_rule script_none s h,
        replace-IsPlain block_rule block_none s h,
        replace-IsPlain tag_rule tag_rule-none s h,
      )
      (replace-IsPlain (first_entity entities) entity_none s h)
