-- ===== src/Digest/Markup.antt =====
-- The tags of a text, and texts that have the same ones.
use suzie_filtering_system.Base.{
  ℕ, Text, Bool, true, false, not, ◌&&◌, ◌||◌, [], ◌∷◌, ◌++◌, append_assoc, append-nil, All, ◌==◌,
  ◌≡◌, refl, sym, ap, ◌∙◌, if◌then◌else◌,
}

-- Whether a character of a tag is followed by another one of it.
abbrev next_inside : Bool → ℕ → Bool
next_inside inside c = (inside || c == b'<') && not (c == b'>')

-- The tags of a text, each from its "<" to its ">".
unfoldable pub markup : Bool → Text → Text
markup inside [] = []
markup inside (c ∷ s) =
    let rest = markup (next_inside inside c) s in if inside || c == b'<' then c ∷ rest else rest

-- Whether a text ends within a tag.
unfoldable pub ends_inside : Bool → Text → Bool
ends_inside inside [] = inside
ends_inside inside (c ∷ s) = ends_inside (next_inside inside c) s

-- The text opens no tag.
abbrev pub NoOpen : Text → Type 0
NoOpen s = All (λ c. (c == b'<') ≡ false) s

markup-append :
    (inside : Bool) (s t : Text)
    → markup inside (s ++ t) ≡ markup inside s ++ markup (ends_inside inside s) t
unfolding markup ends_inside
markup-append inside [] t = refl
markup-append inside (c ∷ s) t =
    pick (inside || c == b'<') (markup-append (next_inside inside c) s t)
  where
    pick :
        (b : Bool)
        → markup (next_inside inside c) (s ++ t)
          ≡ markup (next_inside inside c) s ++ markup (ends_inside (next_inside inside c) s) t
        → (let rest = markup (next_inside inside c) (s ++ t) in if b then c ∷ rest else rest)
          ≡ (let rest = markup (next_inside inside c) s in if b then c ∷ rest else rest)
            ++ markup (ends_inside (next_inside inside c) s) t
    pick true e = ap (λ x. c ∷ x) e
    pick false e = e

-- Both texts begin and end outside tags, and have the same ones.
pub record Same (s t : Text) : Type 0 where
  tags : Text
  left : (rest : Text) → markup false (s ++ rest) ≡ tags ++ markup false rest
  right : (rest : Text) → markup false (t ++ rest) ≡ tags ++ markup false rest

pub Same-closed : (s : Text) → ends_inside false s ≡ false → Same s s
Same-closed s h = record { tags = markup false s; left = closed; right = closed }
  where
    closed : (rest : Text) → markup false (s ++ rest) ≡ markup false s ++ markup false rest
    closed rest = markup-append false s rest ∙ ap (λ b. markup false s ++ markup b rest) h

markup-NoOpen : (s rest : Text) → NoOpen s → markup false (s ++ rest) ≡ markup false rest
unfolding markup
markup-NoOpen [] rest h = refl
markup-NoOpen (c ∷ s) rest (text, h) = rw text (markup-NoOpen s rest h)

pub Same-NoOpen : (s t : Text) → NoOpen s → NoOpen t → Same s t
Same-NoOpen s t hs ht = record {
  tags = [];
  left = λ rest. markup-NoOpen s rest hs;
  right = λ rest. markup-NoOpen t rest ht;
}

both :
    (s s' t t' rest : Text)
    → ((r : Text) → markup false (s ++ r) ≡ t ++ markup false r)
    → ((r : Text) → markup false (s' ++ r) ≡ t' ++ markup false r)
    → markup false ((s ++ s') ++ rest) ≡ (t ++ t') ++ markup false rest
both s s' t t' rest h k =
    ap (markup false) (append_assoc s s' rest)
    ∙ h (s' ++ rest)
    ∙ ap (λ x. t ++ x) (k rest)
    ∙ sym (append_assoc t t' (markup false rest))

-- Both go on with the same tags.
infixl 60 ◌⨾◌
pub ◌⨾◌ : {s t s' t' : Text} → Same s t → Same s' t' → Same (s ++ s') (t ++ t')
◌⨾◌ {s} {t} {s'} {t'} a b = record {
  tags = a.tags ++ b.tags;
  left = λ rest. both s s' a.tags b.tags rest a.left b.left;
  right = λ rest. both t t' a.tags b.tags rest a.right b.right;
}

pub Same-if :
    {s t s' t' : Text} (b c : Bool)
    → b ≡ c
    → Same s t
    → Same s' t'
    → Same (if b then s else s') (if c then t else t')
Same-if true true e h k = h
Same-if true false e h k = absurd (cc)
Same-if false true e h k = absurd (cc)
Same-if false false e h k = k

pub Same-markup : (s t : Text) → Same s t → markup false s ≡ markup false t
Same-markup s t a =
    ap (markup false) (sym (append-nil s))
    ∙ a.left []
    ∙ sym (a.right [])
    ∙ ap (markup false) (append-nil t)
