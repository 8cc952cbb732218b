-- ===== src/Parse/Whitespace/Normal.antt =====
-- What normalizeWhitespace leaves: spaces stand alone and not at the end of a line, and line feeds come
-- at most twice in a row.
use suzie_filtering_system.Base.{
  ℕ, suc, ◌≤◌, Text, Bool, true, false, ◌&&◌, ◌||◌, List, [], ◌∷◌, ◌++◌, map, ◌≡◌, refl, sym, ◌∙◌,
  subst, All, ltb, leb, ◌==◌, is_empty, is_space, split, join, on_first, trim_left, trim_right,
  trim_space, arith, if◌then◌else◌,
}
use suzie_filtering_system.Parse.Whitespace.{
  is_blank, is_space_rune, one_space, two_feeds, normalize_line, normalize_whitespace,
}

-- No tab, and behind a space neither a space nor a line feed. `p` says that the rune before is a space.
abbrev pub Tidy : Bool → Text → Type 0
Tidy p [] = Unit
Tidy p (c ∷ s) = ((c == 9) ≡ false) × ((p && (c == 32 || c == 10)) ≡ false) × Tidy (c == 32) s

abbrev feeds_after : ℕ → ℕ → ℕ
feeds_after k c = if c == 10 then suc k else 0

-- No three line feeds in a row. `k` counts those before.
abbrev pub TwoFeeds : ℕ → Text → Type 0
TwoFeeds k [] = Unit
TwoFeeds k (c ∷ s) = (leb (feeds_after k c) 2 ≡ true) × TwoFeeds (feeds_after k c) s

abbrev Lacks : Text → Type 0
Lacks = All (λ c. (c == 10) ≡ false)

split-Lacks : (s : Text) → All Lacks (split 10 s)
unfolding split
split-Lacks [] = (tt, tt)
split-Lacks (c ∷ s) = go (c == 10) refl (split 10 s) (split-Lacks s)
  where
    go :
        (b : Bool)
        → (c == 10) ≡ b
        → (rest : List Text) → All Lacks rest
        → All Lacks (if b then [] ∷ rest else on_first c rest)
    go true e rest h = (tt, h)
    go false e [] h = ((e, tt), tt)
    go false e (l ∷ ls) (h, hs) = ((e, h), hs)

Tidy-one_space : (run : Bool) (l : Text) → Lacks l → Tidy run (one_space run l)
unfolding one_space
Tidy-one_space run [] h = tt
Tidy-one_space run (c ∷ l) (other, h) =
    go (is_blank c) refl run (one_space (is_blank c) l) (Tidy-one_space (is_blank c) l h)
  where
    go :
        (b : Bool)
        → is_blank c ≡ b
        → (r : Bool) (rest : Text) → Tidy b rest
        → Tidy r (if b then (if r then rest else 32 ∷ rest) else c ∷ rest)
    go true e true rest ih = ih
    go true e false rest ih = (refl, refl, ih)
    go false e r rest ih =
        let letter : (c == 32) ≡ false = ground arith in
        (ground arith, ground arith, subst (λ b. Tidy b rest) (sym letter) ih)

ends : Bool → Text → Bool
ends p [] = p
ends p (c ∷ s) = ends (c == 32) s

Tidy-trim_right : (cut : ℕ → Bool) (p : Bool) (s : Text) → Tidy p s → Tidy p (trim_right cut s)
Tidy-trim_right cut p [] h = tt
Tidy-trim_right cut p (c ∷ s) (a, b, h) =
    go (cut c && is_empty (trim_right cut s)) (Tidy-trim_right cut (c == 32) s h)
  where
    go :
        (d : Bool)
        → Tidy (c == 32) (trim_right cut s)
        → Tidy p (if d then [] else c ∷ trim_right cut s)
    go true ih = tt
    go false ih = (a, b, ih)

TwoFeeds-trim_right :
    (cut : ℕ → Bool) (k : ℕ) (s : Text) → TwoFeeds k s → TwoFeeds k (trim_right cut s)
TwoFeeds-trim_right cut k [] h = tt
TwoFeeds-trim_right cut k (c ∷ s) (a, h) =
    go (cut c && is_empty (trim_right cut s)) (TwoFeeds-trim_right cut (feeds_after k c) s h)
  where
    go :
        (d : Bool)
        → TwoFeeds (feeds_after k c) (trim_right cut s)
        → TwoFeeds k (if d then [] else c ∷ trim_right cut s)
    go true ih = tt
    go false ih = (a, ih)

ends-trim_right :
    (p : Bool) (s : Text)
    → ends p (trim_right is_space_rune s)
      ≡ (if is_empty (trim_right is_space_rune s) then p else false)
unfolding ends
ends-trim_right p [] = refl
ends-trim_right p (c ∷ s) =
    go (c == 32) refl (trim_right is_space_rune s) (ends-trim_right (c == 32) s)
  where
    go :
        (b : Bool)
        → (c == 32) ≡ b
        → (t : Text) → ends (c == 32) t ≡ (if is_empty t then c == 32 else false)
        → ends p (if b && is_empty t then [] else c ∷ t)
          ≡ (if is_empty (if b && is_empty t then [] else c ∷ t) then p else false)
    go true e [] h = refl
    go true e (d ∷ t) h = h
    go false e [] h = e
    go false e (d ∷ t) h = h

ends_of_line : (s : Text) → ends false (trim_right is_space_rune s) ≡ false
ends_of_line s = ends-trim_right false s ∙ same (is_empty (trim_right is_space_rune s))
  where
    same : (b : Bool) → (if b then false else false) ≡ false
    same true = refl
    same false = refl

Tidy-join :
    (p : Bool) (l t : Text)
    → Tidy p l
    → ends p l ≡ false
    → Tidy false t
    → Tidy p (l ++ (10 ∷ []) ++ t)
unfolding ends
Tidy-join p [] t h e ht = rw e (refl, refl, ht)
Tidy-join p (c ∷ l) t (a, b, h) e ht = (a, b, Tidy-join (c == 32) l t h e ht)

Tidy-lines : (ls : List Text) → All Lacks ls → Tidy false (join (10 ∷ []) (map normalize_line ls))
unfolding join normalize_line
Tidy-lines [] h = tt
Tidy-lines (l ∷ []) (h, hs) = Tidy-trim_right _ false _ (Tidy-one_space false l h)
Tidy-lines (l ∷ m ∷ ls) (h, hs) =
    Tidy-join false _ _ (Tidy-trim_right is_space_rune false _ (Tidy-one_space false l h))
      (ends_of_line (one_space false l)) (Tidy-lines (m ∷ ls) hs)

Tidy-weak : (p : Bool) (s : Text) → Tidy p s → Tidy false s
Tidy-weak p [] h = tt
Tidy-weak p (c ∷ s) (a, b, h) = (a, refl, h)

Tidy-two_feeds : (k : ℕ) (p : Bool) (s : Text) → Tidy p s → Tidy p (two_feeds k s)
unfolding two_feeds
Tidy-two_feeds k p [] h = tt
Tidy-two_feeds k p (c ∷ s) (a, b, h) =
    go (c == 10) refl (ltb k 2) _ (Tidy-two_feeds (if c == 10 then suc k else 0) (c == 32) s h)
  where
    go :
        (feed : Bool)
        → (c == 10) ≡ feed
        → (d : Bool) (rest : Text) → Tidy (c == 32) rest
        → Tidy p (if feed then (if d then 10 ∷ rest else rest) else c ∷ rest)
    go true e true rest ih =
        let first : p ≡ false = ground arith in (refl, rw first refl, Tidy-weak (c == 32) rest ih)
    go true e false rest ih =
        let first : p ≡ false = ground arith in rw first (Tidy-weak (c == 32) rest ih)
    go false e d rest ih = (a, b, ih)

cap : ℕ → ℕ
cap k = if ltb k 2 then k else 2

TwoFeeds-two_feeds : (k : ℕ) (s : Text) → TwoFeeds (cap k) (two_feeds k s)
unfolding two_feeds cap
TwoFeeds-two_feeds k [] = tt
TwoFeeds-two_feeds k (c ∷ s) =
    go (c == 10) refl (ltb k 2) refl _ (TwoFeeds-two_feeds (feeds_after k c) s)
  where
    go :
        (feed : Bool)
        → (c == 10) ≡ feed
        → (d : Bool) → ltb k 2 ≡ d
        → (rest : Text) → TwoFeeds (cap (feeds_after k c)) rest
        → TwoFeeds (cap k) (if feed then (if d then 10 ∷ rest else rest) else c ∷ rest)
    go true e true f rest ih =
        let after : cap (feeds_after k c) ≡ suc (cap k) = ground arith in
        (ground arith, subst (λ n. TwoFeeds n rest) after ih)
    go true e false f rest ih =
        let after : cap (feeds_after k c) ≡ cap k = ground arith in
        subst (λ n. TwoFeeds n rest) after ih
    go false e d f rest ih =
        let after : cap (feeds_after k c) ≡ feeds_after (cap k) c = ground arith in
        (ground arith, subst (λ n. TwoFeeds n rest) after ih)

Tidy-trim_left : (cut : ℕ → Bool) (p : Bool) (s : Text) → Tidy p s → Tidy false (trim_left cut s)
Tidy-trim_left cut p [] h = tt
Tidy-trim_left cut p (c ∷ s) (a, b, h) = go (cut c) (Tidy-trim_left cut (c == 32) s h)
  where
    go :
        (d : Bool)
        → Tidy false (trim_left cut s)
        → Tidy false (if d then trim_left cut s else c ∷ s)
    go true ih = ih
    go false ih = (a, refl, h)

TwoFeeds-weak : (j k : ℕ) (s : Text) → j ≤ k → TwoFeeds k s → TwoFeeds j s
TwoFeeds-weak j k [] le h = tt
TwoFeeds-weak j k (c ∷ s) le (a, h) =
    let less : feeds_after j c ≤ feeds_after k c = ground arith in
    (ground arith, TwoFeeds-weak (feeds_after j c) (feeds_after k c) s less h)

TwoFeeds-trim_left :
    (cut : ℕ → Bool) (k : ℕ) (s : Text) → TwoFeeds k s → TwoFeeds 0 (trim_left cut s)
TwoFeeds-trim_left cut k [] h = tt
TwoFeeds-trim_left cut k (c ∷ s) (a, h) = go (cut c) (TwoFeeds-trim_left cut (feeds_after k c) s h)
  where
    go :
        (d : Bool)
        → TwoFeeds 0 (trim_left cut s)
        → TwoFeeds 0 (if d then trim_left cut s else c ∷ s)
    go true ih = ih
    go false ih = TwoFeeds-weak 0 k (c ∷ s) (omega arith) (a, h)

-- After normalizeWhitespace there is no tab, behind a space stands neither a space nor a line feed, and
-- no three line feeds stand in a row.
pub normalize_whitespace-Tidy :
    (s : Text) → Tidy false (normalize_whitespace s) × TwoFeeds 0 (normalize_whitespace s)
unfolding normalize_whitespace trim_space cap
normalize_whitespace-Tidy s =
    let joined : Text = join (10 ∷ []) (map normalize_line (split 10 s)) in
    let fed : Text = two_feeds 0 joined in
    (
      Tidy-trim_right is_space false _ (
          Tidy-trim_left is_space false fed
            (Tidy-two_feeds 0 false joined (Tidy-lines (split 10 s) (split-Lacks s)))),
      TwoFeeds-trim_right is_space 0 _
          (TwoFeeds-trim_left is_space 0 fed (TwoFeeds-two_feeds 0 joined)),
    )
