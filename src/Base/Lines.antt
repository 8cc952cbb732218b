-- ===== src/Base/Lines.antt =====
-- strings.Split and strings.Join at one separator.
use Prim.Native.Nat.{ℕ}
use mathlib.Core.Path.{◌≡◌, refl, sym, ap, ◌∙◌}
use mathlib.Core.Logic.{◌≢◌, inl, inr}
use mathlib.Core.Bool.{Bool, true, false}
use mathlib.Core.List.{List, [], ◌∷◌, ◌++◌}
use suzie_filtering_system.Base.Tests.{◌==◌, if◌then◌else◌, Bool-cases, ==_iff}
use suzie_filtering_system.Base.Strings.{Text}

abbrev pub on_first : ℕ → List Text → List Text
on_first c [] = (c ∷ []) ∷ []
on_first c (p ∷ ps) = (c ∷ p) ∷ ps

unfoldable pub split : ℕ → Text → List Text
split sep [] = [] ∷ []
split sep (c ∷ s) = let rest = split sep s in if c == sep then [] ∷ rest else on_first c rest

unfoldable pub join : Text → List Text → Text
join sep [] = []
join sep (p ∷ []) = p
join sep (p ∷ q ∷ ps) = p ++ sep ++ join sep (q ∷ ps)

split-ne-nil : (sep : ℕ) (s : Text) → split sep s ≢ []
unfolding split
split-ne-nil sep [] h = cc
split-ne-nil sep (c ∷ s) h = go (c == sep) (split sep s) h
  where
    go : (b : Bool) (rest : List Text) → (if b then [] ∷ rest else on_first c rest) ≢ []
    go true rest k = cc
    go false [] k = cc
    go false (p ∷ ps) k = cc

join-on_first :
    (sep : Text) (c : ℕ) (ps : List Text) → ps ≢ [] → join sep (on_first c ps) ≡ c ∷ join sep ps
unfolding join
join-on_first sep c [] h = absurd (h refl)
join-on_first sep c (p ∷ []) h = refl
join-on_first sep c (p ∷ q ∷ ps) h = refl

join-nil : (sep : Text) (ps : List Text) → ps ≢ [] → join sep ([] ∷ ps) ≡ sep ++ join sep ps
unfolding join
join-nil sep [] h = absurd (h refl)
join-nil sep (p ∷ ps) h = refl

-- Joining the parts of a split gives the text back.
pub join-split : (sep : ℕ) (s : Text) → join (sep ∷ []) (split sep s) ≡ s
unfolding split
join-split sep [] = unfold join in refl
join-split sep (c ∷ s) = elim (Bool-cases (c == sep)) [
  | inl e ↦ rw e (
      join-nil (sep ∷ []) (split sep s) (split-ne-nil sep s)
      ∙ rw (join-split sep s) (ap (λ (x : ℕ). x ∷ s) (sym ((==_iff c sep).0 e))))
  | inr e ↦ rw e (
      join-on_first (sep ∷ []) c (split sep s) (split-ne-nil sep s)
      ∙ ap (λ (t : Text). c ∷ t) (join-split sep s))
]
