-- ===== src/Parse/Whitespace.antt =====
-- normalizeWhitespace of internal/parse/parse.go.
pub mod Normal
use suzie_filtering_system.Base.{
  ℕ, zero, suc, Text, codes, Bool, true, false, ◌||◌, List, [], ◌∷◌, map, ltb, ◌==◌, split, join,
  trim_right, trim_space, if◌then◌else◌,
}

-- [ \t]
abbrev pub is_blank : ℕ → Bool
is_blank c = c == 32 || c == 9

-- [ \t]+ by one space; the first argument says that the rune before was one of a run
unfoldable pub one_space : Bool → Text → Text
one_space run [] = []
one_space run (c ∷ s) =
    let rest = one_space (is_blank c) s in
    if is_blank c then (if run then rest else 32 ∷ rest) else c ∷ rest

abbrev is_space_rune : ℕ → Bool
is_space_rune c = c == 32

-- \n{3,} by two line feeds; the first argument counts those of the run so far
unfoldable pub two_feeds : ℕ → Text → Text
two_feeds k [] = []
two_feeds k (c ∷ s) =
    let rest = two_feeds (if c == 10 then suc k else 0) s in
    if c == 10 then (if ltb k 2 then 10 ∷ rest else rest) else c ∷ rest

unfoldable pub normalize_line : Text → Text
unfolding one_space
normalize_line line = trim_right is_space_rune (one_space false line)

unfoldable pub normalize_whitespace : Text → Text
unfolding normalize_line two_feeds split join trim_space
normalize_whitespace s = trim_space (two_feeds 0 (join (10 ∷ []) (map normalize_line (split 10 s))))
