-- ===== src/Parse/Quotes.antt =====
-- StripQuotedText of internal/parse/parse.go, on the lines of a body.
pub mod Kept
use suzie_filtering_system.Base.{
  ℕ, suc, ◌+◌, Text, codes, Bool, true, false, ◌&&◌, ◌||◌, List, [], ◌∷◌, length, map, leb, ◌==◌,
  text_eq, is_empty, has_prefix, drop_last, split, join, trim_right, trim_space, if◌then◌else◌,
}
use suzie_filtering_system.Parse.Whitespace.{is_blank}
use suzie_filtering_system.Parse.Html.{fold_case}

-- \s
abbrev is_re_space : ℕ → Bool
is_re_space c = c == 32 || c == 9 || c == 10 || c == 12 || c == 13

unfoldable pub has_suffix : Text → Text → Bool
has_suffix [] t = text_eq [] t
has_suffix (c ∷ s) t = text_eq (c ∷ s) t || has_suffix s t

-- ^On .+wrote:\s*$ of a line in lower case. A line holds no line feed.
unfoldable pub is_english_header : Text → Bool
unfolding has_suffix
is_english_header line =
    let body = trim_right is_re_space line in
    has_prefix body (codes "on ") && has_suffix body (codes "wrote:") && leb 10 (length body)

-- ^Le .+a [eé]crit\s*:\s*$
unfoldable pub is_french_header : Text → Bool
unfolding has_suffix
is_french_header line =
    let body = trim_right is_re_space line in
    let words = trim_right is_re_space (drop_last body) in
    has_suffix body (codes ":")
    && has_prefix words (codes "le ")
    && (has_suffix words (codes "a ecrit") || has_suffix words (codes "a écrit"))
    && leb 11 (length words)

unfoldable pub is_quote_header : Text → Bool
unfolding is_english_header is_french_header fold_case
is_quote_header line =
    let lower = map fold_case line in is_english_header lower || is_french_header lower

abbrev pub is_quoted : Text → Bool
is_quoted line = has_prefix line (codes ">")

abbrev pub is_signature : Text → Bool
is_signature line = text_eq (trim_right is_blank line) (codes "--")

-- the lines above the first signature delimiter
unfoldable pub before_signature : List Text → List Text
before_signature [] = []
before_signature (l ∷ ls) =
    let rest = before_signature ls in if is_signature l then [] else l ∷ rest

-- whether the next line that is not empty is quoted
unfoldable pub next_is_quoted : List Text → Bool
next_is_quoted [] = false
next_is_quoted (l ∷ ls) = let rest = next_is_quoted ls in if is_empty l then rest else is_quoted l

-- the lines that the loop passes over
unfoldable pub is_dropped : Text → List Text → Bool
unfolding is_quote_header next_is_quoted
is_dropped l ls = is_quoted l || is_quote_header l && next_is_quoted ls

unfoldable pub unquoted : List Text → List Text
unfolding is_dropped
unquoted [] = []
unquoted (l ∷ ls) = let rest = unquoted ls in if is_dropped l ls then rest else l ∷ rest

unfoldable pub strip_quoted_text : Text → Text
unfolding before_signature unquoted split join trim_space
strip_quoted_text body = trim_space (join (10 ∷ []) (unquoted (before_signature (split 10 body))))
