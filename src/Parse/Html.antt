-- ===== src/Parse/Html.antt =====
-- stripHTML of internal/parse/parse.go. A regular expression is the length of its match at the start
-- of a text; none of them matches the empty text.
pub mod NoTags
use suzie_filtering_system.Base.{
  ℕ, zero, suc, ◌+◌, Text, codes, Bool, true, false, ◌&&◌, ◌||◌, Option, none, some, List, [], ◌∷◌,
  ◌++◌, map, any, length, drop, leb, ◌==◌, has_prefix, if◌then◌else◌,
}

-- A match at the start: one less than the runes that it takes, and what replaces them.
abbrev pub Rule : Type 0
Rule = Text → Option (ℕ × Text)

-- ReplaceAllString and Replacer.Replace: the first argument counts the runes of the last match that
-- are still to be passed.
unfoldable pub replace : Rule → ℕ → Text → Text
replace rule k [] = []
replace rule (suc k) (c ∷ s) = replace rule k s
replace rule zero (c ∷ s) = elim (rule (c ∷ s)) [
  | none ↦ c ∷ replace rule zero s
  | some (n, out) ↦ out ++ replace rule n s
]

-- (?i): the runes that fold to a letter of the expressions. U+212A is the Kelvin sign, U+017F the
-- long s.
unfoldable pub fold_case : ℕ → ℕ
fold_case c =
    if leb b'A' c && leb c b'Z'
    then c + 32
    else if c == 0x212a
    then b'k'
    else if c == 0x17f
    then b's'
    else if c == 0xc9
    then 0xe9
    else c

-- a prefix of `s`, in lower case, whatever the case in `s`
unfoldable pub has_fold_prefix : Text → Text → Bool
unfolding fold_case
has_fold_prefix s p = has_prefix (map fold_case s) p

-- [^>]*>: the runes up to the first `>`, with it
unfoldable pub until_gt : Text → Option ℕ
until_gt [] = none
until_gt (c ∷ s) =
    let rest = until_gt s in
    if c == b'>' then some 1 else elim rest [ none ↦ none | some n ↦ some (suc n) ]

-- </(script|style)>, up to its first match and with it
unfoldable pub until_close : Text → Option ℕ
unfolding has_fold_prefix
until_close [] = none
until_close (c ∷ s) =
    let rest = until_close s in
    if has_fold_prefix (c ∷ s) (codes "</script>")
    then some 9
    else if has_fold_prefix (c ∷ s) (codes "</style>")
    then some 8
    else elim rest [ none ↦ none | some n ↦ some (suc n) ]

-- <(script|style)[^>]*>.*?</(script|style)>
unfoldable pub script_rule : Rule
unfolding has_fold_prefix until_gt until_close
script_rule [] = none
script_rule (c ∷ s) =
    if c == b'<' && (has_fold_prefix s (codes "script") || has_fold_prefix s (codes "style"))
    then elim (until_gt s) [
      | none ↦ none
      | some n ↦ elim (until_close (drop n s)) [ none ↦ none | some m ↦ some (n + m, codes " ") ]
    ]
    else none

abbrev pub block_names : List Text
block_names =
    codes "br"
    ∷ codes "p"
    ∷ codes "div"
    ∷ codes "tr"
    ∷ codes "li"
    ∷ codes "h1"
    ∷ codes "h2"
    ∷ codes "h3"
    ∷ codes "h4"
    ∷ codes "h5"
    ∷ codes "h6"
    ∷ codes "blockquote"
    ∷ []

-- <(br|p|div|tr|li|h[1-6]|blockquote)[^>]*/?>
unfoldable pub block_rule : Rule
unfolding has_fold_prefix until_gt
block_rule [] = none
block_rule (c ∷ s) =
    if c == b'<' && any (has_fold_prefix s) block_names
    then elim (until_gt s) [ none ↦ none | some n ↦ some (n, codes "\n") ]
    else none

-- <[^>]+>
unfoldable pub tag_rule : Rule
unfolding until_gt
tag_rule [] = none
tag_rule (c ∷ s) =
    if c == b'<'
    then elim (until_gt s) [ none ↦ none | some n ↦ if n == 1 then none else some (n, []) ]
    else none

abbrev pub entities : List (Text × Text)
entities =
    (codes "&amp;", codes "&")
    ∷ (codes "&lt;", codes "<")
    ∷ (codes "&gt;", codes ">")
    ∷ (codes "&quot;", codes "\"")
    ∷ (codes "&#39;", codes "'")
    ∷ (codes "&nbsp;", codes " ")
    ∷ (codes "&mdash;", codes "—")
    ∷ (codes "&ndash;", codes "–")
    ∷ (codes "&laquo;", codes "«")
    ∷ (codes "&raquo;", codes "»")
    ∷ []

-- the first pair of a strings.Replacer whose old text is there
unfoldable pub first_entity : List (Text × Text) → Rule
first_entity [] s = none
first_entity ((old, new) ∷ pairs) s =
    if has_prefix s old then some (length (drop 1 old), new) else first_entity pairs s

unfoldable pub strip_tags : Text → Text
unfolding replace tag_rule
strip_tags = replace tag_rule 0

unfoldable pub strip_html : Text → Text
unfolding replace script_rule block_rule strip_tags first_entity
strip_html html =
    replace (first_entity entities) 0
      (strip_tags (replace block_rule 0 (replace script_rule 0 html)))
