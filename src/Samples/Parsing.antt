-- ===== src/Samples/Parsing.antt =====
-- Instances of the theorems on the parser and on the HTML digest.
use suzie_filtering_system.Base.{
  Bool, true, [], ◌∷◌, ◌==◌, ◌++◌, if◌then◌else◌, codes, inr, split, trim_space, ◌≡◌, ◌⊎◌, refl,
  false, Text, inl, none, some,
}
use suzie_filtering_system.Model.{Envelope, empty_parsed}
use suzie_filtering_system.Parse.{clean_body, message}
use suzie_filtering_system.Parse.Limit.{IsCut, message-IsCut}
use suzie_filtering_system.Samples.{demo, row, escaped}
use suzie_filtering_system.Model.{parse_time}
use suzie_filtering_system.Digest.{View, make_render_view}
use suzie_filtering_system.Digest.Html.{html_template}
use suzie_filtering_system.Digest.Markup.{NoOpen, markup}
use suzie_filtering_system.Digest.Tags.{html_digest-markup}
use suzie_filtering_system.Parse.Html.{strip_tags}
use suzie_filtering_system.Parse.Html.NoTags.{NoTag, strip_tags-NoTag}
use suzie_filtering_system.Parse.Whitespace.{normalize_whitespace}
use suzie_filtering_system.Parse.Whitespace.Normal.{Tidy, TwoFeeds, normalize_whitespace-Tidy}
use suzie_filtering_system.Parse.Quotes.{strip_quoted_text}
use suzie_filtering_system.Parse.Quotes.Kept.{strip_quoted_text-IsOwn}

strip_tags-NoTag_example : NoTag (strip_tags (codes "a<b>c</b>"))
strip_tags-NoTag_example = strip_tags-NoTag (codes "a<b>c</b>")

normalize_whitespace-Tidy_example :
    Tidy false (normalize_whitespace (codes " a \t b\n\n\n\nc"))
    × TwoFeeds 0 (normalize_whitespace (codes " a \t b\n\n\n\nc"))
normalize_whitespace-Tidy_example = normalize_whitespace-Tidy (codes " a \t b\n\n\n\nc")

strip_quoted_text-IsOwn_example :
    strip_quoted_text (codes "On Monday:\n- one\n") ≡ trim_space (codes "On Monday:\n- one\n")
unfolding split
strip_quoted_text-IsOwn_example =
    strip_quoted_text-IsOwn (codes "On Monday:\n- one\n")
      ((refl, refl), ((refl, refl), ((refl, refl), tt)))

message-IsCut_example :
    ((e : Text) × (demo.read_envelope (codes "a  b") ≡ inl e)
      × (message ⦃env = demo⦄ (codes "a  b") 2 ≡ (empty_parsed, some e)))
    ⊎ ((e : Envelope) × (demo.read_envelope (codes "a  b") ≡ inr e)
        × ((message ⦃env = demo⦄ (codes "a  b") 2).1 ≡ none)
        × IsCut 2 (clean_body e) (message ⦃env = demo⦄ (codes "a  b") 2).0)
message-IsCut_example = message-IsCut ⦃env = demo⦄ (codes "a  b") 2

escaped-NoOpen : (s : Text) → NoOpen (escaped s)
unfolding escaped
escaped-NoOpen [] = tt
escaped-NoOpen (c ∷ s) = first (c == b'<') refl (c == b'>') (escaped-NoOpen s)
  where
    first :
        (b : Bool)
        → (c == b'<') ≡ b
        → (d : Bool) → NoOpen (escaped s)
        → NoOpen ((if b then codes "&lt;" else if d then codes "&gt;" else c ∷ []) ++ escaped s)
    first true h d rest = (refl, (refl, (refl, (refl, rest))))
    first false h true rest = (refl, (refl, (refl, (refl, rest))))
    first false h false rest = (h, rest)

-- A view of one mail, with this subject.
abbrev view_of : Text → View
view_of subject = record {
  window_start = parse_time 2;
  window_end = parse_time 9;
  rows = record row { subject = subject } ∷ [];
}

html_digest-markup_example :
    markup false
      (html_template ⦃env = demo⦄ (make_render_view ⦃env = demo⦄ (view_of (codes "<script>"))))
    ≡ markup false
        (html_template ⦃env = demo⦄ (make_render_view ⦃env = demo⦄ (view_of (codes "hello"))))
html_digest-markup_example =
    html_digest-markup ⦃env = demo⦄ (view_of (codes "<script>")) (view_of (codes "hello"))
      escaped-NoOpen (record { deadline = refl; heated = refl; error = refl; in_scope = refl }, tt)
