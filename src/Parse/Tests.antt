-- ===== src/Parse/Tests.antt =====
-- Runs of the functions of internal/parse/parse.go.
use suzie_filtering_system.Base.{codes, ◌≡◌, refl, true}
use suzie_filtering_system.Parse.Html.{strip_html}
use suzie_filtering_system.Parse.Whitespace.{normalize_whitespace}
use suzie_filtering_system.Parse.Quotes.{strip_quoted_text, is_quote_header}

strip_html_runs :
    strip_html (codes "<P>a<SCRIPT x>zz</style>b<<i>c</i> &amp;lt; <br/>d<>")
    ≡ codes "\na bc &lt; \nd<>"
unfolding strip_html
strip_html_runs = refl

normalize_whitespace_runs :
    normalize_whitespace (codes " a \t b  \n\n\n\n c\t\n") ≡ codes "a b\n\n c"
unfolding normalize_whitespace
normalize_whitespace_runs = refl

strip_quoted_text_runs :
    strip_quoted_text (codes "hi\nOn Monday x wrote:\n\n> q\nOn y wrote: \nok\n--  \nsig")
    ≡ codes "hi\n\nOn y wrote: \nok"
unfolding strip_quoted_text
strip_quoted_text_runs = refl

is_quote_header_runs : is_quote_header (codes "Le lundi, X a Écrit : ") ≡ true
unfolding is_quote_header
is_quote_header_runs = refl
