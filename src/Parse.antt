-- ===== src/Parse.antt =====
-- internal/parse/parse.go: a raw message to a `Parsed`. The MIME parser and the parsers of package
-- net/mail are fields of `Env`.
pub mod Html
pub mod Whitespace
pub mod Quotes
pub mod Limit
mod Tests
use suzie_filtering_system.Base.{
  ℕ, zero, suc, Text, codes, Bool, true, false, not, ◌&&◌, ◌||◌, ◌⊎◌, inl, inr, Option, none, some,
  List, [], ◌∷◌, any, length, take, ltb, ◌==◌, is_empty, trim, trim_space, if◌then◌else◌,
}
use suzie_filtering_system.Model.{Time, zero_time, Address, Parsed, Envelope, empty_parsed}
use suzie_filtering_system.World.{Env}
use suzie_filtering_system.Parse.Html.{strip_html}
use suzie_filtering_system.Parse.Whitespace.{normalize_whitespace}
use suzie_filtering_system.Parse.Quotes.{strip_quoted_text}

-- the cutset "<> \t"
abbrev pub is_bracket : ℕ → Bool
is_bracket c = c == b'<' || c == b'>' || c == 32 || c == 9

-- The first address of the header, or the header itself where it does not parse.
abbrev pub first_sender : Option (List Address) → Text → Address
first_sender none header = record { name = []; addr = trim_space header }
first_sender (some []) header = record { name = []; addr = trim_space header }
first_sender (some (a ∷ rest)) header = a

abbrev date_of : Option Time → Time
date_of none = zero_time
date_of (some t) = t

-- The body before it is cut: the plain text, or the stripped HTML where there is none.
unfoldable pub clean_body : Envelope → Text
unfolding strip_html normalize_whitespace strip_quoted_text
clean_body e = strip_quoted_text (
    normalize_whitespace
      (if is_empty e.text && not (is_empty e.html) then strip_html e.html else e.text))

-- The limit is an int; one that is not above 0 is no limit, and is 0 here.
unfoldable pub is_over : ℕ → Text → Bool
is_over char_limit body = ltb 0 char_limit && ltb char_limit (length body)

unfoldable pub has_attachment : Envelope → Bool
has_attachment e = ltb 0 e.attachments || any (λ name. not (is_empty name)) e.inlines

module _ ⦃env : Env⦄ where
  unfoldable pub parse_envelope : Envelope → ℕ → Parsed
  unfolding clean_body is_over has_attachment
  parse_envelope e char_limit =
      let body = clean_body e in
      record {
        message_id = trim is_bracket (e.header (codes "Message-Id"));
        sender =
            first_sender (env.parse_addresses (e.header (codes "From"))) (e.header (codes "From"));
        subject = e.header (codes "Subject");
        date =
            if is_empty (e.header (codes "Date"))
            then zero_time
            else date_of (env.parse_date (e.header (codes "Date")));
        body_text = if is_over char_limit body then take char_limit body else body;
        has_attachment = has_attachment e;
        truncated = is_over char_limit body;
      }

  abbrev parse_read : Text ⊎ Envelope → ℕ → Parsed × Option Text
  parse_read (inl e) char_limit = (empty_parsed, some e)
  parse_read (inr envelope) char_limit = (parse_envelope envelope char_limit, none)

  -- `Message`: the result and the error, if any
  unfoldable pub message : Text → ℕ → Parsed × Option Text
  unfolding parse_envelope
  message raw char_limit = parse_read (env.read_envelope raw) char_limit
