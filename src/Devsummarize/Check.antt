-- ===== src/Devsummarize/Check.antt =====
-- processFile and checkSummary of cmd/devsummarize/main.go. A regular expression is a function on
-- texts.
use suzie_filtering_system.Base.{
  ℕ, suc, Text, codes, Bool, false, not, ◌&&◌, ◌||◌, ◌⊎◌, inl, inr, Option, none, some, List, [],
  ◌∷◌, ◌++◌, map, any, length, ltb, leb, ◌==◌, text_eq, trim_space, if◌then◌else◌,
}
use suzie_filtering_system.Decimal.{format_uint}
use suzie_filtering_system.Model.{Parsed, empty_parsed, Summary, Input}
use suzie_filtering_system.World.{Env, Io, pure, ◌>>=◌}
use suzie_filtering_system.Parse.{message}
use suzie_filtering_system.Parse.Html.{fold_case, has_fold_prefix}
use suzie_filtering_system.Llm.{Client, summarize}
use suzie_filtering_system.Devsummarize.{
  Tool, Options, Record, empty_record, format_addr, Tally, count,
}
use suzie_filtering_system.Devsummarize.Files.{ext}

-- [A-ZÀÂÆÇÉÈÊËÎÏÔŒÙÛÜ]
unfoldable pub is_capital : ℕ → Bool
is_capital c = leb b'A' c && leb c b'Z' || any (λ d. d == c) (codes "ÀÂÆÇÉÈÊËÎÏÔŒÙÛÜ")

-- three capitals in a row; the first argument counts those before
unfoldable pub has_caps_run : ℕ → Text → Bool
unfolding is_capital
has_caps_run k [] = false
has_caps_run k (c ∷ s) =
    let rest = has_caps_run (if is_capital c then suc k else 0) s in is_capital c && leb 2 k || rest

-- the word runes of \b
abbrev pub is_word : ℕ → Bool
is_word c =
    leb b'a' c && leb c b'z' || leb b'A' c && leb c b'Z' || leb b'0' c && leb c b'9' || c == b'_'

abbrev pub verbs : List Text
verbs = codes "accuse" ∷ codes "exige" ∷ codes "insiste" ∷ codes "blame" ∷ []

-- (?i)\b(accuse|exige|insiste|blame); the first argument says that a word rune stands before
unfoldable pub has_verb : Bool → Text → Bool
unfolding has_fold_prefix
has_verb inside [] = false
has_verb inside (c ∷ s) =
    let rest = has_verb (is_word c) s in not inside && any (has_fold_prefix (c ∷ s)) verbs || rest

abbrev pub warn_if : Bool → Text → List Text
warn_if b name = if b then name ∷ [] else []

abbrev pub over_limit : ℕ → Text
over_limit n = codes "summary>200chars (" ++ format_uint n ++ codes ")"

-- `affectChecks`, and the note on a source that was cut.
unfoldable pub affect_checks : Text → Bool → List (Bool × Text)
unfolding has_caps_run has_verb
affect_checks t truncated =
    (any (λ c. c == b'!') t, codes "affect-marker '!'")
    ∷ (has_caps_run 0 t, codes "ALL-CAPS run")
    ∷ (has_verb false t, codes "accusation verb")
    ∷ (truncated, codes "note: source was truncated")
    ∷ []

abbrev pub failing : List (Bool × Text) → List Text
failing [] = []
failing ((b, name) ∷ checks) = warn_if b name ++ failing checks

unfoldable pub check_summary : Summary → Bool → List Text
unfolding affect_checks
check_summary s truncated =
    if text_eq s.status (codes "error")
    then (codes "llm-fallback: " ++ s.error) ∷ []
    else warn_if (ltb 200 (length s.text)) (over_limit (length s.text))
      ++ failing (affect_checks s.text truncated)

-- What a .txt file is parsed to.
abbrev pub plain_text : Text → Parsed
plain_text raw = record empty_parsed {
  sender = record { name = []; addr = codes "(none)" };
  subject = codes "(none)";
  body_text = trim_space raw;
}

abbrev pub failed_record : Text → Text → Record
failed_record path e = record (empty_record path) { parse_err = e }

module _ ⦃env : Env⦄ where
  abbrev pub input_of : Options → Parsed → Input
  input_of opts parsed = record {
    sender = format_addr parsed.sender;
    subject = parsed.subject;
    body = parsed.body_text;
    language = opts.language;
  }

  unfoldable pub summarize_parsed : Options → Client → Text → Parsed → Io Record
  unfolding check_summary format_addr
  summarize_parsed opts client path parsed = do
    (summary, debug) ← summarize client (input_of opts parsed)
    pure (record (empty_record path) {
      sender = format_addr parsed.sender;
      subject = parsed.subject;
      has_attach = parsed.has_attachment;
      truncated = parsed.truncated;
      body = if opts.show_body then parsed.body_text else [];
      summary = summary;
      debug = debug;
      checks = check_summary summary parsed.truncated;
    })

  abbrev pub mail_record : Options → Client → Text → Parsed × Option Text → Io Record
  mail_record opts client path (parsed, none) = summarize_parsed opts client path parsed
  mail_record opts client path (parsed, some e) = pure (failed_record path e)

  abbrev pub read_record : Options → Client → Text → Text ⊎ Text → Io Record
  read_record opts client path (inl e) = pure (failed_record path e)
  read_record opts client path (inr raw) =
      if text_eq (map fold_case (ext path)) (codes ".txt")
      then summarize_parsed opts client path (plain_text raw)
      else mail_record opts client path (message raw opts.body_limit)

  unfoldable pub process_file : Tool → Options → Client → Text → Io Record
  unfolding summarize_parsed fold_case ext message
  process_file tool opts client path = read_record opts client path (tool.read_file path)

  -- The loop of `main`: the records so far and the counters.
  unfoldable pub process_files :
      Tool → Options → Client → List Text → List Record → Tally → Io (List Record × Tally)
  unfolding process_file count
  process_files tool opts client [] records t = pure (records, t)
  process_files tool opts client (f ∷ files) records t = do
    r ← process_file tool opts client f
    process_files tool opts client files (records ++ r ∷ []) (count r t)
