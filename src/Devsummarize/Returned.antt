-- ===== src/Devsummarize/Returned.antt =====
-- What the loop of cmd/devsummarize/main.go returns for each file, and the warnings of checkSummary on
-- what the client of internal/llm returns.
use suzie_filtering_system.Base.{
  Text, codes, Bool, true, false, ◌⊎◌, inl, inr, Option, none, some, List, [], ◌∷◌, ◌++◌,
  append_assoc, append-nil, map, any, length, ltb, ◌≡◌, refl, sym, ap, ◌∙◌, text_eq, All, arith,
  if◌then◌else◌,
}
use suzie_filtering_system.Model.{Parsed, Summary}
use suzie_filtering_system.World.{World, Env, ok, Io, pure, ◌>>=◌}
use suzie_filtering_system.Parse.{message}
use suzie_filtering_system.Parse.Html.{fold_case}
use suzie_filtering_system.Llm.{Client}
use suzie_filtering_system.Llm.Valid.{IsPersistable, summarize-IsPersistable}
use suzie_filtering_system.Devsummarize.{count_all, Tool, Options, Record, Tally, count}
use suzie_filtering_system.Devsummarize.Files.{ext}
use suzie_filtering_system.Devsummarize.Check.{
  warn_if, affect_checks, failing, check_summary, failed_record, input_of, plain_text,
  summarize_parsed, mail_record, read_record, process_file, process_files,
}

-- The warnings on the tone.
abbrev pub tone_warnings : List Text
tone_warnings =
    codes "affect-marker '!'"
    ∷ codes "ALL-CAPS run"
    ∷ codes "accusation verb"
    ∷ codes "note: source was truncated"
    ∷ []

abbrev pub IsToneWarning : Text → Type 0
IsToneWarning w = any (text_eq w) tone_warnings ≡ true

warn_if-All :
    (b : Bool) (name : Text) (rest : List Text)
    → IsToneWarning name
    → All IsToneWarning rest
    → All IsToneWarning (warn_if b name ++ rest)
warn_if-All true name rest h k = (h, k)
warn_if-All false name rest h k = k

failing-All :
    (checks : List (Bool × Text))
    → All (λ c. IsToneWarning c.1) checks
    → All IsToneWarning (failing checks)
failing-All [] h = tt
failing-All ((b, name) ∷ checks) (here, rest) =
    warn_if-All b name (failing checks) here (failing-All checks rest)

affect_checks-All :
    (t : Text) (truncated : Bool) → All (λ c. IsToneWarning c.1) (affect_checks t truncated)
unfolding affect_checks
affect_checks-All t truncated = (refl, (refl, (refl, (refl, tt))))

-- The warnings of a record are those of its summary: that of the fallback alone, or some on the tone,
-- and none on the length.
pub record IsChecked (s : Summary) (truncated : Bool) (checks : List Text) : Type 0 where
  pub persistable : IsPersistable s
  pub warnings :
      (s.status ≡ codes "error") × (checks ≡ (codes "llm-fallback: " ++ s.error) ∷ [])
      ⊎ (s.status ≡ codes "ok") × All IsToneWarning checks

check_summary-IsChecked :
    (s : Summary) (truncated : Bool)
    → IsPersistable s
    → IsChecked s truncated (check_summary s truncated)
unfolding check_summary
check_summary-IsChecked s truncated (inl valid) = record {
  persistable = inl valid;
  warnings =
      let short : ltb 200 (length s.text) ≡ false = ground (arith, valid.short) in
      inr (
        valid.status,
        rw (valid.status, short)
            (failing-All (affect_checks s.text truncated) (affect_checks-All s.text truncated)),
      );
}
check_summary-IsChecked s truncated (inr (e, t)) = record {
  persistable = inr (e, t);
  warnings = inl (e, rw e refl);
}

module _ ⦃env : Env⦄ where
  -- What processFile leaves of a file: an error and no summary, or what `summarize` returned, with its
  -- warnings.
  pub data Processed (path : Text) (r : Record) : Type 0 where
    unread : (e : Text) → r ≡ failed_record path e → Processed path r
    checked :
        r.file ≡ path
        → r.parse_err ≡ []
        → IsChecked r.summary r.truncated r.checks
        → Processed path r

  Returns : (path : Text) (m : Io Record) → Type 0
  Returns path m = (w : World) → (r : Record) × ((m w).0 ≡ ok r) × Processed path r

  failed-Returns : (path e : Text) → Returns path (pure (failed_record path e))
  unfolding Returns
  failed-Returns path e w = (failed_record path e, refl, unread e refl)

  summarize_parsed-Returns :
      (opts : Options) (client : Client) (path : Text) (parsed : Parsed)
      → Returns path (summarize_parsed opts client path parsed)
  unfolding Returns summarize_parsed ◌>>=◌
  summarize_parsed-Returns opts client path parsed w =
      let (s, d, e, persistable) = summarize-IsPersistable client (input_of opts parsed) w in
      rw e (_, refl, checked refl refl (check_summary-IsChecked s parsed.truncated persistable))

  mail-Returns :
      (opts : Options) (client : Client) (path : Text) (m : Parsed × Option Text)
      → Returns path (mail_record opts client path m)
  mail-Returns opts client path (parsed, none) = summarize_parsed-Returns opts client path parsed
  mail-Returns opts client path (parsed, some e) = failed-Returns path e

  read-Returns :
      (opts : Options) (client : Client) (path : Text) (r : Text ⊎ Text)
      → Returns path (read_record opts client path r)
  read-Returns opts client path (inl e) = failed-Returns path e
  read-Returns opts client path (inr raw) = go (text_eq (map fold_case (ext path)) (codes ".txt"))
    where
      go :
          (b : Bool)
          → Returns path (
              if b
              then summarize_parsed opts client path (plain_text raw)
              else mail_record opts client path (message raw opts.body_limit))
      go true = summarize_parsed-Returns opts client path (plain_text raw)
      go false = mail-Returns opts client path (message raw opts.body_limit)

  process_file-Returns :
      (tool : Tool) (opts : Options) (client : Client) (path : Text)
      → Returns path (process_file tool opts client path)
  unfolding process_file
  process_file-Returns tool opts client path = read-Returns opts client path (tool.read_file path)

  -- What the loop does with some files, behind the records so far.
  pub record Run (files : List Text) (records : List Record) (t : Tally)
      (m : Io (List Record × Tally)) (w : World) : Type 0 where
    pub rs : List Record
    pub returns : (m w).0 ≡ ok (records ++ rs, count_all rs t)
    pub in_order : map (λ (r : Record). r.file) rs ≡ files
    pub processed : All (λ r. Processed r.file r) rs

  file-eq : (path : Text) (r : Record) → Processed path r → (r.file ≡ path) × Processed r.file r
  file-eq path r (unread e h) = rw h (refl, unread e refl)
  file-eq path r (checked h read fine) = (h, checked refl read fine)

  -- For any files, whatever the server and the file system answer, the loop of `main` returns a record
  -- for each file, in order, behind those it has; its counters are those of these records. Each record
  -- has an error and no summary, or else a summary that may be stored with its warnings: that of the
  -- fallback alone, or some on the tone and the source, and none on the length.
  pub process_files-Run :
      (tool : Tool) (opts : Options) (client : Client) (files : List Text) (records : List Record)
      (t : Tally) (w : World)
      → Run files records t (process_files tool opts client files records t) w
  unfolding process_files ◌>>=◌ Returns count_all
  process_files-Run tool opts client [] records t w = record {
    rs = [];
    returns = ap (λ x. ok (x, t)) (sym (append-nil records));
    in_order = refl;
    processed = tt;
  }
  process_files-Run tool opts client (f ∷ files) records t w =
      go (process_file-Returns tool opts client f w)
        (λ x. process_files-Run tool opts client files (records ++ x ∷ []) (count x t))
    where
      go :
          (r : Record) × ((process_file tool opts client f w).0 ≡ ok r) × Processed f r
          → ((x : Record) (u : World)
              → Run files
                  (records ++ x ∷ [])
                  (count x t)
                  (process_files tool opts client files (records ++ x ∷ []) (count x t))
                  u)
          → Run (f ∷ files) records t (process_files tool opts client (f ∷ files) records t) w
      go (r, e, p) later =
          let rest = later r (process_file tool opts client f w).1 in
          let (same, fine) = file-eq f r p in
          record {
            rs = r ∷ rest.rs;
            returns = rw e (
                rest.returns
                ∙ ap (λ x. ok (x, count_all rest.rs (count r t)))
                    (append_assoc records (r ∷ []) rest.rs));
            in_order =
                ap (λ (x : Text). x ∷ map (λ (q : Record). q.file) rest.rs) same
                ∙ ap (λ (xs : List Text). f ∷ xs) rest.in_order;
            processed = (fine, rest.processed);
          }
