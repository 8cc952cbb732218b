-- ===== src/Config.antt =====
-- internal/config/config.go: the configuration from environment variables. The environment and the
-- parsers of the standard library are the fields of `Host`.
pub mod Loaded
use suzie_filtering_system.Base.{
  ℕ, ◌*◌, Text, codes, Bool, true, false, not, Option, none, some, List, [], ◌∷◌, ◌++◌, map, filter,
  ltb, split, join, is_empty, trim_space, if◌then◌else◌,
}
use suzie_filtering_system.Model.{ℤ, pos, is_positive}
use suzie_filtering_system.World.{Env, Result, ok, err}

-- `getenv` is os.Getenv: an unset variable is empty. A duration counts nanoseconds; a level of
-- package slog is an int, and LevelInfo is 0.
pub record Host : Type 1 where
  pub Location : Type 0
  pub getenv : Text → Text
  pub atoi : Text → Option ℤ
  pub parse_duration : Text → Option ℤ
  pub load_location : Text → Result Location
  pub parse_level : Text → Result ℤ
  pub show_duration : ℤ → Text
  pub show_location : Location → Text
  pub show_level : ℤ → Text

-- `return nil, err`, or what follows
abbrev pub and_then : {A B : Type 0} → Result A → (A → Result B) → Result B
and_then (ok a) k = k a
and_then (err e) k = err e

module _ ⦃env : Env⦄ ⦃host : Host⦄ where
  pub record Config : Type 0 where
    pub imap_host : Text
    pub imap_port : ℤ
    pub imap_user : Text
    pub imap_pass : Text
    pub imap_folder : Text
    pub imap_allowlist : List Text
    pub smtp_host : Text
    pub smtp_port : ℤ
    pub smtp_user : Text
    pub smtp_pass : Text
    pub smtp_from : Text
    pub digest_to : Text
    pub ollama_url : Text
    pub ollama_model : Text
    pub llm_timeout : ℤ
    pub summary_language : Text
    pub poll_schedule : Text
    pub digest_schedule : Text
    pub body_char_limit : ℤ
    pub db_path : Text
    pub archive_dir : Text
    pub tz : host.Location
    pub log_level : ℤ

  -- the closure `required`, with the keys that were missing before it and those after
  unfoldable pub required : Text → List Text → Text × List Text
  required key missing =
      let v = host.getenv key in (v, if is_empty v then missing ++ key ∷ [] else missing)

  unfoldable pub opt_str : Text → Text → Text
  opt_str key default = let v = host.getenv key in if not (is_empty v) then v else default

  unfoldable pub opt_int : Text → ℤ → ℤ
  opt_int key default =
      let v = host.getenv key in
      if is_empty v then default else elim (host.atoi v) [ none ↦ default | some n ↦ n ]

  unfoldable pub clean_address : Text → Text
  clean_address addr = env.lower (trim_space addr)

  -- IMAP_ALLOWLIST, split at commas
  unfoldable pub load_allowlist : Text → List Text
  unfolding clean_address
  load_allowlist al =
      if is_empty al
      then []
      else filter (λ addr. not (is_empty addr)) (map clean_address (split b',' al))

  unfoldable pub load_timeout : Text → Result ℤ
  load_timeout raw =
      if is_empty raw then ok (pos (10 * 60 * 1000000000)) else elim (host.parse_duration raw) [
        | none ↦ err (codes "invalid LLM_TIMEOUT: must be a positive Go duration")
        | some timeout ↦
            if is_positive timeout
            then ok timeout
            else err (codes "invalid LLM_TIMEOUT: must be a positive Go duration")
      ]

  unfoldable pub load_tz : Text → Result host.Location
  load_tz name = elim (host.load_location name) [
    | ok loc ↦ ok loc
    | err e ↦ err (codes "invalid TZ: " ++ e)
  ]

  unfoldable pub load_level : Text → Result ℤ
  load_level ls = if is_empty ls then ok (pos 0) else elim (host.parse_level ls) [
    | ok level ↦ ok level
    | err e ↦ err (codes "invalid LOG_LEVEL: " ++ e)
  ]

  unfoldable pub finish : List Text → Config → Result Config
  finish [] c = ok c
  finish (key ∷ keys) c =
      err (codes "missing required environment variables: " ++ join (codes ", ") (key ∷ keys))

  unfoldable pub load : Result Config
  unfolding required opt_str opt_int load_allowlist load_timeout load_tz load_level finish
  load =
      let imap_host = required (codes "IMAP_HOST") [] in
      let imap_user = required (codes "IMAP_USER") imap_host.1 in
      let imap_pass = required (codes "IMAP_PASS") imap_user.1 in
      let smtp_host = required (codes "SMTP_HOST") imap_pass.1 in
      let smtp_user = required (codes "SMTP_USER") smtp_host.1 in
      let smtp_pass = required (codes "SMTP_PASS") smtp_user.1 in
      let smtp_from = required (codes "SMTP_FROM") smtp_pass.1 in
      let digest_to = required (codes "DIGEST_TO") smtp_from.1 in
      let ollama_url = required (codes "OLLAMA_URL") digest_to.1 in
      let ollama_model = required (codes "OLLAMA_MODEL") ollama_url.1 in
      and_then (load_timeout (host.getenv (codes "LLM_TIMEOUT"))) λ timeout.
        and_then (load_tz (opt_str (codes "TZ") (codes "America/Toronto"))) λ tz.
          and_then (load_level (host.getenv (codes "LOG_LEVEL"))) λ level.
            finish ollama_model.1 (record {
              imap_host = imap_host.0;
              imap_port = opt_int (codes "IMAP_PORT") (pos 993);
              imap_user = imap_user.0;
              imap_pass = imap_pass.0;
              imap_folder = opt_str (codes "IMAP_FOLDER") (codes "INBOX");
              imap_allowlist = load_allowlist (host.getenv (codes "IMAP_ALLOWLIST"));
              smtp_host = smtp_host.0;
              smtp_port = opt_int (codes "SMTP_PORT") (pos 587);
              smtp_user = smtp_user.0;
              smtp_pass = smtp_pass.0;
              smtp_from = smtp_from.0;
              digest_to = digest_to.0;
              ollama_url = ollama_url.0;
              ollama_model = ollama_model.0;
              llm_timeout = timeout;
              summary_language = opt_str (codes "SUMMARY_LANGUAGE") (codes "fr");
              poll_schedule = opt_str (codes "POLL_SCHEDULE") (codes "0 7 * * *");
              digest_schedule = opt_str (codes "DIGEST_SCHEDULE") (codes "0 8 * * 1");
              body_char_limit = opt_int (codes "BODY_CHAR_LIMIT") (pos 4000);
              db_path = opt_str (codes "DB_PATH") (codes "/data/digestd.db");
              archive_dir = opt_str (codes "ARCHIVE_DIR") (codes "/data/archive");
              tz = tz;
              log_level = level;
            })

-- The values of the map for the log.
pub data Value : Type 0 where
  text : Text → Value
  texts : List Text → Value
  number : ℤ → Value

module _ ⦃env : Env⦄ ⦃host : Host⦄ where
  unfoldable pub redacted : Config → List (Text × Value)
  redacted c =
      (codes "imap_host", text c.imap_host)
      ∷ (codes "imap_port", number c.imap_port)
      ∷ (codes "imap_user", text c.imap_user)
      ∷ (codes "imap_pass", text (codes "***"))
      ∷ (codes "imap_folder", text c.imap_folder)
      ∷ (codes "imap_allowlist", texts c.imap_allowlist)
      ∷ (codes "smtp_host", text c.smtp_host)
      ∷ (codes "smtp_port", number c.smtp_port)
      ∷ (codes "smtp_user", text c.smtp_user)
      ∷ (codes "smtp_pass", text (codes "***"))
      ∷ (codes "smtp_from", text c.smtp_from)
      ∷ (codes "digest_to", text c.digest_to)
      ∷ (codes "ollama_url", text c.ollama_url)
      ∷ (codes "ollama_model", text c.ollama_model)
      ∷ (codes "llm_timeout", text (host.show_duration c.llm_timeout))
      ∷ (codes "summary_language", text c.summary_language)
      ∷ (codes "poll_schedule", text c.poll_schedule)
      ∷ (codes "digest_schedule", text c.digest_schedule)
      ∷ (codes "body_char_limit", number c.body_char_limit)
      ∷ (codes "db_path", text c.db_path)
      ∷ (codes "archive_dir", text c.archive_dir)
      ∷ (codes "tz", text (host.show_location c.tz))
      ∷ (codes "log_level", text (host.show_level c.log_level))
      ∷ []
