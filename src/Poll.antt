-- ===== src/Poll.antt =====
-- internal/poll/poll.go: the sequential pipeline that archives, summarizes, stores and acknowledges
-- each new message.
pub mod Keeps
pub mod Growth
pub mod Acknowledged
pub mod Safety
pub mod Progress
pub mod NoSkip
pub mod Batch
pub mod NoLoss
pub mod Live
use suzie_filtering_system.Parse
use suzie_filtering_system.Base.{
  ℕ, suc, ◌+◌, Text, codes, Bool, true, false, not, ◌||◌, Option, none, some, List, [], ◌∷◌, ◌++◌,
  map, filter, any, length, ◌==◌, text_eq, is_empty, trim_space, if◌then◌else◌,
}
use suzie_filtering_system.Decimal.{format_uint}
use suzie_filtering_system.Model.{
  Time, is_zero, Address, Parsed, Summary, EmailRow, RawMessage, FetchResult, Input, RawDebug,
}
use suzie_filtering_system.World.{
  World, Env, Result, ok, err, Io, pure, raise, lift, wrap, ◌>>=◌, ◌>>◌, try, ask, now,
}
use suzie_filtering_system.Store.{last_uid, set_last_uid, email_exists, insert_email}
use suzie_filtering_system.Imap.{fetch, mark_seen, sort_by_uid}
use suzie_filtering_system.Archive
use suzie_filtering_system.Llm.{Client, summarize}

abbrev failed_summary : Text
failed_summary = codes "could not summarize - read original"

pub record Config : Type 0 where
  pub folder : Text
  pub archive_dir : Text
  pub allowlist : List Text
  pub body_char_limit : ℕ
  pub summary_language : Text

-- The fields of `Job` that are not the environment: the configuration, the client of the model and
-- the set of allowed senders.
pub record Job : Type 0 where
  pub cfg : Config
  pub llm : Client
  pub allowlist : List Text

pub record RunResult : Type 0 where
  pub initialized : Bool
  pub fetched : ℕ
  pub processed : ℕ
  pub duplicates : ℕ
  pub errors : ℕ
  pub out_of_scope : ℕ

pub record Outcome : Type 0 where
  pub processed : ℕ
  pub duplicate : ℕ
  pub failed : ℕ
  pub out_of_scope : ℕ

abbrev pub duplicate_outcome : Outcome
duplicate_outcome = record { processed = 0; duplicate = 1; failed = 0; out_of_scope = 0 }

abbrev no_result : RunResult
no_result = record {
  initialized = false;
  fetched = 0;
  processed = 0;
  duplicates = 0;
  errors = 0;
  out_of_scope = 0;
}

abbrev is_error : Text → Bool
is_error status = text_eq status (codes "error")

pub format_address : Address → Text
format_address a = if is_empty a.name then a.addr else a.name ++ codes " <" ++ a.addr ++ codes ">"

-- The three ways to a row: a parse error, a sender out of scope, a summary.
pub with_parse_error : Text → EmailRow → EmailRow × Outcome
with_parse_error e row = (
  record row {
    summary = failed_summary;
    llm_status = codes "error";
    llm_error = codes "parse message: " ++ e;
  },
  record { processed = 1; duplicate = 0; failed = 1; out_of_scope = 0 },
)

pub without_summary : EmailRow → EmailRow × Outcome
without_summary row = (
  record row {
    summary = codes "out of scope - not summarized";
    action_req = codes "none";
    tone = codes "neutral";
    in_scope = false;
    llm_status = codes "ok";
  },
  record { processed = 1; duplicate = 0; failed = 0; out_of_scope = 1 },
)

pub with_summary : Summary → EmailRow → EmailRow × Outcome
with_summary s row = (
  record row {
    summary = s.text;
    action_req = s.action;
    deadline = s.deadline;
    tone = s.tone;
    llm_status = s.status;
    llm_error = s.error;
  },
  record {
    processed = 1;
    duplicate = 0;
    failed = if is_error s.status then 1 else 0;
    out_of_scope = 0;
  },
)

-- `if !inserted { … }`
pub count_insert : Bool → Outcome → Outcome
count_insert inserted o = if inserted then o else record o { processed = 0; duplicate = 1 }

-- the additions at the end of a round of `Run`
pub add_outcome : RunResult → Outcome → RunResult
add_outcome r o = record r {
  processed = r.processed + o.processed;
  duplicates = r.duplicates + o.duplicate;
  errors = r.errors + o.failed;
  out_of_scope = r.out_of_scope + o.out_of_scope;
}

-- The counts so far come back beside an error of a round.
abbrev after_round :
    RunResult
    → (Outcome → Io (RunResult × Option Text))
    → Result Outcome
    → Io (RunResult × Option Text)
after_round r k (ok o) = k o
after_round r k (err e) = pure (r, some e)

-- return Result{}, err
abbrev unless_error {ℓ} :
    {A : Type ℓ} → (A → Io (RunResult × Option Text)) → Result A → Io (RunResult × Option Text)
unless_error k (ok a) = k a
unless_error k (err e) = pure (no_result, some e)

abbrev or_return {ℓ} :
    {A : Type ℓ} → Io A → (A → Io (RunResult × Option Text)) → Io (RunResult × Option Text)
or_return m k = try m >>= unless_error k

module _ ⦃env : Env⦄ where
  abbrev normalize : Text → Text
  normalize addr = env.lower (trim_space addr)

  -- `New`: the empty entries of the allowlist are dropped
  unfoldable pub new_job : Client → Config → Job
  new_job client cfg = record {
    cfg = cfg;
    llm = client;
    allowlist = filter (λ a. not (is_empty a)) (map normalize cfg.allowlist);
  }

  pub in_scope : Job → Text → Bool
  in_scope j address = length j.allowlist == 0 || any (text_eq (normalize address)) j.allowlist

  pub received_at : Parsed → Time → Time
  received_at parsed processed_at = if is_zero parsed.date then processed_at else parsed.date

  pub new_row : ℕ → RawMessage → Parsed → Time → Text → EmailRow
  unfolding received_at
  new_row uid_validity message parsed processed_at raw_path = record {
    id = 0;
    uid_validity = uid_validity;
    imap_uid = message.uid;
    message_id = parsed.message_id;
    received_at = received_at parsed processed_at;
    from_name = parsed.sender.name;
    from_addr = parsed.sender.addr;
    subject = parsed.subject;
    raw_path = raw_path;
    summary = [];
    action_req = [];
    deadline = [];
    tone = [];
    in_scope = true;
    llm_status = [];
    llm_error = [];
    processed_at = processed_at;
    digested_at = none;
  }

  pub llm_input : Job → Parsed → Input
  unfolding format_address
  llm_input j parsed = record {
    sender = format_address parsed.sender;
    subject = parsed.subject;
    body = parsed.body_text;
    language = j.cfg.summary_language;
  }

  -- the `switch` of `processOne`
  pub fill_row : Job → Parsed → Option Text → EmailRow → Io (EmailRow × Outcome)
  unfolding with_parse_error without_summary with_summary in_scope llm_input
  fill_row j parsed (some e) row = pure (with_parse_error e row)
  fill_row j parsed none row =
      if not (in_scope j parsed.sender.addr) then pure (without_summary row) else do
        (summary, debug) ← summarize j.llm (llm_input j parsed)
        pure (with_summary summary row)

  -- MarkSeen and then SetLastUID, as on both ways out of `processOne`
  pub acknowledge : Job → ℕ → ℕ → Io (Unit {0})
  acknowledge j uid_validity uid = do
    mark_seen uid_validity uid
    set_last_uid j.cfg.folder uid_validity uid

  -- what follows the test for an email that exists
  pub process_new : Job → ℕ → RawMessage → Parsed → Option Text → Time → Text → Io Outcome
  unfolding new_row fill_row acknowledge count_insert
  process_new j uid_validity message parsed parse_err processed_at raw_path = do
    (row, outcome) ←
        fill_row j parsed parse_err (new_row uid_validity message parsed processed_at raw_path)
    inserted ← insert_email row
    acknowledge j uid_validity message.uid
    pure (count_insert inserted outcome)

  pub process_parsed : Job → ℕ → RawMessage → Parsed → Option Text → Time → Io Outcome
  unfolding process_new received_at acknowledge
  process_parsed j uid_validity message parsed parse_err processed_at = do
    raw_path ← wrap (codes "archive: ") (
        Archive.write j.cfg.archive_dir (received_at parsed processed_at) parsed.message_id
          message.uid message.raw)
    exists ← email_exists uid_validity message.uid parsed.message_id
    if exists
        then acknowledge j uid_validity message.uid >> pure duplicate_outcome
        else process_new j uid_validity message parsed parse_err processed_at raw_path

  pub process_one : Job → ℕ → RawMessage → Io Outcome
  unfolding process_parsed
  process_one j uid_validity message = do
    processed_at ← now
    let (parsed, parse_err) = Parse.message message.raw j.cfg.body_char_limit
    process_parsed j uid_validity message parsed parse_err processed_at

  -- A round of the loop of `Run`: ctx.Err(), and the message.
  pub round : Job → ℕ → RawMessage → Io Outcome
  unfolding process_one
  round j uid_validity message = do
    ask
    wrap (codes "process UID: ") (process_one j uid_validity message)

  -- the loop of `Run`
  pub process_all : Job → ℕ → List RawMessage → RunResult → Io (RunResult × Option Text)
  process_all j uid_validity [] r = pure (r, none)
  process_all j uid_validity (m ∷ ms) r = do
    result ← try (round j uid_validity m)
    after_round r (λ o. process_all j uid_validity ms (add_outcome r o)) result

  pub save_baseline : Job → FetchResult → Io (RunResult × Option Text)
  save_baseline j fetched =
      or_return
        (wrap (codes "save mailbox baseline: ")
          (set_last_uid j.cfg.folder fetched.uid_validity fetched.last_uid))
        (λ _. pure (record no_result { initialized = true }, none))

  pub process_batch : Job → FetchResult → Io (RunResult × Option Text)
  unfolding process_all
  process_batch j fetched =
      process_all j fetched.uid_validity (sort_by_uid fetched.messages)
        (record no_result { fetched = length fetched.messages })

  pub run : Job → Io (RunResult × Option Text)
  unfolding save_baseline process_batch
  run j = or_return (wrap (codes "read poll cursor: ") (last_uid j.cfg.folder)) λ cursor.
      or_return (fetch cursor.0 cursor.1)
        λ fetched. if fetched.baseline then save_baseline j fetched else process_batch j fetched
