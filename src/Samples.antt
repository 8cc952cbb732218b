-- ===== src/Samples.antt =====
-- Small data for concrete instances of the theorems: one mailbox folder, a server that answers, and
-- a network that loses the answer of its fifth call.
pub mod Parsing
pub mod Pipeline
pub mod Tables
pub mod Tools
pub mod Daemon
use suzie_filtering_system.Base.{
  ℕ, Text, codes, true, false, inr, text_eq, none, some, List, [], ◌∷◌, ◌++◌, ◌≡◌, ◌≢◌, refl, any,
  map, filter, arith, ◌==◌, ◌*◌, if◌then◌else◌,
}
use suzie_filtering_system.Decimal.{format_uint, parse_uint}
use suzie_filtering_system.Decimal.RoundTrip.{parse_uint-format_uint}
use suzie_filtering_system.Model.{
  parse_time, empty_parsed, Summary, EmailRow, RawMessage, FetchResult, Input, RawDebug, LlmOutput,
}
use suzie_filtering_system.Tables.{
  Email, stamp, empty_db, select_state, upsert_state, select_exists, insert_row, collides,
  select_pending, is_pending,
}
use suzie_filtering_system.Tables.State.{select_state-upsert_state}
use suzie_filtering_system.World.{World, Env, Reply, done, lost, intact, ok}
use suzie_filtering_system.World.Effects.{AllOrNothing}
use suzie_filtering_system.World.Hoare.{EndsWith}
use suzie_filtering_system.Store.{
  columns, scan_email, default_string, read_time, digest_key, complete_digest, set_last_uid,
}
use suzie_filtering_system.Store.Cursor.{moved}
use suzie_filtering_system.Store.Insert.{
  any-collides, insert_row-columns, select_exists-insert_row_self,
}
use suzie_filtering_system.Store.Scan.{scan_email-columns}
use suzie_filtering_system.Store.Unique.{Unique, insert_row-Unique}
use suzie_filtering_system.Store.Complete.{
  completed, after_digest, complete_digest-AllOrNothing, completed_lem,
}
use suzie_filtering_system.Imap.Fetched.{Fetched, fetch-Fetched}
use suzie_filtering_system.Imap.{fetch, mark_seen, has_seen}
use suzie_filtering_system.Archive.{safe_name, write}
use suzie_filtering_system.Archive.Names.{IsFileName, safe_name-IsFileName}
use suzie_filtering_system.Archive.Written.{Holds, write-Holds}
use suzie_filtering_system.Llm.{Client, validate_output, summarize}
use suzie_filtering_system.Llm.Valid.{
  IsValid, IsPersistable, validate_output-IsValid, summarize-IsPersistable,
}
use suzie_filtering_system.Poll.{
  Job, RunResult, process_one, process_all, process_batch, round, run,
}
use suzie_filtering_system.Poll.Growth.{Grows, run-Grows}
use suzie_filtering_system.Poll.Acknowledged.{Acked}
use suzie_filtering_system.Poll.Safety.{process_one-Acked}
use suzie_filtering_system.Poll.Progress.{IsDone, round-Done}
use suzie_filtering_system.Poll.Batch.{process_batch-Sound}
use suzie_filtering_system.Poll.NoSkip.{Sound, process_all-Sound}
use suzie_filtering_system.Scheduler
use suzie_filtering_system.Scheduler.Delivery.{DigestEnds, run_digest-DigestEnds}
use suzie_filtering_system.Scheduler.Lock.{
  allowed, holding, running, stopped, State, initial, put, Reach, here, next, allow, take, start,
  begin, acquire, release, one_job, no_job_after_stop,
}

abbrev pub replies : ℕ → Reply
replies n = if n == 5 then lost (codes "connection reset") else done

-- What html/template makes of "<" and ">".
unfoldable pub escaped : Text → Text
escaped [] = []
escaped (c ∷ s) =
    (if c == b'<' then codes "&lt;" else if c == b'>' then codes "&gt;" else c ∷ []) ++ escaped s

abbrev pub demo : Env
demo = record {
  reply = replies;
  clock = λ n. record { ns = n * 1000000000; zone = 0 };
  year = λ t. codes "2026";
  month = λ t. codes "07";
  week_before = λ t. t;
  show_date = λ t. codes "Jul 1";
  show_moment = λ t. codes "Jul 1 08:00";
  show_day = λ t. codes "2026-07-01";
  lower = λ s. s;
  hash = λ s. codes "abcdefabcdef";
  read_envelope = λ raw. inr (record {
    header = λ name. if text_eq name (codes "Message-Id") then raw else [];
    text = raw;
    html = [];
    attachments = 0;
    inlines = [];
  });
  parse_addresses = λ s. none;
  parse_date = λ s. none;
  post = λ n r. record { status = 500; body = [] };
  decode_response = λ s. some s;
  decode_output = λ s. none;
  mailbox = λ n. record { uid_validity = 7; uid_next = 13; messages = [] };
  delivery = λ n u. intact;
  escape_html = escaped;
}

abbrev pub client : Client
client = record { model = codes "small"; keep_alive = codes "5m" }

abbrev pub inbox : Text
inbox = codes "INBOX"

abbrev pub job : Job
job = record {
  cfg = record {
    folder = inbox;
    archive_dir = codes "/mail";
    allowlist = [];
    body_char_limit = 1000;
    summary_language = codes "fr";
  };
  llm = client;
  allowlist = [];
}

-- A world whose cursor is (7, 10).
abbrev pub start_world : World
start_world = record {
  db = moved inbox 7 10 empty_db;
  files = [];
  seen = [];
  outbox = [];
  tick = 0;
}

abbrev pub first_mail : RawMessage
first_mail = record { uid = 11; raw = codes "m1" }

abbrev pub second_mail : RawMessage
second_mail = record { uid = 12; raw = codes "m2" }

abbrev pub no_runs : RunResult
no_runs = record {
  initialized = false;
  fetched = 2;
  processed = 0;
  duplicates = 0;
  errors = 0;
  out_of_scope = 0;
}

abbrev pub row : EmailRow
row = record {
  id = 0;
  uid_validity = 7;
  imap_uid = 11;
  message_id = codes "<a@b>";
  received_at = record { ns = 5000000000; zone = 0 };
  from_name = [];
  from_addr = codes "a@b";
  subject = codes "s";
  raw_path = codes "/mail/m1.eml";
  summary = [];
  action_req = codes "none";
  deadline = [];
  tone = codes "neutral";
  in_scope = true;
  llm_status = codes "ok";
  llm_error = [];
  processed_at = record { ns = 6000000000; zone = 0 };
  digested_at = none;
}

abbrev pub table : List Email
table = columns row ∷ []

abbrev pub answer : LlmOutput
answer = record {
  summary = codes "Pay the fee.";
  action_required = codes "none";
  deadline = some (codes "2026-02-28");
  tone = codes "neutral";
}

abbrev pub batch : FetchResult
batch = record {
  uid_validity = 7;
  last_uid = 10;
  baseline = false;
  messages = second_mail ∷ first_mail ∷ [];
}

abbrev pub scheduler : Scheduler.Config
scheduler = record {
  digest_to = codes "me@example.org";
  smtp_from = codes "digest@example.org";
  location = 1;
}

abbrev pub digest_world : World
digest_world = record start_world { db = record empty_db { emails = table } }

abbrev pub question : Input
question = record {
  sender = codes "a@b";
  subject = codes "s";
  body = codes "hello";
  language = codes "fr";
}

abbrev pub summary : Summary
summary = record {
  text = codes "Pay the fee.";
  action = codes "none";
  deadline = codes "2026-02-28";
  tone = codes "neutral";
  status = codes "ok";
  error = [];
}

-- goroutine 0 runs its job
abbrev pub ran : State
ran = record initial {
  lock = true;
  workers = put (put (put initial.workers 0 allowed) 0 holding) 0 running;
}

-- the scheduler was stopped before any job
abbrev pub halted : State
halted = record initial { stopping = true; stopper = stopped }
