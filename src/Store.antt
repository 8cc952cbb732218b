-- ===== src/Store.antt =====
-- internal/store/store.go: the operations of the store, over the tables of Tables.antt.
pub mod Keeps
pub mod Live
pub mod Returns
pub mod Cursor
pub mod Insert
pub mod Scan
pub mod Unique
pub mod Complete
pub mod Pending
pub mod Ordered
pub mod Open
use suzie_filtering_system.Base.{
  ℕ, ◌*◌, Text, codes, Bool, true, false, Option, none, some, List, [], ◌∷◌, ◌++◌, length, ◌==◌,
  not, is_empty, map, if◌then◌else◌,
}
use suzie_filtering_system.Model.{Time, zero_time, format_time, parse_time, EmailRow}
use suzie_filtering_system.Decimal.{format_uint, parse_uint}
use suzie_filtering_system.Tables
use suzie_filtering_system.Tables.{
  Email, Value, number, stamp, Digest, Db, coalesce, select_state, upsert_state, select_exists,
  insert_row, select_pending, update_digested,
}
use suzie_filtering_system.World.{
  World, Env, change, Result, ok, err, Io, pure, lift, wrap, rollback, ◌>>=◌, ◌>>◌, query, exec,
  ask,
}

-- nullable, nullableTime, defaultString, boolInt
pub nullable : Text → Option Text
nullable s = if is_empty s then none else some s

unfoldable pub nullable_time : Option Time → Option ℕ
nullable_time none = none
nullable_time (some t) = some (format_time t)

pub default_string : Text → Text → Text
default_string value fallback = if is_empty value then fallback else value

pub bool_int : Bool → ℕ
bool_int true = 1
bool_int false = 0

-- The values of the INSERT statement; the id is chosen by the table.
unfoldable pub columns : EmailRow → Email
unfolding nullable nullable_time default_string bool_int
columns e = record {
  id = 0;
  uid_validity = e.uid_validity;
  imap_uid = e.imap_uid;
  message_id = nullable e.message_id;
  received_at = format_time e.received_at;
  from_name = nullable e.from_name;
  from_addr = nullable e.from_addr;
  subject = nullable e.subject;
  raw_path = e.raw_path;
  summary = nullable e.summary;
  action_req = nullable e.action_req;
  deadline = nullable e.deadline;
  tone = nullable e.tone;
  in_scope = bool_int e.in_scope;
  llm_status = some (default_string e.llm_status (codes "ok"));
  llm_error = nullable e.llm_error;
  processed_at = format_time e.processed_at;
  digested_at = nullable_time e.digested_at;
}

abbrev pub scan_time : Option ℕ → Option Time
scan_time none = none
scan_time (some s) = some (parse_time s)

-- scanEmail, behind the COALESCEs of the SELECT
unfoldable pub scan_email : Email → EmailRow
scan_email r = record {
  id = r.id;
  uid_validity = r.uid_validity;
  imap_uid = r.imap_uid;
  message_id = coalesce r.message_id [];
  received_at = parse_time r.received_at;
  from_name = coalesce r.from_name [];
  from_addr = coalesce r.from_addr [];
  subject = coalesce r.subject [];
  raw_path = r.raw_path;
  summary = coalesce r.summary [];
  action_req = coalesce r.action_req [];
  deadline = coalesce r.deadline [];
  tone = coalesce r.tone [];
  in_scope = not (r.in_scope == 0);
  llm_status = coalesce r.llm_status (codes "ok");
  llm_error = coalesce r.llm_error [];
  processed_at = parse_time r.processed_at;
  digested_at = scan_time r.digested_at;
}

-- INSERT, with the number of rows affected
unfoldable pub insert_at : EmailRow → World → ℕ × World
insert_at e w =
    let (rows, n) = insert_row (columns e) w.db.emails in
    (n, record w { db = record w.db { emails = rows } })

unfoldable pub put_state : Text → Value → Db → Db
put_state key value db = record db { state = upsert_state key value db.state }

unfoldable pub stamp_emails : Time → ℕ → Db → Db
stamp_emails at id db = record db { emails = update_digested (format_time at) id db.emails }

unfoldable pub add_digest : Time → Time → Time → ℕ → Db → Db
add_digest sent_at window_start window_end count db = record db {
  digests =
      db.digests
      ++ record {
        sent_at = format_time sent_at;
        window_start = format_time window_start;
        window_end = format_time window_end;
        email_count = count;
      }
        ∷ [];
}

abbrev pub validity_key : Text → Text
validity_key folder = codes "uid_validity:" ++ folder

abbrev pub uid_key : Text → Text
uid_key folder = codes "last_uid:" ++ folder

abbrev pub digest_key : Text
digest_key = codes "last_digest_at"

-- strconv.ParseUint of the value found; a missing key is 0
pub read_uint : Option Value → Result ℕ
read_uint none = ok 0
read_uint (some (stamp s)) = err (codes "parse state")
read_uint (some (number t)) = elim (parse_uint t) [
  | none ↦ err (codes "parse state")
  | some n ↦ ok n
]

-- time.Parse of the value found; a missing key is the zero time
unfoldable pub read_time : Option Value → Result Time
read_time none = ok zero_time
read_time (some (stamp s)) = ok (parse_time s)
read_time (some (number t)) = err (codes "parse last digest time")

module _ ⦃env : Env⦄ where
  -- an SQL statement that changes the database
  abbrev pub sql : (Db → Db) → Io (Unit {0})
  sql f = exec (change f)

  pub state_uint : Text → Io ℕ
  state_uint key = do
    found ← wrap (codes "read state: ") (query λ w. select_state key w.db.state)
    lift (read_uint found)

  pub last_uid : Text → Io (ℕ × ℕ)
  unfolding state_uint
  last_uid folder = do
    validity ← state_uint (validity_key folder)
    uid ← state_uint (uid_key folder)
    pure (validity, uid)

  pub set_state : Text → Value → Io (Unit {0})
  set_state key value = wrap (codes "set state: ") (sql (put_state key value))

  pub set_last_uid : Text → ℕ → ℕ → Io (Unit {0})
  unfolding set_state
  set_last_uid folder uid_validity uid = rollback do
    wrap (codes "begin UID state update: ") ask
    set_state (validity_key folder) (number (format_uint uid_validity))
    set_state (uid_key folder) (number (format_uint uid))
    wrap (codes "commit UID state update: ") ask

  pub insert_email : EmailRow → Io Bool
  unfolding columns insert_at
  insert_email e = do
    affected ← wrap (codes "insert email: ") (exec (insert_at e))
    pure (affected == 1)

  pub email_exists : ℕ → ℕ → Text → Io Bool
  email_exists uid_validity uid message_id =
      wrap (codes "check existing email: ")
        (query λ w. select_exists uid_validity uid message_id w.db.emails)

  pub pending_for_digest : Time → Time → Io (List EmailRow)
  unfolding scan_email
  pending_for_digest window_start window_end = do
    rows ←
        wrap (codes "select pending digest rows: ") (
          query λ w. select_pending (format_time window_start) (format_time window_end) w.db.emails)
    pure (map scan_email rows)

  -- markDigested: one UPDATE for each id
  pub mark_rows : List ℕ → Time → Io (Unit {0})
  mark_rows [] at = pure tt
  mark_rows (id ∷ ids) at = do
    wrap (codes "mark email digested: ") (sql (stamp_emails at id))
    mark_rows ids at

  -- recordDigest
  pub record_row : Time → Time → Time → ℕ → Io (Unit {0})
  unfolding set_state
  record_row sent_at window_start window_end count = do
    wrap (codes "record digest: ") (sql (add_digest sent_at window_start window_end count))
    set_state digest_key (stamp (format_time window_end))

  pub mark_digested : List ℕ → Time → Io (Unit {0})
  unfolding mark_rows
  mark_digested ids at = rollback do
    wrap (codes "begin mark digested: ") ask
    mark_rows ids at
    wrap (codes "commit mark digested: ") ask

  pub record_digest : Time → Time → Time → ℕ → Io (Unit {0})
  unfolding record_row
  record_digest sent_at window_start window_end count = rollback do
    wrap (codes "begin record digest: ") ask
    record_row sent_at window_start window_end count
    wrap (codes "commit record digest: ") ask

  pub complete_digest : List ℕ → Time → Time → Time → Io (Unit {0})
  unfolding mark_rows record_row
  complete_digest ids sent_at window_start window_end = rollback do
    wrap (codes "begin complete digest: ") ask
    mark_rows ids sent_at
    record_row sent_at window_start window_end (length ids)
    wrap (codes "commit complete digest: ") ask

  unfoldable pub last_digest_at : Io Time
  unfolding read_time
  last_digest_at = do
    found ← wrap (codes "read last digest time: ") (query λ w. select_state digest_key w.db.state)
    lift (read_time found)
