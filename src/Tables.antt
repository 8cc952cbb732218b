-- ===== src/Tables.antt =====
-- The SQLite tables of internal/store/store.go, and its SQL statements as functions on them.
-- A NULL is `none`; a column that `formatTime` fills holds the seconds that its text denotes.
pub mod State
use suzie_filtering_system.Base.{
  ℕ, zero, suc, Text, Bool, true, false, not, ◌&&◌, ◌||◌, Option, none, some, List, [], ◌∷◌, ◌++◌,
  map, filter, any, length, ltb, leb, ◌==◌, text_eq, is_empty, if◌then◌else◌,
}

-- CREATE TABLE emails
pub record Email : Type 0 where
  pub id : ℕ
  pub uid_validity : ℕ
  pub imap_uid : ℕ
  pub message_id : Option Text
  pub received_at : ℕ
  pub from_name : Option Text
  pub from_addr : Option Text
  pub subject : Option Text
  pub raw_path : Text
  pub summary : Option Text
  pub action_req : Option Text
  pub deadline : Option Text
  pub tone : Option Text
  pub in_scope : ℕ
  pub llm_status : Option Text
  pub llm_error : Option Text
  pub processed_at : ℕ
  pub digested_at : Option ℕ

-- The text of a value of table `state`: of a number, or of a time in RFC 3339.
pub data Value : Type 0 where
  number : Text → Value
  stamp : ℕ → Value

-- CREATE TABLE digests
pub record Digest : Type 0 where
  pub sent_at : ℕ
  pub window_start : ℕ
  pub window_end : ℕ
  pub email_count : ℕ

pub record Db : Type 0 where
  pub emails : List Email
  pub state : List (Text × Value)
  pub digests : List Digest

abbrev pub empty_db : Db
empty_db = record { emails = []; state = []; digests = [] }

-- SELECT value FROM state WHERE key = ?
unfoldable pub select_state : Text → List (Text × Value) → Option Value
select_state k [] = none
select_state k ((j, v) ∷ rest) = if text_eq j k then some v else select_state k rest

-- INSERT INTO state … ON CONFLICT(key) DO UPDATE
unfoldable pub upsert_state : Text → Value → List (Text × Value) → List (Text × Value)
upsert_state k v [] = (k, v) ∷ []
upsert_state k v ((j, w) ∷ rest) =
    if text_eq j k then (k, v) ∷ rest else (j, w) ∷ upsert_state k v rest

-- `? <> '' AND message_id = ?`: a comparison with NULL does not hold.
unfoldable pub same_message : Text → Option Text → Bool
same_message m none = false
same_message m (some k) = not (is_empty m) && text_eq m k

abbrev pub has_uid : ℕ → ℕ → Email → Bool
has_uid v u r = r.uid_validity == v && r.imap_uid == u

-- The WHERE clause of EmailExists, and the query.
unfoldable pub matches : ℕ → ℕ → Text → Email → Bool
unfolding same_message
matches v u m r = has_uid v u r || same_message m r.message_id

unfoldable pub select_exists : ℕ → ℕ → Text → List Email → Bool
unfolding matches
select_exists v u m = any (matches v u m)

-- UNIQUE: two NULLs do not collide.
unfoldable pub same_key : Option Text → Option Text → Bool
same_key none k = false
same_key (some m) none = false
same_key (some m) (some k) = text_eq m k

-- UNIQUE(uid_validity, imap_uid), UNIQUE(message_id)
unfoldable pub collides : Email → Email → Bool
unfolding same_key
collides e r = has_uid e.uid_validity e.imap_uid r || same_key e.message_id r.message_id

-- The id that an INTEGER PRIMARY KEY takes: one more than the largest.
unfoldable pub next_id : List Email → ℕ
next_id [] = 1
next_id (r ∷ rest) = let n = next_id rest in if leb n r.id then suc r.id else n

-- INSERT INTO emails … ON CONFLICT DO NOTHING, with the number of rows affected.
unfoldable pub insert_row : Email → List Email → List Email × ℕ
unfolding collides next_id
insert_row e rows =
    if any (collides e) rows then (rows, 0) else (rows ++ record e { id = next_id rows } ∷ [], 1)

-- ORDER BY received_at, id
unfoldable pub before : Email → Email → Bool
before a b = ltb a.received_at b.received_at || (a.received_at == b.received_at && leb a.id b.id)

unfoldable pub insert_ordered : Email → List Email → List Email
unfolding before
insert_ordered e [] = e ∷ []
insert_ordered e (r ∷ rest) = if before e r then e ∷ r ∷ rest else r ∷ insert_ordered e rest

unfoldable pub order_rows : List Email → List Email
unfolding insert_ordered
order_rows [] = []
order_rows (r ∷ rest) = insert_ordered r (order_rows rest)

abbrev pub is_null {ℓ} : {A : Type ℓ} → Option A → Bool
is_null none = true
is_null (some a) = false

-- WHERE received_at >= ? AND received_at < ? AND digested_at IS NULL
unfoldable pub is_pending : ℕ → ℕ → Email → Bool
is_pending start end r = leb start r.received_at && (ltb r.received_at end && is_null r.digested_at)

unfoldable pub select_pending : ℕ → ℕ → List Email → List Email
unfolding is_pending order_rows
select_pending start end rows = order_rows (filter (is_pending start end) rows)

-- COALESCE
abbrev pub coalesce {ℓ} : {A : Type ℓ} → Option A → A → A
coalesce none d = d
coalesce (some a) d = a

-- UPDATE emails SET digested_at = COALESCE(digested_at, ?) WHERE id = ?
unfoldable pub stamp_row : ℕ → ℕ → Email → Email
stamp_row at id r =
    if r.id == id then record r { digested_at = some (coalesce r.digested_at at) } else r

unfoldable pub update_digested : ℕ → ℕ → List Email → List Email
unfolding stamp_row
update_digested at id = map (stamp_row at id)
