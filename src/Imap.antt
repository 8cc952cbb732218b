-- ===== src/Imap.antt =====
-- internal/imap/imap.go: fetching new mail and marking it as seen. The commands of a session are
-- the calls of the third-party client: each may fail, and they act on the mailbox of the server.
pub mod Keeps
pub mod Seen
pub mod Fetched
pub mod Timeout
pub mod Dial
pub mod Live
use suzie_filtering_system.Base.{
  ℕ, suc, ◌+◌, ◌-◌, Text, codes, Bool, true, false, not, ◌&&◌, ◌||◌, any, Option, none, some, List,
  [], ◌∷◌, ◌++◌, map, filter, leb, ltb, ◌==◌, if◌then◌else◌,
}
use suzie_filtering_system.Decimal.{max_u32}
use suzie_filtering_system.Model.{RawMessage, FetchResult}
use suzie_filtering_system.World.{
  World, Env, Delivery, intact, missing, unreadable, Mailbox, lift, Result, ok, err, Io, pure,
  raise, wrap, ◌>>=◌, ◌>>◌, query, ask, remote,
}

-- `sort.Slice` by UID: an order of the messages in which the UIDs do not fall.
unfoldable pub insert_by_uid : RawMessage → List RawMessage → List RawMessage
insert_by_uid m [] = m ∷ []
insert_by_uid m (x ∷ xs) = if leb m.uid x.uid then m ∷ x ∷ xs else x ∷ insert_by_uid m xs

unfoldable pub sort_by_uid : List RawMessage → List RawMessage
unfolding insert_by_uid
sort_by_uid [] = []
sort_by_uid (m ∷ ms) = insert_by_uid m (sort_by_uid ms)

-- latestUID
unfoldable pub latest_uid : ℕ → ℕ
latest_uid uid_next = if uid_next == 0 then 0 else uid_next - 1

-- A message of the stream that the server sends: its UID and what came of its body.
pub record Item : Type 0 where
  pub uid : ℕ
  pub raw : Text
  pub delivery : Delivery

-- The range first:* holds the UIDs from `first` on, and always the last message.
last_of : List RawMessage → List RawMessage
last_of [] = []
last_of (m ∷ []) = m ∷ []
last_of (m ∷ n ∷ ms) = last_of (n ∷ ms)

or_last : List RawMessage → List RawMessage → List RawMessage
unfolding last_of
or_last [] ms = last_of ms
or_last (h ∷ hits) ms = h ∷ hits

pub uid_range : ℕ → List RawMessage → List RawMessage
unfolding or_last
uid_range first ms = or_last (filter (λ m. leb first m.uid) ms) ms

-- The first error is the one that is returned.
abbrev first_error : Option Text → Text → Option Text
first_error none e = some e
first_error (some d) e = some d

abbrev add_body : Delivery → Item → List RawMessage → List RawMessage
add_body intact item result = result ++ record { uid = item.uid; raw = item.raw } ∷ []
add_body missing item result = result
add_body (unreadable e) item result = result

abbrev add_error : Delivery → Option Text → Option Text
add_error intact body_err = body_err
add_error missing body_err = first_error body_err (codes "UID has no RFC822 body")
add_error (unreadable e) body_err = first_error body_err (codes "read UID body: " ++ e)

-- The loop of `FetchSince` over the messages of the channel.
pub collect : ℕ → List Item → List RawMessage → Option Text → Result (List RawMessage)
collect first [] result none = ok result
collect first [] result (some e) = err e
collect first (item ∷ items) result body_err =
    collect first items (if ltb item.uid first then result else add_body item.delivery item result)
      (if ltb item.uid first then body_err else add_error item.delivery body_err)

abbrev pub add_seen : ℕ → ℕ → World → World
add_seen uid_validity uid w = record w { seen = (uid_validity, uid) ∷ w.seen }

pub has_seen : ℕ → ℕ → List (ℕ × ℕ) → Bool
has_seen v u = any (λ p. p.0 == v && p.1 == u)

module _ ⦃env : Env⦄ where
  -- ctx.Err(), the dial and the login
  pub connect : Io (Unit {0})
  connect = do ask; wrap (codes "connect IMAP: ") ask; wrap (codes "IMAP login: ") ask

  pub select : Io Mailbox
  select = wrap (codes "select IMAP folder: ") (query λ w. env.mailbox w.tick)

  -- imapSession.FetchSince
  pub fetch_since : ℕ → Io (List RawMessage)
  unfolding uid_range collect
  fetch_since first = do
    items ← query λ w.
        map (λ m. record { uid = m.uid; raw = m.raw; delivery = env.delivery w.tick m.uid })
          (uid_range first (env.mailbox w.tick).messages)
    lift (collect first items [] none)

  pub fetch : ℕ → ℕ → Io FetchResult
  unfolding connect select latest_uid fetch_since sort_by_uid
  fetch known_uid_validity since_uid = do
    connect
    state ← select
    if known_uid_validity == 0 || not (known_uid_validity == state.uid_validity)
        then pure (record {
          uid_validity = state.uid_validity;
          last_uid = latest_uid state.uid_next;
          baseline = true;
          messages = [];
        })
        else if since_uid == max_u32
        then pure (record {
          uid_validity = state.uid_validity;
          last_uid = since_uid;
          baseline = false;
          messages = [];
        })
        else do
          messages ← wrap (codes "fetch IMAP messages: ") (fetch_since (since_uid + 1))
          pure (record {
            uid_validity = state.uid_validity;
            last_uid = since_uid;
            baseline = false;
            messages = sort_by_uid messages;
          })

  pub mark_seen : ℕ → ℕ → Io (Unit {0})
  unfolding connect select
  mark_seen expected_uid_validity uid = do
    connect
    state ← select
    if state.uid_validity == expected_uid_validity
        then wrap (codes "mark UID seen: ") (remote (add_seen state.uid_validity uid))
        else raise (codes "UIDVALIDITY changed before marking UID seen")
