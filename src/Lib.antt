-- ===== src/Lib.antt =====
-- suzieFilteringSystem: a daemon that polls a mailbox, archives and summarizes each message, and
-- sends a digest of them. A model of its packages under internal/ and of the two programs under cmd/,
-- the daemon and a developer's tool, and what is proved of them.
--
-- The parts. A scheduler (internal/scheduler) runs two jobs under one lock. The poll job
-- (internal/poll) fetches the messages above a stored cursor by IMAP (internal/imap), parses
-- each (internal/parse), writes it to the archive (internal/archive), has it summarized by a
-- local model (internal/llm), inserts a row (internal/store), sets \Seen on the server and moves
-- the cursor. The digest job selects the rows of a window, renders them (internal/digest), mails
-- them (internal/mailer) and marks them.
--
-- Files.
--   Base, Base/*       texts, lists and Boolean tests over the native numbers
--   Model              the data of internal/model/model.go and of the packages' interfaces
--   Decimal            strconv.FormatUint and ParseUint, as the store uses them
--   Tables, World      the SQLite tables and statements; what the program shares with the outside,
--                      the actions on it, and the rules to reason about them (World/*)
--   Store, Store/*     internal/store/store.go; Store/Open has Open and Close over a driver
--   Imap, Imap/*       internal/imap/imap.go; Imap/Dial has the connection and its deadline, which
--                      Fetch and MarkSeen see as one call that may fail
--   Archive, Archive/* internal/archive/archive.go
--   Llm, Llm/*         internal/llm/llm.go
--   Parse, Parse/*     internal/parse/parse.go: Message, stripHTML (Parse/Html), normalizeWhitespace
--                      (Parse/Whitespace) and StripQuotedText (Parse/Quotes). A regular expression
--                      is a function on texts, and ReplaceAllString passes its matches from left to
--                      right
--   Poll, Poll/*       internal/poll/poll.go: Job.Run is `run`, processOne is `process_one` with its
--                      parts `process_parsed`, `process_new` and `fill_row`. NoLoss puts Fetch, the batch
--                      and the stored cursor together; Live (also of Archive, Imap and World)
--                      is about runs where every call outside succeeds
--   Digest, Mailer     internal/digest/digest.go (Digest/Html has htmlTemplate),
--                      internal/mailer/mailer.go (Mailer/Client has New)
--   Scheduler          internal/scheduler/scheduler.go: runDigest. Scheduler/Lock has withLock and
--                      Stop as interleaved steps of any number of goroutines. Delivery is about a job that
--                      may fail anywhere, Live about one where every call succeeds
--                      Jobs performs polls and digests in turn (RunPoll, RunDigest), Start has New and
--                      Start. Ledger is an abstract account of letters and digests, without rows, ids
--                      and SQL; Jobs/Refines shows that the jobs implement it
--   Daemon, Daemon/*   cmd/digestd/main.go: `main` from Load to the exit status, and `lives`, the process
--                      started again and again. `tasks` are the jobs that got the run lock
--   Config, Config/*   internal/config/config.go: Load and Redacted. The record `Host` holds the
--                      environment and the parsers of the standard library
--   Devsummarize       cmd/devsummarize/main.go, the developer's tool, and its data. Files has
--                      resolveFiles and preflight, Check has processFile and checkSummary, Report has
--                      writeMarkdownReport, Human has printHuman, Main has main; the record
--                      `Tool` holds the file system, the HTTP client and its JSON. `sink` says how
--                      each write to the report ends
--   Samples            the theorems at concrete data
--
-- How the code is modelled. A method is an action: a function from a world to a result and the
-- world it leaves, so that what was done before an error stays done. The world holds the
-- database, the archive's files, the flags set on the server, the mail sent and a count of the
-- calls made to the outside. The record `Env` holds what the program does not implement. Its
-- field `reply n` says how the n-th call ends: it succeeds, it fails without an effect, or the
-- network loses the answer to a call that took effect. A theorem for every `Env` holds for every
-- schedule of failures, and for a crash between two calls, which leaves what an error at the
-- second leaves. A failing SQL statement has no effect, and a transaction that fails is rolled
-- back.
--
-- Choices. A text is a list of the code points of valid UTF-8. A time is a number of nanoseconds
-- and a zone; a column in RFC 3339 keeps its whole seconds, by which it is ordered. An error is
-- its message, without the parts that %q and %d print. `digits` has fuel 20, enough for any
-- uint64. A new row's id is one above the largest; a digest keeps no id. Structures are
-- recursive on lists, so all functions end without other fuel. A limit of runes is an int; one that
-- is not above 0 is no limit, and is 0 in the model.
--
-- Not modelled. The MIME parser (enmime), the parsers of net/mail, html/template's escaping, SHA-256,
-- strings.ToLower, the calendar, the JSON decoding and the HTTP exchange are fields of `Env`.
-- Left out are the JSON and the messages of cmd/devsummarize, the logging, signals (the end of the
-- list of jobs), the cron library (any list of jobs), TLS, and the network's timeouts apart from
-- their length and their being failed calls.
pub mod Base
pub mod Model
pub mod Config
pub mod Daemon
pub mod Decimal
pub mod Tables
pub mod World
pub mod Parse
pub mod Store
pub mod Imap
pub mod Archive
pub mod Llm
pub mod Poll
pub mod Devsummarize
pub mod Digest
pub mod Mailer
pub mod Scheduler
pub mod Samples
