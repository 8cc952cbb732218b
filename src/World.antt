-- ===== src/World.antt =====
-- What the program shares with the outside: the database, the archive's files, the mailbox on the
-- server, the mail sent, and the calls that may fail. An action returns a value or an error and the
-- world that it leaves; what was done before an error stays done.
pub mod Keeps
pub mod Effects
pub mod Hoare
pub mod Live
use suzie_filtering_system.Base.{
  ℕ, suc, ◌+◌, Text, Bool, List, [], ◌∷◌, ◌++◌, Option, none, some, text_eq, ◌⊎◌, if◌then◌else◌,
}
use suzie_filtering_system.Model.{
  Time, Address, Envelope, RawMessage, LlmOutput, OllamaRequest, HttpResponse, RenderView,
}
use suzie_filtering_system.Tables.{Db}

-- How a call to the outside ends. `lost`: it took effect and an error came back.
pub data Reply : Type 0 where
  done : Reply
  failed : Text → Reply
  lost : Text → Reply

-- What the server sends of the body of a message.
pub data Delivery : Type 0 where
  intact missing : Delivery
  unreadable : Text → Delivery

-- The mailbox on the server, as a SELECT and a FETCH find it.
pub record Mailbox : Type 0 where
  pub uid_validity : ℕ
  pub uid_next : ℕ
  pub messages : List RawMessage

-- What the program does not implement. `reply n` is how the n-th call ends.
pub record Env : Type 0 where
  pub reply : ℕ → Reply
  pub clock : ℕ → Time
  -- calendar functions of time.Time, which read the time zone database
  pub year : Time → Text
  pub month : Time → Text
  pub week_before : Time → Time
  pub show_date : Time → Text
  pub show_moment : Time → Text
  pub show_day : Time → Text
  -- strings.ToLower
  pub lower : Text → Text
  -- the first six bytes of SHA-256, in hexadecimal
  pub hash : Text → Text
  -- enmime.ReadEnvelope of a raw message: an error or the envelope
  pub read_envelope : Text → Text ⊎ Envelope
  -- mail.ParseAddressList and mail.ParseDate; `none` is an error
  pub parse_addresses : Text → Option (List Address)
  pub parse_date : Text → Option Time
  -- POST /api/chat by the n-th call; its response decoded into `ollamaResponse`, and the content of
  -- that into `llmOutput`
  pub post : ℕ → OllamaRequest → HttpResponse
  pub decode_response : Text → Option Text
  pub decode_output : Text → Option LlmOutput
  -- the mailbox at the n-th call: mail arrives, and the UIDVALIDITY may change
  pub mailbox : ℕ → Mailbox
  -- what the n-th call gets of the body of the message with a UID
  pub delivery : ℕ → ℕ → Delivery
  -- how html/template escapes a text that it prints in an element
  pub escape_html : Text → Text

-- A message that was handed to the SMTP server.
pub record Mail : Type 0 where
  pub sender : Text
  pub to : Text
  pub subject : Text
  pub html_body : Text
  pub text_body : Text

pub record World : Type 0 where
  pub db : Db
  pub files : List (Text × Text)
  -- the messages that were given \Seen: UIDVALIDITY and UID
  pub seen : List (ℕ × ℕ)
  pub outbox : List Mail
  pub tick : ℕ

pub data Result {ℓ} (A : Type ℓ) : Type ℓ where
  ok : A → Result A
  err : Text → Result A

abbrev pub Io {ℓ} : Type ℓ → Type ℓ
Io A = World → Result A × World

module _ {ℓ} {A : Type ℓ} where
  abbrev pub pure : A → Io A
  pure a w = (ok a, w)

  abbrev pub raise : Text → Io A
  raise e w = (err e, w)

  abbrev pub lift : Result A → Io A
  lift r w = (r, w)

  -- fmt.Errorf("msg: %w", err)
  abbrev pub label : Text → Result A → Result A
  label msg (ok a) = ok a
  label msg (err e) = err (msg ++ e)

  unfoldable pub wrap : Text → Io A → Io A
  wrap msg m w = let (r, w') = m w in (label msg r, w')

  abbrev settle : World → Result A × World → Result A × World
  settle w (ok a, w') = (ok a, w')
  settle w (err e, w') = (err e, record w' { db = w.db })

  -- defer tx.Rollback(): after an error the database is as it was at Begin
  unfoldable pub rollback : Io A → Io A
  rollback m w = settle w (m w)

module _ {ℓ κ} {A : Type ℓ} {B : Type κ} where
  abbrev pub continue : Result A → (A → Io B) → Io B
  continue (ok a) f w = f a w
  continue (err e) f w = (err e, w)

  infixl 5 ◌>>=◌
  unfoldable pub ◌>>=◌ : Io A → (A → Io B) → Io B
  ◌>>=◌ m f w = let (r, w') = m w in continue r f w'

module _ {ℓ} {B : Type ℓ} where
  infixl 5 ◌>>◌
  abbrev pub ◌>>◌ : Io (Unit {0}) → Io B → Io B
  m >> k = m >>= λ _. k

-- An error of a call is a value for the caller.
unfoldable pub try {ℓ} : {A : Type ℓ} → Io A → Io (Result A)
try m w = let (r, w') = m w in (ok r, w')

abbrev pub change : (Db → Db) → World → Unit {0} × World
change f w = (tt, record w { db = f w.db })

abbrev pub next : World → World
next w = record w { tick = suc w.tick }

-- SELECT, and reads of the file system: a read of the world, if the call succeeds.
abbrev answer {ℓ} : {A : Type ℓ} → Reply → A → Result A
answer done a = ok a
answer (failed e) a = err e
answer (lost e) a = err e

module _ ⦃env : Env⦄ where
  module _ {ℓ} {A : Type ℓ} where
    unfoldable pub query : (World → A) → Io A
    query f w = (answer (env.reply w.tick) (f w), next w)

    abbrev run_local : Reply → (World → A × World) → Io A
    run_local done f w = let (a, w') = f w in (ok a, w')
    run_local (failed e) f w = (err e, w)
    run_local (lost e) f w = (err e, w)

    -- A call that fails without effect: an SQL statement, a file operation.
    unfoldable pub exec : (World → A × World) → Io A
    exec f w = run_local (env.reply w.tick) f (next w)

  -- A call that asks nothing of the world: Begin, Commit, ctx.Err(), a login.
  unfoldable pub ask : Io (Unit {0})
  unfolding exec
  ask = exec λ w. (tt, w)

  abbrev run_remote : Reply → (World → World) → Io (Unit {0})
  run_remote done f w = (ok tt, f w)
  run_remote (failed e) f w = (err e, w)
  run_remote (lost e) f w = (err e, f w)

  -- A call over the network, whose effect may outlive an error.
  unfoldable pub remote : (World → World) → Io (Unit {0})
  remote f w = run_remote (env.reply w.tick) f (next w)

  -- time.Now()
  unfoldable pub now : Io Time
  now w = (ok (env.clock w.tick), next w)
