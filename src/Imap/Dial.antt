-- ===== src/Imap/Dial.antt =====
-- contextDialer.Dial and dialSession of internal/imap/imap.go: a connection with a deadline.
use suzie_filtering_system.Base.{
  ℕ, ◌+◌, ◌-◌, ◌≤◌, ◌<◌, Text, Bool, true, false, Option, none, some, leb, ◌≡◌, ◌⊎◌, inl, inr, refl,
  ap, arith, if◌then◌else◌,
}
use suzie_filtering_system.Model.{ℤ, pos, negsuc}
use suzie_filtering_system.World.{Result, ok, err}
use suzie_filtering_system.Imap.Timeout.{
  default_command_timeout, command_timeout, command_timeout-le,
}

-- A connection: when it times out, and whether it is open.
pub record Conn : Type 0 where
  pub deadline : Option ℕ
  pub is_open : Bool

-- The package net, for one connection: DialContext and SetDeadline, where `some` is an error; and what
-- client.DialWithDialerTLS makes of what Dial returns.
pub record Net : Type 0 where
  pub dial_context : Option Text
  pub set_deadline : Option Text
  pub dial_with_dialer_tls : Result Conn → Result Conn

-- time.Until, in nanoseconds
unfoldable pub until : ℕ → ℕ → ℤ
until deadline now = if leb now deadline then pos (deadline - now) else negsuc (now - deadline - 1)

-- What remains until the deadline of the context.
unfoldable pub remaining : Option ℕ → ℕ → Option ℤ
unfolding until
remaining none now = none
remaining (some deadline) now = some (until deadline now)

-- What Dial returns, and the connection that it leaves, if it made one.
abbrev after_deadline : ℕ → Option Text → Result Conn × Option Conn
after_deadline d none = (
  ok (record { deadline = some d; is_open = true }),
  some (record { deadline = some d; is_open = true }),
)
after_deadline d (some e) = (err e, some (record { deadline = none; is_open = false }))

abbrev after_dial : Option Text → ℕ → Option Text → Result Conn × Option Conn
after_dial set_deadline d none = after_deadline d set_deadline
after_dial set_deadline d (some e) = (err e, none)

-- `now` and `later` are the two readings of the clock, time.Now() and that of commandTimeout.
pub dial : Net → Option ℕ → ℕ → ℕ → Result Conn × Option Conn
unfolding remaining command_timeout
dial net deadline now later =
    after_dial net.set_deadline (now + command_timeout (remaining deadline later)) net.dial_context

abbrev session_of : ℕ → Result Conn → Result (Conn × ℕ)
session_of timeout (ok c) = ok (c, timeout)
session_of timeout (err e) = err e

-- The session and its command timeout, which is read before the connection is made.
pub dial_session : Net → Option ℕ → ℕ → ℕ → ℕ → Result (Conn × ℕ)
unfolding dial remaining command_timeout
dial_session net deadline before now later =
    session_of (command_timeout (remaining deadline before))
      (net.dial_with_dialer_tls (dial net deadline now later).0)

-- Dial returns an error and leaves no connection, or a closed one; or it returns the open connection
-- that it leaves, and this times out after `now`, at most five minutes later, and no later than the
-- deadline of the context, where that is still ahead.
abbrev pub Dials : Option ℕ → ℕ → ℕ → Result Conn × Option Conn → Type 0
Dials deadline now later r =
    ((e : Text) × (r.0 ≡ err e)
      × ((r.1 ≡ none) ⊎ ((c : Conn) × (r.1 ≡ some c) × (c.is_open ≡ false))))
    ⊎ ((c : Conn) × (r.0 ≡ ok c)
        × (r.1 ≡ some c)
        × (c.is_open ≡ true)
        × ((d : ℕ) × (c.deadline ≡ some d)
            × (now < d)
            × (d ≤ now + default_command_timeout)
            × ((end : ℕ) → deadline ≡ some end → later < end → d ≤ end)))

until-ahead : (end now : ℕ) → now < end → until end now ≡ pos (end - now)
unfolding until
until-ahead end now h = ground arith

-- What is left until the deadline is at least the timeout.
timeout_left :
    (deadline : Option ℕ) (now end : ℕ)
    → deadline ≡ some end
    → now < end
    → now + command_timeout (remaining deadline now) ≤ end
unfolding remaining
timeout_left none now end e h = absurd (cc)
timeout_left (some d) now end e h =
    let same : d ≡ end = cc in
    let ahead = until-ahead d now (omega arith) in
    let (some_time, at_most, fits) = command_timeout-le (some (until d now)) in
    let left = fits (d - now) (ap some ahead) (omega arith) in omega arith

-- Whether or not Dial fails, what it returns and what it leaves are as `Dials` says. The clock does not go
-- back between its two readings.
pub dial-Dials :
    (net : Net) (deadline : Option ℕ) (now later : ℕ)
    → now ≤ later
    → Dials deadline now later (dial net deadline now later)
unfolding dial
dial-Dials net deadline now later order = dialled net.dial_context net.set_deadline
  where
    dialled :
        (a b : Option Text)
        → Dials deadline now later
            (after_dial b (now + command_timeout (remaining deadline later)) a)
    dialled (some e) b = inl (e, refl, inl refl)
    dialled none (some e) = inl (e, refl, inr (_, refl, refl))
    dialled none none =
        let (some_time, at_most, fits) = command_timeout-le (remaining deadline later) in
        inr (
          _,
          refl,
          refl,
          refl,
          (
            _,
            refl,
            omega arith,
            omega arith,
            λ end e h. let left = timeout_left deadline later end e h in omega arith,
          ),
        )
