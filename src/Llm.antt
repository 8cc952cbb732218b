-- ===== src/Llm.antt =====
-- internal/llm/llm.go: the client of Ollama's chat endpoint.
mod Prompt
pub mod Keeps
pub mod Valid
use Prompt.{system_prompt}
use suzie_filtering_system.Base.{
  ℕ, ◌+◌, ◌-◌, ◌*◌, ◌/◌, ◌%◌, Text, codes, Bool, true, false, not, ◌&&◌, ◌||◌, Option, none, some,
  List, [], ◌∷◌, ◌++◌, length, take, leb, ltb, ◌==◌, text_eq, is_empty, trim_space, if◌then◌else◌,
}
use suzie_filtering_system.Decimal.{format_uint}
use suzie_filtering_system.Model.{
  Time, Summary, Input, RawDebug, LlmOutput, OllamaRequest, HttpResponse,
}
use suzie_filtering_system.World.{
  World, Env, Result, ok, err, Io, pure, raise, lift, wrap, ◌>>=◌, ◌>>◌, try, query, ask, now,
}

abbrev fallback_text : Text
fallback_text = codes "could not summarize"

-- time.Parse("2006-01-02", s): four, two and two digits that name a day of the calendar.
abbrev is_digit : ℕ → Bool
is_digit c = leb b'0' c && leb c b'9'

abbrev two : ℕ → ℕ → ℕ
two a b = (a - b'0') * 10 + (b - b'0')

pub is_leap : ℕ → Bool
is_leap y = y % 4 == 0 && (not (y % 100 == 0) || y % 400 == 0)

pub days_in : ℕ → ℕ → ℕ
unfolding is_leap
days_in y m =
    if m == 2
    then if is_leap y then 29 else 28
    else if m == 4 || m == 6 || m == 9 || m == 11
    then 30
    else 31

day_of_month : ℕ → ℕ → ℕ → Bool
unfolding days_in
day_of_month y m d = leb 1 m && (leb m 12 && (leb 1 d && leb d (days_in y m)))

pub is_date : Text → Bool
unfolding day_of_month
is_date (y₁ ∷ y₂ ∷ y₃ ∷ y₄ ∷ h₁ ∷ m₁ ∷ m₂ ∷ h₂ ∷ d₁ ∷ d₂ ∷ []) =
    is_digit y₁
    && is_digit y₂
    && is_digit y₃
    && is_digit y₄
    && h₁ == b'-'
    && is_digit m₁
    && is_digit m₂
    && h₂ == b'-'
    && is_digit d₁
    && is_digit d₂
    && day_of_month (two y₁ y₂ * 100 + two y₃ y₄) (two m₁ m₂) (two d₁ d₂)
is_date _ = false

pub is_action : Text → Bool
is_action a =
    text_eq a (codes "none")
    || text_eq a (codes "reply")
    || text_eq a (codes "action")
    || text_eq a (codes "fyi")

pub is_tone : Text → Bool
is_tone t = text_eq t (codes "neutral") || text_eq t (codes "heated")

-- A null or empty deadline is accepted as none.
pub check_deadline : Option Text → Result Text
unfolding is_date
check_deadline none = ok []
check_deadline (some d) =
    if is_empty d then ok [] else if is_date d then ok d else err (codes "invalid deadline")

abbrev max_summary : ℕ
max_summary = 200

pub clip : Text → Text
clip s = if ltb max_summary (length s) then take max_summary s else s

valid_summary : LlmOutput → Result Text → Result Summary
unfolding clip
valid_summary out (err e) = err e
valid_summary out (ok deadline) = ok record {
  text = clip out.summary;
  action = out.action_required;
  deadline = deadline;
  tone = out.tone;
  status = codes "ok";
  error = [];
}

-- `validate` behind the decoding of the JSON text
unfoldable pub validate_output : Option LlmOutput → Result Summary
unfolding is_action is_tone check_deadline valid_summary
validate_output none = err (codes "invalid JSON")
validate_output (some out) =
    if is_empty out.summary
    then err (codes "empty summary")
    else if not (is_action out.action_required)
    then err (codes "invalid action_required")
    else if not (is_tone out.tone)
    then err (codes "invalid tone")
    else valid_summary out (check_deadline out.deadline)

-- The failure that is persisted: `err2`, or the rejection of the second answer.
abbrev error_message : Result Text → Text
error_message (ok raw) = codes "validation failed after retry"
error_message (err e) = e

abbrev raw_of : Result Text → Text
raw_of (ok raw) = raw
raw_of (err e) = []

pub fallback : Result Text → Summary
fallback answer = record {
  text = fallback_text;
  action = [];
  deadline = [];
  tone = [];
  status = codes "error";
  error = error_message answer;
}

abbrev pub millis : ℕ
millis = 1000000

-- llm.Client
pub record Client : Type 0 where
  pub model : Text
  pub keep_alive : Text

module _ ⦃env : Env⦄ where
  -- The answer of the server, read into the content of its message.
  pub read_response : HttpResponse → Result Text
  read_response resp =
      if resp.status == 200
      then elim (env.decode_response resp.body) [
        | none ↦ err (codes "decode response")
        | some content ↦ ok content
      ]
      else err (
          codes "ollama HTTP "
          ++ format_uint resp.status
          ++ codes ": "
          ++ trim_space (take 512 resp.body))

  pub request : Client → Input → Bool → OllamaRequest
  request c input strict = record {
    model = c.model;
    system = system_prompt input.language strict;
    user =
        codes "From: "
        ++ input.sender
        ++ codes "\nSubject: "
        ++ input.subject
        ++ codes "\n\n"
        ++ input.body;
    stream = false;
    keep_alive = c.keep_alive;
  }

  -- `call`: one HTTP request. Building the request and sending it may fail.
  pub call : Client → Input → Bool → Io Text
  unfolding request read_response
  call c input strict = do
    ask
    resp ← query λ w. env.post w.tick (request c input strict)
    lift (read_response resp)

  -- `validate`
  pub validate : Text → Result Summary
  unfolding validate_output
  validate raw = validate_output (env.decode_output raw)

  -- A call and the validation of its answer, with the time that the call took.
  abbrev checked : Result Text → Result Summary
  checked (ok raw) = validate raw
  checked (err e) = err e

  pub timed_call : Client → Input → Bool → Io (Result Text × ℕ)
  unfolding call try
  timed_call c input strict = do
    start ← now
    answer ← try (call c input strict)
    stop ← now
    pure (answer, (stop.ns - start.ns) / millis)

  abbrev second_answer : Result Text → Result Summary → ℕ → Io (Summary × RawDebug)
  second_answer answer (ok s) total =
      pure (s, record { raw_response = raw_of answer; latency_ms = total; retried = true })
  second_answer answer (err e) total =
      pure (
        fallback answer,
        record { raw_response = raw_of answer; latency_ms = total; retried = true },
      )

  abbrev first_answer : Client → Input → Result Text → Result Summary → ℕ → Io (Summary × RawDebug)
  first_answer c input answer (ok s) ms =
      pure (s, record { raw_response = raw_of answer; latency_ms = ms; retried = false })
  first_answer c input answer (err e) ms = do
    (answer2, ms2) ← timed_call c input true
    second_answer answer2 (checked answer2) (ms + ms2)

  -- `Summarize`: one call, and a second one with the strict prompt after any failure.
  pub summarize : Client → Input → Io (Summary × RawDebug)
  unfolding timed_call validate fallback
  summarize c input = do
    (answer, ms) ← timed_call c input false
    first_answer c input answer (checked answer) ms
