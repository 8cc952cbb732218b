-- ===== src/Model.antt =====
-- The data that the packages exchange: internal/model/model.go, the row type of
-- internal/store/store.go, and the message type of internal/imap/imap.go.
use suzie_filtering_system.Base.{ℕ, Text, Bool, false, ltb, Option, List, [], ◌==◌, ◌/◌, ◌*◌}

-- An int, as pos n or - (n + 1).
pub data ℤ : Type 0 where
  pos : ℕ → ℤ
  negsuc : ℕ → ℤ

abbrev pub is_positive : ℤ → Bool
is_positive (pos n) = ltb 0 n
is_positive (negsuc n) = false

-- time.Time: nanoseconds since 0001-01-01 00:00 UTC, and the location that it is shown in.
pub record Time : Type 0 where
  pub ns : ℕ
  pub zone : ℕ

abbrev pub zero_time : Time
zero_time = record { ns = 0; zone = 0 }

-- time.Time.IsZero
abbrev pub is_zero : Time → Bool
is_zero t = t.ns == 0

abbrev pub second : ℕ
second = 1000000000

-- `formatTime`: RFC 3339 in UTC keeps whole seconds, by which the text is identified and ordered.
abbrev pub format_time : Time → ℕ
format_time t = t.ns / second

-- time.Parse(time.RFC3339, …) of such a text.
abbrev pub parse_time : ℕ → Time
parse_time s = record { ns = s * second; zone = 0 }

pub record Address : Type 0 where
  pub name : Text
  pub addr : Text

pub record Parsed : Type 0 where
  pub message_id : Text
  pub sender : Address
  pub subject : Text
  pub date : Time
  pub body_text : Text
  pub has_attachment : Bool
  pub truncated : Bool

-- enmime.Envelope, as internal/parse/parse.go reads it: GetHeader, the two bodies, the attachments
-- and the file names of the inline parts.
pub record Envelope : Type 0 where
  pub header : Text → Text
  pub text : Text
  pub html : Text
  pub attachments : ℕ
  pub inlines : List Text

-- model.Parsed{}
abbrev pub empty_parsed : Parsed
empty_parsed = record {
  message_id = [];
  sender = record { name = []; addr = [] };
  subject = [];
  date = zero_time;
  body_text = [];
  has_attachment = false;
  truncated = false;
}

pub record Summary : Type 0 where
  pub text : Text
  pub action : Text
  pub deadline : Text
  pub tone : Text
  pub status : Text
  pub error : Text

-- store.EmailRow
pub record EmailRow : Type 0 where
  pub id : ℕ
  pub uid_validity : ℕ
  pub imap_uid : ℕ
  pub message_id : Text
  pub received_at : Time
  pub from_name : Text
  pub from_addr : Text
  pub subject : Text
  pub raw_path : Text
  pub summary : Text
  pub action_req : Text
  pub deadline : Text
  pub tone : Text
  pub in_scope : Bool
  pub llm_status : Text
  pub llm_error : Text
  pub processed_at : Time
  pub digested_at : Option Time

-- imap.RawMessage
pub record RawMessage : Type 0 where
  pub uid : ℕ
  pub raw : Text

-- imap.FetchResult
pub record FetchResult : Type 0 where
  pub uid_validity : ℕ
  pub last_uid : ℕ
  pub baseline : Bool
  pub messages : List RawMessage

-- llm.Input
pub record Input : Type 0 where
  pub sender : Text
  pub subject : Text
  pub body : Text
  pub language : Text

-- llm.RawDebug
pub record RawDebug : Type 0 where
  pub raw_response : Text
  pub latency_ms : ℕ
  pub retried : Bool

-- llmOutput: the JSON object that the model answers, as encoding/json decodes it
pub record LlmOutput : Type 0 where
  pub summary : Text
  pub action_required : Text
  pub deadline : Option Text
  pub tone : Text

-- ollamaRequest. The schema and the options are the same in every request and are left out.
pub record OllamaRequest : Type 0 where
  pub model : Text
  pub system : Text
  pub user : Text
  pub stream : Bool
  pub keep_alive : Text

-- What the HTTP client returns of a response.
pub record HttpResponse : Type 0 where
  pub status : ℕ
  pub body : Text

-- renderRow and renderView of internal/digest/digest.go
pub record RenderRow : Type 0 where
  pub date : Text
  pub sender : Text
  pub subject : Text
  pub summary : Text
  pub action : Text
  pub deadline : Text
  pub tone : Text
  pub original : Text
  pub heated : Bool
  pub error : Bool
  pub out_of_scope : Bool

pub record RenderView : Type 0 where
  pub window : Text
  pub rows : List RenderRow
  pub empty : Bool
