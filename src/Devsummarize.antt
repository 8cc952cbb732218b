-- ===== src/Devsummarize.antt =====
-- cmd/devsummarize/main.go: the developer's tool that parses and summarizes local files, its options
-- and what it keeps of a file. The file system, the HTTP client and its JSON are the fields of `Tool`.
pub mod Files
pub mod Check
pub mod Returned
pub mod Report
pub mod Human
pub mod Written
pub mod Main
use suzie_filtering_system.Base.{
  ℕ, Text, codes, Bool, true, false, ◌||◌, Option, none, some, List, [], ◌∷◌, ◌⊎◌, ◌++◌, ◌+◌,
  text_eq, is_empty, if◌then◌else◌,
}
use suzie_filtering_system.Model.{Address, Summary, RawDebug, HttpResponse}

-- How one write to the report ends: all is written, or so many runes and then an error.
pub data Write : Type 0 where
  whole : Write
  short : ℕ → Text → Write

-- One call of filepath.Walk's function.
pub record Visit : Type 0 where
  pub path : Text
  pub is_dir : Bool
  pub error : Option Text

pub record Tool : Type 0 where
  pub stat : Text → Text ⊎ Bool
  pub walk : Text → List Visit
  pub read_file : Text → Text ⊎ Text
  pub http_get : Text → Text ⊎ HttpResponse
  pub decode_tags : Text → Text ⊎ List Text
  pub now : Text
  pub create : Option Text
  pub sink : ℕ → Write
  pub close : Option Text

-- The flags.
pub record Options : Type 0 where
  pub fixtures : Text
  pub ollama_url : Text
  pub model : Text
  pub language : Text
  pub body_limit : ℕ
  pub out : Text
  pub show_body : Bool
  pub fail_invalid : Bool

pub record Record : Type 0 where
  pub file : Text
  pub sender : Text
  pub subject : Text
  pub has_attach : Bool
  pub truncated : Bool
  pub summary : Summary
  pub debug : RawDebug
  pub checks : List Text
  pub body : Text
  pub parse_err : Text

-- record{File: path}
abbrev pub empty_record : Text → Record
empty_record path = record {
  file = path;
  sender = [];
  subject = [];
  has_attach = false;
  truncated = false;
  summary = record { text = []; action = []; deadline = []; tone = []; status = []; error = [] };
  debug = record { raw_response = []; latency_ms = 0; retried = false };
  checks = [];
  body = [];
  parse_err = [];
}

unfoldable pub format_addr : Address → Text
format_addr a = if is_empty a.name then a.addr else a.name ++ codes " <" ++ a.addr ++ codes ">"

-- The counters of `main`.
pub record Tally : Type 0 where
  pub n_ok : ℕ
  pub n_err : ℕ
  pub n_warn : ℕ
  pub total_ms : ℕ

abbrev pub no_tally : Tally
no_tally = record { n_ok = 0; n_err = 0; n_warn = 0; total_ms = 0 }

-- `if len(r.Checks) > 0 { nWarn++ }`
abbrev pub add_warning : List Text → ℕ → ℕ
add_warning [] n = n
add_warning (w ∷ ws) n = n + 1

-- The switch of the loop of `main`, and the two counters behind it.
unfoldable pub count : Record → Tally → Tally
count r t =
    let failed = if is_empty r.parse_err then text_eq r.summary.status (codes "error") else true in
    record {
      n_ok = if failed then t.n_ok else t.n_ok + 1;
      n_err = if failed then t.n_err + 1 else t.n_err;
      n_warn = add_warning r.checks t.n_warn;
      total_ms = t.total_ms + r.debug.latency_ms;
    }

unfoldable pub count_all : List Record → Tally → Tally
unfolding count
count_all [] t = t
count_all (r ∷ rs) t = count_all rs (count r t)
