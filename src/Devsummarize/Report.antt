-- ===== src/Devsummarize/Report.antt =====
-- The Markdown report of cmd/devsummarize/main.go: writeMarkdownReport and errWriter.
use suzie_filtering_system.Base.{
  ℕ, suc, ◌+◌, Text, codes, not, ◌||◌, Option, none, some, List, [], ◌∷◌, ◌++◌, length, take, join,
  ◌==◌, text_eq, is_empty, if◌then◌else◌,
}
use suzie_filtering_system.Decimal.{format_uint}
use suzie_filtering_system.Devsummarize.{add_warning, Tool, Write, whole, short, Record}

-- errWriter: what is in the file, the writes so far, and the first error.
pub record ErrWriter : Type 0 where
  pub out : Text
  pub calls : ℕ
  pub error : Option Text

abbrev pub write_once : Write → Text → ErrWriter → ErrWriter
write_once whole s ew = record { out = ew.out ++ s; calls = suc ew.calls; error = none }
write_once (short n e) s ew = record {
  out = ew.out ++ take n s;
  calls = suc ew.calls;
  error = some e;
}

abbrev pub printf_after : Tool → Text → ErrWriter → Option Text → ErrWriter
printf_after tool s ew none = write_once (tool.sink ew.calls) s ew
printf_after tool s ew (some e) = ew

unfoldable pub printf : Tool → Text → ErrWriter → ErrWriter
printf tool s ew = printf_after tool s ew ew.error

unfoldable pub printf_all : Tool → List Text → ErrWriter → ErrWriter
unfolding printf
printf_all tool [] ew = ew
printf_all tool (s ∷ texts) ew = printf_all tool texts (printf tool s ew)

-- filepath.Base of a path that is not empty and has no slash at its end
unfoldable pub base : Text → Text
base [] = []
base (c ∷ s) =
    let rest = base s in if c == b'/' then rest else if text_eq rest s then c ∷ s else rest

-- U+26A0 and the variation selector
abbrev pub warning_sign : Text
warning_sign = 0x26a0 ∷ 0xfe0f ∷ []

unfoldable pub meta : Record → Text
meta r =
    codes "`"
    ++ r.summary.action
    ++ codes "` · `"
    ++ r.summary.tone
    ++ codes "`"
    ++ (if not (is_empty r.summary.deadline) then codes " · 📅 " ++ r.summary.deadline else [])
    ++ codes " · "
    ++ format_uint r.debug.latency_ms
    ++ codes "ms"
    ++ elim r.checks [
      | [] ↦ []
      | w ∷ ws ↦ codes " · " ++ warning_sign ++ codes " " ++ join (codes "; ") (w ∷ ws)
    ]

-- The texts that the loop over the records prints.
unfoldable pub record_texts : Record → List Text
unfolding base meta
record_texts r =
    (codes "---\n\n**" ++ (if is_empty r.subject then base r.file else r.subject) ++ codes "**\n\n")
    ∷ (if not (is_empty r.parse_err)
        then (warning_sign ++ codes " Parse error: " ++ r.parse_err ++ codes "\n\n") ∷ []
        else if text_eq r.summary.status (codes "error")
        then (warning_sign ++ codes " could not summarize\n\n") ∷ []
        else (r.summary.text ++ codes "\n\n") ∷ (meta r ++ codes "\n\n") ∷ [])

unfoldable pub all_texts : List Record → List Text
unfolding record_texts
all_texts [] = []
all_texts (r ∷ rs) = record_texts r ++ all_texts rs

-- The report's own counters.
pub record Counts : Type 0 where
  pub n_ok : ℕ
  pub n_err : ℕ
  pub n_warn : ℕ

unfoldable pub count_record : Record → Counts → Counts
count_record r c =
    let failed = not (is_empty r.parse_err) || text_eq r.summary.status (codes "error") in
    record {
      n_ok = if failed then c.n_ok else c.n_ok + 1;
      n_err = if failed then c.n_err + 1 else c.n_err;
      n_warn = add_warning r.checks c.n_warn;
    }

unfoldable pub counts : List Record → Counts → Counts
unfolding count_record
counts [] c = c
counts (r ∷ rs) c = counts rs (count_record r c)

abbrev pub no_counts : Counts
no_counts = record { n_ok = 0; n_err = 0; n_warn = 0 }

unfoldable pub report_texts : Tool → List Record → Text → Text → ℕ → List Text
unfolding counts all_texts
report_texts tool records model language mean_ms =
    let c = counts records no_counts in
    codes "# Dev Summarize Report\n\n"
    ∷ (codes "**Model:** `"
        ++ model
        ++ codes "` · **Language:** `"
        ++ language
        ++ codes "` · **Generated:** "
        ++ tool.now
        ++ codes "\n\n")
    ∷ (format_uint (length records)
        ++ codes " processed · "
        ++ format_uint c.n_ok
        ++ codes " OK · "
        ++ format_uint c.n_err
        ++ codes " errors · "
        ++ format_uint c.n_warn
        ++ codes " warnings · mean "
        ++ format_uint mean_ms
        ++ codes "ms\n\n")
    ∷ all_texts records

abbrev pub first_error : Option Text → Option Text → Option Text
first_error none later = later
first_error (some e) later = some e

abbrev pub finish : Tool → ErrWriter → Text × Option Text
finish tool ew = (ew.out, first_error ew.error tool.close)

abbrev pub create_report : Tool → List Text → Option Text → Text × Option Text
create_report tool texts none =
    finish tool (printf_all tool texts (record { out = []; calls = 0; error = none }))
create_report tool texts (some e) = ([], some e)

-- What the file holds, and the error that is returned, if any.
unfoldable pub write_report : Tool → List Record → Text → Text → ℕ → Text × Option Text
unfolding printf_all report_texts
write_report tool records model language mean_ms =
    create_report tool (report_texts tool records model language mean_ms) tool.create
