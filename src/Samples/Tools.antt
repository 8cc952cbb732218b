-- ===== src/Samples/Tools.antt =====
-- Instances of the theorems on the configuration and the developer's tool.
use suzie_filtering_system.Base.{
  Text, codes, true, false, not, length, arith, ◌+◌, ◌<◌, ◌%◌, inr, none, List, [], ◌∷◌, any,
  text_eq, ◌≡◌, if◌then◌else◌, ◌==◌,
}
use suzie_filtering_system.Model.{pos}
use suzie_filtering_system.World.{ok}
use suzie_filtering_system.Samples.{demo, client, start_world}
use suzie_filtering_system.Config.{Host, load}
use suzie_filtering_system.Config.Loaded.{Loaded, load-Loaded}
use suzie_filtering_system.Devsummarize.{
  Tool, whole, short, Options, Record, empty_record, no_tally,
}
use suzie_filtering_system.Devsummarize.Check.{process_files}
use suzie_filtering_system.Devsummarize.Returned.{Run, process_files-Run}
use suzie_filtering_system.Devsummarize.Main.{Exit, main, Exits, main-Exits}
use suzie_filtering_system.Devsummarize.Report.{write_report, report_texts}
use suzie_filtering_system.Devsummarize.Written.{concat, IsPrefix, write_report-IsPrefix}
use suzie_filtering_system.Devsummarize.Human.{
  utf8, utf8_rune, line_pad, is_broken, line_pad-broken,
}

abbrev unset : List Text
unset = codes "LLM_TIMEOUT" ∷ codes "LOG_LEVEL" ∷ codes "SMTP_FROM" ∷ []

abbrev demo_host : Host
demo_host = record {
  Location = Text;
  getenv = λ key. if any (text_eq key) unset then [] else codes "a@b";
  atoi = λ s. none;
  parse_duration = λ s. none;
  load_location = λ s. ok s;
  parse_level = λ s. ok (pos 0);
  show_duration = λ n. codes "10m0s";
  show_location = λ s. s;
  show_level = λ n. codes "INFO";
}

-- a disk with two files, and a report of which the second write ends too early
abbrev demo_tool : Tool
demo_tool = record {
  stat = λ s. inr true;
  walk = λ s.
      record { path = codes "a.eml"; is_dir = false; error = none }
      ∷ record { path = codes "b.md"; is_dir = false; error = none }
      ∷ [];
  read_file = λ s. inr (codes "m1");
  http_get = λ s. inr (record { status = 200; body = [] });
  decode_tags = λ s. inr (codes "library/small" ∷ []);
  now = codes "2026-07-01T08:00:00Z";
  create = none;
  sink = λ n. if n == 1 then short 3 (codes "disk full") else whole;
  close = none;
}

abbrev demo_options : Options
demo_options = record {
  fixtures = codes "dir";
  ollama_url = codes "http://localhost:11434/";
  model = codes "small";
  language = codes "fr";
  body_limit = 4000;
  out = codes "report.md";
  show_body = false;
  fail_invalid = true;
}

abbrev two_records : List Record
two_records =
    empty_record (codes "a.eml")
    ∷ record (empty_record (codes "b.eml")) { parse_err = codes "bad" }
    ∷ []

load-Loaded_example : Loaded ⦃env = demo⦄ ⦃host = demo_host⦄ (load ⦃env = demo⦄ ⦃host = demo_host⦄)
load-Loaded_example = load-Loaded ⦃env = demo⦄ ⦃host = demo_host⦄

process_files-Run_example :
    Run ⦃env = demo⦄
      (codes "a.eml" ∷ codes "b.txt" ∷ [])
      []
      no_tally
      (process_files ⦃env = demo⦄ demo_tool demo_options client
        (codes "a.eml" ∷ codes "b.txt" ∷ [])
        []
        no_tally)
      start_world
process_files-Run_example =
    process_files-Run ⦃env = demo⦄ demo_tool demo_options client
      (codes "a.eml" ∷ codes "b.txt" ∷ []) [] no_tally start_world

write_report-IsPrefix_example :
    let written = write_report demo_tool two_records (codes "small") (codes "fr") 3 in
    IsPrefix written.0 written.1
      (concat (report_texts demo_tool two_records (codes "small") (codes "fr") 3))
write_report-IsPrefix_example =
    write_report-IsPrefix demo_tool two_records (codes "small") (codes "fr") 3

main-Exits_example :
    (x : Exit) × ((main ⦃env = demo⦄ demo_tool demo_options client start_world).0 ≡ ok x)
    × Exits ⦃env = demo⦄ demo_tool demo_options x
main-Exits_example = main-Exits ⦃env = demo⦄ demo_tool demo_options client start_world

short_name : length (utf8 (codes "ab.eml")) + 4 < 180
unfolding utf8 utf8_rune
short_name = omega arith

line_pad-broken_example :
    is_broken (line_pad (codes "ab.eml")) ≡ not ((length (utf8 (codes "ab.eml")) + 4) % 3 == 0)
line_pad-broken_example = line_pad-broken (codes "ab.eml") short_name
