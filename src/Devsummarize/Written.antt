-- ===== src/Devsummarize/Written.antt =====
-- The report of cmd/devsummarize as a file, and its counters.
use suzie_filtering_system.Base.{
  ℕ, suc, ◌+◌, ◌≤◌, Text, codes, Bool, true, false, not, ◌||◌, Option, none, some, List, [], ◌∷◌,
  ◌++◌, append_assoc, length, take, drop, take-drop, ◌≡◌, refl, sym, ap, ◌∙◌, text_eq, is_empty,
  arith, if◌then◌else◌,
}
use suzie_filtering_system.Devsummarize.{
  add_warning, count_all, Tool, Write, whole, short, Record, Tally, no_tally, count,
}
use suzie_filtering_system.Devsummarize.Report.{
  ErrWriter, write_once, printf, printf_all, report_texts, create_report, first_error, write_report,
  Counts, counts, no_counts, count_record,
}

abbrev pub concat : List Text → Text
concat [] = []
concat (s ∷ texts) = s ++ concat texts

-- What is in the file is a prefix of the text, and all of it if there is no error.
pub record IsPrefix (out : Text) (error : Option Text) (text : Text) : Type 0 where
  pub rest : Text
  pub split : text ≡ out ++ rest
  pub complete : error ≡ none → rest ≡ []

-- After an error nothing is written.
printf_all-stops :
    (tool : Tool) (texts : List Text) (out : Text) (calls : ℕ) (e : Text)
    → let ew : ErrWriter = record { out = out; calls = calls; error = some e } in
      printf_all tool texts ew ≡ ew
unfolding printf_all printf
printf_all-stops tool [] out calls e = refl
printf_all-stops tool (s ∷ texts) out calls e = printf_all-stops tool texts out calls e

printf_all-IsPrefix :
    (tool : Tool) (texts : List Text) (out : Text) (calls : ℕ)
    → let ew = printf_all tool texts (record { out = out; calls = calls; error = none }) in
      IsPrefix ew.out ew.error (out ++ concat texts)
unfolding printf_all printf
printf_all-IsPrefix tool [] out calls = record { rest = []; split = refl; complete = λ h. refl }
printf_all-IsPrefix tool (s ∷ texts) out calls =
    go (tool.sink calls) (printf_all-IsPrefix tool texts (out ++ s) (suc calls))
  where
    go :
        (write : Write)
        → (let ew =
              printf_all tool texts (record { out = out ++ s; calls = suc calls; error = none }) in
            IsPrefix ew.out ew.error ((out ++ s) ++ concat texts))
        → let ew =
            printf_all tool texts
              (write_once write s (record { out = out; calls = calls; error = none })) in
          IsPrefix ew.out ew.error (out ++ (s ++ concat texts))
    go whole later = record {
      rest = later.rest;
      split = sym (append_assoc out s (concat texts)) ∙ later.split;
      complete = later.complete;
    }
    go (short n e) later =
        let stop = printf_all-stops tool texts (out ++ take n s) (suc calls) e in
        rw stop (record {
          rest = drop n s ++ concat texts;
          split =
              ap (λ (t : Text). out ++ (t ++ concat texts)) (sym (take-drop n s))
              ∙ ap (λ (t : Text). out ++ t) (append_assoc (take n s) (drop n s) (concat texts))
              ∙ sym (append_assoc out (take n s) (drop n s ++ concat texts));
          complete = λ h. absurd (cc);
        })

-- However the writes end, the file of the report holds the start of the report, with nothing left out
-- in the middle; and the whole report, if no error is returned.
pub write_report-IsPrefix :
    (tool : Tool) (records : List Record) (model language : Text) (mean_ms : ℕ)
    → let written = write_report tool records model language mean_ms in
      IsPrefix written.0 written.1 (concat (report_texts tool records model language mean_ms))
unfolding write_report
write_report-IsPrefix tool records model language mean_ms =
    go tool.create (report_texts tool records model language mean_ms)
  where
    close : (e : Option Text) → first_error e tool.close ≡ none → e ≡ none
    close none h = refl
    close (some e) h = h

    go :
        (e : Option Text) (texts : List Text)
        → let written = create_report tool texts e in IsPrefix written.0 written.1 (concat texts)
    go none texts =
        let p = printf_all-IsPrefix tool texts [] 0 in
        record { rest = p.rest; split = p.split; complete = λ h. p.complete (close _ h) }
    go (some e) texts = record { rest = concat texts; split = refl; complete = λ h. absurd (cc) }

-- the counters of `main` and of the report agree
abbrev Agree : Tally → Counts → Type 0
Agree t c = (c.n_ok ≡ t.n_ok) × (c.n_err ≡ t.n_err) × (c.n_warn ≡ t.n_warn)

count-Agree :
    (r : Record) (t : Tally) (c : Counts) → Agree t c → Agree (count r t) (count_record r c)
unfolding count count_record
count-Agree r t c (a, b, d) =
    go (is_empty r.parse_err) (text_eq r.summary.status (codes "error")) r.checks
  where
    go :
        (x y : Bool) (checks : List Text)
        → let failed = if x then y else true in
          let failed_too = not x || y in
          ((if failed_too then c.n_ok else c.n_ok + 1) ≡ (if failed then t.n_ok else t.n_ok + 1))
          × ((if failed_too then c.n_err + 1 else c.n_err)
              ≡ (if failed then t.n_err + 1 else t.n_err))
          × (add_warning checks c.n_warn ≡ add_warning checks t.n_warn)
    go true true checks = (a, ap (λ n. n + 1) b, ap (add_warning checks) d)
    go true false checks = (ap (λ n. n + 1) a, b, ap (add_warning checks) d)
    go false y checks = (a, ap (λ n. n + 1) b, ap (add_warning checks) d)

counts-Agree :
    (rs : List Record) (t : Tally) (c : Counts) → Agree t c → Agree (count_all rs t) (counts rs c)
unfolding counts count_all
counts-Agree [] t c h = h
counts-Agree (r ∷ rs) t c h = counts-Agree rs (count r t) (count_record r c) (count-Agree r t c h)

add_warning-le : (checks : List Text) (n : ℕ) → add_warning checks n ≤ n + 1
add_warning-le [] n = omega arith
add_warning-le (w ∷ ws) n = omega arith

-- every record is counted once, and warns at most once
count-total :
    (r : Record) (t : Tally)
    → let u = count r t in (u.n_ok + u.n_err ≡ t.n_ok + t.n_err + 1) × (u.n_warn ≤ t.n_warn + 1)
unfolding count
count-total r t = (
  go (if is_empty r.parse_err then text_eq r.summary.status (codes "error") else true),
  add_warning-le r.checks t.n_warn,
)
  where
    go :
        (b : Bool)
        → (if b then t.n_ok else t.n_ok + 1) + (if b then t.n_err + 1 else t.n_err)
          ≡ t.n_ok + t.n_err + 1
    go true = omega arith
    go false = omega arith

count_all-total :
    (rs : List Record) (t : Tally)
    → let u = count_all rs t in
      (u.n_ok + u.n_err ≡ length rs + (t.n_ok + t.n_err)) × (u.n_warn ≤ length rs + t.n_warn)
unfolding count_all
count_all-total [] t = (omega arith, omega arith)
count_all-total (r ∷ rs) t =
    let (once, warn) = count-total r t in
    let (total, warns) = count_all-total rs (count r t) in (omega arith, omega arith)

-- The counters of the report are those of `main`: each record counts as done or as failed, and at
-- most once as having warnings.
pub counts-count_all :
    (rs : List Record)
    → let d = counts rs no_counts in
      let u = count_all rs no_tally in
      (d.n_ok ≡ u.n_ok)
      × (d.n_err ≡ u.n_err)
      × (d.n_warn ≡ u.n_warn)
      × (u.n_ok + u.n_err ≡ length rs)
      × (u.n_warn ≤ length rs)
counts-count_all rs =
    let (a, b, c) = counts-Agree rs no_tally no_counts (refl, refl, refl) in
    let (total, warns) = count_all-total rs no_tally in (a, b, c, omega arith, omega arith)
