-- ===== src/Digest/Html.antt =====
-- htmlTemplate of internal/digest/digest.go. Each action stands in the text of an element, where
-- html/template escapes what it prints; the function that escapes is a field of `Env`.
use suzie_filtering_system.Base.{Text, codes, not, List, [], ◌∷◌, ◌++◌, is_empty, if◌then◌else◌}
use suzie_filtering_system.Model.{RenderRow, RenderView}
use suzie_filtering_system.World.{Env}

-- The text of the template between its actions.
abbrev pub deadline_badge : Text
deadline_badge =
    codes
      "<span style=\"display:inline-block;background:#fff4d6;border-radius:12px;padding:1px 8px;margin-right:5px;\">Deadline: "

abbrev pub heated_badge : Text
heated_badge =
    codes
      "<span style=\"display:inline-block;background:#fbe4e4;color:#7b2d2d;border-radius:12px;padding:1px 8px;margin-right:5px;\">Tone: heated</span>"

abbrev pub tone_badge : Text
tone_badge =
    codes
      "<span style=\"display:inline-block;background:#edf1f5;border-radius:12px;padding:1px 8px;margin-right:5px;\">Tone: "

abbrev pub error_badge : Text
error_badge =
    codes
      "<span style=\"display:inline-block;background:#fbe4e4;color:#7b2d2d;border-radius:12px;padding:1px 8px;\">Summary error</span>"

abbrev pub scope_badge : Text
scope_badge =
    codes
      "<span style=\"display:inline-block;background:#edf1f5;border-radius:12px;padding:1px 8px;\">Out of scope</span>"

abbrev pub badge_end : Text
badge_end = codes "</span>"

abbrev pub badge_gap : Text
badge_gap = codes "\n      "

abbrev pub row_begin : Text
row_begin =
    codes
      "\n  <div style=\"background:#fff;border:1px solid #dde1e6;border-radius:10px;padding:16px;margin:0 0 14px;\">\n"
    ++ codes "    <div style=\"color:#626a73;font-size:13px;margin-bottom:7px;\">"

abbrev pub subject_begin : Text
subject_begin =
    codes "</div>\n    <div style=\"font-size:16px;font-weight:600;margin-bottom:8px;\">"

abbrev pub summary_begin : Text
summary_begin =
    codes "</div>\n    <div style=\"font-size:15px;line-height:1.45;margin-bottom:12px;\">"

abbrev pub action_begin : Text
action_begin =
    codes "</div>\n    <div style=\"font-size:13px;line-height:1.8;\">\n"
    ++ codes
        "      <span style=\"display:inline-block;background:#edf1f5;border-radius:12px;padding:1px 8px;margin-right:5px;\">Action: "

abbrev pub action_end : Text
action_end = codes "</span>\n      "

abbrev pub original_begin : Text
original_begin =
    codes "\n    </div>\n"
    ++ codes
        "    <div style=\"color:#626a73;font-size:12px;line-height:1.4;margin-top:12px;overflow-wrap:anywhere;\">Original: "

abbrev pub row_end : Text
row_end = codes "</div>\n  </div>\n  "

abbrev pub page_begin : Text
page_begin =
    codes "<!doctype html>\n<html>\n"
    ++ codes
        "<body style=\"margin:0;background:#f4f5f7;color:#20242a;font-family:Arial,sans-serif;\">\n"
    ++ codes "<div style=\"max-width:600px;margin:0 auto;padding:20px 12px;\">\n"
    ++ codes
        "  <h1 style=\"font-size:22px;font-weight:600;margin:0 0 6px;\">Weekly email digest</h1>\n"
    ++ codes "  <p style=\"color:#626a73;font-size:14px;margin:0 0 20px;\">"

abbrev pub window_close : Text
window_close = codes "</p>\n  "

abbrev pub no_messages : Text
no_messages =
    codes
      "\n  <div style=\"background:#fff;border:1px solid #dde1e6;border-radius:10px;padding:18px;\">\n"
    ++ codes "    No messages were received during this period.\n  </div>\n  "

abbrev pub page_end : Text
page_end = codes "\n</div>\n</body>\n</html>\n"

abbrev pub gap : Text
gap = codes "\n  "

abbrev pub bar : Text
bar = codes " | "

module _ ⦃env : Env⦄ where
  -- The badges of a row, from {{if .Deadline}} to {{if .OutOfScope}}.
  unfoldable pub html_badges : RenderRow → Text
  html_badges r =
      (if not (is_empty r.deadline)
        then deadline_badge ++ env.escape_html r.deadline ++ badge_end
        else [])
      ++ badge_gap
      ++ (if r.heated then heated_badge else tone_badge ++ env.escape_html r.tone ++ badge_end)
      ++ badge_gap
      ++ (if r.error then error_badge else [])
      ++ badge_gap
      ++ (if r.out_of_scope then scope_badge else [])

  -- The body of {{range .Rows}}.
  unfoldable pub html_row : RenderRow → Text
  unfolding html_badges
  html_row r =
      row_begin
      ++ env.escape_html r.date
      ++ bar
      ++ env.escape_html r.sender
      ++ subject_begin
      ++ env.escape_html r.subject
      ++ summary_begin
      ++ env.escape_html r.summary
      ++ action_begin
      ++ env.escape_html r.action
      ++ action_end
      ++ html_badges r
      ++ original_begin
      ++ env.escape_html r.original
      ++ row_end

  unfoldable pub html_rows : List RenderRow → Text
  unfolding html_row
  html_rows [] = []
  html_rows (r ∷ rs) = html_row r ++ html_rows rs

  unfoldable pub html_template : RenderView → Text
  unfolding html_rows
  html_template v =
      page_begin
      ++ env.escape_html v.window
      ++ window_close
      ++ (if v.empty then no_messages else gap ++ html_rows v.rows ++ gap)
      ++ page_end
