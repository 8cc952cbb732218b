-- ===== src/Digest.antt =====
-- internal/digest/digest.go: the view of a digest, its plain text and its HTML.
pub mod Html
pub mod Markup
pub mod Tags
use suzie_filtering_system.Base.{
  ℕ, Text, codes, Bool, not, List, [], ◌∷◌, ◌++◌, map, length, ◌==◌, text_eq, is_empty, trim_space,
  if◌then◌else◌,
}
use suzie_filtering_system.Model.{Time, EmailRow, RenderRow, RenderView}
use suzie_filtering_system.World.{Env, Io, wrap, query}
use suzie_filtering_system.Digest.Html.{html_template}

pub record View : Type 0 where
  pub window_start : Time
  pub window_end : Time
  pub rows : List EmailRow

-- if s == "" { s = fallback }
abbrev or_else : Text → Text → Text
or_else s fallback = if is_empty s then fallback else s

-- t.In(loc)
abbrev pub in_zone : ℕ → Time → Time
in_zone zone t = record t { zone = zone }

sender_of : EmailRow → Text
sender_of row =
    or_else
      (if is_empty row.from_name
        then row.from_addr
        else row.from_name ++ codes " <" ++ row.from_addr ++ codes ">")
      (codes "(unknown sender)")

tone_of : EmailRow → Text
tone_of row = or_else row.tone (codes "neutral")

module _ ⦃env : Env⦄ where
  -- the body of the loop of `makeRenderView`
  pub render_row : ℕ → EmailRow → RenderRow
  unfolding sender_of tone_of
  render_row zone row = record {
    date = env.show_date (in_zone zone row.received_at);
    sender = sender_of row;
    subject = or_else (trim_space row.subject) (codes "(no subject)");
    summary = or_else (trim_space row.summary) (codes "could not summarize - read original");
    action = or_else row.action_req (codes "none");
    deadline = row.deadline;
    tone = tone_of row;
    original = row.raw_path;
    heated = text_eq (tone_of row) (codes "heated");
    error = text_eq row.llm_status (codes "error");
    out_of_scope = not row.in_scope;
  }

  pub make_render_view : View → RenderView
  unfolding render_row
  make_render_view v =
      let zone = v.window_end.zone in
      record {
        window =
            env.show_moment (in_zone zone v.window_start)
            ++ codes " to "
            ++ env.show_moment (in_zone zone v.window_end);
        rows = map (render_row zone) v.rows;
        empty = length v.rows == 0;
      }

-- {{if c}}text{{end}}
abbrev when : Bool → Text → Text
when c text = if c then text else []

-- The body of {{range .Rows}} in `textTemplate`.
pub text_row : RenderRow → Text
text_row r =
    codes "\n---\n"
    ++ r.date
    ++ codes " | "
    ++ r.sender
    ++ codes "\n"
    ++ r.subject
    ++ codes "\n"
    ++ r.summary
    ++ codes "\nAction: "
    ++ r.action
    ++ when (not (is_empty r.deadline)) (codes " | Deadline: " ++ r.deadline)
    ++ codes " | Tone: "
    ++ r.tone
    ++ when r.error (codes " | Summary error")
    ++ when r.out_of_scope (codes " | Out of scope")
    ++ codes "\nOriginal: "
    ++ r.original
    ++ codes "\n"

pub text_rows : List RenderRow → Text
unfolding text_row
text_rows [] = []
text_rows (r ∷ rs) = text_row r ++ text_rows rs

pub text_template : RenderView → Text
unfolding text_rows
text_template v =
    codes "Weekly email digest\n"
    ++ v.window
    ++ codes "\n"
    ++ (if v.empty
        then codes "\nNo messages were received during this period.\n"
        else text_rows v.rows)

module _ ⦃env : Env⦄ where
  unfoldable pub render_html : View → Io Text
  unfolding make_render_view html_template
  render_html v =
      wrap (codes "render HTML digest: ") (query λ w. html_template (make_render_view v))

  unfoldable pub render_text : View → Io Text
  unfolding make_render_view text_template
  render_text v =
      wrap (codes "render text digest: ") (query λ w. text_template (make_render_view v))
