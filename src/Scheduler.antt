-- ===== src/Scheduler.antt =====
-- internal/scheduler/scheduler.go: the digest job. The run lock and the stopping of the scheduler
-- are in Scheduler/Lock.antt.
pub mod Delivery
pub mod Lock
pub mod Live
pub mod Jobs
pub mod Start
pub mod Ledger
use suzie_filtering_system.Base.{
  ℕ, Text, codes, Bool, true, false, List, [], ◌∷◌, ◌++◌, map, if◌then◌else◌,
}
use suzie_filtering_system.Model.{Time, is_zero, EmailRow}
use suzie_filtering_system.World.{World, Env, Io, pure, ◌>>=◌, ◌>>◌, now}
use suzie_filtering_system.Store.{last_digest_at, pending_for_digest, complete_digest}
use suzie_filtering_system.Digest.{View, in_zone, render_html, render_text}
use suzie_filtering_system.Mailer.{send}

-- scheduler.Config, and the sender that the mailer was built with
pub record Config : Type 0 where
  pub digest_to : Text
  pub smtp_from : Text
  pub location : ℕ

abbrev pub row_id : EmailRow → ℕ
row_id row = row.id

module _ ⦃env : Env⦄ where
  -- the start of the window: the end of the last one, or seven days before this end
  pub window_start_at : Config → Time → Time → Time
  window_start_at cfg window_end last =
      if is_zero last then env.week_before window_end else in_zone cfg.location last

  -- the part of `runDigest` that sends: render both bodies and hand them to the mailer
  pub send_digest : Config → View → Io (Unit {0})
  send_digest cfg view = do
    html_body ← render_html view
    text_body ← render_text view
    send cfg.smtp_from cfg.digest_to
        (codes "Weekly email digest - " ++ env.show_day view.window_end) html_body text_body

  pub run_digest : Config → Io (Unit {0})
  unfolding window_start_at send_digest
  run_digest cfg = do
    moment ← now
    let window_end = in_zone cfg.location moment
    last ← last_digest_at
    let window_start = window_start_at cfg window_end last
    rows ← pending_for_digest window_start window_end
    send_digest cfg (record { window_start = window_start; window_end = window_end; rows = rows })
    complete_digest (map row_id rows) window_end window_start window_end
