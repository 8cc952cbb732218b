-- ===== src/Scheduler/Live.antt =====
-- The digest job where every call outside succeeds.
use suzie_filtering_system.Base.{ℕ, Text, codes, List, [], ◌∷◌, ◌++◌, map, ap, subst, ◌≡◌, refl}
use suzie_filtering_system.Model.{Time, EmailRow}
use suzie_filtering_system.Tables.{Db, select_state}
use suzie_filtering_system.World.{World, Env, Mail, done, ok}
use suzie_filtering_system.World.Live.{
  Live, Live-wrap, Live-bind, Live-fact, Live-post, Live-query, Live-ask, Live-remote, Live-now,
}
use suzie_filtering_system.Store.{complete_digest, digest_key, read_time}
use suzie_filtering_system.Store.Pending.{pending}
use suzie_filtering_system.Store.Complete.{completed}
use suzie_filtering_system.Store.Live.{
  Stands, last_digest_at-Live, pending_for_digest-Live, complete_digest-Live,
}
use suzie_filtering_system.Digest.{
  View, in_zone, render_html, render_text, make_render_view, text_template,
}
use suzie_filtering_system.Mailer.{send}
use suzie_filtering_system.Scheduler.{Config, row_id, window_start_at, send_digest, run_digest}
use suzie_filtering_system.Scheduler.Delivery.{window_view}

-- The message goes to the recipient, and its text lists the view.
pub record Lists ⦃env : Env⦄ (cfg : Config) (view : View) (mail : Mail) : Type 0 where
  pub recipient : mail.to ≡ cfg.digest_to
  pub body : mail.text_body ≡ text_template (make_render_view view)

abbrev digest_mail : ⦃env : Env⦄ → Config → View → Text → Text → Mail
digest_mail ⦃env = env⦄ cfg view html text = record {
  sender = cfg.smtp_from;
  to = cfg.digest_to;
  subject = codes "Weekly email digest - " ++ env.show_day view.window_end;
  html_body = html;
  text_body = text;
}

-- One message more is sent, which lists the view.
pub record SentOne ⦃env : Env⦄ (cfg : Config) (view : View) (db : Db) (mails : List Mail)
    (w : World) : Type 0 where
  pub mail : Mail
  pub listed : Lists cfg view mail
  pub stands : Stands db (mails ++ mail ∷ []) w

-- A digest of the window that ends at the moment `window_end`, and the last of which ended at `last`,
-- is completed with the pending rows of `db`, and sent.
pub record Digested ⦃env : Env⦄ (cfg : Config) (last : Time) (db : Db) (mails : List Mail)
    (w : World) : Type 0 where
  pub window_end : Time
  pub sent :
      let start = window_start_at cfg window_end last in
      let rows : List EmailRow = pending start window_end db in
      SentOne cfg
        (window_view cfg window_end last rows)
        (completed (map row_id rows) window_end start window_end db)
        mails
        w

module _ ⦃env : Env⦄ (live : (n : ℕ) → env.reply n ≡ done) (db : Db) (mails : List Mail) where
  send_digest-Live :
      (cfg : Config) (view : View)
      → Live (Stands db mails) (send_digest cfg view) (λ _. SentOne cfg view db mails)
  unfolding send_digest render_html render_text send
  send_digest-Live cfg view =
      Live-bind (λ html. Stands db mails) _ _ (Live-wrap _ _ (Live-query live _ (λ w p. p)))
        λ html.
          Live-bind (λ text w. (text ≡ text_template (make_render_view view)) × Stands db mails w) _
            _ (Live-wrap _ _ (Live-query live _ (λ w p. (refl, p))))
            λ text.
              Live-bind (λ _ w. (text ≡ text_template (make_render_view view)) × Stands db mails w)
                _ _ (Live-wrap _ _ (Live-ask live (λ w p. p)))
                λ a.
                  Live-bind
                    (λ _ w. (text ≡ text_template (make_render_view view)) × Stands db mails w) _ _
                    (Live-wrap _ _ (Live-ask live (λ w p. p)))
                    λ b.
                      let mail : Mail = digest_mail cfg view html text in
                      Live-wrap _ _ (
                        Live-remote live _ (λ w p. record {
                          mail = mail;
                          listed = record { recipient = refl; body = p.0 };
                          stands = (p.1.0, ap (λ (ms : List Mail). ms ++ mail ∷ []) p.1.1);
                        }))

  -- what is sent stays sent
  complete-Live :
      (cfg : Config) (view : View) (ids : List ℕ) (at from to : Time)
      → Live
          (SentOne cfg view db mails)
          (complete_digest ids at from to)
          (λ _. SentOne cfg view (completed ids at from to db) mails)
  complete-Live cfg view ids at from to = record {
    at = λ w p.
        let (a, e, q) =
          (complete_digest-Live live (mails ++ p.mail ∷ []) db ids at from to).at w p.stands in
        (a, e, record { mail = p.mail; listed = p.listed; stands = q });
  }

  run_digest-Ends :
      (cfg : Config) (last : Time)
      → read_time (select_state digest_key db.state) ≡ ok last
      → Live (Stands db mails) (run_digest cfg) (λ _. Digested cfg last db mails)
  unfolding run_digest
  run_digest-Ends cfg last h =
      Live-bind (λ moment. Stands db mails) _ _ (Live-now live (λ w p. p))
        λ moment. Live-bind _ _ _ (last_digest_at-Live live mails db last h) λ t.
          Live-fact _ λ at_last.
            let until = in_zone cfg.location moment in
            let from = window_start_at cfg until t in
            Live-bind _ _ _ (pending_for_digest-Live live mails db from until) λ rows.
              Live-fact _ λ found. Live-bind _ _ _ (send_digest-Live cfg _) λ a.
                Live-post _
                  (λ b w q.
                    subst (λ x. Digested cfg x db mails w) at_last
                      (record {
                        window_end = until;
                        sent =
                            subst
                              (λ (xs : List EmailRow).
                                SentOne cfg (window_view cfg until t xs)
                                  (completed (map row_id xs) until from until db) mails w)
                              found q;
                      }))
                  (complete-Live cfg _ _ _ _ _)

-- If every call outside succeeds and the end of the last digest can be read, the digest job returns
-- without an error. It has then sent one message more, to the recipient, which lists the rows pending
-- in the window since that end, and it has completed the digest of these rows.
pub run_digest-Live :
    ⦃env : Env⦄ (cfg : Config) (w : World) (last : Time)
    → ((n : ℕ) → env.reply n ≡ done)
    → read_time (select_state digest_key w.db.state) ≡ ok last
    → ((run_digest cfg w).0 ≡ ok tt) × Digested cfg last w.db w.outbox (run_digest cfg w).1
run_digest-Live cfg w last live found =
    let (a, e, q) = (run_digest-Ends live w.db w.outbox cfg last found).at w (refl, refl) in (e, q)
