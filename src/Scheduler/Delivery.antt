-- ===== src/Scheduler/Delivery.antt =====
-- The digest job: rows are marked only after the message that lists them was handed over, and a job
-- that fails before leaves the database as it was.
use suzie_filtering_system.Base.{List, [], ◌∷◌, ◌++◌, map, ◌≡◌, refl, sym, ap, ◌∙◌, subst, inl, inr}
use suzie_filtering_system.Model.{Time, EmailRow}
use suzie_filtering_system.Tables.{select_state}
use suzie_filtering_system.World.{World, Env, Mail, ok, remote}
use suzie_filtering_system.World.Keeps.{
  Keeps, IsFrame, keeps_rules, Keeps-now, Keeps-remote, SameDb, SameDb-IsFrame,
}
use suzie_filtering_system.World.Hoare.{
  Hoare, Hoare-wrap, Hoare-bind, Hoare-skip, Hoare-query, Hoare-remote, Always, Leads, Leads-bind,
  Hoare-keep,
}
use suzie_filtering_system.Store.{last_digest_at, complete_digest, read_time, digest_key}
use suzie_filtering_system.Store.Keeps.{
  pending_for_digest-Keeps, last_digest_at-Keeps, complete_digest-Keeps,
}
use suzie_filtering_system.Store.Pending.{pending, pending_for_digest-finds}
use suzie_filtering_system.Store.Complete.{completed, complete_digest-AllOrNothing}
use suzie_filtering_system.Digest.{
  View, in_zone, render_html, render_text, make_render_view, text_template,
}
use suzie_filtering_system.Mailer.{send, deliver}
use suzie_filtering_system.Scheduler.{Config, row_id, window_start_at, send_digest, run_digest}

-- The outbox ends with a message to the recipient whose text lists the view.
pub record Delivered ⦃env : Env⦄ (cfg : Config) (view : View) (w : World) : Type 0 where
  pub before : List Mail
  pub mail : Mail
  pub last : w.outbox ≡ before ++ mail ∷ []
  pub recipient : mail.to ≡ cfg.digest_to
  pub body : mail.text_body ≡ text_template (make_render_view view)

-- What LastDigestAt reads.
abbrev pub IsLast : Time → World → Type 0
IsLast last w = read_time (select_state digest_key w.db.state) ≡ ok last

abbrev pub window_view : ⦃env : Env⦄ → Config → Time → Time → List EmailRow → View
window_view cfg window_end last rows = record {
  window_start = window_start_at cfg window_end last;
  window_end = window_end;
  rows = rows;
}

-- What a digest job may do to the database between two worlds: nothing, or complete a digest of
-- exactly the pending rows of the window that begins where the last one ended, which were sent.
pub data DigestEnds ⦃env : Env⦄ (cfg : Config) (u w : World) : Type 0 where
  unchanged : w.db ≡ u.db → DigestEnds cfg u w
  digested :
      (last window_end : Time) (rows : List EmailRow)
      → IsLast last u
      → rows ≡ pending (window_start_at cfg window_end last) window_end u.db
      → Delivered cfg (window_view cfg window_end last rows) w
      → w.db
        ≡ completed
            (map row_id rows)
            window_end
            (window_start_at cfg window_end last)
            window_end
            u.db
      → DigestEnds cfg u w

abbrev SameOutbox : World → World → Type 0
SameOutbox u w = w.outbox ≡ u.outbox

SameOutbox-IsFrame : IsFrame SameOutbox
SameOutbox-IsFrame = record {
  same = λ w. refl;
  trans = λ u v w g h. h ∙ g;
  tick = λ w. refl;
  undo = λ u v g. g;
}

module _ ⦃env : Env⦄ where
  deliver-SameDb : (mail : Mail) → Keeps SameDb (remote (deliver mail))
  deliver-SameDb mail = Keeps-remote SameDb-IsFrame (deliver mail) (λ w. refl)

module _ ⦃env : Env⦄ (cfg : Config) where
  send-SameDb : (view : View) → Keeps SameDb (send_digest cfg view)
  unfolding send_digest send render_html render_text
  send-SameDb view = search (keeps_rules, SameDb-IsFrame, deliver-SameDb) depth 12

  send-Delivered : (view : View) → Hoare Always (send_digest cfg view) (λ _. Delivered cfg view)
  unfolding send_digest send render_html render_text
  send-Delivered view = Hoare-skip _ _ λ html.
      Hoare-bind (λ text w. text ≡ text_template (make_render_view view)) _ _
        (Hoare-wrap _ _ (Hoare-query _ (λ w p. refl)))
        (λ text.
          Hoare-bind (λ _ w. text ≡ text_template (make_render_view view)) _ _
            (record { at = λ w p a e. p })
            (λ a.
              Hoare-bind (λ _ w. text ≡ text_template (make_render_view view)) _ _
                (record { at = λ w p a e. p })
                (λ b. Hoare-wrap _ _ (
                  Hoare-remote _ (λ w p. record {
                    before = w.outbox;
                    mail = _;
                    last = refl;
                    recipient = refl;
                    body = p;
                  })))))

  Delivered-outbox :
      (view : View) {u w : World}
      → w.outbox ≡ u.outbox
      → Delivered cfg view u
      → Delivered cfg view w
  Delivered-outbox view h d = record {
    before = d.before;
    mail = d.mail;
    last = h ∙ d.last;
    recipient = d.recipient;
    body = d.body;
  }

  last_digest_at-finds : Hoare Always last_digest_at (λ last w. IsLast last w × Always w)
  unfolding last_digest_at
  last_digest_at-finds =
      Hoare-bind (λ found w. found ≡ select_state digest_key w.db.state) _ _
        (Hoare-wrap _ _ (Hoare-query _ (λ w p. refl)))
        (λ found. record { at = λ w p a e. (ap read_time (sym p) ∙ e, tt) })

  -- CompleteDigest at the end of the job, on the rows that were sent
  complete-Ends :
      (last window_end : Time) (rows : List EmailRow)
      → let window_start = window_start_at cfg window_end last in
        Leads
          (λ w.
            (IsLast last w × (rows ≡ pending window_start window_end w.db))
            × Delivered cfg
                (record { window_start = window_start; window_end = window_end; rows = rows })
                w)
          (DigestEnds cfg)
          (complete_digest (map row_id rows) window_end window_start window_end)
  complete-Ends last window_end rows = record {
    at = λ w ((is_last, found), sent).
        let window_start = window_start_at cfg window_end last in
        elim (complete_digest-AllOrNothing (map row_id rows) window_end window_start window_end w) [
          | inl (a, e, d) ↦
              digested last window_end rows is_last found
                (Delivered-outbox _
                  ((complete_digest-Keeps SameOutbox-IsFrame (λ f v. refl) (map row_id rows)
                      window_end window_start window_end).at
                    w)
                  sent)
                d
          | inr (x, e, d) ↦ unchanged d
        ];
  }

  compose : (u v w : World) → SameDb u v → DigestEnds cfg v w → DigestEnds cfg u w
  compose u v w h (unchanged g) = unchanged (g ∙ h)
  compose u v w h (digested last window_end rows is_last found sent after) =
      digested last window_end rows
        (subst (λ db. read_time (select_state digest_key db.state) ≡ ok last) h is_last)
        (found ∙ ap (pending (window_start_at cfg window_end last) window_end) h) sent
        (after
          ∙ ap
              (completed (map row_id rows) window_end (window_start_at cfg window_end last)
                window_end)
              h)

  stays : (last : Time) (u v : World) → IsLast last u → SameDb u v → IsLast last v
  stays last u v i h =
      subst (λ db. read_time (select_state digest_key db.state) ≡ ok last) (sym h) i

  sent :
      (window_start last window_end : Time) (rows : List EmailRow)
      → let view : View = record {
        window_start = window_start;
        window_end = window_end;
        rows = rows;
      } in
        Hoare
          (λ w. IsLast last w × (rows ≡ pending window_start window_end w.db))
          (send_digest cfg view)
          (λ _ w.
            (IsLast last w × (rows ≡ pending window_start window_end w.db)) × Delivered cfg view w)
  sent window_start last window_end rows = record {
    at = λ w p a e.
        (Hoare-keep {P = Always}
            {I = λ w. IsLast last w × (rows ≡ pending window_start window_end w.db)} _
            (send-SameDb _)
            (λ u v (i, f) h. (stays last u v i h, f ∙ ap (pending window_start window_end) (sym h)))
            (send-Delivered
              (record { window_start = window_start; window_end = window_end; rows = rows }))).at
          w (p, tt) a e;
  }

  job-Ends : Leads Always (DigestEnds cfg) (run_digest cfg)
  unfolding run_digest window_start_at
  job-Ends =
      Leads-bind (λ u v. unchanged) compose (λ _. Always) _ _ (Keeps-now SameDb-IsFrame)
        (record { at = λ w p a e. tt })
        (λ moment.
          Leads-bind (λ u v. unchanged) compose (λ last w. IsLast last w × Always w) _ _
            (last_digest_at-Keeps SameDb-IsFrame) last_digest_at-finds
            (λ last.
              Leads-bind (λ u v. unchanged) compose _ _ _
                (pending_for_digest-Keeps SameDb-IsFrame _ _)
                (Hoare-keep _ (pending_for_digest-Keeps SameDb-IsFrame _ _) (stays last)
                  (pending_for_digest-finds _ _))
                (λ rows.
                  Leads-bind (λ u v. unchanged) compose _ _ _ (send-SameDb _) (sent _ last _ rows)
                    (λ _. complete-Ends last (in_zone cfg.location moment) rows))))

  -- Whatever fails, a digest job leaves the database as it was, or it has marked exactly the pending
  -- rows of the window from the end of the last digest, recorded the digest and moved the window, and
  -- the last message of the outbox goes to the recipient and lists those rows.
  pub run_digest-DigestEnds : (w : World) → DigestEnds cfg w (run_digest cfg w).1
  run_digest-DigestEnds w = job-Ends.at w tt
