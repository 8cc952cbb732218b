-- ===== src/Mailer.antt =====
-- internal/mailer/mailer.go: sending one message with a text and an HTML part.
pub mod Client
use suzie_filtering_system.Base.{Text, codes, [], ◌∷◌, ◌++◌}
use suzie_filtering_system.World.{World, Env, Mail, Io, wrap, ◌>>◌, ask, remote}

abbrev pub deliver : Mail → World → World
deliver mail w = record w { outbox = w.outbox ++ mail ∷ [] }

module _ ⦃env : Env⦄ where
  -- `Send`. Setting the addresses fails if one does not parse.
  unfoldable pub send : Text → Text → Text → Text → Text → Io (Unit {0})
  send sender to subject html_body text_body = do
    wrap (codes "set digest sender: ") ask
    wrap (codes "set digest recipient: ") ask
    wrap (codes "send digest: ") (
        remote (
          deliver (record {
            sender = sender;
            to = to;
            subject = subject;
            html_body = html_body;
            text_body = text_body;
          })))
