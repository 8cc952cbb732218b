-- ===== src/Poll/Live.antt =====
-- The poll job where every call outside succeeds, the mailbox keeps its UIDVALIDITY and delivers every
-- body: only names of the archive that are taken can stop a message.
pub mod Run
use suzie_filtering_system.Parse
use suzie_filtering_system.Base.{
  ℕ, Text, codes, Bool, true, false, not, Option, none, some, List, [], ◌∷◌, ◌==◌, ==_self, ◌≡◌,
  refl, sym, ap, subst, if◌then◌else◌,
}
use suzie_filtering_system.Decimal.{format_uint}
use suzie_filtering_system.Model.{Time, EmailRow, RawMessage, Parsed}
use suzie_filtering_system.Tables.{number}
use suzie_filtering_system.World.{
  World, Env, Mailbox, done, Io, pure, wrap, ◌>>=◌, ◌>>◌, ask, query,
}
use suzie_filtering_system.World.Hoare.{Always}
use suzie_filtering_system.World.Live.{
  Returns, Live, Live-if, Live-pure, Live-wrap, Live-bind, Live-rollback, Live-query, Live-exec,
  Live-ask, Live-remote, Live-now, Settles, Settles-Live, Settles-weaken, Settles-wrap,
  Settles-bind,
}
use suzie_filtering_system.Store.{
  sql, put_state, insert_at, set_state, set_last_uid, insert_email, email_exists, validity_key,
  uid_key,
}
use suzie_filtering_system.Imap.Live.{mark_seen-Returns}
use suzie_filtering_system.Store.Returns.{
  set_last_uid-Returns, email_exists-Returns, insert_email-Returns,
}
use suzie_filtering_system.Archive.Live.{Clashes, write-Settles}
use suzie_filtering_system.Llm.{summarize}
use suzie_filtering_system.Llm.Valid.{summarize-IsPersistable}
use suzie_filtering_system.Poll.{
  Job, Outcome, in_scope, llm_input, without_summary, with_summary, with_parse_error, fill_row,
  acknowledge, process_new, process_parsed, process_one, round, duplicate_outcome, count_insert,
}
use suzie_filtering_system.Poll.Safety.{message_id_of}

-- The names that the message may have in the archive are taken.
abbrev pub IsBlocked : ⦃env : Env⦄ → Job → RawMessage → World → Type 0
IsBlocked j m = Clashes j.cfg.archive_dir (message_id_of j m) m.uid m.raw

module _ ⦃env : Env⦄ (live : (n : ℕ) → env.reply n ≡ done) where
  fill_row-Returns :
      (j : Job) (parsed : Parsed) (e : Option Text) (row : EmailRow)
      → Returns (fill_row j parsed e row)
  unfolding fill_row
  fill_row-Returns j parsed (some e) row = Live-pure _ (λ w p. tt)
  fill_row-Returns j parsed none row =
      Live-if (not (in_scope j parsed.sender.addr)) (pure (without_summary row))
        (do
          (summary, debug) ← summarize j.llm (llm_input j parsed)
          pure (with_summary summary row))
        (Live-pure _ (λ w p. tt))
        (Live-bind (λ _. Always) _ _
          (record {
            at = λ w p.
                let (s, d, e, k) = summarize-IsPersistable j.llm (llm_input j parsed) w in
                ((s, d), e, tt);
          })
          (λ s. Live-pure _ (λ w p. tt)))

  module _ (v : ℕ) (steady : (n : ℕ) → (env.mailbox n).uid_validity ≡ v) where
    acknowledge-Returns : (j : Job) (u : ℕ) → Returns (acknowledge j v u)
    unfolding acknowledge
    acknowledge-Returns j u =
        Live-bind (λ _. Always) _ _ (mark_seen-Returns live v steady u)
          λ a. set_last_uid-Returns live j.cfg.folder v u

    process_new-Returns :
        (j : Job) (m : RawMessage) (parsed : Parsed) (e : Option Text) (at : Time) (path : Text)
        → Returns (process_new j v m parsed e at path)
    unfolding process_new
    process_new-Returns j m parsed e at path =
        Live-bind (λ _. Always) _ _ (fill_row-Returns j parsed e _)
          λ r.
            Live-bind (λ _. Always) _ _ (insert_email-Returns live r.0)
              λ n.
                Live-bind (λ _. Always) _ _ (acknowledge-Returns j m.uid)
                  λ a. Live-pure _ (λ w p. tt)

    process_one-Settles :
        (j : Job) (m : RawMessage)
        → Settles Always (process_one j v m) (λ _. Always) (IsBlocked j m)
    unfolding process_one process_parsed
    process_one-Settles j m =
        let (parsed, e) = Parse.message m.raw j.cfg.body_char_limit in
        Settles-bind (λ _. Always) _ _ (Settles-Live _ (Live-now live (λ w p. tt)))
          λ at.
            Settles-bind (λ _. Always) _ _
              (Settles-wrap _ _
                (write-Settles live m.raw j.cfg.archive_dir _ (message_id_of j m) m.uid))
              λ path.
                Settles-bind (λ _. Always) _ _
                  (Settles-Live _ (email_exists-Returns live v m.uid parsed.message_id))
                  λ found. Settles-Live _ (
                    Live-if found (acknowledge j v m.uid >> pure duplicate_outcome)
                      (process_new j v m parsed e at path)
                      (Live-bind (λ _. Always) _ _ (acknowledge-Returns j m.uid)
                        λ a. Live-pure _ (λ w p. tt))
                      (process_new-Returns j m parsed e at path))

    pub round-Settles :
        (j : Job) (m : RawMessage) → Settles Always (round j v m) (λ _. Always) (IsBlocked j m)
    unfolding round
    round-Settles j m =
        Settles-bind (λ _. Always) _ _ (Settles-Live _ (Live-ask live (λ w p. tt)))
          λ a. Settles-wrap _ _ (process_one-Settles j m)
