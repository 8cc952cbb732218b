-- ===== src/Store/Live.antt =====
-- Operations of the store that return, where every call outside succeeds.
use suzie_filtering_system.Base.{ℕ, Text, List, [], ◌∷◌, none, ◌≡◌, refl, ap, map, ◌∙◌, inl, inr}
use suzie_filtering_system.Model.{Time, zero_time}
use suzie_filtering_system.Tables.{Db, select_state}
use suzie_filtering_system.World.{World, Env, Mail, done, ok, wrap, ask, query, ◌>>=◌}
use suzie_filtering_system.World.Live.{
  Live, Live-pure, Live-wrap, Live-bind, Live-rollback, Live-query, Live-exec, Live-ask,
}
use suzie_filtering_system.Store.{
  sql, scan_email, digest_key, read_time, set_state, mark_rows, record_row, complete_digest,
  pending_for_digest, last_digest_at,
}
use suzie_filtering_system.Store.Pending.{pending}
use suzie_filtering_system.Store.Complete.{completed, complete_digest-AllOrNothing}

-- A missing time can be read.
pub read_time-none : read_time none ≡ ok zero_time
unfolding read_time
read_time-none = refl

-- What was sent so far.
abbrev Sent : List Mail → Unit {0} → World → Type 0
Sent mails a w = w.outbox ≡ mails

-- The database, and what was sent so far.
abbrev pub Stands : Db → List Mail → World → Type 0
Stands db mails w = (w.db ≡ db) × (w.outbox ≡ mails)

module _ ⦃env : Env⦄ (live : (n : ℕ) → env.reply n ≡ done) (mails : List Mail) where
  sql-Live : (msg : Text) (f : Db → Db) → Live (Sent mails tt) (wrap msg (sql f)) (Sent mails)
  sql-Live msg f = Live-wrap msg _ (Live-exec live _ (λ w p. p))

  ask-Live : (msg : Text) → Live (Sent mails tt) (wrap msg ask) (Sent mails)
  ask-Live msg = Live-wrap msg _ (Live-ask live (λ w p. p))

  mark_rows-Live : (ids : List ℕ) (at : Time) → Live (Sent mails tt) (mark_rows ids at) (Sent mails)
  unfolding mark_rows
  mark_rows-Live [] at = Live-pure tt (λ w p. p)
  mark_rows-Live (id ∷ ids) at =
      Live-bind (Sent mails) _ _ (sql-Live _ _) λ a. mark_rows-Live ids at

  record_row-Live :
      (at from to : Time) (n : ℕ) → Live (Sent mails tt) (record_row at from to n) (Sent mails)
  unfolding record_row set_state
  record_row-Live at from to n = Live-bind (Sent mails) _ _ (sql-Live _ _) λ a. sql-Live _ _

  commits :
      (ids : List ℕ) (at from to : Time)
      → Live (Sent mails tt) (complete_digest ids at from to) (Sent mails)
  unfolding complete_digest
  commits ids at from to = Live-rollback _ (
      Live-bind (Sent mails) _ _ (ask-Live _) λ a.
        Live-bind (Sent mails) _ _ (mark_rows-Live ids at)
          λ b. Live-bind (Sent mails) _ _ (record_row-Live at from to _) λ c. ask-Live _)

  module _ (db : Db) where
    -- The digest is completed.
    pub complete_digest-Live :
        (ids : List ℕ) (at from to : Time)
        → Live
            (Stands db mails)
            (complete_digest ids at from to)
            (λ a. Stands (completed ids at from to db) mails)
    complete_digest-Live ids at from to = record {
      at = λ w p.
          let (a, e, sent) = (commits ids at from to).at w p.1 in
          (
            a,
            e,
            elim (complete_digest-AllOrNothing ids at from to w) [
              | inl (b, k, d) ↦ (d ∙ ap (completed ids at from to) p.0, sent)
              | inr (x, k, d) ↦ absurd (cc)
            ],
          );
    }

    pub pending_for_digest-Live :
        (from to : Time)
        → Live
            (Stands db mails)
            (pending_for_digest from to)
            (λ rows w. (rows ≡ pending from to db) × Stands db mails w)
    unfolding pending_for_digest
    pending_for_digest-Live from to =
        Live-bind (λ rows w. (map scan_email rows ≡ pending from to db) × Stands db mails w) _ _
          (Live-wrap _ _ (Live-query live _ (λ w p. (ap (pending from to) p.0, p))))
          λ rows. Live-pure _ (λ w p. p)

    -- A digest time that can be read is read.
    pub last_digest_at-Live :
        (last : Time)
        → read_time (select_state digest_key db.state) ≡ ok last
        → Live (Stands db mails) last_digest_at (λ t w. (t ≡ last) × Stands db mails w)
    unfolding last_digest_at wrap query ◌>>=◌
    last_digest_at-Live last h = record {
      at = λ w p.
          let found = ap (λ (d : Db). read_time (select_state digest_key d.state)) p.0 ∙ h in
          (last, rw (live w.tick) found, (refl, rw (live w.tick) p));
    }
