-- ===== src/Scheduler/Jobs/Refines.antt =====
-- The jobs refine the ledger: whatever fails, the tables change as letters that arrive and digests that
-- list them.
use suzie_filtering_system.Base.{
  ℕ, ◌*◌, ◌/◌, Text, true, false, Option, none, some, List, map, ◌==◌, ◌≡◌, refl, subst, inl, inr,
  arith, Bool-cases, text_eq,
}
use suzie_filtering_system.Model.{Time, format_time, parse_time, second, EmailRow}
use suzie_filtering_system.Tables.{Db, Value, select_state}
use suzie_filtering_system.Tables.State.{select_state-upsert_state}
use suzie_filtering_system.World.{World, Env, ok}
use suzie_filtering_system.Store.{columns, insert_at, put_state, digest_key, read_time}
use suzie_filtering_system.Store.Unique.{Unique, insert_row-Unique}
use suzie_filtering_system.Store.Pending.{pending}
use suzie_filtering_system.Store.Complete.{completed}
use suzie_filtering_system.Poll.{Job}
use suzie_filtering_system.Scheduler.{Config, row_id, window_start_at}
use suzie_filtering_system.Scheduler.Ledger.{Ledger, last_end, Follows, publish, Reach, here, next}
use suzie_filtering_system.Scheduler.Jobs.{Task, serve}
use suzie_filtering_system.Scheduler.Jobs.History.{serve_holds}
use suzie_filtering_system.Scheduler.Jobs.Marked.{emails-completed}
use suzie_filtering_system.Scheduler.Jobs.Abstraction.{
  ledger_of, Linked, issue_of, ledger_of-completed, insert_row-Reach, Unique-map,
  mark_pending-collides, mark_pending_id, completed-Linked, columns-undigested,
}

-- The database is as the jobs leave it: no two rows collide, and LastDigestAt is the end of the last
-- digest.
pub record IsSound (db : Db) : Type 0 where
  pub unique : Unique db.emails
  pub linked : Linked db

module _ ⦃env : Env⦄ (cfg : Config) where
  -- the window begins where the last one ended
  window-Follows :
      (last end : Time) (db : Db)
      → Linked db
      → read_time (select_state digest_key db.state) ≡ ok last
      → Follows (last_end (map issue_of db.digests)) (format_time (window_start_at cfg end last))
  unfolding window_start_at read_time
  window-Follows last end db linked h = go (last_end (map issue_of db.digests)) refl
    where
      seconds : (e : ℕ) → ((e * second) == 0) ≡ false → e * second / second ≡ e
      seconds e k = omega arith

      zero_end : (e : ℕ) → ((e * second) == 0) ≡ true → e ≡ 0
      zero_end e k = ground arith

      from :
          (e : ℕ)
          → ok (parse_time e) ≡ ok last
          → Follows (some e) (format_time (window_start_at cfg end last))
      from e k =
          let same : parse_time e ≡ last = cc in
          subst (λ (x : Time). Follows (some e) (format_time (window_start_at cfg end x))) same
            (elim (Bool-cases ((e * second) == 0)) [
              | inl k ↦ inr (zero_end e k)
              | inr k ↦ inl (rw k (seconds e k))
            ])

      go :
          (o : Option ℕ)
          → last_end (map issue_of db.digests) ≡ o
          → Follows o (format_time (window_start_at cfg end last))
      go none k = tt
      go (some e) k = from e (subst (λ x. read_time x ≡ ok last) (linked e k) h)

  -- The jobs keep the database sound, and the ledger of it is reached from the ledger before.
  module _ (j : Job) (start : Ledger) where
    Refines : Db → Type 0
    Refines db = IsSound db × Reach start (ledger_of db)

    insert-Refines :
        (e : EmailRow)
        → e.digested_at ≡ none
        → (w : World) → Refines w.db
        → Refines (insert_at e w).1.db
    unfolding Refines insert_at
    insert-Refines e new w (sound, r) = (
      record {
        unique = insert_row-Unique (columns e) w.db.emails sound.unique;
        linked = sound.linked;
      },
      insert_row-Reach start (columns e) w.db.emails (map issue_of w.db.digests)
          (columns-undigested e new) r,
    )

    state-Refines :
        (key : Text) (v : Value)
        → text_eq key digest_key ≡ false
        → (db : Db) → Refines db
        → Refines (put_state key v db)
    unfolding Refines put_state
    state-Refines key v apart db (sound, r) = (
      record {
        unique = sound.unique;
        linked = λ e h. rw (select_state-upsert_state, apart) (sound.linked e h);
      },
      r,
    )

    digest-Refines :
        (last end : Time) (db : Db)
        → read_time (select_state digest_key db.state) ≡ ok last
        → let start = window_start_at cfg end last in
          Refines db → Refines (completed (map row_id (pending start end db)) end start end db)
    unfolding Refines
    digest-Refines last end db is_last (sound, r) =
        let from = window_start_at cfg end last in
        let ids = map row_id (pending from end db) in
        (
          record {
            unique = rw (emails-completed from end end db sound.unique) (
                Unique-map _ db.emails
                  (mark_pending-collides (format_time from) (format_time end) end)
                  (mark_pending_id (format_time from) (format_time end) end) sound.unique);
            linked = completed-Linked ids end from end db;
          },
          rw (ledger_of-completed from end db sound.unique) (
              next r (
                publish (format_time from) (format_time end)
                  (window-Follows last end db sound.linked is_last))),
        )

  -- Whatever fails in any sequence of polls and digests, each change of the tables is a step of the
  -- ledger: a letter that is not there arrives, or a digest lists every letter of its window that none
  -- has listed, counts them, and begins where the last one ended. This is so where no two rows collide,
  -- under a UNIQUE constraint or by their ids, and LastDigestAt is the end of the last digest; and both
  -- hold again afterwards.
  pub serve-Refines :
      (j : Job) (tasks : List Task) (w : World)
      → IsSound w.db
      → IsSound (serve j cfg tasks w).db
        × Reach (ledger_of w.db) (ledger_of (serve j cfg tasks w).db)
  unfolding Refines
  serve-Refines j tasks w sound =
      serve_holds j cfg (Refines j (ledger_of w.db)) (insert-Refines j (ledger_of w.db))
        (state-Refines j (ledger_of w.db)) (digest-Refines j (ledger_of w.db)) tasks w (sound, here)
