-- ===== src/Daemon/Lives.antt =====
-- cmd/digestd over its whole life: the process is started, stopped and started again, and its set-up may
-- fail each time.
use suzie_filtering_system.Base.{ℕ, ◌<◌, Text, Option, List, [], ◌∷◌, ◌≡◌, sym, subst, arith}
use suzie_filtering_system.Model.{RawMessage}
use suzie_filtering_system.World.{World, Env, ok}
use suzie_filtering_system.Config
use suzie_filtering_system.Config.{Host, load}
use suzie_filtering_system.Store.Open.{Driver}
use suzie_filtering_system.Store.Cursor.{cursor}
use suzie_filtering_system.Scheduler
use suzie_filtering_system.Poll.{new_job}
use suzie_filtering_system.Poll.Growth.{Grows, Grows-IsFrame}
use suzie_filtering_system.Scheduler.Jobs.History.{serve-Grows}
use suzie_filtering_system.Scheduler.Ledger.{
  Reach, here, Reach-trans, Balanced, Chained, Later, Reach-Balanced, Reach-Chained, Reach-Later,
}
use suzie_filtering_system.Scheduler.Jobs.{Task, serve}
use suzie_filtering_system.Scheduler.Jobs.Abstraction.{ledger_of}
use suzie_filtering_system.Scheduler.Jobs.Refines.{IsSound, serve-Refines}
use suzie_filtering_system.Scheduler.Jobs.NoLoss.{Arrives, Kept, serve-Kept}
use suzie_filtering_system.Daemon.{Services, Ended, job_of, digests_of, main, lives}
use suzie_filtering_system.Daemon.Ends.{MainEnds, gave_up, served, main-Ends}

module _ ⦃env : Env⦄ ⦃host : Host⦄ ⦃services : Services⦄ ⦃driver : Driver⦄ where
  -- What the jobs of every configuration that is loaded keep, the process keeps.
  module _ (I : World → Type 0)
      (serve_I : (cfg : Config.Config) (tasks : List Task) (w : World)
        → load ≡ ok cfg
        → (digests : Scheduler.Config) → I w
        → I (serve (job_of cfg) digests tasks w)) where
    main_holds :
        (tasks : List Task) (stop_error : Option Text) (w : World)
        → I w
        → I (main tasks stop_error w).world
    main_holds tasks stop_error w i = go _ (main-Ends tasks stop_error w)
      where
        go : (p : Ended) → MainEnds tasks stop_error w p → I p.world
        go p (gave_up status same idle) = rw same i
        go p (served cfg h mailer c loaded is_ready mailed entries launched cron same ended) =
            rw same (serve_I cfg tasks w loaded (digests_of cfg mailer) i)

    lives_hold : (runs : List (List Task × Option Text)) (w : World) → I w → I (lives runs w)
    unfolding lives
    lives_hold [] w i = i
    lives_hold ((tasks, stop_error) ∷ runs) w i =
        lives_hold runs _ (main_holds tasks stop_error w i)

  -- Whatever fails, however often the process is started, and whatever sequence of polls and digests each
  -- start runs: if a message arrives above the stored cursor, with a UID above those before it, and stays
  -- in the mailbox, then the cursor afterwards, under the same UIDVALIDITY, is no lower, and it is below
  -- the message or the message is in the archive, unchanged, is reported by EmailExists and carries its
  -- \Seen flag. The configuration is the one that is loaded; the UIDVALIDITY of the mailbox stays, and
  -- is not 0; a mailbox has different UIDs above 0, and its numbers are uint32.
  pub lives-NoLoss :
      (cfg : Config.Config) (v a c : ℕ) (m : RawMessage) (runs : List (List Task × Option Text))
      (w : World)
      → load ≡ ok cfg
      → Arrives v a m
      → cursor cfg.imap_folder w.db ≡ ok (v, c)
      → c < m.uid
      → Kept (job_of cfg) v m c (lives runs w)
  unfolding job_of new_job
  lives-NoLoss cfg v a c m runs w loaded arrives at above =
      lives_hold (Kept (job_of cfg) v m c)
        (λ other tasks u k digests kept.
          let same : other ≡ cfg = cc in
          subst (λ (x : Config.Config). Kept (job_of cfg) v m c (serve (job_of x) digests tasks u))
            (sym same) (serve-Kept (job_of cfg) digests v a m arrives c tasks u kept))
        runs w (c, at, omega arith, λ h. absurd (omega arith))

  -- Whatever fails, however often the process is started, and whatever it runs: no archived file is replaced
  -- or changed, every message that EmailExists reported before is reported afterwards, and no \Seen flag
  -- is lost.
  pub lives-Grows : (runs : List (List Task × Option Text)) (w : World) → Grows w (lives runs w)
  lives-Grows runs w =
      lives_hold (Grows w)
        (λ cfg tasks u k digests g.
          Grows-IsFrame.trans w u _ g (serve-Grows (job_of cfg) digests tasks u))
        runs w (Grows-IsFrame.same w)

  -- Whatever fails, however often the process is started, and whatever it runs, each change of the tables
  -- is a step of the ledger: a letter that is not there arrives, or a digest lists every letter of its
  -- window that none has listed, counts them, and begins where the last one ended. This is so where no
  -- two rows collide, under a UNIQUE constraint or by their ids, and LastDigestAt is the end of the last
  -- digest; and both hold again afterwards.
  pub lives-Refines :
      (runs : List (List Task × Option Text)) (w : World)
      → IsSound w.db
      → IsSound (lives runs w).db × Reach (ledger_of w.db) (ledger_of (lives runs w).db)
  lives-Refines runs w sound =
      lives_hold (λ u. IsSound u.db × Reach (ledger_of w.db) (ledger_of u.db))
        (λ cfg tasks u k digests (here_sound, r).
          let (still, more) = serve-Refines digests (job_of cfg) tasks u here_sound in
          (still, Reach-trans r more))
        runs w (sound, here)

  -- Whatever fails, however often the process is started, and whatever it runs: if the digests of the
  -- table count each row with a `digested_at` once, and no other, they do so afterwards. No two rows
  -- collide at the start, and LastDigestAt is the end of the last digest.
  pub lives-Balanced :
      (runs : List (List Task × Option Text)) (w : World)
      → IsSound w.db
      → Balanced (ledger_of w.db)
      → Balanced (ledger_of (lives runs w).db)
  lives-Balanced runs w sound = Reach-Balanced (lives-Refines runs w sound).1

  -- Whatever fails, however often the process is started, and whatever it runs: if the window of each
  -- digest of the table begins where the one before ended, it does so afterwards. An end at time 0 counts
  -- as none. No two rows collide at the start, and LastDigestAt is the end of the last digest.
  pub lives-Chained :
      (runs : List (List Task × Option Text)) (w : World)
      → IsSound w.db
      → Chained (ledger_of w.db).issues
      → Chained (ledger_of (lives runs w).db).issues
  lives-Chained runs w sound = Reach-Chained (lives-Refines runs w sound).1

  -- Whatever fails, however often the process is started, and whatever it runs: every row of table emails
  -- is there afterwards, at its place, with its keys and its `received_at`, and with its `digested_at` if
  -- it had one. No two rows collide at the start, and LastDigestAt is the end of the last digest.
  pub lives-Later :
      (runs : List (List Task × Option Text)) (w : World)
      → IsSound w.db
      → Later (ledger_of w.db).letters (ledger_of (lives runs w).db).letters
  lives-Later runs w sound = Reach-Later (lives-Refines runs w sound).1
