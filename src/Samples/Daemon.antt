-- ===== src/Samples/Daemon.antt =====
-- Instances of the theorems on the daemon: a message arrives before the tenth call, and the process is
-- started twice.
use mathlib.Core.List.{Memᴰ}
use suzie_filtering_system.Base.{
  split, trim_space, if◌then◌else◌, ℕ, ◌<◌, Text, codes, Bool, true, false, text_eq, Option, none,
  some, List, [], ◌∷◌, ltb, ◌≡◌, refl, arith, All,
}
use suzie_filtering_system.Model.{pos, RawMessage}
use suzie_filtering_system.Tables.{empty_db}
use suzie_filtering_system.World.{World, Env, ok}
use suzie_filtering_system.Config
use suzie_filtering_system.Config.{Host, load}
use suzie_filtering_system.Store.Open.{Driver, Opens, open_store, open_store-Opens}
use suzie_filtering_system.Store.Cursor.{cursor-moved}
use suzie_filtering_system.Poll.Growth.{Grows}
use suzie_filtering_system.Poll.NoLoss.Selected.{IsMailbox}
use suzie_filtering_system.Poll.Batch.{Fresh}
use suzie_filtering_system.Scheduler.Ledger.{Reach, Balanced, Chained, Later}
use suzie_filtering_system.Scheduler.Jobs.{Task, poll, digest}
use suzie_filtering_system.Scheduler.Jobs.Abstraction.{ledger_of}
use suzie_filtering_system.Scheduler.Jobs.Refines.{IsSound}
use suzie_filtering_system.Scheduler.Jobs.NoLoss.{Arrives, Kept}
use suzie_filtering_system.Store.{columns, nullable_time}
use suzie_filtering_system.Daemon.{Services, job_of, main, lives}
use suzie_filtering_system.Daemon.Ends.{MainEnds, main-Ends}
use suzie_filtering_system.Daemon.Lives.{
  lives-Grows, lives-NoLoss, lives-Refines, lives-Balanced, lives-Chained, lives-Later,
}
use suzie_filtering_system.Samples.{demo, start_world, digest_world, first_mail, inbox}

abbrev mail_at : Bool → List RawMessage
mail_at true = []
mail_at false = first_mail ∷ []

abbrev mailing : Env
mailing = record demo {
  mailbox = λ n. record { uid_validity = 7; uid_next = 13; messages = mail_at (ltb n 10) };
}

abbrev home : Host
home = record {
  Location = Text;
  getenv = λ key.
      if text_eq key (codes "LLM_TIMEOUT")
      then []
      else if text_eq key (codes "LOG_LEVEL")
      then []
      else codes "INBOX";
  atoi = λ s. none;
  parse_duration = λ s. none;
  load_location = λ s. ok s;
  parse_level = λ s. ok (pos 0);
  show_duration = λ n. codes "10m0s";
  show_location = λ s. s;
  show_level = λ n. codes "INFO";
}

abbrev ready : Driver
ready = record { dir = λ p. p; mkdir_all = λ p. none; sql_open = λ p. none; exec = λ h s. none }

abbrev services : Services ⦃env = mailing⦄ ⦃host = home⦄
services = record { new_client = λ c. none; parse_spec = λ s. none; zone_of = λ l. 0 }

abbrev config : Config.Config ⦃env = mailing⦄ ⦃host = home⦄
config = record {
  imap_host = inbox;
  imap_port = pos 993;
  imap_user = inbox;
  imap_pass = inbox;
  imap_folder = inbox;
  imap_allowlist = inbox ∷ [];
  smtp_host = inbox;
  smtp_port = pos 587;
  smtp_user = inbox;
  smtp_pass = inbox;
  smtp_from = inbox;
  digest_to = inbox;
  ollama_url = inbox;
  ollama_model = inbox;
  llm_timeout = pos 600000000000;
  summary_language = inbox;
  poll_schedule = inbox;
  digest_schedule = inbox;
  body_char_limit = pos 4000;
  db_path = inbox;
  archive_dir = inbox;
  tz = inbox;
  log_level = pos 0;
}

load-config : load ⦃env = mailing⦄ ⦃host = home⦄ ≡ ok config
unfolding load split trim_space
load-config = refl

mailing-IsMailbox : (n : ℕ) → IsMailbox (mailing.mailbox n)
mailing-IsMailbox n = record {
  validity_fits = omega arith;
  next_fits = omega arith;
  distinct = fresh (ltb n 10);
}
  where
    fresh : (b : Bool) → Fresh 0 (mail_at b)
    fresh true = tt
    fresh false = (omega arith, omega arith, refl, tt)

first_mail-Arrives : Arrives ⦃env = mailing⦄ 7 10 first_mail
first_mail-Arrives = record {
  honest = mailing-IsMailbox;
  nonzero = λ h. absurd (omega arith);
  steady = λ n. refl;
  newest = λ n h. early (ltb n 10) (ground arith);
  stays = λ n h. late (ltb n 10) (ground arith);
}
  where
    early : (b : Bool) → b ≡ true → All (λ y. y.uid < first_mail.uid) (mail_at b)
    early true h = tt
    early false h = absurd (cc)

    late : (b : Bool) → b ≡ false → Memᴰ first_mail (mail_at b)
    late true h = absurd (cc)
    late false h = Memᴰ.head refl

-- A poll and a digest; Stop gives up; and then one more poll.
abbrev runs : List (List Task × Option Text)
runs = (poll ∷ digest ∷ [], some (codes "deadline exceeded")) ∷ (poll ∷ [], none) ∷ []

abbrev after : World → World
after w = lives ⦃env = mailing⦄ ⦃host = home⦄ ⦃services = services⦄ ⦃driver = ready⦄ runs w

lives-NoLoss_example :
    Kept ⦃env = mailing⦄
      (job_of ⦃env = mailing⦄ ⦃host = home⦄ config)
      7
      first_mail
      10
      (after start_world)
lives-NoLoss_example =
    lives-NoLoss ⦃env = mailing⦄ ⦃host = home⦄ ⦃services = services⦄ ⦃driver = ready⦄ config 7 10 10
      first_mail runs start_world load-config first_mail-Arrives
      (cursor-moved inbox 7 10 empty_db (omega arith) (omega arith)) (omega arith)

digest_world-IsSound : IsSound digest_world.db
digest_world-IsSound = record { unique = (refl, refl, tt); linked = λ end h. absurd (cc) }

lives-Refines_example :
    IsSound (after digest_world).db
    × Reach (ledger_of digest_world.db) (ledger_of (after digest_world).db)
lives-Refines_example =
    lives-Refines ⦃env = mailing⦄ ⦃host = home⦄ ⦃services = services⦄ ⦃driver = ready⦄ runs
      digest_world digest_world-IsSound

none_listed : Balanced (ledger_of digest_world.db)
unfolding columns nullable_time
none_listed = refl

lives-Balanced_example : Balanced (ledger_of (after digest_world).db)
lives-Balanced_example =
    lives-Balanced ⦃env = mailing⦄ ⦃host = home⦄ ⦃services = services⦄ ⦃driver = ready⦄ runs
      digest_world digest_world-IsSound none_listed

lives-Chained_example : Chained (ledger_of (after digest_world).db).issues
lives-Chained_example =
    lives-Chained ⦃env = mailing⦄ ⦃host = home⦄ ⦃services = services⦄ ⦃driver = ready⦄ runs
      digest_world digest_world-IsSound tt

lives-Later_example :
    Later (ledger_of digest_world.db).letters (ledger_of (after digest_world).db).letters
lives-Later_example =
    lives-Later ⦃env = mailing⦄ ⦃host = home⦄ ⦃services = services⦄ ⦃driver = ready⦄ runs
      digest_world digest_world-IsSound

main-Ends_example :
    MainEnds ⦃env = mailing⦄ ⦃host = home⦄ ⦃services = services⦄ ⦃driver = ready⦄
      (poll ∷ [])
      none
      start_world
      (main ⦃env = mailing⦄ ⦃host = home⦄ ⦃services = services⦄ ⦃driver = ready⦄
        (poll ∷ [])
        none
        start_world)
main-Ends_example =
    main-Ends ⦃env = mailing⦄ ⦃host = home⦄ ⦃services = services⦄ ⦃driver = ready⦄ (poll ∷ []) none
      start_world

lives-Grows_example : Grows start_world (after start_world)
lives-Grows_example =
    lives-Grows ⦃env = mailing⦄ ⦃host = home⦄ ⦃services = services⦄ ⦃driver = ready⦄ runs
      start_world

open_store-Opens_example : Opens ⦃driver = ready⦄ inbox (open_store ⦃driver = ready⦄ inbox)
open_store-Opens_example = open_store-Opens ⦃driver = ready⦄ inbox
