-- ===== src/Daemon.antt =====
-- `main` of cmd/digestd/main.go, from the configuration to the exit status.
pub mod Ends
pub mod Lives
use suzie_filtering_system.Base.{
  ℕ, Text, codes, Bool, true, false, Option, none, some, List, [], ◌∷◌,
}
use suzie_filtering_system.Model.{ℤ, pos, negsuc}
use suzie_filtering_system.World.{World, Env, Result, ok, err}
use suzie_filtering_system.Config
use suzie_filtering_system.Config.{Host, load}
use suzie_filtering_system.Store.Open.{Driver, Handle, Opening, open_store, close}
use suzie_filtering_system.Llm.{Client}
use suzie_filtering_system.Mailer.Client.{SmtpConfig, SmtpClient, Mailer, new_mailer}
use suzie_filtering_system.Poll
use suzie_filtering_system.Poll.{Job, new_job}
use suzie_filtering_system.Scheduler
use suzie_filtering_system.Scheduler.Start.{Schedules, Cron, new_cron, start, location_or_utc}
use suzie_filtering_system.Scheduler.Jobs.{Task, serve}

-- What `main` calls outside: mail.NewClient and the parser of cron specifications, `none` for success;
-- and the number of a time zone.
pub record Services ⦃env : Env⦄ ⦃host : Host⦄ : Type 0 where
  pub new_client : SmtpClient → Option Text
  pub parse_spec : Text → Option Text
  pub zone_of : host.Location → ℕ

-- How the process ended: its exit status, the handle that it left on the database, its cron, and the
-- world.
pub record Ended : Type 0 where
  pub status : ℕ
  pub handle : Option Handle
  pub cron : Option Cron
  pub world : World

-- A limit that is not above 0 is no limit.
abbrev pub limit : ℤ → ℕ
limit (pos n) = n
limit (negsuc n) = 0

-- llm.New; the address of the server and the timeout are a part of `post`.
pub new_llm : Text → Client
new_llm model_name = record { model = model_name; keep_alive = codes "5m" }

module _ ⦃env : Env⦄ ⦃host : Host⦄ where
  pub smtp_config : Config.Config → SmtpConfig
  smtp_config cfg = record {
    host = cfg.smtp_host;
    port = cfg.smtp_port;
    user = cfg.smtp_user;
    pass = cfg.smtp_pass;
    from_addr = cfg.smtp_from;
  }

  pub job_of : Config.Config → Job
  unfolding new_llm
  job_of cfg = new_job (new_llm cfg.ollama_model) (record {
    folder = cfg.imap_folder;
    archive_dir = cfg.archive_dir;
    allowlist = cfg.imap_allowlist;
    body_char_limit = limit cfg.body_char_limit;
    summary_language = cfg.summary_language;
  })

  module _ ⦃services : Services⦄ where
    pub schedules_of : Config.Config → Schedules
    schedules_of cfg = record {
      poll_schedule = cfg.poll_schedule;
      digest_schedule = cfg.digest_schedule;
      digest_to = cfg.digest_to;
      location = some (services.zone_of cfg.tz);
    }

    pub digests_of : Config.Config → Mailer → Scheduler.Config
    unfolding schedules_of
    digests_of cfg mailer = record {
      digest_to = (schedules_of cfg).digest_to;
      smtp_from = mailer.from_addr;
      location = location_or_utc (schedules_of cfg).location;
    }

    module _ ⦃driver : Driver⦄ where
      -- os.Exit(1) does not run the deferred Close.
      abbrev exit_one : Option Handle → Option Cron → World → Ended
      exit_one h c w = record { status = 1; handle = h; cron = c; world = w }

      -- `tasks` are the jobs that got the run lock until Stop returned, and `stop_error` is its error: in
      -- Scheduler/Lock, `stopped` is none and `gave_up` is ctx.Err().
      abbrev pub after_stop : Handle → Cron → Option Text → World → Ended
      after_stop h c (some e) w = exit_one (some h) (some (record c { is_running = false })) w
      after_stop h c none w = record {
        status = 0;
        handle = some (close h);
        cron = some (record c { is_running = false });
        world = w;
      }

      abbrev pub after_start :
          Config.Config
          → Handle
          → Mailer
          → List Task
          → Option Text
          → Result (Unit {0}) × Cron
          → World
          → Ended
      after_start cfg h mailer tasks stop_error (err e, c) w = exit_one (some h) (some c) w
      after_start cfg h mailer tasks stop_error (ok u, c) w =
          after_stop h c stop_error (serve (job_of cfg) (digests_of cfg mailer) tasks w)

      abbrev pub after_mailer :
          Config.Config → Handle → List Task → Option Text → Result Mailer → World → Ended
      after_mailer cfg h tasks stop_error (err e) w = exit_one (some h) none w
      after_mailer cfg h tasks stop_error (ok mailer) w =
          after_start cfg h mailer tasks stop_error
            (start services.parse_spec (schedules_of cfg) (new_cron (schedules_of cfg))) w

      abbrev pub after_open : Config.Config → List Task → Option Text → Opening → World → Ended
      after_open cfg tasks stop_error (err e, left) w = exit_one left none w
      after_open cfg tasks stop_error (ok h, left) w =
          after_mailer cfg h tasks stop_error (new_mailer services.new_client (smtp_config cfg)) w

      abbrev pub after_load : List Task → Option Text → Result Config.Config → World → Ended
      after_load tasks stop_error (err e) w = exit_one none none w
      after_load tasks stop_error (ok cfg) w =
          after_open cfg tasks stop_error (open_store cfg.db_path) w

      unfoldable pub main : List Task → Option Text → World → Ended
      unfolding smtp_config job_of digests_of
      main tasks stop_error w = after_load tasks stop_error load w

      -- The process is started again and again, on what the one before left.
      unfoldable pub lives : List (List Task × Option Text) → World → World
      unfolding main
      lives [] w = w
      lives ((tasks, stop_error) ∷ rest) w = lives rest (main tasks stop_error w).world
