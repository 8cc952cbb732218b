-- ===== src/Daemon/Ends.antt =====
-- How `main` of cmd/digestd/main.go ends: what was set up, what ran, and what is left open.
use suzie_filtering_system.Base.{
  Text, false, Option, none, some, List, [], ◌∷◌, ◌≡◌, refl, subst, ◌⊎◌, inl, inr, ◌≢◌,
}
use suzie_filtering_system.World.{World, Env, Result, ok, err}
use suzie_filtering_system.Config
use suzie_filtering_system.Config.{Host, load}
use suzie_filtering_system.Store.Open.{
  Driver, Handle, Opening, close, IsReady, Opens, refused, ready, open_store-Opens,
}
use suzie_filtering_system.Mailer.Client.{Mailer, new_mailer}
use suzie_filtering_system.Scheduler.Start.{Cron, Starts, started, failed, start-Starts}
use suzie_filtering_system.Scheduler.Jobs.{Task, poll, digest, serve}
use suzie_filtering_system.Daemon.{
  Services, Ended, smtp_config, job_of, schedules_of, digests_of, main, after_stop, after_start,
  after_mailer, after_open, after_load,
}

module _ ⦃env : Env⦄ ⦃host : Host⦄ ⦃services : Services⦄ ⦃driver : Driver⦄ where
  -- No cron was made, or it does not run.
  abbrev pub Idle : Option Cron → Type 0
  Idle none = Unit
  Idle (some c) = (c.is_running ≡ false) × (c.launched ≡ [])

  -- The set-up failed: the exit status is 1, nothing outside changed, and no job ever ran. Or the process
  -- served: the configuration was loaded, the store is ready, both schedules are registered with one
  -- poll launched, the jobs ran, and the cron is stopped; and Stop returned nil, the exit status is 0 and
  -- the handle is closed, or Stop failed, the exit status is 1 and the handle is left open.
  pub data MainEnds (tasks : List Task) (stop_error : Option Text) (w : World) (p : Ended)
      : Type 0 where
    gave_up : p.status ≡ 1 → p.world ≡ w → Idle p.cron → MainEnds tasks stop_error w p
    served :
        (cfg : Config.Config) (h : Handle) (mailer : Mailer) (c : Cron)
        → load ≡ ok cfg
        → IsReady cfg.db_path h
        → new_mailer services.new_client (smtp_config cfg) ≡ ok mailer
        → c.entries ≡ (cfg.poll_schedule, poll) ∷ (cfg.digest_schedule, digest) ∷ []
        → c.launched ≡ poll ∷ []
        → p.cron ≡ some (record c { is_running = false })
        → p.world ≡ serve (job_of cfg) (digests_of cfg mailer) tasks w
        → ((stop_error ≡ none) × (p.status ≡ 0) × (p.handle ≡ some (close h)))
          ⊎ ((stop_error ≢ none) × (p.status ≡ 1) × (p.handle ≡ some h))
        → MainEnds tasks stop_error w p

  module _ (tasks : List Task) (stop_error : Option Text) (w : World) where
    started-Ends :
        (cfg : Config.Config) (h : Handle) (mailer : Mailer) (s : Result (Unit {0}) × Cron)
        → load ≡ ok cfg
        → IsReady cfg.db_path h
        → new_mailer services.new_client (smtp_config cfg) ≡ ok mailer
        → Starts (schedules_of cfg) s
        → MainEnds tasks stop_error w (after_start cfg h mailer tasks stop_error s w)
    unfolding schedules_of
    started-Ends cfg h mailer (err e, c) l r m (failed x at idle quiet) =
        gave_up refl refl (idle, quiet)
    started-Ends cfg h mailer (ok u, c) l r m (failed x at idle quiet) = absurd (cc)
    started-Ends cfg h mailer (err e, c) l r m (started at entries running launched) = absurd (cc)
    started-Ends cfg h mailer (ok u, c) l r m (started at entries running launched) =
        go stop_error refl
      where
        go :
            (o : Option Text)
            → stop_error ≡ o
            → MainEnds tasks stop_error w
                (after_stop h c o (serve (job_of cfg) (digests_of cfg mailer) tasks w))
        go none k = served cfg h mailer c l r m entries launched refl refl (inl (k, refl, refl))
        go (some e) k =
            served cfg h mailer c l r m entries launched refl refl
              (inr (λ n. absurd (cc), refl, refl))

    mailed-Ends :
        (cfg : Config.Config) (h : Handle) (m : Result Mailer)
        → load ≡ ok cfg
        → IsReady cfg.db_path h
        → new_mailer services.new_client (smtp_config cfg) ≡ m
        → MainEnds tasks stop_error w (after_mailer cfg h tasks stop_error m w)
    mailed-Ends cfg h (err e) l r m = gave_up refl refl tt
    mailed-Ends cfg h (ok mailer) l r m =
        started-Ends cfg h mailer _ l r m (start-Starts services.parse_spec (schedules_of cfg))

    opened-Ends :
        (cfg : Config.Config) (o : Opening)
        → load ≡ ok cfg
        → Opens cfg.db_path o
        → MainEnds tasks stop_error w (after_open cfg tasks stop_error o w)
    opened-Ends cfg (err e, left) l o = gave_up refl refl tt
    opened-Ends cfg (ok h, left) l (refused e at quiet) = absurd (cc)
    opened-Ends cfg (ok h, left) l (ready g at is_ready named dir) =
        let same : g ≡ h = cc in
        mailed-Ends cfg h _ l (subst (IsReady cfg.db_path) same is_ready) refl

    loaded-Ends :
        (r : Result Config.Config)
        → load ≡ r
        → MainEnds tasks stop_error w (after_load tasks stop_error r w)
    loaded-Ends (err e) l = gave_up refl refl tt
    loaded-Ends (ok cfg) l = opened-Ends cfg _ l (open_store-Opens cfg.db_path)

  -- Whatever the set-up and the jobs meet with: the set-up fails, and then the exit status is 1, nothing
  -- outside has changed and no job ever ran; or the process serves. Then its configuration was loaded,
  -- its store is ready, both schedules are registered and one poll was launched, the world is as the jobs
  -- leave it, and the cron is stopped; and Stop returned nil, the exit status is 0 and the store is
  -- closed, or Stop failed, the exit status is 1 and the store is left open.
  pub main-Ends :
      (tasks : List Task) (stop_error : Option Text) (w : World)
      → MainEnds tasks stop_error w (main tasks stop_error w)
  unfolding main
  main-Ends tasks stop_error w = loaded-Ends tasks stop_error w load refl
