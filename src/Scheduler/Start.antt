-- ===== src/Scheduler/Start.antt =====
-- `New` and `Start` of internal/scheduler/scheduler.go, over the cron library.
use suzie_filtering_system.Base.{
  ℕ, Text, codes, Bool, true, false, Option, none, some, List, [], ◌∷◌, ◌++◌, ◌≡◌, refl,
}
use suzie_filtering_system.World.{Result, ok, err}
use suzie_filtering_system.Scheduler.Jobs.{Task, poll, digest}

-- scheduler.Config; the location may be nil.
pub record Schedules : Type 0 where
  pub poll_schedule : Text
  pub digest_schedule : Text
  pub digest_to : Text
  pub location : Option ℕ

-- The cron of a scheduler, and the goroutines that it launched itself.
pub record Cron : Type 0 where
  pub location : ℕ
  pub entries : List (Text × Task)
  pub is_running : Bool
  pub launched : List Task

-- time.UTC
abbrev pub utc : ℕ
utc = 0

abbrev pub location_or_utc : Option ℕ → ℕ
location_or_utc none = utc
location_or_utc (some zone) = zone

-- New
pub new_cron : Schedules → Cron
new_cron cfg = record {
  location = location_or_utc cfg.location;
  entries = [];
  is_running = false;
  launched = [];
}

abbrev added : Option Text → Text → Task → Cron → Option Text × Cron
added none spec task c = (none, record c { entries = c.entries ++ (spec, task) ∷ [] })
added (some e) spec task c = (some e, c)

-- cron.AddFunc, where `parse_spec` is the parser of the library: `none` is success.
pub add_func : (Text → Option Text) → Text → Task → Cron → Option Text × Cron
add_func parse_spec spec task c = added (parse_spec spec) spec task c

abbrev pub begin : Cron → Cron
begin c = record c { is_running = true; launched = c.launched ++ poll ∷ [] }

abbrev after_digest : Option Text × Cron → Result (Unit {0}) × Cron
after_digest (some e, c) = (err (codes "register digest schedule: " ++ e), c)
after_digest (none, c) = (ok tt, begin c)

abbrev after_poll : (Cron → Option Text × Cron) → Option Text × Cron → Result (Unit {0}) × Cron
after_poll add (some e, c) = (err (codes "register poll schedule: " ++ e), c)
after_poll add (none, c) = after_digest (add c)

-- Start
unfoldable pub start : (Text → Option Text) → Schedules → Cron → Result (Unit {0}) × Cron
unfolding add_func
start parse_spec cfg c =
    after_poll (add_func parse_spec cfg.digest_schedule digest)
      (add_func parse_spec cfg.poll_schedule poll c)

-- Start returns nil, with both schedules registered, the cron running and one poll launched; or it
-- returns an error, the cron does not run, and nothing was launched.
pub data Starts (cfg : Schedules) (s : Result (Unit {0}) × Cron) : Type 0 where
  started :
      s.0 ≡ ok tt
      → s.1.entries ≡ (cfg.poll_schedule, poll) ∷ (cfg.digest_schedule, digest) ∷ []
      → s.1.is_running ≡ true
      → s.1.launched ≡ poll ∷ []
      → Starts cfg s
  failed : (e : Text) → s.0 ≡ err e → s.1.is_running ≡ false → s.1.launched ≡ [] → Starts cfg s

pub start-Starts :
    (parse_spec : Text → Option Text) (cfg : Schedules)
    → Starts cfg (start parse_spec cfg (new_cron cfg))
unfolding start add_func new_cron
start-Starts parse_spec cfg = go (parse_spec cfg.poll_schedule) (parse_spec cfg.digest_schedule)
  where
    go :
        (p d : Option Text)
        → Starts cfg (
            after_poll
              (added d cfg.digest_schedule digest)
              (added p cfg.poll_schedule poll (new_cron cfg)))
    go none none = started refl refl refl refl
    go none (some e) = failed _ refl refl refl
    go (some e) d = failed _ refl refl refl
