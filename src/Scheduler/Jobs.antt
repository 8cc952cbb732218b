-- ===== src/Scheduler/Jobs.antt =====
-- The jobs of internal/scheduler/scheduler.go one after another: RunPoll and RunDigest log an error of
-- their job and drop it. The run lock lets one job run at a time (Scheduler/Lock).
pub mod History
pub mod Marked
pub mod Abstraction
pub mod Refines
pub mod NoLoss
use suzie_filtering_system.Base.{List, [], ◌∷◌}
use suzie_filtering_system.World.{World, Env}
use suzie_filtering_system.Poll
use suzie_filtering_system.Poll.{Job}
use suzie_filtering_system.Scheduler.{Config, run_digest}

pub data Task : Type 0 where
  poll : Task  -- the callback of PollSchedule, and the poll at the start
  digest : Task  -- the callback of DigestSchedule

module _ ⦃env : Env⦄ where
  -- The job of RunPoll.
  unfoldable pub run_poll : Job → World → World
  run_poll j w = (Poll.run j w).1

  -- The job of RunDigest.
  unfoldable pub run_digest_job : Config → World → World
  run_digest_job cfg w = (run_digest cfg w).1

  unfoldable pub perform : Job → Config → Task → World → World
  unfolding run_poll run_digest_job
  perform j cfg poll w = run_poll j w
  perform j cfg digest w = run_digest_job cfg w

  unfoldable pub serve : Job → Config → List Task → World → World
  unfolding perform
  serve j cfg [] w = w
  serve j cfg (task ∷ tasks) w = serve j cfg tasks (perform j cfg task w)
