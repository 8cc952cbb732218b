-- ===== src/Archive/Keeps.antt =====
-- Archiving changes the world by os.Link alone: what `link` keeps, the whole of `write` keeps.
use suzie_filtering_system.Base.{ℕ, Text, Option, none, some}
use suzie_filtering_system.Model.{Time}
use suzie_filtering_system.World.{World, Env, exec}
use suzie_filtering_system.World.Keeps.{Keeps, IsFrame, keeps_rules, Keeps-exec}
use suzie_filtering_system.Archive.{
  link, archive_target, base_target, alternate_target, accept_existing, publish, received_or_now,
  write,
}

module _ {R : World → World → Type 0} (frame : IsFrame R)
    (link_R : (path raw : Text) (w : World) → R w (link path raw w).1) ⦃env : Env⦄ where
  alternate_target-Keeps :
      (alternate raw : Text) (o : Option Text) → Keeps R (alternate_target alternate raw o)
  unfolding alternate_target
  alternate_target-Keeps alternate raw none = search keeps_rules
  alternate_target-Keeps alternate raw (some existing) = search keeps_rules

  base_target-Keeps : (stem raw : Text) (o : Option Text) → Keeps R (base_target stem raw o)
  unfolding base_target
  base_target-Keeps stem raw none = search keeps_rules
  base_target-Keeps stem raw (some existing) = search (keeps_rules, alternate_target-Keeps) depth 8

  archive_target-Keeps : (stem raw : Text) → Keeps R (archive_target stem raw)
  unfolding archive_target
  archive_target-Keeps stem raw = search (keeps_rules, base_target-Keeps)

  accept_existing-Keeps :
      (target raw : Text) (o : Option Text) → Keeps R (accept_existing target raw o)
  unfolding accept_existing
  accept_existing-Keeps target raw none = search keeps_rules
  accept_existing-Keeps target raw (some existing) = search keeps_rules

  link-Keeps : (target raw : Text) → Keeps R (exec (link target raw))
  link-Keeps target raw = Keeps-exec frame (link target raw) (link_R target raw)

  publish-Keeps : (target raw : Text) → Keeps R (publish target raw)
  unfolding publish
  publish-Keeps target raw = search (keeps_rules, accept_existing-Keeps, link-Keeps) depth 16

  received_or_now-Keeps : (t : Time) → Keeps R (received_or_now t)
  unfolding received_or_now
  received_or_now-Keeps t = search keeps_rules

  pub write-Keeps :
      (dir : Text) (received : Time) (message_id : Text) (uid : ℕ) (raw : Text)
      → Keeps R (write dir received message_id uid raw)
  unfolding write
  write-Keeps dir received message_id uid raw =
      search (keeps_rules, received_or_now-Keeps, archive_target-Keeps, publish-Keeps) depth 12
