-- ===== src/Imap/Keeps.antt =====
-- Fetching changes nothing; MarkSeen changes only what the STORE command does.
use suzie_filtering_system.Base.{ℕ}
use suzie_filtering_system.World.{World, Env, remote}
use suzie_filtering_system.World.Keeps.{Keeps, IsFrame, keeps_rules, Keeps-remote}
use suzie_filtering_system.Imap.{connect, select, fetch_since, fetch, add_seen, mark_seen}

module _ {R : World → World → Type 0} (frame : IsFrame R) ⦃env : Env⦄ where
  pub connect-Keeps : Keeps R connect
  unfolding connect
  connect-Keeps = search keeps_rules depth 8

  pub select-Keeps : Keeps R select
  unfolding select
  select-Keeps = search keeps_rules

  fetch_since-Keeps : (first : ℕ) → Keeps R (fetch_since first)
  unfolding fetch_since
  fetch_since-Keeps first = search keeps_rules

  pub fetch-Keeps : (known since : ℕ) → Keeps R (fetch known since)
  unfolding fetch
  fetch-Keeps known since =
      search (keeps_rules, connect-Keeps, select-Keeps, fetch_since-Keeps) depth 10

  module _ (seen_R : (v u : ℕ) (w : World) → R w (add_seen v u w)) where
    store-Keeps : (v u : ℕ) → Keeps R (remote (add_seen v u))
    store-Keeps v u = Keeps-remote frame (add_seen v u) (seen_R v u)

    pub mark_seen-Keeps : (v u : ℕ) → Keeps R (mark_seen v u)
    unfolding mark_seen
    mark_seen-Keeps v u = search (keeps_rules, connect-Keeps, select-Keeps, store-Keeps) depth 10
