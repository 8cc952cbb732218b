-- ===== src/Scheduler/Jobs/NoLoss.antt =====
-- No message is lost: what polls and digests, one after another, do to one message of the mailbox.
use mathlib.Core.List.{Memᴰ}
use suzie_filtering_system.Base.{
  Text, ℕ, ◌+◌, ◌≤◌, ◌<◌, true, false, List, [], ◌∷◌, ◌≡◌, ◌≢◌, refl, sym, subst, inl, inr, arith,
  All, leb, leb→le, ltb, Bool-cases,
}
use suzie_filtering_system.Model.{Time, RawMessage}
use suzie_filtering_system.Tables.{Db}
use suzie_filtering_system.Tables.State.{select_state-upsert_state}
use suzie_filtering_system.World.{World, Env, ok}
use suzie_filtering_system.Store.{validity_key, uid_key, digest_key}
use suzie_filtering_system.Store.Complete.{completed, state-completed}
use suzie_filtering_system.Store.Cursor.{cursor}
use suzie_filtering_system.Poll.{Job, run}
use suzie_filtering_system.Poll.Safety.{message_id_of}
use suzie_filtering_system.Poll.Progress.{IsDone, IsDone-Grows}
use suzie_filtering_system.Poll.NoLoss.{RunEnds, unchanged, reset, moved, run-RunEnds}
use suzie_filtering_system.Poll.NoLoss.Selected.{IsMailbox}
use suzie_filtering_system.Scheduler.{Config, run_digest}
use suzie_filtering_system.Scheduler.Delivery.{DigestEnds, digested, run_digest-DigestEnds}
use suzie_filtering_system.Scheduler.Jobs.{Task, poll, digest, perform, serve}
use suzie_filtering_system.Scheduler.Jobs.History.{perform-Grows}

All-Mem :
    (P : RawMessage → Type 0) (m : RawMessage) (ms : List RawMessage) → Memᴰ m ms → All P ms → P m
All-Mem P m [] i h = elim i [ ]
All-Mem P m (x ∷ ms) (Memᴰ.head e) (here, rest) = subst P (sym e) here
All-Mem P m (x ∷ ms) (Memᴰ.tail i) (here, rest) = All-Mem P m ms i rest

ltb→lt : (x y : ℕ) → ltb x y ≡ true → x < y
ltb→lt x y h = ground arith

le_of_ltb : (x y : ℕ) → ltb x y ≡ false → y ≤ x
le_of_ltb x y h = ground arith

lt_of_leb : (x y : ℕ) → leb x y ≡ false → y < x
lt_of_leb x y h = ground arith

-- Completing a digest leaves the cursor of every folder.
cursor-completed :
    (folder : Text) (ids : List ℕ) (a b c : Time) (db : Db)
    → cursor folder (completed ids a b c db) ≡ cursor folder db
unfolding cursor
cursor-completed folder ids a b c db =
    rw
      (
        state-completed ids a b c db,
        select_state-upsert_state digest_key (validity_key folder),
        select_state-upsert_state digest_key (uid_key folder),
      )
      refl

-- A message arrives at the mailbox before the `a`-th call and stays there; no message had a UID as high
-- before; and the UIDVALIDITY is always `v`, which is not 0.
pub record Arrives ⦃env : Env⦄ (v a : ℕ) (m : RawMessage) : Type 0 where
  pub honest : (n : ℕ) → IsMailbox (env.mailbox n)
  pub nonzero : v ≢ 0
  pub steady : (n : ℕ) → (env.mailbox n).uid_validity ≡ v
  pub newest : (n : ℕ) → n < a → All (λ y. y.uid < m.uid) (env.mailbox n).messages
  pub stays : (n : ℕ) → a ≤ n → Memᴰ m (env.mailbox n).messages

module _ ⦃env : Env⦄ where
  -- The cursor is at `c` or above, and if it is not below the message, the message is archived,
  -- reported by EmailExists and flagged.
  abbrev pub Kept : Job → ℕ → RawMessage → ℕ → World → Type 0
  Kept j v m c w =
      (d : ℕ) × (cursor j.cfg.folder w.db ≡ ok (v, d))
      × (c ≤ d)
      × (m.uid ≤ d → IsDone v m.uid (message_id_of j m) m.raw w)

  module _ (j : Job) (cfg : Config) (v a : ℕ) (m : RawMessage) (arrives : Arrives v a m) where
    poll-Kept : (c : ℕ) (w : World) → Kept j v m c w → Kept j v m c (perform j cfg poll w)
    unfolding perform
    poll-Kept c w (d, at, le, done) = go (run-RunEnds j v d w arrives.honest at)
      where
        still : m.uid ≤ d → IsDone v m.uid (message_id_of j m) m.raw (run j w).1
        still h =
            IsDone-Grows v m.uid (message_id_of j m) m.raw _ _ (done h) (perform-Grows j cfg poll w)

        go : RunEnds j w.tick v d w (run j w).1 → Kept j v m c (run j w).1
        go (unchanged same) = (d, rw same at, le, still)
        go (reset (inl zero_v) set) = absurd (arrives.nonzero zero_v)
        go (reset (inr other) set) = absurd (other (sym (arrives.steady (w.tick + 5))))
        go (moved e here more passed within) = (
          e,
          here,
          omega arith,
          λ h. elim (Bool-cases (leb m.uid d)) [
            | inl old ↦ still (leb→le m.uid d old)
            | inr new ↦ elim (Bool-cases (ltb (w.tick + 6) a)) [
              | inl before ↦ absurd (
                  omega (
                    arith,
                    ltb→lt (w.tick + 6) a before,
                    lt_of_leb m.uid d new,
                    within m.uid (lt_of_leb m.uid d new)
                        (arrives.newest (w.tick + 6) (ltb→lt (w.tick + 6) a before)),
                  ))
              | inr after ↦
                  All-Mem _ m _ (arrives.stays (w.tick + 6) (le_of_ltb (w.tick + 6) a after)) passed
                    (lt_of_leb m.uid d new) h
            ]
          ],
        )

    digest-Kept : (c : ℕ) (w : World) → Kept j v m c w → Kept j v m c (perform j cfg digest w)
    unfolding perform
    digest-Kept c w (d, at, le, done) = (
      d,
      go (run_digest-DigestEnds cfg w),
      le,
      λ h.
          IsDone-Grows v m.uid (message_id_of j m) m.raw _ _ (done h)
            (perform-Grows j cfg digest w),
    )
      where
        go :
            DigestEnds cfg w (run_digest cfg w).1
            → cursor j.cfg.folder (run_digest cfg w).1.db ≡ ok (v, d)
        go (DigestEnds.unchanged same) = rw same at
        go (digested last end rows is_last found sent after) = rw (after, cursor-completed) at

    perform-Kept :
        (c : ℕ) (task : Task) (w : World) → Kept j v m c w → Kept j v m c (perform j cfg task w)
    perform-Kept c poll w = poll-Kept c w
    perform-Kept c digest w = digest-Kept c w

    pub serve-Kept :
        (c : ℕ) (tasks : List Task) (w : World)
        → Kept j v m c w
        → Kept j v m c (serve j cfg tasks w)
    unfolding serve
    serve-Kept c [] w k = k
    serve-Kept c (task ∷ tasks) w k = serve-Kept c tasks _ (perform-Kept c task w k)

module _ ⦃env : Env⦄ where
  -- Whatever fails in any sequence of polls and digests: if a message arrives above the stored cursor,
  -- with a UID above those before it, and stays in the mailbox, then the cursor afterwards, under the
  -- same UIDVALIDITY, is no lower, and it is below the message or the message is in the archive,
  -- unchanged, is reported by EmailExists and carries its \Seen flag. The UIDVALIDITY of the mailbox
  -- stays, and is not 0; a mailbox has different UIDs above 0, and its numbers are uint32.
  pub serve-NoLoss :
      (j : Job) (cfg : Config) (v a c : ℕ) (m : RawMessage) (tasks : List Task) (w : World)
      → Arrives v a m
      → cursor j.cfg.folder w.db ≡ ok (v, c)
      → c < m.uid
      → Kept j v m c (serve j cfg tasks w)
  serve-NoLoss j cfg v a c m tasks w arrives at above =
      serve-Kept j cfg v a m arrives c tasks w (c, at, omega arith, λ h. absurd (omega arith))
