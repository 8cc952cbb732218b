-- ===== src/Poll/NoSkip.antt =====
-- The cursor never passes a message that is not archived, reported by EmailExists and flagged, so that
-- a restart, which fetches from the cursor on, loses none.
use suzie_filtering_system.Base.{ℕ, ◌≤◌, ◌<◌, List, [], ◌∷◌, ◌≡◌, refl, ◌∙◌, inl, inr, arith, All}
use suzie_filtering_system.Decimal.{max_u32}
use suzie_filtering_system.Model.{RawMessage}
use suzie_filtering_system.World.{World, Env, Result, ok, err, try, ◌>>=◌}
use suzie_filtering_system.Store.Cursor.{cursor}
use suzie_filtering_system.Poll.{
  Job, RunResult, Outcome, round, process_all, after_round, add_outcome,
}
use suzie_filtering_system.Poll.Growth.{process_all-Grows}
use suzie_filtering_system.Poll.Acknowledged.{Acked}
use suzie_filtering_system.Poll.Safety.{message_id_of, round-Acked}
use suzie_filtering_system.Poll.Progress.{IsDone, IsDone-Grows, round-Hoare}

-- UIDs that rise from above `c`, in the range of a uint32: what a fetch from the cursor `c` returns.
abbrev pub Ascending : ℕ → List RawMessage → Type 0
Ascending c [] = Unit
Ascending c (m ∷ ms) = (c < m.uid) × (m.uid ≤ max_u32) × Ascending m.uid ms

Ascending-below : (c d : ℕ) (ms : List RawMessage) → c ≤ d → Ascending d ms → Ascending c ms
Ascending-below c d [] h a = tt
Ascending-below c d (m ∷ ms) h (lt, fits, rest) = (omega arith, fits, rest)

module _ ⦃env : Env⦄ (j : Job) (v : ℕ) where
  -- Every message up to `c` is done.
  abbrev pub Passed : ℕ → World → List RawMessage → Type 0
  Passed c w = All (λ m. m.uid ≤ c → IsDone v m.uid (message_id_of j m) m.raw w)

  Passed-none :
      (c d : ℕ) (w : World) (ms : List RawMessage) → c ≤ d → Ascending d ms → Passed c w ms
  Passed-none c d w [] h a = tt
  Passed-none c d w (m ∷ ms) h (lt, fits, rest) =
      (λ le. absurd (omega arith), Passed-none c m.uid w ms (omega arith) rest)

  -- What is above `c` and all the messages is above `d`.
  abbrev pub Within : ℕ → ℕ → List RawMessage → Type 0
  Within c d ms = (k : ℕ) → c < k → All (λ m. m.uid < k) ms → d < k

  -- The cursor stands at or above `c`, and all that it passed is done; and no higher than `c` or the
  -- last of the messages.
  abbrev pub Sound : ℕ → World → List RawMessage → Type 0
  Sound c w ms =
      (d : ℕ) × (cursor j.cfg.folder w.db ≡ ok (v, d)) × (c ≤ d) × Passed d w ms × Within c d ms

  module _ (v_fits : v ≤ max_u32) where
    stopped :
        (c : ℕ) (w x : World) (m : RawMessage) (ms : List RawMessage)
        → Ascending c (m ∷ ms)
        → cursor j.cfg.folder w.db ≡ ok (v, c)
        → Acked j.cfg.folder v m.uid (message_id_of j m) m.raw w x
        → Sound c x (m ∷ ms)
    stopped c w x m ms (lt, fits, rest) at a = elim a.moves [
      | inl same ↦ (
        c,
        same ∙ at,
        omega arith,
        (λ le. absurd (omega arith), Passed-none c m.uid x ms (omega arith) rest),
        λ k h below. h,
      )
      | inr (here, flag, safe) ↦ (
        m.uid,
        here,
        omega arith,
        (
          λ le. record { safe = safe; flagged = flag },
          Passed-none m.uid m.uid x ms (omega arith) rest,
        ),
        λ k h below. below.0,
      )
    ]

    -- where the loop goes on from, after a message that is done
    reached :
        (c : ℕ) (w x : World) (m : RawMessage)
        → c < m.uid
        → cursor j.cfg.folder w.db ≡ ok (v, c)
        → Acked j.cfg.folder v m.uid (message_id_of j m) m.raw w x
        → (d : ℕ) × (cursor j.cfg.folder x.db ≡ ok (v, d)) × (c ≤ d) × (d ≤ m.uid)
    reached c w x m lt at a = elim a.moves [
      | inl same ↦ (c, same ∙ at, omega arith, omega arith)
      | inr (here, flag, safe) ↦ (m.uid, here, omega arith, omega arith)
    ]

    -- Whatever fails, and wherever the loop stops: if the messages rise from above the cursor, then
    -- the cursor afterwards is no lower, under the same UIDVALIDITY, and every message of the batch
    -- up to it is in the archive, unchanged, is reported by EmailExists and carries its \Seen flag;
    -- and it is no higher than the last of them, or where it was. UIDs and the UIDVALIDITY are in
    -- the range of a uint32.
    pub process_all-Sound :
        (ms : List RawMessage) (c : ℕ) (r : RunResult) (w : World)
        → Ascending c ms
        → cursor j.cfg.folder w.db ≡ ok (v, c)
        → Sound c (process_all j v ms r w).1 ms
    unfolding process_all try ◌>>=◌
    process_all-Sound [] c r w a at = (c, at, omega arith, tt, λ k h all. h)
    process_all-Sound (m ∷ ms) c r w (lt, fits, rest) at = go (round j v m w).0 refl (λ s.
        let (d, here, above, below) =
          reached c w (round j v m w).1 m lt at (round-Acked j v m w v_fits fits) in
        widen c d m ms (process_all j v ms s (round j v m w).1).1 above below
          (process_all-Sound ms d s (round j v m w).1 (Ascending-below d m.uid ms below rest) here))
      where
        widen :
            (c d : ℕ) (m : RawMessage) (ms : List RawMessage) (x : World)
            → c ≤ d
            → d ≤ m.uid
            → Sound d x ms
            → (e : ℕ) × (cursor j.cfg.folder x.db ≡ ok (v, e))
              × (c ≤ e)
              × Passed e x ms
              × Within c e (m ∷ ms)
        widen c d m ms x le below (e, at, above, passed, within) =
            (e, at, omega arith, passed, λ k h all. within k (omega (arith, all.0)) all.1)

        go :
            (o : Result Outcome)
            → (round j v m w).0 ≡ o
            → ((s : RunResult)
                → let x = (process_all j v ms s (round j v m w).1).1 in
                  (e : ℕ) × (cursor j.cfg.folder x.db ≡ ok (v, e))
                  × (c ≤ e)
                  × Passed e x ms
                  × Within c e (m ∷ ms))
            → Sound c
                (after_round r (λ p. process_all j v ms (add_outcome r p)) o (round j v m w).1).1
                (m ∷ ms)
        go (err e) k ih = stopped c w _ m ms (lt, fits, rest) at (round-Acked j v m w v_fits fits)
        go (ok p) k ih =
            let (d, here, above, passed, within) = ih (add_outcome r p) in
            (
              d,
              here,
              above,
              (
                λ le.
                    IsDone-Grows v m.uid (message_id_of j m) m.raw _ _
                      ((round-Hoare j v v_fits m fits).at w tt p k)
                      ((process_all-Grows j v ms (add_outcome r p)).at (round j v m w).1),
                passed,
              ),
              within,
            )
