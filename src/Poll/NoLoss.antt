-- ===== src/Poll/NoLoss.antt =====
-- A whole run: every message of the mailbox that the cursor passes is archived, reported by
-- EmailExists and flagged.
pub mod Selected
use suzie_filtering_system.Base.{
  ℕ, ◌+◌, ◌≤◌, ◌<◌, Bool, true, false, Option, List, [], ◌∷◌, ◌==◌, ◌≡◌, ◌≢◌, refl, sym, ap, ◌∙◌,
  subst, ◌⊎◌, inl, inr, arith, any, filter, Text, All, All-map, leb, Bool-cases, if◌then◌else◌,
}
use suzie_filtering_system.Decimal.{max_u32}
use suzie_filtering_system.Model.{RawMessage, FetchResult}
use suzie_filtering_system.World.{
  World, Env, Mailbox, Result, ok, err, Io, pure, try, label, wrap, continue, ◌>>=◌,
}
use suzie_filtering_system.World.Keeps.{Keeps, Keeps-wrap, Keeps-try, SameDb, SameDb-IsFrame}
use suzie_filtering_system.World.Hoare.{Hoare, Hoare-wrap, Hoare-keep, AtTick, Leads, Leads-bind}
use suzie_filtering_system.Store.{last_uid, set_last_uid}
use suzie_filtering_system.Store.Cursor.{
  cursor, cursor-moved, cursor_bounds, last_uid-finds, last_uid-AtTick, set_last_uid-AllOrNothing,
}
use suzie_filtering_system.Store.Keeps.{last_uid-Keeps}
use suzie_filtering_system.Imap.{fetch, latest_uid, sort_by_uid}
use suzie_filtering_system.Imap.Keeps.{fetch-Keeps}
use suzie_filtering_system.Imap.Fetched.{Fetched, fetch-Hoare, from_uid}
use suzie_filtering_system.Poll.{
  Job, RunResult, or_return, unless_error, save_baseline, process_batch, run,
}
use suzie_filtering_system.Poll.Safety.{message_id_of}
use suzie_filtering_system.Poll.Progress.{IsDone}
use suzie_filtering_system.Poll.NoSkip.{Within, Ascending}
use suzie_filtering_system.Poll.Batch.{
  Fresh, same_uid, sort_by_uid-Ascending, sort_by_uid-All, All-sort_by_uid, process_batch-Sound,
}
use suzie_filtering_system.Poll.NoLoss.Selected.{
  IsMailbox, filter-All_of, any-filter, All-filter, Fresh-from_uid, any-Ascending, Fresh-Ascending,
  latest_fits, All-Fresh,
}

try-finds :
    {A : Type 0} {P : World → Type 0} (Q : A → World → Type 0) (m : Io A)
    → Hoare P m Q
    → Hoare P (try m) (λ r w. (a : A) → r ≡ ok a → Q a w)
unfolding try
try-finds Q m h = record { at = λ w p r e a k. h.at w p a (cc) }

or_return_world :
    {A : Type 0} (msg : Text) (m : Io A) (x : RunResult × Option Text) (w : World)
    → (or_return (wrap msg m) (λ _. pure x) w).1 ≡ (m w).1
unfolding try wrap ◌>>=◌
or_return_world {A} msg m x w = go (m w).0
  where
    go :
        (r : Result A)
        → (continue (ok (label msg r)) (unless_error (λ _. pure x)) (m w).1).1 ≡ (m w).1
    go (ok a) = refl
    go (err e) = refl

-- What a run may do between two worlds: nothing to the database; set the cursor to a baseline, where
-- no UIDVALIDITY was known or another one; or move the cursor up, and then every message that the
-- mailbox had above the old cursor and up to the new one is archived, reported and flagged, and the
-- cursor is no higher than the last of the mailbox, or where it was. `t` calls
-- were made before; the run selects the mailbox by its sixth call, and fetches by its seventh.
pub data RunEnds ⦃env : Env⦄ (j : Job) (t v c : ℕ) (u w : World) : Type 0 where
  unchanged : w.db ≡ u.db → RunEnds j t v c u w
  reset :
      (v ≡ 0) ⊎ (v ≢ (env.mailbox (t + 5)).uid_validity)
      → cursor j.cfg.folder w.db
        ≡ ok ((env.mailbox (t + 5)).uid_validity, latest_uid (env.mailbox (t + 5)).uid_next)
      → RunEnds j t v c u w
  moved :
      (d : ℕ)
      → cursor j.cfg.folder w.db ≡ ok (v, d)
      → c ≤ d
      → All
          (λ m. c < m.uid → m.uid ≤ d → IsDone v m.uid (message_id_of j m) m.raw w)
          (env.mailbox (t + 6)).messages
      → Within j v c d (env.mailbox (t + 6)).messages
      → RunEnds j t v c u w

module _ ⦃env : Env⦄ (j : Job) (t v c : ℕ) (honest : (n : ℕ) → IsMailbox (env.mailbox n)) where
  weaken : (u w : World) → SameDb u w → RunEnds j t v c u w
  weaken u w = unchanged

  compose : (u x w : World) → SameDb u x → RunEnds j t v c x w → RunEnds j t v c u w
  compose u x w h (unchanged g) = unchanged (g ∙ h)
  compose u x w h (reset other at) = reset other at
  compose u x w h (moved d at le done within) = moved d at le done within

  or_return-Ends :
      {A : Type 0} {P : World → Type 0} (Q : A → World → Type 0) (m : Io A)
      (k : A → Io (RunResult × Option Text))
      → Keeps SameDb m
      → Hoare P m Q
      → ((a : A) → Leads (Q a) (RunEnds j t v c) (k a))
      → Leads P (RunEnds j t v c) (or_return m k)
  or_return-Ends {A} Q m k same finds later =
      Leads-bind weaken compose (λ r w. (a : A) → r ≡ ok a → Q a w) (try m) (unless_error k)
        (Keeps-try SameDb-IsFrame m same) (try-finds Q m finds) go
    where
      go :
          (r : Result A)
          → Leads (λ w. (a : A) → r ≡ ok a → Q a w) (RunEnds j t v c) (unless_error k r)
      go (ok a) = record { at = λ w p. (later a).at w (p a refl) }
      go (err e) = record { at = λ w p. unchanged refl }

  -- the cursor of the baseline is set, or nothing is
  save_baseline-Ends :
      (f : FetchResult) (w : World)
      → f.uid_validity ≡ (env.mailbox (t + 5)).uid_validity
      → f.last_uid ≡ latest_uid (env.mailbox (t + 5)).uid_next
      → (v ≡ 0) ⊎ (v ≢ f.uid_validity)
      → RunEnds j t v c w (save_baseline j f w).1
  unfolding save_baseline
  save_baseline-Ends f w same last other =
      subst (λ (x : World). RunEnds j t v c w x)
        (sym (or_return_world _ (set_last_uid j.cfg.folder f.uid_validity f.last_uid) _ w))
        (elim (set_last_uid-AllOrNothing j.cfg.folder f.uid_validity f.last_uid w) [
          | inl (a, e, d) ↦
              let set =
                ap (cursor j.cfg.folder) d
                ∙ cursor-moved j.cfg.folder f.uid_validity f.last_uid w.db
                    (subst (λ x. x ≤ max_u32) (sym same) (honest (t + 5)).validity_fits)
                    (subst (λ x. x ≤ max_u32) (sym last)
                      (latest_fits (env.mailbox (t + 5)).uid_next (honest (t + 5)).next_fits)) in
              reset (subst (λ x. (v ≡ 0) ⊎ (v ≢ x)) same other) (
                set
                ∙ ap (λ (x : ℕ). ok (x, f.last_uid)) same
                ∙ ap (λ (y : ℕ). ok ((env.mailbox (t + 5)).uid_validity, y)) last)
          | inr (e, k, d) ↦ unchanged d
        ])

  process_batch-Ends :
      (f : FetchResult) (w : World)
      → f.uid_validity ≡ v
      → f.messages ≡ sort_by_uid (from_uid (c + 1) (env.mailbox (t + 6)).messages)
      → cursor j.cfg.folder w.db ≡ ok (v, c)
      → RunEnds j t v c w (process_batch j f w).1
  process_batch-Ends f w same sorted at =
      let ms : List RawMessage = (env.mailbox (t + 6)).messages in
      let newer = Fresh-from_uid c ms (honest (t + 6)).distinct in
      let fresh = Fresh-Ascending c _ (sort_by_uid-Ascending c _ newer) in
      let (d, here, le, passed, within) =
        process_batch-Sound j f c w (rw same (cursor_bounds j.cfg.folder v c w.db at).0)
          (subst (Fresh c) (sym sorted) fresh)
          (subst (λ x. cursor j.cfg.folder w.db ≡ ok (x, c)) (sym same) at) in
      let kept =
        subst
          (λ x.
            All (λ m. m.uid ≤ d → IsDone x m.uid (message_id_of j m) m.raw (process_batch j f w).1)
              f.messages)
          same passed in
      let done = All-sort_by_uid _ _ (
        subst
          (All (λ m. m.uid ≤ d → IsDone v m.uid (message_id_of j m) m.raw (process_batch j f w).1))
          sorted kept) in
      moved d (subst (λ x. cursor j.cfg.folder (process_batch j f w).1.db ≡ ok (x, d)) same here) le
        (All-map (λ m g gt. g (ground arith)) ms (All-filter _ _ ms done))
        (λ k h all. within k h (
          subst (All (λ m. m.uid < k)) (sym sorted)
            (sort_by_uid-All (λ m. m.uid < k) _ (filter-All_of _ _ ms all))))

  full-Ends :
      (f : FetchResult) (w : World)
      → f.uid_validity ≡ v
      → c ≡ max_u32
      → f.messages ≡ []
      → cursor j.cfg.folder w.db ≡ ok (v, c)
      → RunEnds j t v c w (process_batch j f w).1
  full-Ends f w same top empty at =
      let (d, here, le, passed, within) =
        process_batch-Sound j f c w (rw same (cursor_bounds j.cfg.folder v c w.db at).0)
          (subst (Fresh c) (sym empty) tt)
          (subst (λ x. cursor j.cfg.folder w.db ≡ ok (x, c)) (sym same) at) in
      moved d (subst (λ x. cursor j.cfg.folder (process_batch j f w).1.db ≡ ok (x, d)) same here) le
        (All-map (λ m fits gt. absurd (omega arith)) (env.mailbox (t + 6)).messages
          (All-Fresh 0 (env.mailbox (t + 6)).messages (honest (t + 6)).distinct))
        (λ k h all. within k h (subst (All (λ m. m.uid < k)) (sym empty) tt))

  after_fetch-Ends :
      (f : FetchResult)
      → Leads
          (λ w. (cursor j.cfg.folder w.db ≡ ok (v, c)) × Fetched (t + 2) v c f)
          (RunEnds j t v c)
          (if f.baseline then save_baseline j f else process_batch j f)
  after_fetch-Ends f = record { at = λ w p. go w p.0 p.1 }
    where
      selected : t + 2 + 3 ≡ t + 5
      selected = omega arith

      fetched : t + 2 + 4 ≡ t + 6
      fetched = omega arith

      chosen :
          (w : World) (b : Bool)
          → f.baseline ≡ b
          → RunEnds j t v c w ((if b then save_baseline j f else process_batch j f) w).1
          → RunEnds j t v c w ((if f.baseline then save_baseline j f else process_batch j f) w).1
      chosen w b e h =
          subst (λ x. RunEnds j t v c w ((if x then save_baseline j f else process_batch j f) w).1)
            (sym e) h

      go :
          (w : World)
          → cursor j.cfg.folder w.db ≡ ok (v, c)
          → Fetched (t + 2) v c f
          → RunEnds j t v c w ((if f.baseline then save_baseline j f else process_batch j f) w).1
      go w at (Fetched.baseline b same last empty other) = chosen w true b (
          save_baseline-Ends f w
            (subst (λ n. f.uid_validity ≡ (env.mailbox n).uid_validity) selected same)
            (subst (λ n. f.last_uid ≡ latest_uid (env.mailbox n).uid_next) selected last) other)
      go w at (Fetched.full b same top empty) = chosen w false b (full-Ends f w same top empty at)
      go w at (Fetched.above b same sorted) = chosen w false b (
          process_batch-Ends f w same
            (subst (λ n. f.messages ≡ sort_by_uid (from_uid (c + 1) (env.mailbox n).messages))
              fetched sorted)
            at)

  fetch-Ends :
      Leads
        (λ w. (cursor j.cfg.folder w.db ≡ ok (v, c)) × AtTick (t + 2) w)
        (RunEnds j t v c)
        (or_return (fetch v c) (λ f. if f.baseline then save_baseline j f else process_batch j f))
  fetch-Ends =
      or_return-Ends (λ f w. (cursor j.cfg.folder w.db ≡ ok (v, c)) × Fetched (t + 2) v c f)
        (fetch v c) _ (fetch-Keeps SameDb-IsFrame v c)
        (Hoare-keep {I = λ w. cursor j.cfg.folder w.db ≡ ok (v, c)} (fetch v c)
          (fetch-Keeps SameDb-IsFrame v c) (λ x y e d. rw d e) (fetch-Hoare (t + 2) v c))
        after_fetch-Ends

  pub last_uid-Finds :
      Hoare
        (λ w. (cursor j.cfg.folder w.db ≡ ok (v, c)) × AtTick t w)
        (last_uid j.cfg.folder)
        (λ p w. (p ≡ (v, c)) × (cursor j.cfg.folder w.db ≡ ok (v, c)) × AtTick (t + 2) w)
  last_uid-Finds = record {
    at = λ w (at, tick) p e.
        let found = (last_uid-finds j.cfg.folder).at w tt p e in
        let still : cursor j.cfg.folder (last_uid j.cfg.folder w).1.db ≡ ok (v, c) =
          rw ((last_uid-Keeps SameDb-IsFrame j.cfg.folder).at w) at in
        (cc, still, (last_uid-AtTick j.cfg.folder t).at w tick p e);
  }

  pub run-Leads :
      Leads (λ w. (cursor j.cfg.folder w.db ≡ ok (v, c)) × AtTick t w) (RunEnds j t v c) (run j)
  unfolding run
  run-Leads =
      or_return-Ends
        (λ p w. (p ≡ (v, c)) × (cursor j.cfg.folder w.db ≡ ok (v, c)) × AtTick (t + 2) w) _ _
        (Keeps-wrap SameDb-IsFrame _ _ (last_uid-Keeps SameDb-IsFrame j.cfg.folder))
        (Hoare-wrap _ _ last_uid-Finds)
        (λ p. record {
          at = λ w (e, at, tick).
              subst
                (λ (q : ℕ × ℕ).
                  RunEnds j t v c w
                    (or_return (fetch q.0 q.1)
                      (λ f. if f.baseline then save_baseline j f else process_batch j f) w).1)
                (sym e) (fetch-Ends.at w (at, tick));
        })

module _ ⦃env : Env⦄ where
  -- Whatever fails, and wherever a run stops, if the stored cursor is `c` under the UIDVALIDITY
  -- `v`: the run leaves the database as it was; or it sets the cursor to the last UID of the
  -- mailbox that it selected, whose UIDVALIDITY is another one (or `v` is 0); or the cursor keeps
  -- its UIDVALIDITY and moves no lower, and every message that the mailbox held when it was
  -- fetched, with a UID above `c` and up to the new cursor, is in the archive, unchanged, is
  -- reported by EmailExists and carries its \Seen flag, and the cursor is no higher than the last
  -- message of the mailbox, or where it was. A mailbox has different UIDs above 0, and its numbers
  -- are uint32.
  pub run-RunEnds :
      (j : Job) (v c : ℕ) (w : World)
      → ((n : ℕ) → IsMailbox (env.mailbox n))
      → cursor j.cfg.folder w.db ≡ ok (v, c)
      → RunEnds j w.tick v c w (run j w).1
  run-RunEnds j v c w honest at = (run-Leads j w.tick v c honest).at w (at, refl)
