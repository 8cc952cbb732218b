-- ===== src/Poll/Live/Run.antt =====
-- A whole run where every call outside succeeds: it processes every new message.
use mathlib.Core.List.{Memᴰ}
use suzie_filtering_system.Base.{
  codes, ℕ, ◌+◌, ◌≤◌, ◌<◌, Text, Option, none, List, [], ◌∷◌, All, All-map, ◌≡◌, ◌≢◌, length, refl,
  sym, ap, ◌∙◌, subst, ◌⊎◌, inl, inr, arith, if◌then◌else◌,
}
use suzie_filtering_system.Decimal.{max_u32}
use suzie_filtering_system.Model.{RawMessage, FetchResult}
use suzie_filtering_system.World.{
  World, Env, done, Result, ok, err, Io, try, ◌>>=◌, wrap, label, intact,
}
use suzie_filtering_system.Imap.{fetch, sort_by_uid}
use suzie_filtering_system.Imap.Live.{fetch-Returns}
use suzie_filtering_system.Imap.Fetched.{Fetched, fetch-Hoare, from_uid}
use suzie_filtering_system.Store.{last_uid}
use suzie_filtering_system.Store.Cursor.{cursor, cursor_bounds, last_uid-Returns}
use suzie_filtering_system.Poll.{
  Job, RunResult, Outcome, round, process_all, after_round, add_outcome, or_return, process_batch,
  save_baseline, no_result, run,
}
use suzie_filtering_system.Poll.Growth.{Grows, process_all-Grows}
use suzie_filtering_system.Poll.Safety.{message_id_of}
use suzie_filtering_system.Poll.Progress.{IsDone, IsDone-Grows, round-Hoare}
use suzie_filtering_system.Poll.Live.{IsBlocked, round-Settles}
use suzie_filtering_system.Poll.NoLoss.{last_uid-Finds}
use suzie_filtering_system.Poll.NoLoss.Selected.{IsMailbox, filter-All_of, All-filter, All-Fresh}
use suzie_filtering_system.Poll.Batch.{sort_by_uid-All, All-sort_by_uid}

module _ ⦃env : Env⦄ (j : Job) (v : ℕ) where
  abbrev Blocked : RawMessage → World → Type 0
  Blocked m w = IsBlocked j m w

  abbrev Done : RawMessage → World → Type 0
  Done m w = IsDone v m.uid (message_id_of j m) m.raw w

  -- Some message of `all` has its names taken.
  abbrev IsStopped : List RawMessage → World → Type 0
  IsStopped all x = (m : RawMessage) × Memᴰ m all × Blocked m x

  -- A message of `all`, with a UID that fits.
  abbrev IsOf : List RawMessage → RawMessage → Type 0
  IsOf all m = (m.uid ≤ max_u32) × Memᴰ m all

  -- A batch returns and every message of it is done, or some message is stopped.
  abbrev Goes :
      List RawMessage → List RawMessage → Result (RunResult × Option Text) × World → Type 0
  Goes all ms (r, x) =
      (((s : RunResult) × (r ≡ ok (s, none))) × All (λ m. Done m x) ms) ⊎ IsStopped all x

  -- A run returns, and every message of the mailbox above `c` is done, or some message is stopped.
  abbrev pub Ran : ℕ → List RawMessage → Result (RunResult × Option Text) × World → Type 0
  Ran c ms (r, x) =
      (((s : RunResult) × (r ≡ ok (s, none))) × All (λ m. c < m.uid → Done m x) ms) ⊎ IsStopped ms x

  Blocked-Grows : (m : RawMessage) (u w : World) → Blocked m u → Grows u w → Blocked m w
  Blocked-Grows m u w (at, ((a, base, x), (b, other, y))) g =
      (at, ((a, g.files _ a base, x), (b, g.files _ b other, y)))

module _ ⦃env : Env⦄ (live : (n : ℕ) → env.reply n ≡ done) (j : Job) (v : ℕ)
    (steady : (n : ℕ) → (env.mailbox n).uid_validity ≡ v) (v_fits : v ≤ max_u32) where
  IsOf-self : (all : List RawMessage) → All (λ m. m.uid ≤ max_u32) all → All (IsOf j v all) all
  IsOf-self [] h = tt
  IsOf-self (m ∷ all) (fit, h) =
      ((fit, Memᴰ.head refl), All-map (λ n p. (p.0, Memᴰ.tail p.1)) all (IsOf-self all h))

  process_all-Goes :
      (all ms : List RawMessage) (r : RunResult) (w : World)
      → All (IsOf j v all) ms
      → Goes j v all ms (process_all j v ms r w)
  unfolding process_all try ◌>>=◌
  process_all-Goes all [] r w of = inl ((r, refl), tt)
  process_all-Goes all (m ∷ ms) r w of =
      go (round j v m w).0 refl (λ s. process_all-Goes all ms s (round j v m w).1 of.1)
    where
      go :
          (o : Result Outcome)
          → (round j v m w).0 ≡ o
          → ((s : RunResult) → Goes j v all ms (process_all j v ms s (round j v m w).1))
          → Goes j v all
              (m ∷ ms)
              (after_round r (λ p. process_all j v ms (add_outcome r p)) o (round j v m w).1)
      go (err e) k ih = elim ((round-Settles live v steady j m).at w tt) [
        | inl (a, ok_a, q) ↦ absurd (cc)
        | inr (x, failed, blocked) ↦ inr (m, of.0.1, blocked)
      ]
      go (ok p) k ih = elim (ih (add_outcome r p)) [
        | inl (returned, others) ↦ inl (
          returned,
          (
            IsDone-Grows v m.uid (message_id_of j m) m.raw _ _
                ((round-Hoare j v v_fits m of.0.0).at w tt p k)
                ((process_all-Grows j v ms (add_outcome r p)).at (round j v m w).1),
            others,
          ),
        )
        | inr stopped ↦ inr stopped
      ]

  sorted-Ran :
      (c : ℕ) (ms : List RawMessage) (r : RunResult) (w : World)
      → All (λ m. m.uid ≤ max_u32) ms
      → Ran j v c ms (process_all j v (sort_by_uid (sort_by_uid (from_uid (c + 1) ms))) r w)
  sorted-Ran c ms r w fits =
      let new = from_uid (c + 1) ms in
      let of =
        sort_by_uid-All (IsOf j v ms) _
          (sort_by_uid-All _ new (filter-All_of _ _ ms (IsOf-self ms fits))) in
      elim (process_all-Goes ms (sort_by_uid (sort_by_uid new)) r w of) [
        | inl (returned, passed) ↦ inl (
          returned,
          All-map (λ m g gt. g (ground arith)) ms
              (All-filter _ _ ms
                (All-sort_by_uid _ new (All-sort_by_uid _ (sort_by_uid new) passed))),
        )
        | inr stopped ↦ inr stopped
      ]

  -- The messages of the batch are those of the mailbox above `c`, in order.
  batch-Ran :
      (f : FetchResult) (c : ℕ) (ms : List RawMessage) (w : World)
      → All (λ m. m.uid ≤ max_u32) ms
      → f.uid_validity ≡ v
      → f.messages ≡ sort_by_uid (from_uid (c + 1) ms)
      → Ran j v c ms (process_batch j f w)
  unfolding process_batch
  batch-Ran f c ms w fits same sorted =
      let r : RunResult = record no_result { fetched = length f.messages } in
      let e : process_batch j f w
          ≡ process_all j v (sort_by_uid (sort_by_uid (from_uid (c + 1) ms))) r w =
        ap (λ (u : ℕ). process_all j u (sort_by_uid f.messages) r w) same
        ∙ ap (λ (l : List RawMessage). process_all j v (sort_by_uid l) r w) sorted in
      subst (Ran j v c ms) (sym e) (sorted-Ran c ms r w fits)

  full-Ran :
      (f : FetchResult) (c : ℕ) (ms : List RawMessage) (w : World)
      → All (λ m. m.uid ≤ max_u32) ms
      → f.uid_validity ≡ v
      → c ≡ max_u32
      → f.messages ≡ []
      → Ran j v c ms (process_batch j f w)
  unfolding process_batch process_all sort_by_uid
  full-Ran f c ms w fits same top empty =
      let r : RunResult = record no_result { fetched = length f.messages } in
      let e : process_batch j f w ≡ (ok (r, none), w) =
        ap (λ (l : List RawMessage). process_all j f.uid_validity (sort_by_uid l) r w) empty in
      inl (
        (r, ap (λ (x : Result (RunResult × Option Text) × World). x.0) e),
        All-map (λ m fit gt. absurd (omega arith)) ms fits,
      )

  Fetched-Ran :
      (t c : ℕ) (f : FetchResult) (w : World)
      → All (λ m. m.uid ≤ max_u32) (env.mailbox (t + 4)).messages
      → Fetched t v c f
      → v ≢ 0
      → Ran j v c
          (env.mailbox (t + 4)).messages
          ((if f.baseline then save_baseline j f else process_batch j f) w)
  Fetched-Ran t c f w fits (Fetched.baseline b same last empty (inl zero_v)) nonzero =
      absurd (nonzero zero_v)
  Fetched-Ran t c f w fits (Fetched.baseline b same last empty (inr other)) nonzero =
      absurd (other (sym (same ∙ steady (t + 3))))
  Fetched-Ran t c f w fits (Fetched.full b same top empty) nonzero =
      subst
        (λ x.
          Ran j v c (env.mailbox (t + 4)).messages
            ((if x then save_baseline j f else process_batch j f) w))
        (sym b) (full-Ran f c _ w fits same top empty)
  Fetched-Ran t c f w fits (Fetched.above b same sorted) nonzero =
      subst
        (λ x.
          Ran j v c (env.mailbox (t + 4)).messages
            ((if x then save_baseline j f else process_batch j f) w))
        (sym b) (batch-Ran f c _ w fits same sorted)

  fetch-Settled :
      (c : ℕ) (whole : (n uid : ℕ) → env.delivery n uid ≡ intact) (t : ℕ) (w : World)
      → w.tick ≡ t
      → (f : FetchResult) × ((fetch v c w).0 ≡ ok f) × Fetched t v c f
  fetch-Settled c whole t w tick =
      let (f, e, q) = (fetch-Returns live whole v c).at w tt in
      (f, e, (fetch-Hoare t v c).at w tick f e)

  or_return-ok :
      {A : Type 0} (m : Io A) (k : A → Io (RunResult × Option Text)) (w : World) (a : A)
      → (m w).0 ≡ ok a
      → or_return m k w ≡ k a (m w).1
  unfolding try ◌>>=◌
  or_return-ok m k w a e = rw e refl

  steady-Ran :
      (c : ℕ) (w : World)
      → ((n uid : ℕ) → env.delivery n uid ≡ intact)
      → ((n : ℕ) → IsMailbox (env.mailbox n))
      → v ≢ 0
      → cursor j.cfg.folder w.db ≡ ok (v, c)
      → Ran j v c (env.mailbox (w.tick + 2 + 4)).messages (run j w)
  unfolding run wrap
  steady-Ran c w whole honest nonzero at =
      let (p, read) = last_uid-Returns live j.cfg.folder v c w at in
      let (same, still, tick) = (last_uid-Finds j w.tick v c honest).at w (at, refl) p read in
      let u = (last_uid j.cfg.folder w).1 in
      let (f, got, fetched) = fetch-Settled c whole (w.tick + 2) u tick in
      let fits = All-Fresh 0 _ (honest (w.tick + 2 + 4)).distinct in
      let k : FetchResult → Io (RunResult × Option Text) =
        λ f. if f.baseline then save_baseline j f else process_batch j f in
      let goes : run j w ≡ k f (fetch v c u).1 =
        or_return-ok (wrap (codes "read poll cursor: ") (last_uid j.cfg.folder))
          (λ q. or_return (fetch q.0 q.1) k) w p (ap (label (codes "read poll cursor: ")) read)
        ∙ ap (λ (q : ℕ × ℕ). or_return (fetch q.0 q.1) k u) same
        ∙ or_return-ok (fetch v c) k u f got in
      subst (Ran j v c (env.mailbox (w.tick + 2 + 4)).messages) (sym goes)
        (Fetched-Ran (w.tick + 2) c f (fetch v c u).1 fits fetched nonzero)

-- Where every call outside succeeds, every body is delivered whole, and the mailbox keeps its
-- UIDVALIDITY, which is not 0 and is the one of the stored cursor `c`: the run returns no error and
-- every message above `c` that the mailbox held when it was fetched is in the archive, unchanged, is
-- reported by EmailExists and carries its \Seen flag; or some message of the mailbox has both of its
-- names in the archive taken by files with other contents, for some time of its receipt. A mailbox
-- has different UIDs above 0, and its numbers are uint32.
pub run-Ran :
    ⦃env : Env⦄ (j : Job) (v c : ℕ) (w : World)
    → ((n : ℕ) → env.reply n ≡ done)
    → ((n uid : ℕ) → env.delivery n uid ≡ intact)
    → ((n : ℕ) → IsMailbox (env.mailbox n))
    → ((n : ℕ) → (env.mailbox n).uid_validity ≡ v)
    → v ≢ 0
    → cursor j.cfg.folder w.db ≡ ok (v, c)
    → Ran j v c (env.mailbox (w.tick + 6)).messages (run j w)
run-Ran ⦃env = env⦄ j v c w live whole honest steady nonzero at =
    let later : w.tick + 2 + 4 ≡ w.tick + 6 = omega arith in
    subst (λ t. Ran j v c (env.mailbox t).messages (run j w)) later
      (steady-Ran live j v steady (cursor_bounds j.cfg.folder v c w.db at).0 c w whole honest
        nonzero at)
