-- ===== src/Scheduler/Jobs/History.antt =====
-- What holds after any sequence of jobs: an induction principle for the database, and what no job
-- undoes.
use mathlib.Core.Path.{fun_ext}
use suzie_filtering_system.Base.{
  text_eq, none, if◌then◌else◌, ℕ, Text, Bool, true, false, List, [], ◌∷◌, map, any, any-map, ◌==◌,
  ◌≡◌, refl, ap, ◌∙◌,
}
use suzie_filtering_system.Model.{Time, EmailRow}
use suzie_filtering_system.Tables.{Db, Value, Email, matches, select_exists, select_state}
use suzie_filtering_system.World.{World, Env, ok}
use suzie_filtering_system.World.Keeps.{Keeps, IsFrame, keeps_rules, Keeps-remote}
use suzie_filtering_system.Store.{insert_at, put_state, digest_key, read_time}
use suzie_filtering_system.Store.Keeps.{
  last_digest_at-Keeps, pending_for_digest-Keeps, complete_digest-Keeps,
}
use suzie_filtering_system.Store.Complete.{completed, completed_lem, after_digest, marked}
use suzie_filtering_system.Store.Pending.{pending}
use suzie_filtering_system.Digest.{View, render_html, render_text}
use suzie_filtering_system.Mailer.{send, deliver}
use suzie_filtering_system.Poll.{Job}
use suzie_filtering_system.Poll.Keeps.{run-Keeps}
use suzie_filtering_system.Poll.Growth.{Grows, Grows-IsFrame, run-Grows, db-link}
use suzie_filtering_system.Scheduler.{Config, row_id, window_start_at, send_digest, run_digest}
use suzie_filtering_system.Scheduler.Delivery.{
  DigestEnds, unchanged, digested, run_digest-DigestEnds,
}
use suzie_filtering_system.Scheduler.Jobs.{Task, poll, digest, perform, serve}

-- The archive and the flags are the same.
pub record SameDisk (u w : World) : Type 0 where
  pub files : w.files ≡ u.files
  pub seen : w.seen ≡ u.seen

pub SameDisk-IsFrame : IsFrame SameDisk
SameDisk-IsFrame = record {
  same = λ w. record { files = refl; seen = refl };
  trans = λ u v w g h. record { files = h.files ∙ g.files; seen = h.seen ∙ g.seen };
  tick = λ w. record { files = refl; seen = refl };
  undo = λ u v g. record { files = g.files; seen = g.seen };
}

module _ ⦃env : Env⦄ (cfg : Config) where
  send_digest-SameDisk : (view : View) → Keeps SameDisk (send_digest cfg view)
  unfolding send_digest send render_html render_text
  send_digest-SameDisk view =
      search
        (
          keeps_rules,
          SameDisk-IsFrame,
          Keeps-remote SameDisk-IsFrame (deliver _) (λ w. record { files = refl; seen = refl }),
        )
        depth 12

  run_digest-SameDisk : Keeps SameDisk (run_digest cfg)
  unfolding run_digest
  run_digest-SameDisk =
      search
        (
          keeps_rules,
          SameDisk-IsFrame,
          last_digest_at-Keeps,
          pending_for_digest-Keeps,
          send_digest-SameDisk,
          complete_digest-Keeps SameDisk-IsFrame (λ f w. record { files = refl; seen = refl }),
        )
        depth 12

matches-after_digest :
    (v u : ℕ) (m : Text) (ids : List ℕ) (at : Time) (r : Email)
    → matches v u m (after_digest ids at r) ≡ matches v u m r
unfolding matches
matches-after_digest v u m ids at r = go (any (λ id. r.id == id) ids)
  where
    go : (b : Bool) → matches v u m (if b then marked at r else r) ≡ matches v u m r
    go true = refl
    go false = refl

-- What EmailExists reports does not depend on the digests.
select_exists-completed :
    (v u : ℕ) (m : Text) (ids : List ℕ) (a b c : Time) (db : Db)
    → select_exists v u m (completed ids a b c db).emails ≡ select_exists v u m db.emails
unfolding select_exists
select_exists-completed v u m ids a b c db =
    ap (any (matches v u m)) (completed_lem ids a b c db).0
    ∙ any-map (matches v u m) (after_digest ids a) db.emails
    ∙ ap (λ (p : Email → Bool). any p db.emails) (fun_ext (matches-after_digest v u m ids a))

module _ ⦃env : Env⦄ (j : Job) (cfg : Config) where
  digest-Grows : (w : World) → Grows w (run_digest cfg w).1
  digest-Grows w = record {
    files = λ p raw h. rw disk.files h;
    emails = λ a b m h. emails (run_digest-DigestEnds cfg w) a b m h;
    seen = λ a b h. rw disk.seen h;
  }
    where
      disk : SameDisk w (run_digest cfg w).1
      disk = (run_digest-SameDisk cfg).at w

      emails :
          DigestEnds cfg w (run_digest cfg w).1
          → (a b : ℕ) (m : Text) → select_exists a b m w.db.emails ≡ true
          → select_exists a b m (run_digest cfg w).1.db.emails ≡ true
      emails (unchanged same) a b m h = rw same h
      emails (digested last end rows is_last found sent after) a b m h =
          rw (after, select_exists-completed a b m) h

  pub perform-Grows : (task : Task) (w : World) → Grows w (perform j cfg task w)
  unfolding perform
  perform-Grows poll w = run-Grows j w
  perform-Grows digest w = digest-Grows w

  -- Whatever fails in any sequence of polls and digests: no archived file is replaced or changed, every
  -- message that EmailExists reported before is reported after it, and no \Seen flag is lost.
  pub serve-Grows : (tasks : List Task) (w : World) → Grows w (serve j cfg tasks w)
  unfolding serve
  serve-Grows [] w = Grows-IsFrame.same w
  serve-Grows (task ∷ tasks) w =
      Grows-IsFrame.trans _ _ _ (perform-Grows task w) (serve-Grows tasks (perform j cfg task w))

  -- A property of the database that the statements of a poll and the completion of a digest keep holds
  -- after any sequence of jobs.
  module _ (I : Db → Type 0)
      (insert_I : (e : EmailRow)
        → e.digested_at ≡ none
        → (w : World) → I w.db
        → I (insert_at e w).1.db)
      (state_I : (key : Text) (v : Value)
        → text_eq key digest_key ≡ false
        → (db : Db) → I db
        → I (put_state key v db))
      (digest_I : (last end : Time) (db : Db)
        → read_time (select_state digest_key db.state) ≡ ok last
        → let start = window_start_at cfg end last in
          I db → I (completed (map row_id (pending start end db)) end start end db)) where
    abbrev Invariant : World → World → Type 0
    Invariant u w = I u.db → I w.db

    Invariant-IsFrame : IsFrame Invariant
    Invariant-IsFrame = record {
      same = λ w h. h;
      trans = λ u v w g h i. h (g i);
      tick = λ w h. h;
      undo = λ u v g h. h;
    }

    perform_holds : (task : Task) (w : World) → I w.db → I (perform j cfg task w).db
    unfolding perform
    perform_holds poll w i =
        (run-Keeps Invariant-IsFrame (λ target raw w i. rw db-link i)
            (λ key v h w. state_I key v h w.db) insert_I (λ v u w i. i) j).at
          w i
    perform_holds digest w i = go (run_digest-DigestEnds cfg w)
      where
        go : DigestEnds cfg w (run_digest cfg w).1 → I (run_digest cfg w).1.db
        go (unchanged same) = rw same i
        go (digested last end rows is_last found sent after) =
            rw (after, found) (digest_I last end w.db is_last i)

    pub serve_holds : (tasks : List Task) (w : World) → I w.db → I (serve j cfg tasks w).db
    unfolding serve
    serve_holds [] w i = i
    serve_holds (task ∷ tasks) w i =
        serve_holds tasks (perform j cfg task w) (perform_holds task w i)
