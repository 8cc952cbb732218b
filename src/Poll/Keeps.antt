-- ===== src/Poll/Keeps.antt =====
-- The pipeline touches the world by four effects: a link in the archive, a row of `state`, a row of
-- `emails` and a \Seen flag. What these keep, a whole run keeps, wherever it stops.
use suzie_filtering_system.Base.{
  ℕ, Text, Option, none, some, List, [], ◌∷◌, not, text_eq, false, ◌≡◌, refl,
}
use suzie_filtering_system.Model.{Time, EmailRow, RawMessage, Parsed, FetchResult}
use suzie_filtering_system.Tables.{Value}
use suzie_filtering_system.World.{World, Env, Io, pure, ◌>>=◌, Result, ok, err, change}
use suzie_filtering_system.World.Keeps.{
  Keeps, IsFrame, keeps_rules, Keeps-bind, Keeps-try, Keeps-wrap, Keeps-pure, Keeps-if,
}
use suzie_filtering_system.World.Hoare.{
  Hoare, Hoare-pure, Hoare-if, Hoare-skip, Always, Keeps-bind_where,
}
use suzie_filtering_system.Llm.{summarize}
use suzie_filtering_system.Store.{put_state, insert_at, digest_key}
use suzie_filtering_system.Store.Keeps.{
  last_uid-Keeps, email_exists-Keeps, set_last_uid-Keeps, insert_email-Keeps,
}
use suzie_filtering_system.Imap.{add_seen}
use suzie_filtering_system.Imap.Keeps.{fetch-Keeps, mark_seen-Keeps}
use suzie_filtering_system.Archive.{link}
use suzie_filtering_system.Archive.Keeps.{write-Keeps}
use suzie_filtering_system.Llm.Keeps.{summarize-Keeps}
use suzie_filtering_system.Poll.{
  Job, RunResult, Outcome, new_row, in_scope, llm_input, without_summary, with_summary, fill_row,
  acknowledge, process_new, process_parsed, process_one, round, process_all, after_round,
  add_outcome, unless_error, or_return, save_baseline, process_batch, run,
}

module _ {R : World → World → Type 0} (frame : IsFrame R) ⦃env : Env⦄ where
  pub fill_row-Keeps :
      (j : Job) (parsed : Parsed) (e : Option Text) (row : EmailRow)
      → Keeps R (fill_row j parsed e row)
  unfolding fill_row
  fill_row-Keeps j parsed (some e) row = search keeps_rules
  fill_row-Keeps j parsed none row = search (keeps_rules, summarize-Keeps)

  unless_error-Keeps :
      {A : Type 0} (k : A → Io (RunResult × Option Text)) (r : Result A)
      → ((a : A) → Keeps R (k a))
      → Keeps R (unless_error k r)
  unless_error-Keeps k (ok a) h = h a
  unless_error-Keeps k (err e) h = search keeps_rules

  or_return-Keeps :
      {A : Type 0} (m : Io A) (k : A → Io (RunResult × Option Text))
      → Keeps R m
      → ((a : A) → Keeps R (k a))
      → Keeps R (or_return m k)
  or_return-Keeps m k km kk =
      Keeps-bind frame _ _ (Keeps-try frame m km) (λ r. unless_error-Keeps k r kk)

module _ ⦃env : Env⦄ where
  fill_row-Undigested :
      (j : Job) (parsed : Parsed) (e : Option Text) (row : EmailRow)
      → row.digested_at ≡ none
      → Hoare Always (fill_row j parsed e row) (λ r w. r.0.digested_at ≡ none)
  unfolding fill_row
  fill_row-Undigested j parsed (some e) row h = Hoare-pure _ (λ w p. h)
  fill_row-Undigested j parsed none row h =
      Hoare-if (not (in_scope j parsed.sender.addr)) (pure (without_summary row))
        (do
          (summary, debug) ← summarize j.llm (llm_input j parsed)
          pure (with_summary summary row))
        (λ _. Hoare-pure (without_summary row) (λ w p. h))
        (λ _.
          Hoare-skip (summarize j.llm (llm_input j parsed)) _
            (λ s. Hoare-pure (with_summary s.0 row) (λ w p. h)))

-- `state_R` is asked for the keys of the cursor, and `insert_R` for rows that no digest has listed: a
-- poll writes no others.
module _ {R : World → World → Type 0} (frame : IsFrame R)
    (link_R : (path raw : Text) (w : World) → R w (link path raw w).1)
    (state_R : (key : Text) (v : Value)
      → text_eq key digest_key ≡ false
      → (w : World) → R w (change (put_state key v) w).1)
    (insert_R : (e : EmailRow) → e.digested_at ≡ none → (w : World) → R w (insert_at e w).1)
    (seen_R : (v u : ℕ) (w : World) → R w (add_seen v u w)) ⦃env : Env⦄ where
  acknowledge-Keeps : (j : Job) (v u : ℕ) → Keeps R (acknowledge j v u)
  unfolding acknowledge
  acknowledge-Keeps j v u =
      search (keeps_rules, mark_seen-Keeps frame seen_R, set_last_uid-Keeps frame state_R)

  process_new-Keeps :
      (j : Job) (v : ℕ) (m : RawMessage) (parsed : Parsed) (e : Option Text) (at : Time)
      (path : Text)
      → Keeps R (process_new j v m parsed e at path)
  unfolding process_new new_row
  process_new-Keeps j v m parsed e at path =
      Keeps-bind_where frame (λ r. r.0.digested_at ≡ none) _ _
        (fill_row-Keeps frame j parsed e (new_row v m parsed at path))
        (fill_row-Undigested j parsed e (new_row v m parsed at path) refl)
        (λ r new.
          Keeps-bind frame _ _ (insert_email-Keeps frame r.0 (insert_R r.0 new))
            (λ n. Keeps-bind frame _ _ (acknowledge-Keeps j v m.uid) (λ a. Keeps-pure frame _)))

  process_parsed-Keeps :
      (j : Job) (v : ℕ) (m : RawMessage) (parsed : Parsed) (e : Option Text) (at : Time)
      → Keeps R (process_parsed j v m parsed e at)
  unfolding process_parsed
  process_parsed-Keeps j v m parsed e at =
      search
        (
          keeps_rules,
          write-Keeps frame link_R,
          email_exists-Keeps,
          acknowledge-Keeps,
          process_new-Keeps,
        )
        depth 8

  pub process_one-Keeps : (j : Job) (v : ℕ) (m : RawMessage) → Keeps R (process_one j v m)
  unfolding process_one
  process_one-Keeps j v m = search (keeps_rules, process_parsed-Keeps)

  pub round-Keeps : (j : Job) (v : ℕ) (m : RawMessage) → Keeps R (round j v m)
  unfolding round
  round-Keeps j v m = search (keeps_rules, process_one-Keeps)

  after_round-Keeps :
      (r : RunResult) (k : Outcome → Io (RunResult × Option Text)) (o : Result Outcome)
      → ((a : Outcome) → Keeps R (k a))
      → Keeps R (after_round r k o)
  after_round-Keeps r k (ok o) h = h o
  after_round-Keeps r k (err e) h = search keeps_rules

  pub process_all-Keeps :
      (j : Job) (v : ℕ) (ms : List RawMessage) (r : RunResult) → Keeps R (process_all j v ms r)
  unfolding process_all
  process_all-Keeps j v [] r = search keeps_rules
  process_all-Keeps j v (m ∷ ms) r =
      Keeps-bind frame _ _ (Keeps-try frame _ (round-Keeps j v m))
        (λ o. after_round-Keeps r _ o (λ a. process_all-Keeps j v ms (add_outcome r a)))

  save_baseline-Keeps : (j : Job) (f : FetchResult) → Keeps R (save_baseline j f)
  unfolding save_baseline
  save_baseline-Keeps j f =
      or_return-Keeps frame _ _ (Keeps-wrap frame _ _ (set_last_uid-Keeps frame state_R _ _ _))
        (λ a. Keeps-pure frame _)

  process_batch-Keeps : (j : Job) (f : FetchResult) → Keeps R (process_batch j f)
  unfolding process_batch
  process_batch-Keeps j f = process_all-Keeps j _ _ _

  pub run-Keeps : (j : Job) → Keeps R (run j)
  unfolding run
  run-Keeps j = or_return-Keeps frame _ _ (Keeps-wrap frame _ _ (last_uid-Keeps frame _)) λ cursor.
      or_return-Keeps frame _ _ (fetch-Keeps frame _ _) λ fetched.
        Keeps-if frame fetched.baseline _ _ (save_baseline-Keeps j fetched)
          (process_batch-Keeps j fetched)
