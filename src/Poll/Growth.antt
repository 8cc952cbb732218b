-- ===== src/Poll/Growth.antt =====
-- What no step of the pipeline undoes: a file of the archive stays as it is, and a message that
-- EmailExists reports stays reported.
use suzie_filtering_system.Base.{ℕ, Text, true, some, List, ◌≡◌, text_eq_iff, arith}
use suzie_filtering_system.Model.{EmailRow, RawMessage}
use suzie_filtering_system.Tables.{Value, select_exists}
use suzie_filtering_system.World.{World, Env, change}
use suzie_filtering_system.World.Keeps.{Keeps, IsFrame}
use suzie_filtering_system.Store.{columns, insert_at, put_state}
use suzie_filtering_system.Store.Insert.{select_exists-insert_row}
use suzie_filtering_system.Imap.{add_seen, has_seen}
use suzie_filtering_system.Imap.Seen.{has_seen_more}
use suzie_filtering_system.Archive.{read_file, link}
use suzie_filtering_system.Poll.{Job, RunResult, process_one, process_all, run}
use suzie_filtering_system.Poll.Keeps.{process_one-Keeps, process_all-Keeps, run-Keeps}

pub record Grows (u v : World) : Type 0 where
  pub files :
      (path raw : Text) → read_file path u.files ≡ some raw → read_file path v.files ≡ some raw
  pub emails :
      (a b : ℕ) (m : Text)
      → select_exists a b m u.db.emails ≡ true
      → select_exists a b m v.db.emails ≡ true
  pub seen : (a b : ℕ) → has_seen a b u.seen ≡ true → has_seen a b v.seen ≡ true

pub Grows-IsFrame : IsFrame Grows
Grows-IsFrame = record {
  same = λ w. record { files = λ p r h. h; emails = λ a b m h. h; seen = λ a b h. h };
  trans = λ u v w g h. record {
    files = λ p r k. h.files p r (g.files p r k);
    emails = λ a b m k. h.emails a b m (g.emails a b m k);
    seen = λ a b k. h.seen a b (g.seen a b k);
  };
  tick = λ w. record { files = λ p r h. h; emails = λ a b m h. h; seen = λ a b h. h };
  undo = λ u v g. record { files = g.files; emails = λ a b m h. h; seen = g.seen };
}

read_file-link :
    (p target old raw : Text) (w : World)
    → read_file p w.files ≡ some old
    → read_file p (link target raw w).1.files ≡ some old
unfolding link
read_file-link p target old raw w h = ground (arith, text_eq_iff target p)

pub db-link : (target raw : Text) (w : World) → (link target raw w).1.db ≡ w.db
unfolding link
db-link target raw w = ground arith

pub seen-link : (target raw : Text) (w : World) → (link target raw w).1.seen ≡ w.seen
unfolding link
seen-link target raw w = ground arith

pub link-Grows : (target raw : Text) (w : World) → Grows w (link target raw w).1
link-Grows target raw w = record {
  files = λ p old h. read_file-link p target old raw w h;
  emails = λ a b m h. rw db-link h;
  seen = λ a b h. rw seen-link h;
}

pub state-Grows : (key : Text) (v : Value) (w : World) → Grows w (change (put_state key v) w).1
unfolding put_state
state-Grows key v w = record { files = λ p r h. h; emails = λ a b m h. h; seen = λ a b h. h }

pub insert-Grows : (e : EmailRow) (w : World) → Grows w (insert_at e w).1
unfolding insert_at
insert-Grows e w = record {
  files = λ p r h. h;
  emails = λ a b m h. select_exists-insert_row a b m (columns e) w.db.emails h;
  seen = λ a b h. h;
}

pub seen-Grows : (v u : ℕ) (w : World) → Grows w (add_seen v u w)
seen-Grows v u w = record {
  files = λ p r h. h;
  emails = λ a b m h. h;
  seen = λ a b h. has_seen_more a b v u w.seen h;
}

module _ ⦃env : Env⦄ where
  pub process_one-Grows : (j : Job) (v : ℕ) (m : RawMessage) → Keeps Grows (process_one j v m)
  process_one-Grows =
      process_one-Keeps Grows-IsFrame link-Grows (λ k v h. state-Grows k v) (λ e h. insert-Grows e)
        seen-Grows

  pub process_all-Grows :
      (j : Job) (v : ℕ) (ms : List RawMessage) (r : RunResult) → Keeps Grows (process_all j v ms r)
  process_all-Grows =
      process_all-Keeps Grows-IsFrame link-Grows (λ k v h. state-Grows k v) (λ e h. insert-Grows e)
        seen-Grows

  -- Whatever fails, and wherever a run stops: no archived file is replaced or changed, and every
  -- message that EmailExists reported before the run is reported after it, and no \Seen flag is lost.
  pub run-Grows : (j : Job) (w : World) → Grows w (run j w).1
  run-Grows j w =
      (run-Keeps Grows-IsFrame link-Grows (λ k v h. state-Grows k v) (λ e h. insert-Grows e)
          seen-Grows j).at
        w
