-- ===== src/Store/Complete.antt =====
-- CompleteDigest: the rows are marked, the digest is recorded and the window moves, all or nothing.
use mathlib.Core.Path.{fun_ext}
use suzie_filtering_system.Base.{
  ℕ, Bool, true, false, some, List, [], ◌∷◌, ◌++◌, map, any, ◌==◌, ◌≡◌, refl, ap, ◌∙◌, length,
  Bool-cases, inl, inr, if◌then◌else◌,
}
use suzie_filtering_system.Model.{Time, format_time, parse_time}
use suzie_filtering_system.Tables.{
  Db, Email, stamp, stamp_row, update_digested, coalesce, select_state, upsert_state,
}
use suzie_filtering_system.Tables.State.{select_state-upsert_state}
use suzie_filtering_system.World.{World, Env, ok}
use suzie_filtering_system.World.Effects.{
  Does, Does-sql, Does-wrap, Does-then, Does-ask, AllOrNothing, rollback-AllOrNothing,
}
use suzie_filtering_system.Store.{
  put_state, stamp_emails, add_digest, digest_key, read_time, mark_rows, record_row,
  complete_digest,
}
use suzie_filtering_system.Store.Cursor.{set_state-Does}

pub stamp_all : Time → List ℕ → Db → Db
stamp_all at [] db = db
stamp_all at (id ∷ ids) db = stamp_all at ids (stamp_emails at id db)

pub recorded : Time → Time → Time → ℕ → Db → Db
recorded sent_at window_start window_end n db =
    put_state digest_key (stamp (format_time window_end))
      (add_digest sent_at window_start window_end n db)

-- What CompleteDigest does.
unfoldable pub completed : List ℕ → Time → Time → Time → Db → Db
unfolding stamp_all recorded
completed ids sent_at window_start window_end db =
    recorded sent_at window_start window_end (length ids) (stamp_all sent_at ids db)

module _ ⦃env : Env⦄ where
  mark_rows-Does : (ids : List ℕ) (at : Time) → Does (stamp_all at ids) (mark_rows ids at)
  unfolding mark_rows stamp_all
  mark_rows-Does [] at = record { at = λ w a h. refl }
  mark_rows-Does (id ∷ ids) at =
      Does-then {F = stamp_emails at id} {G = stamp_all at ids} _ _ (Does-wrap _ _ (Does-sql _))
        (mark_rows-Does ids at)

  record_row-Does :
      (sent_at window_start window_end : Time) (n : ℕ)
      → Does
          (recorded sent_at window_start window_end n)
          (record_row sent_at window_start window_end n)
  unfolding record_row recorded
  record_row-Does sent_at window_start window_end n =
      Does-then {F = add_digest sent_at window_start window_end n}
        {G = put_state digest_key (stamp (format_time window_end))} _ _ (Does-wrap _ _ (Does-sql _))
        (set_state-Does _ _)

  -- CompleteDigest marks the rows, records the digest and sets the end of the window, or it fails and
  -- leaves the database as it was.
  pub complete_digest-AllOrNothing :
      (ids : List ℕ) (sent_at window_start window_end : Time) (w : World)
      → AllOrNothing
          (completed ids sent_at window_start window_end)
          (complete_digest ids sent_at window_start window_end)
          w
  unfolding complete_digest completed
  complete_digest-AllOrNothing ids sent_at window_start window_end w =
      rollback-AllOrNothing _
        (Does-then {F = λ db. db} {G = completed ids sent_at window_start window_end} _ _
          (Does-wrap _ _ Does-ask)
          (Does-then {F = stamp_all sent_at ids}
            {G = recorded sent_at window_start window_end (length ids)} _ _
            (mark_rows-Does ids sent_at)
            (Does-then {F = recorded sent_at window_start window_end (length ids)} {G = λ db. db} _
              _ (record_row-Does sent_at window_start window_end (length ids))
              (Does-wrap _ _ Does-ask))))
        w

-- The row as CompleteDigest leaves it.
pub stamped : Time → List ℕ → Email → Email
stamped at [] r = r
stamped at (id ∷ ids) r = stamped at ids (stamp_row (format_time at) id r)

pub map-map :
    {A B C : Type 0} (f : A → B) (g : B → C) (xs : List A)
    → map g (map f xs) ≡ map (λ x. g (f x)) xs
map-map f g [] = refl
map-map f g (x ∷ xs) = ap (λ l. g (f x) ∷ l) (map-map f g xs)

map_id : {A : Type 0} (xs : List A) → map (λ x. x) xs ≡ xs
map_id [] = refl
map_id (x ∷ xs) = ap (λ l. x ∷ l) (map_id xs)

emails-stamp_all :
    (at : Time) (ids : List ℕ) (db : Db)
    → (stamp_all at ids db).emails ≡ map (stamped at ids) db.emails
unfolding stamp_all stamped stamp_emails update_digested
emails-stamp_all at [] db = rw map_id
emails-stamp_all at (id ∷ ids) db =
    emails-stamp_all at ids (stamp_emails at id db)
    ∙ map-map (stamp_row (format_time at) id) (stamped at ids) db.emails

digests-stamp_all :
    (at : Time) (ids : List ℕ) (db : Db) → (stamp_all at ids db).digests ≡ db.digests
unfolding stamp_all stamp_emails
digests-stamp_all at [] db = refl
digests-stamp_all at (id ∷ ids) db = digests-stamp_all at ids (stamp_emails at id db)

state-stamp_all : (at : Time) (ids : List ℕ) (db : Db) → (stamp_all at ids db).state ≡ db.state
unfolding stamp_all stamp_emails
state-stamp_all at [] db = refl
state-stamp_all at (id ∷ ids) db = state-stamp_all at ids (stamp_emails at id db)

-- The window moves.
pub state-completed :
    (ids : List ℕ) (a b c : Time) (db : Db)
    → (completed ids a b c db).state ≡ upsert_state digest_key (stamp (format_time c)) db.state
unfolding completed put_state add_digest
state-completed ids a b c db = rw (state-stamp_all a ids db)

contains : ℕ → List ℕ → Bool
contains n = any (λ id. n == id)

-- A row with its time set, unless it has one.
abbrev pub marked : Time → Email → Email
marked at r = record r { digested_at = some (coalesce r.digested_at (format_time at)) }

stamped_lem :
    (at : Time) (ids : List ℕ) (r : Email)
    → stamped at ids r ≡ (if contains r.id ids then marked at r else r)
unfolding stamped stamp_row contains
stamped_lem at [] r = refl
stamped_lem at (id ∷ ids) r = elim (Bool-cases (r.id == id)) [
  | inl e ↦ rw e (rw (stamped_lem at ids (marked at r)) (again (contains r.id ids)))
  | inr e ↦ rw e (stamped_lem at ids r)
]
  where
    again : (b : Bool) → (if b then marked at (marked at r) else marked at r) ≡ marked at r
    again true = refl
    again false = refl

abbrev pub after_digest : List ℕ → Time → Email → Email
after_digest ids at r = if any (λ id. r.id == id) ids then marked at r else r

-- The rows that CompleteDigest names get its time as `digested_at`, unless they have one already, and
-- no row changes otherwise; one digest is recorded, with the bounds of the window and the number of
-- rows; and LastDigestAt is the end of the window, to the second.
pub completed_lem :
    (ids : List ℕ) (sent_at window_start window_end : Time) (db : Db)
    → let after = completed ids sent_at window_start window_end db in
      (after.emails ≡ map (after_digest ids sent_at) db.emails)
      × (after.digests
          ≡ db.digests
            ++ record {
              sent_at = format_time sent_at;
              window_start = format_time window_start;
              window_end = format_time window_end;
              email_count = length ids;
            }
              ∷ [])
      × (read_time (select_state digest_key after.state) ≡ ok (parse_time (format_time window_end)))
unfolding completed put_state add_digest read_time contains
completed_lem ids sent_at window_start window_end db = (
  emails-stamp_all sent_at ids db
      ∙ ap (λ (f : Email → Email). map f db.emails) (fun_ext (stamped_lem sent_at ids)),
  rw (digests-stamp_all sent_at ids db),
  rw select_state-upsert_state,
)
