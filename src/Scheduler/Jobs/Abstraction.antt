-- ===== src/Scheduler/Jobs/Abstraction.antt =====
-- The ledger that the tables stand for, and what an insert and a digest are to it.
use mathlib.Core.Path.{fun_ext}
use suzie_filtering_system.Base.{
  ℕ, ◌+◌, Bool, true, false, Option, none, some, List, [], ◌∷◌, ◌++◌, map, filter, length, any,
  any-map, length-map, ◌==◌, ◌≡◌, refl, sym, ap, ◌∙◌, inl, inr, arith, Bool-cases, Option-cases,
  if◌then◌else◌,
}
use suzie_filtering_system.Model.{Time, format_time, EmailRow}
use suzie_filtering_system.Tables.{
  Email, Digest, Db, stamp, select_state, collides, insert_row, is_pending, coalesce,
  insert_ordered, order_rows, select_pending,
}
use suzie_filtering_system.Tables.State.{select_state-upsert_state}
use suzie_filtering_system.Store.{columns, digest_key, nullable_time, scan_email}
use suzie_filtering_system.Store.Unique.{Unique}
use suzie_filtering_system.Store.Pending.{pending}
use suzie_filtering_system.Store.Complete.{
  map-map, completed, completed_lem, state-completed, marked,
}
use suzie_filtering_system.Scheduler.{row_id}
use suzie_filtering_system.Scheduler.Ledger.{
  Letter, Issue, Ledger, same_letter, waits, list_letter, last_end, arrive, Reach, next,
}
use suzie_filtering_system.Scheduler.Jobs.Marked.{mark_pending, emails-completed}

abbrev pub letter_of : Email → Letter
letter_of r = record {
  uid_validity = r.uid_validity;
  imap_uid = r.imap_uid;
  message_id = r.message_id;
  received_at = r.received_at;
  listed = r.digested_at;
}

abbrev pub issue_of : Digest → Issue
issue_of d = record { start = d.window_start; end = d.window_end; count = d.email_count }

-- What the tables stand for.
abbrev pub ledger_of : Db → Ledger
ledger_of db = record { letters = map letter_of db.emails; issues = map issue_of db.digests }

-- `last_digest_at` is the end of the window of the last digest.
abbrev pub Linked : Db → Type 0
Linked db =
    (end : ℕ)
    → last_end (map issue_of db.digests) ≡ some end
    → select_state digest_key db.state ≡ some (stamp end)

map-append : {A B : Type 0} (f : A → B) (xs ys : List A) → map f (xs ++ ys) ≡ map f xs ++ map f ys
map-append f [] ys = refl
map-append f (x ∷ xs) ys = ap (λ l. f x ∷ l) (map-append f xs ys)

last_end-snoc : (is : List Issue) (i : Issue) → last_end (is ++ i ∷ []) ≡ some i.end
last_end-snoc [] i = refl
last_end-snoc (k ∷ []) i = refl
last_end-snoc (k ∷ m ∷ is) i = last_end-snoc (m ∷ is) i

length-filter-map :
    {A B : Type 0} (f : A → B) (p : A → Bool) (q : B → Bool) (xs : List A)
    → ((x : A) → p x ≡ q (f x))
    → length (filter p xs) ≡ length (filter q (map f xs))
length-filter-map f p q [] h = refl
length-filter-map f p q (x ∷ xs) h = rw h (ground (arith, length-filter-map f p q xs h))

length-insert_ordered :
    (e : Email) (rows : List Email) → length (insert_ordered e rows) ≡ length rows + 1
unfolding insert_ordered
length-insert_ordered e [] = refl
length-insert_ordered e (r ∷ rows) = ground (arith, length-insert_ordered e rows)

length-order_rows : (rows : List Email) → length (order_rows rows) ≡ length rows
unfolding order_rows
length-order_rows [] = refl
length-order_rows (r ∷ rows) =
    length-insert_ordered r (order_rows rows) ∙ omega (arith, length-order_rows rows)

collides-letter :
    (e : Email) (rows : List Email)
    → any (same_letter (letter_of e)) (map letter_of rows) ≡ any (collides e) rows
unfolding collides
collides-letter e rows = any-map (same_letter (letter_of e)) letter_of rows

pending-waits : (start end : ℕ) (r : Email) → is_pending start end r ≡ waits start end (letter_of r)
unfolding is_pending
pending-waits start end r = refl

pending_null : (start end : ℕ) (r : Email) → is_pending start end r ≡ true → r.digested_at ≡ none
unfolding is_pending
pending_null start end r h = ground (arith, Option-cases r.digested_at)

letter_of-marked :
    (start : ℕ) (at : Time) (r : Email)
    → letter_of (mark_pending start (format_time at) at r)
      ≡ list_letter start (format_time at) (letter_of r)
letter_of-marked start at r = elim (Bool-cases (is_pending start (format_time at) r)) [
  | inl p ↦
      rw (p, ← pending-waits start (format_time at) r, p)
        (ap (λ (o : Option ℕ). record (letter_of r) { listed = some (coalesce o (format_time at)) })
          (pending_null start (format_time at) r p))
  | inr p ↦ rw (p, ← pending-waits start (format_time at) r, p) refl
]

count_lem :
    (start end : Time) (db : Db)
    → length (map row_id (pending start end db))
      ≡ length (filter (waits (format_time start) (format_time end)) (map letter_of db.emails))
unfolding select_pending
count_lem start end db =
    length-map row_id (pending start end db)
    ∙ length-map scan_email (select_pending (format_time start) (format_time end) db.emails)
    ∙ length-order_rows (filter (is_pending (format_time start) (format_time end)) db.emails)
    ∙ length-filter-map letter_of _ _ db.emails
        (pending-waits (format_time start) (format_time end))

-- A digest of the pending rows is a `publish` of the ledger.
pub ledger_of-completed :
    (start end : Time) (db : Db)
    → Unique db.emails
    → ledger_of (completed (map row_id (pending start end db)) end start end db) ≡ record {
      letters = map (list_letter (format_time start) (format_time end)) (map letter_of db.emails);
      issues =
          map issue_of db.digests
          ++ record {
            start = format_time start;
            end = format_time end;
            count =
                length
                  (filter (waits (format_time start) (format_time end)) (map letter_of db.emails));
          }
            ∷ [];
    }
ledger_of-completed start end db u =
    let ids = map row_id (pending start end db) in
    let rows : map letter_of (completed ids end start end db).emails
        ≡ map (list_letter (format_time start) (format_time end)) (map letter_of db.emails) =
      ap (map letter_of) (emails-completed start end end db u)
      ∙ map-map (mark_pending (format_time start) (format_time end) end) letter_of db.emails
      ∙ ap (λ (f : Email → Letter). map f db.emails)
          (fun_ext (letter_of-marked (format_time start) end))
      ∙ sym (map-map letter_of (list_letter (format_time start) (format_time end)) db.emails) in
    let issues : map issue_of (completed ids end start end db).digests
        ≡ map issue_of db.digests
          ++ record {
            start = format_time start;
            end = format_time end;
            count =
                length
                  (filter (waits (format_time start) (format_time end)) (map letter_of db.emails));
          }
            ∷ [] =
      ap (map issue_of) (completed_lem ids end start end db).1
      ∙ map-append issue_of db.digests _
      ∙ ap
          (λ (n : ℕ).
            map issue_of db.digests
            ++ record { start = format_time start; end = format_time end; count = n } ∷ [])
          (count_lem start end db) in
    cc

pub columns-undigested : (e : EmailRow) → e.digested_at ≡ none → (columns e).digested_at ≡ none
unfolding columns nullable_time
columns-undigested e h = rw h refl

-- An insert is an `arrive` of the ledger, or nothing.
pub insert_row-Reach :
    (s : Ledger) (e : Email) (rows : List Email) (issues : List Issue)
    → e.digested_at ≡ none
    → Reach s (record { letters = map letter_of rows; issues = issues })
    → Reach s (record { letters = map letter_of (insert_row e rows).0; issues = issues })
unfolding insert_row
insert_row-Reach s e rows issues unlisted r = elim (Bool-cases (any (collides e) rows)) [
  | inl old ↦ rw old r
  | inr new ↦
      rw (new, map-append letter_of)
        (next r (arrive (letter_of e) (collides-letter e rows ∙ new) unlisted))
]

pub Unique-map :
    (f : Email → Email) (rows : List Email)
    → ((r x : Email) → collides (f r) (f x) ≡ collides r x)
    → ((r : Email) → (f r).id ≡ r.id)
    → Unique rows
    → Unique (map f rows)
Unique-map f [] keys ids u = tt
Unique-map f (r ∷ rows) keys ids (apart, other, rest) = (
  any-map (collides (f r)) f rows
      ∙ ap (λ (p : Email → Bool). any p rows) (fun_ext (keys r))
      ∙ apart,
  any-map (λ (x : Email). (f r).id == x.id) f rows
      ∙ ap (λ (p : Email → Bool). any p rows) (fun_ext (λ x. rw (ids r, ids x) refl))
      ∙ other,
  Unique-map f rows keys ids rest,
)

pub mark_pending-collides :
    (start end : ℕ) (at : Time) (r x : Email)
    → collides (mark_pending start end at r) (mark_pending start end at x) ≡ collides r x
unfolding collides
mark_pending-collides start end at r x = go (is_pending start end r) (is_pending start end x)
  where
    go :
        (a b : Bool)
        → collides (if a then marked at r else r) (if b then marked at x else x) ≡ collides r x
    go true true = refl
    go true false = refl
    go false true = refl
    go false false = refl

pub mark_pending_id :
    (start end : ℕ) (at : Time) (r : Email) → (mark_pending start end at r).id ≡ r.id
mark_pending_id start end at r = ground arith

pub completed-Linked : (ids : List ℕ) (a b c : Time) (db : Db) → Linked (completed ids a b c db)
completed-Linked ids a b c db e h =
    let last : last_end (map issue_of (completed ids a b c db).digests) ≡ some (format_time c) =
      ap (λ (ds : List Digest). last_end (map issue_of ds)) (completed_lem ids a b c db).1
      ∙ ap last_end (map-append issue_of db.digests _)
      ∙ last_end-snoc (map issue_of db.digests) _ in
    rw (state-completed ids a b c db, select_state-upsert_state)
      (ap (λ (o : Option ℕ). elim o [ none ↦ none | some s ↦ some (stamp s) ]) (sym last ∙ h))
