-- ===== src/Scheduler/Jobs/Marked.antt =====
-- The rows that a digest marks: PendingForDigest returns their ids and CompleteDigest updates by id,
-- and together they update the rows of the window that have no `digested_at`.
use suzie_filtering_system.Base.{
  ℕ, Bool, false, ◌||◌, ◌&&◌, List, [], ◌∷◌, map, filter, any, any-map, All, All-map, All-both,
  ◌==◌, ==_self, ◌≡◌, refl, ap, ◌∙◌, arith, if◌then◌else◌,
}
use suzie_filtering_system.Model.{Time, format_time}
use suzie_filtering_system.Tables.{
  Email, Db, is_pending, insert_ordered, order_rows, select_pending,
}
use suzie_filtering_system.Store.{scan_email}
use suzie_filtering_system.Store.Unique.{Unique}
use suzie_filtering_system.Store.Pending.{pending}
use suzie_filtering_system.Store.Complete.{completed, completed_lem, marked}
use suzie_filtering_system.Scheduler.{row_id}

any-insert_ordered :
    (q : Email → Bool) (e : Email) (rows : List Email)
    → any q (insert_ordered e rows) ≡ (q e || any q rows)
unfolding insert_ordered
any-insert_ordered q e [] = refl
any-insert_ordered q e (r ∷ rows) = ground (arith, any-insert_ordered q e rows)

any-order_rows : (q : Email → Bool) (rows : List Email) → any q (order_rows rows) ≡ any q rows
unfolding order_rows
any-order_rows q [] = refl
any-order_rows q (r ∷ rows) =
    any-insert_ordered q r (order_rows rows) ∙ ap (λ (b : Bool). q r || b) (any-order_rows q rows)

any-filter :
    (q p : Email → Bool) (rows : List Email) → any q (filter p rows) ≡ any (λ r. p r && q r) rows
any-filter q p [] = refl
any-filter q p (r ∷ rows) = ground (arith, any-filter q p rows)

-- An id is among those of the pending rows when a pending row has it.
listed_lem :
    (start end : Time) (db : Db) (n : ℕ)
    → any (λ id. n == id) (map row_id (pending start end db))
      ≡ any (λ r. is_pending (format_time start) (format_time end) r && n == r.id) db.emails
unfolding select_pending scan_email
listed_lem start end db n =
    let rows = filter (is_pending (format_time start) (format_time end)) db.emails in
    any-map (λ id. n == id) row_id (map scan_email (order_rows rows))
    ∙ any-map (λ r. n == row_id r) scan_email (order_rows rows)
    ∙ any-order_rows (λ r. n == r.id) rows
    ∙ any-filter (λ r. n == r.id) (is_pending (format_time start) (format_time end)) db.emails

others :
    (n : ℕ) (p : Email → Bool) (rows : List Email)
    → any (λ x. n == x.id) rows ≡ false
    → (any (λ x. p x && n == x.id) rows ≡ false) × All (λ x. (x.id == n) ≡ false) rows
others n p [] h = (refl, tt)
others n p (r ∷ rows) h =
    let (rest, below) = others n p rows (ground arith) in (ground arith, (ground arith, below))

-- Where the ids differ, the row with the id of a row is that row.
by_id :
    (p : Email → Bool) (rows : List Email)
    → Unique rows
    → All (λ r. any (λ x. p x && r.id == x.id) rows ≡ p r) rows
by_id p [] u = tt
by_id p (r ∷ rows) (keys, ids, rest) =
    let (none_here, apart) = others r.id p rows ids in
    (
      ground (arith, ==_self r.id),
      All-map (λ x h. ground (arith, h.0, h.1)) rows (All-both _ _ rows apart (by_id p rows rest)),
    )

-- The row as a digest of the window leaves it.
abbrev pub mark_pending : ℕ → ℕ → Time → Email → Email
mark_pending start end at r = if is_pending start end r then marked at r else r

map-All : {A B : Type 0} (f g : A → B) (xs : List A) → All (λ x. f x ≡ g x) xs → map f xs ≡ map g xs
map-All f g [] h = refl
map-All f g (x ∷ xs) (here, rest) = rw (here, map-All f g xs rest)

pub emails-completed :
    (start end at : Time) (db : Db)
    → Unique db.emails
    → (completed (map row_id (pending start end db)) at start end db).emails
      ≡ map (mark_pending (format_time start) (format_time end) at) db.emails
emails-completed start end at db u =
    (completed_lem (map row_id (pending start end db)) at start end db).0
    ∙ map-All _ _ db.emails (
        All-map (λ r h. rw (listed_lem start end db r.id, h) refl) db.emails
          (by_id (is_pending (format_time start) (format_time end)) db.emails u))
