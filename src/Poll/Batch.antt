-- ===== src/Poll/Batch.antt =====
-- The batch that `Run` processes: sorted by UID it rises, so that the cursor passes no message of it
-- that is not archived, reported by EmailExists and flagged.
use suzie_filtering_system.Base.{
  ℕ, ◌≤◌, ◌<◌, Bool, true, false, ◌||◌, List, [], ◌∷◌, ◌==◌, ◌≡◌, refl, ◌∙◌, arith, any, All, leb,
  Bool-cases, inl, inr, if◌then◌else◌,
}
use suzie_filtering_system.Decimal.{max_u32}
use suzie_filtering_system.Model.{RawMessage, FetchResult}
use suzie_filtering_system.World.{World, Env, ok}
use suzie_filtering_system.Store.Cursor.{cursor}
use suzie_filtering_system.Imap.{insert_by_uid, sort_by_uid}
use suzie_filtering_system.Poll.{Job, process_batch}
use suzie_filtering_system.Poll.NoSkip.{Ascending, Sound, process_all-Sound}

abbrev pub same_uid : RawMessage → RawMessage → Bool
same_uid m x = m.uid == x.uid

-- Messages with UIDs above `c`, in the range of a uint32, none of which comes twice, in any order.
abbrev pub Fresh : ℕ → List RawMessage → Type 0
Fresh c [] = Unit
Fresh c (m ∷ ms) = (c < m.uid) × (m.uid ≤ max_u32) × (any (same_uid m) ms ≡ false) × Fresh c ms

insert_by_uid-Ascending :
    (c : ℕ) (m : RawMessage) (ms : List RawMessage)
    → c < m.uid
    → m.uid ≤ max_u32
    → any (same_uid m) ms ≡ false
    → Ascending c ms
    → Ascending c (insert_by_uid m ms)
unfolding insert_by_uid
insert_by_uid-Ascending c m [] above fits new a = (above, fits, tt)
insert_by_uid-Ascending c m (x ∷ ms) above fits new (lt, x_fits, rest) =
    elim (Bool-cases (leb m.uid x.uid)) [
      | inl le ↦ rw le (above, fits, (ground arith, x_fits, rest))
      | inr gt ↦
          rw gt
            (lt, x_fits, insert_by_uid-Ascending x.uid m ms (ground arith) fits (ground arith) rest)
    ]

any-insert_by_uid :
    (p : RawMessage → Bool) (m : RawMessage) (ms : List RawMessage)
    → any p (insert_by_uid m ms) ≡ (p m || any p ms)
unfolding insert_by_uid
any-insert_by_uid p m [] = refl
any-insert_by_uid p m (x ∷ ms) = ground (arith, any-insert_by_uid p m ms)

any-sort_by_uid : (p : RawMessage → Bool) (ms : List RawMessage) → any p (sort_by_uid ms) ≡ any p ms
unfolding sort_by_uid
any-sort_by_uid p [] = refl
any-sort_by_uid p (m ∷ ms) = rw (any-insert_by_uid, any-sort_by_uid p ms) refl

pub sort_by_uid-Ascending :
    (c : ℕ) (ms : List RawMessage) → Fresh c ms → Ascending c (sort_by_uid ms)
unfolding sort_by_uid
sort_by_uid-Ascending c [] f = tt
sort_by_uid-Ascending c (m ∷ ms) (above, fits, new, rest) =
    insert_by_uid-Ascending c m (sort_by_uid ms) above fits (any-sort_by_uid (same_uid m) ms ∙ new)
      (sort_by_uid-Ascending c ms rest)

module _ (P : RawMessage → Type 0) where
  All-insert_by_uid :
      (m : RawMessage) (ms : List RawMessage) → All P (insert_by_uid m ms) → P m × All P ms
  unfolding insert_by_uid
  All-insert_by_uid m [] a = a
  All-insert_by_uid m (x ∷ ms) a = go (leb m.uid x.uid) a (All-insert_by_uid m ms)
    where
      go :
          (b : Bool)
          → All P (if b then m ∷ x ∷ ms else x ∷ insert_by_uid m ms)
          → (All P (insert_by_uid m ms) → P m × All P ms)
          → P m × All P (x ∷ ms)
      go true h k = h
      go false (here, there) k = let (first, rest) = k there in (first, (here, rest))

  pub All-sort_by_uid : (ms : List RawMessage) → All P (sort_by_uid ms) → All P ms
  unfolding sort_by_uid
  All-sort_by_uid [] a = tt
  All-sort_by_uid (m ∷ ms) a =
      let (first, rest) = All-insert_by_uid m (sort_by_uid ms) a in (first, All-sort_by_uid ms rest)

  insert_by_uid-All :
      (m : RawMessage) (ms : List RawMessage) → P m → All P ms → All P (insert_by_uid m ms)
  unfolding insert_by_uid
  insert_by_uid-All m [] p a = (p, a)
  insert_by_uid-All m (x ∷ ms) p (here, there) =
      go (leb m.uid x.uid) (insert_by_uid-All m ms p there)
    where
      go :
          (b : Bool)
          → All P (insert_by_uid m ms)
          → All P (if b then m ∷ x ∷ ms else x ∷ insert_by_uid m ms)
      go true k = (p, (here, there))
      go false k = (here, k)

  pub sort_by_uid-All : (ms : List RawMessage) → All P ms → All P (sort_by_uid ms)
  unfolding sort_by_uid
  sort_by_uid-All [] a = tt
  sort_by_uid-All (m ∷ ms) (here, rest) =
      insert_by_uid-All m (sort_by_uid ms) here (sort_by_uid-All ms rest)

module _ ⦃env : Env⦄ where
  -- Whatever fails, and wherever a batch stops: if its messages are new to the cursor, in whatever
  -- order they came, then the cursor afterwards is no lower, under the same UIDVALIDITY, and every
  -- message of the batch up to it is in the archive, unchanged, is reported by EmailExists and
  -- carries its \Seen flag; and it is no higher than the last of them, or where it was. New are
  -- messages with different UIDs above the cursor; UIDs and the UIDVALIDITY are in the range of a
  -- uint32.
  pub process_batch-Sound :
      (j : Job) (fetched : FetchResult) (c : ℕ) (w : World)
      → fetched.uid_validity ≤ max_u32
      → Fresh c fetched.messages
      → cursor j.cfg.folder w.db ≡ ok (fetched.uid_validity, c)
      → Sound j fetched.uid_validity c (process_batch j fetched w).1 fetched.messages
  unfolding process_batch
  process_batch-Sound j fetched c w fits fresh at =
      let (d, here, above, passed, within) =
        process_all-Sound j fetched.uid_validity fits (sort_by_uid fetched.messages) c _ w
          (sort_by_uid-Ascending c fetched.messages fresh) at in
      (
        d,
        here,
        above,
        All-sort_by_uid _ fetched.messages passed,
        λ k h all. within k h (sort_by_uid-All _ fetched.messages all),
      )
