-- ===== src/Store/Pending.antt =====
-- PendingForDigest: exactly the rows of the window that no digest has listed.
use suzie_filtering_system.Base.{
  ℕ, ◌≤◌, ◌<◌, true, false, not, Option, none, some, List, [], ◌∷◌, ◌++◌, All, map, filter, ◌≡◌,
  refl, ◌⊎◌, arith, Bool-cases, leb, ap, sym, subst, inl, inr,
}
use suzie_filtering_system.Model.{Time, format_time, EmailRow}
use suzie_filtering_system.Tables.{Email, Db, select_pending, order_rows, is_pending}
use suzie_filtering_system.World.{World, Env}
use suzie_filtering_system.World.Hoare.{
  Hoare, Hoare-pure, Hoare-wrap, Hoare-bind, Hoare-query, Hoare-ends, EndsWith, Always,
}
use suzie_filtering_system.Store.{scan_email, pending_for_digest}
use suzie_filtering_system.Store.Ordered.{
  InOrder, order_rows-InOrder, order_rows-perm, order_rows-All,
}
use mathlib.Core.List.{Perm, perm_middle}
use mathlib.Core.List.Perm

-- The rows that PendingForDigest returns.
abbrev pub pending : Time → Time → Db → List EmailRow
pending window_start window_end db =
    map scan_email (select_pending (format_time window_start) (format_time window_end) db.emails)

module _ ⦃env : Env⦄ where
  pub pending_for_digest-finds :
      (window_start window_end : Time)
      → Hoare Always
          (pending_for_digest window_start window_end)
          (λ rows w. rows ≡ pending window_start window_end w.db)
  unfolding pending_for_digest
  pending_for_digest-finds window_start window_end =
      Hoare-bind
        (λ rows w.
          rows ≡ select_pending (format_time window_start) (format_time window_end) w.db.emails)
        _ _ (Hoare-wrap _ _ (Hoare-query _ (λ w p. refl))) (λ rows. Hoare-pure _ (λ w h. rw h))

-- A row that the digest of the window is to list: received from `start` on and before `end`, and listed
-- by no digest.
abbrev pub IsDue : ℕ → ℕ → Email → Type 0
IsDue start end r = (start ≤ r.received_at) × (r.received_at < end) × (r.digested_at ≡ none)

-- A row that it is not to list: received before the window or after it, or listed already.
abbrev pub IsLeft : ℕ → ℕ → Email → Type 0
IsLeft start end r =
    (r.received_at < start) ⊎ ((end ≤ r.received_at) ⊎ ((at : ℕ) × (r.digested_at ≡ some at)))

-- The table is split into the rows that are due, which are read in their order, and the rows left.
pub record Selects (start end : ℕ) (table : List Email) (rows : List EmailRow) : Type 0 where
  pub due : List Email
  pub others : List Email
  pub read : rows ≡ map scan_email due
  pub whole : Perm (due ++ others) table
  pub all_due : All (IsDue start end) due
  pub all_left : All (IsLeft start end) others
  pub ordered : InOrder due

is_pending-IsDue : (start end : ℕ) (r : Email) → is_pending start end r ≡ true → IsDue start end r
unfolding is_pending
is_pending-IsDue start end r h = listed r.digested_at refl
  where
    listed : (o : Option ℕ) → r.digested_at ≡ o → IsDue start end r
    listed none e = (ground (arith, h), ground (arith, h), e)
    listed (some at) e = absurd (ground (arith, h, e))

is_pending-IsLeft :
    (start end : ℕ) (r : Email) → is_pending start end r ≡ false → IsLeft start end r
unfolding is_pending
is_pending-IsLeft start end r h = listed r.digested_at refl
  where
    listed : (o : Option ℕ) → r.digested_at ≡ o → IsLeft start end r
    listed (some at) e = inr (inr (at, e))
    listed none e = elim (Bool-cases (leb start r.received_at)) [
      | inl late ↦ inr (inl (ground (arith, h, e, late)))
      | inr early ↦ inl (ground (arith, early))
    ]

module _ (start end : ℕ) where
  -- The rows that do not pass the test of the WHERE clause.
  abbrev rejected : List Email → List Email
  rejected = filter (λ r. not (is_pending start end r))

  split-perm : (rows : List Email) → Perm (filter (is_pending start end) rows ++ rejected rows) rows
  split-perm [] = Perm.refl _
  split-perm (r ∷ rows) = elim (Bool-cases (is_pending start end r)) [
    | inl h ↦ rw h (Perm.cons r (split-perm rows))
    | inr h ↦ rw h (Perm.trans (perm_middle _ _) (Perm.cons r (split-perm rows)))
  ]

  split-IsDue : (rows : List Email) → All (IsDue start end) (filter (is_pending start end) rows)
  split-IsDue [] = tt
  split-IsDue (r ∷ rows) = elim (Bool-cases (is_pending start end r)) [
    | inl h ↦ rw h (is_pending-IsDue start end r h, split-IsDue rows)
    | inr h ↦ rw h (split-IsDue rows)
  ]

  split-IsLeft : (rows : List Email) → All (IsLeft start end) (rejected rows)
  split-IsLeft [] = tt
  split-IsLeft (r ∷ rows) = elim (Bool-cases (is_pending start end r)) [
    | inl h ↦ rw h (split-IsLeft rows)
    | inr h ↦ rw h (is_pending-IsLeft start end r h, split-IsLeft rows)
  ]

  select_pending-Selects :
      (table : List Email)
      → Selects start end table (map scan_email (select_pending start end table))
  unfolding select_pending
  select_pending-Selects table =
      let hits = filter (is_pending start end) table in
      record {
        due = order_rows hits;
        others = rejected table;
        read = refl;
        whole =
            Perm.trans (Perm.append_right (rejected table) (order_rows-perm hits))
              (split-perm table);
        all_due = order_rows-All _ hits (split-IsDue table);
        all_left = split-IsLeft table;
        ordered = order_rows-InOrder hits;
      }

module _ ⦃env : Env⦄ where
  -- PendingForDigest fails, or it changes no table and returns rows of the table, read by scanEmail:
  -- exactly those received from the start of the window on and before its end, to the second, that no
  -- digest has listed, each as often as it is there, by the second of receipt and then by id. Every other
  -- row was received before the window or after it, or was listed already.
  pub pending_for_digest-Selects :
      (window_start window_end : Time) (w : World)
      → EndsWith
          (pending_for_digest window_start window_end)
          (λ rows x.
            Selects (format_time window_start) (format_time window_end) w.db.emails rows
            × (x.db ≡ w.db))
          w
  unfolding pending_for_digest
  pending_for_digest-Selects window_start window_end w =
      let start = format_time window_start in
      let end = format_time window_end in
      Hoare-ends _ {Q = λ rows x. Selects start end w.db.emails rows × (x.db ≡ w.db)}
        (Hoare-bind (λ rows x. (rows ≡ select_pending start end w.db.emails) × (x.db ≡ w.db)) _ _
          (Hoare-wrap _ _ (
            Hoare-query _
              (λ x same. (ap (λ (db : Db). select_pending start end db.emails) same, same))))
          (λ rows. Hoare-pure _ (λ x (e, same). (
            subst (λ (l : List Email). Selects start end w.db.emails (map scan_email l)) (sym e)
                (select_pending-Selects start end w.db.emails),
            same,
          ))))
        w refl
