-- ===== src/Store/Insert.antt =====
-- InsertEmail and EmailExists agree on what a duplicate is.
use mathlib.Core.Path.{fun_ext}
use suzie_filtering_system.Base.{
  ℕ, Text, Bool, true, Option, none, some, List, [], ◌∷◌, ◌++◌, ◌≡◌, refl, ap, any, any-append,
  arith, Bool-cases, inl, inr, if◌then◌else◌,
}
use suzie_filtering_system.Model.{EmailRow}
use suzie_filtering_system.Tables.{
  Email, matches, select_exists, collides, insert_row, same_message, same_key, has_uid, next_id,
}
use suzie_filtering_system.World.{World, Env, next}
use suzie_filtering_system.World.Hoare.{
  Hoare, Hoare-pure, Hoare-wrap, Hoare-bind, Hoare-query, Hoare-exec, Always,
}
use suzie_filtering_system.Store.{columns, nullable, email_exists, insert_email, insert_at}

same_key-nullable : (m : Text) (k : Option Text) → same_key (nullable m) k ≡ same_message m k
unfolding nullable same_key same_message
same_key-nullable [] none = refl
same_key-nullable [] (some k) = refl
same_key-nullable (c ∷ m) none = refl
same_key-nullable (c ∷ m) (some k) = refl

collides-columns :
    (e : EmailRow) (r : Email)
    → collides (columns e) r ≡ matches e.uid_validity e.imap_uid e.message_id r
unfolding collides columns matches
collides-columns e r = rw (same_key-nullable e.message_id r.message_id)

-- A row collides with a UNIQUE constraint exactly when EmailExists reports it.
pub any-collides :
    (e : EmailRow) (rows : List Email)
    → any (collides (columns e)) rows ≡ select_exists e.uid_validity e.imap_uid e.message_id rows
unfolding select_exists
any-collides e rows = ap (λ (p : Email → Bool). any p rows) (fun_ext (collides-columns e))

-- An insert reports a row exactly when EmailExists would have reported no duplicate.
pub insert_row-columns :
    (e : EmailRow) (rows : List Email)
    → (insert_row (columns e) rows).1
      ≡ (if select_exists e.uid_validity e.imap_uid e.message_id rows then 0 else 1)
unfolding insert_row
insert_row-columns e rows = rw (← any-collides e rows) (ground arith)

-- What EmailExists reports it reports after every insert.
pub select_exists-insert_row :
    (v u : ℕ) (m : Text) (r : Email) (rows : List Email)
    → select_exists v u m rows ≡ true
    → select_exists v u m (insert_row r rows).0 ≡ true
unfolding select_exists insert_row
select_exists-insert_row v u m r rows h = elim (Bool-cases (any (collides r) rows)) [
  | inl old ↦ rw old h
  | inr new ↦ rw (new, any-append, h)
]

has_uid_self :
    (e : EmailRow) (n : ℕ)
    → has_uid e.uid_validity e.imap_uid (record (columns e) { id = n }) ≡ true
unfolding columns
has_uid_self e n = ground arith

exists_last :
    (v u : ℕ) (m : Text) (rows : List Email) (r : Email)
    → has_uid v u r ≡ true
    → select_exists v u m (rows ++ r ∷ []) ≡ true
unfolding select_exists
exists_last v u m [] r h = rw h
exists_last v u m (x ∷ rows) r h = ground (arith, exists_last v u m rows r h)

-- After the insert, made or refused, EmailExists reports the message.
pub select_exists-insert_row_self :
    (e : EmailRow) (rows : List Email)
    → select_exists e.uid_validity e.imap_uid e.message_id (insert_row (columns e) rows).0 ≡ true
unfolding insert_row
select_exists-insert_row_self e rows = elim (Bool-cases (any (collides (columns e)) rows)) [
  | inl old ↦ rw old (rw (← any-collides e rows) old)
  | inr new ↦ rw new (exists_last _ _ _ rows _ (has_uid_self e (next_id rows)))
]

module _ ⦃env : Env⦄ where
  pub email_exists-finds :
      (v u : ℕ) (m : Text)
      → Hoare Always (email_exists v u m) (λ found w. select_exists v u m w.db.emails ≡ found)
  unfolding email_exists
  email_exists-finds v u m = Hoare-wrap _ _ (Hoare-query _ (λ w p. refl))

  insert_at-stores :
      (e : EmailRow) (w : World)
      → select_exists e.uid_validity e.imap_uid e.message_id (insert_at e w).1.db.emails ≡ true
  unfolding insert_at
  insert_at-stores e w = select_exists-insert_row_self e w.db.emails

  pub insert_email-stores :
      (e : EmailRow)
      → Hoare Always
          (insert_email e)
          (λ _ w. select_exists e.uid_validity e.imap_uid e.message_id w.db.emails ≡ true)
  unfolding insert_email
  insert_email-stores e =
      Hoare-bind (λ _ w. select_exists e.uid_validity e.imap_uid e.message_id w.db.emails ≡ true) _
        _ (Hoare-wrap _ _ (Hoare-exec (insert_at e) (λ w p. insert_at-stores e (next w))))
        (λ n. Hoare-pure _ (λ w h. h))
