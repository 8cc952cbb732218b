-- ===== src/Store/Keeps.antt =====
-- The operations of the store change the database alone, by their statements.
use suzie_filtering_system.Base.{text_eq, false, refl, ◌≡◌, ℕ, Text, List, [], ◌∷◌}
use suzie_filtering_system.Model.{Time, EmailRow}
use suzie_filtering_system.Tables.{Db, Value}
use suzie_filtering_system.World.{World, Env, change}
use suzie_filtering_system.World.Keeps.{
  Keeps, IsFrame, keeps_rules, Keeps-exec, Keeps-ask, Keeps-rollback, Keeps-wrap, Keeps-bind,
  Keeps-pure,
}
use suzie_filtering_system.Store.{
  validity_key, uid_key, digest_key, insert_at, put_state, stamp_emails, add_digest, insert_email,
  sql, state_uint, last_uid, set_state, set_last_uid, insert_email, email_exists,
  pending_for_digest, mark_rows, record_row, complete_digest, last_digest_at,
}

module _ {R : World → World → Type 0} (frame : IsFrame R) ⦃env : Env⦄ where
  pub state_uint-Keeps : (key : Text) → Keeps R (state_uint key)
  unfolding state_uint
  state_uint-Keeps key = search keeps_rules

  pub last_uid-Keeps : (folder : Text) → Keeps R (last_uid folder)
  unfolding last_uid
  last_uid-Keeps folder = search (keeps_rules, state_uint-Keeps)

  pub email_exists-Keeps : (v u : ℕ) (m : Text) → Keeps R (email_exists v u m)
  unfolding email_exists
  email_exists-Keeps v u m = search keeps_rules

  pub last_digest_at-Keeps : Keeps R last_digest_at
  unfolding last_digest_at
  last_digest_at-Keeps = search keeps_rules

  pub pending_for_digest-Keeps : (a b : Time) → Keeps R (pending_for_digest a b)
  unfolding pending_for_digest
  pending_for_digest-Keeps a b = search keeps_rules

  pub set_state-Keeps :
      (key : Text) (v : Value)
      → ((w : World) → R w (change (put_state key v) w).1)
      → Keeps R (set_state key v)
  unfolding set_state
  set_state-Keeps key v h = Keeps-wrap frame _ _ (Keeps-exec frame _ h)

  -- SetLastUID leaves the key of the digests alone.
  pub set_last_uid-Keeps :
      (state_R : (key : Text) (v : Value)
        → text_eq key digest_key ≡ false
        → (w : World) → R w (change (put_state key v) w).1)
      (folder : Text) (v u : ℕ)
      → Keeps R (set_last_uid folder v u)
  unfolding set_last_uid
  set_last_uid-Keeps state_R folder v u =
      let validity = set_state-Keeps (validity_key folder) _ (state_R _ _ refl) in
      let uid = set_state-Keeps (uid_key folder) _ (state_R _ _ refl) in
      Keeps-rollback frame _ (
        Keeps-bind frame _ _ (Keeps-wrap frame _ _ (Keeps-ask frame)) (λ a.
          Keeps-bind frame _ _ validity
            (λ b. Keeps-bind frame _ _ uid (λ c. Keeps-wrap frame _ _ (Keeps-ask frame)))))

  pub insert_email-Keeps :
      (e : EmailRow) → ((w : World) → R w (insert_at e w).1) → Keeps R (insert_email e)
  unfolding insert_email
  insert_email-Keeps e insert_R =
      Keeps-bind frame _ _ (Keeps-wrap frame _ _ (Keeps-exec frame _ insert_R))
        (λ n. Keeps-pure frame _)

module _ {R : World → World → Type 0} (frame : IsFrame R)
    (db_R : (f : Db → Db) (w : World) → R w (change f w).1) ⦃env : Env⦄ where
  sql-Keeps : (f : Db → Db) → Keeps R (sql f)
  sql-Keeps f = Keeps-exec frame _ (db_R f)

  mark_rows-Keeps : (ids : List ℕ) (at : Time) → Keeps R (mark_rows ids at)
  unfolding mark_rows
  mark_rows-Keeps [] at = Keeps-pure frame _
  mark_rows-Keeps (id ∷ ids) at =
      Keeps-bind frame _ _ (Keeps-wrap frame _ _ (sql-Keeps (stamp_emails at id)))
        (λ _. mark_rows-Keeps ids at)

  record_row-Keeps : (a b c : Time) (n : ℕ) → Keeps R (record_row a b c n)
  unfolding record_row
  record_row-Keeps a b c n =
      Keeps-bind frame _ _ (Keeps-wrap frame _ _ (sql-Keeps (add_digest a b c n)))
        (λ _. set_state-Keeps frame _ _ (db_R (put_state _ _)))

  pub complete_digest-Keeps : (ids : List ℕ) (a b c : Time) → Keeps R (complete_digest ids a b c)
  unfolding complete_digest
  complete_digest-Keeps ids a b c = search (keeps_rules, mark_rows-Keeps, record_row-Keeps) depth 12
