-- ===== src/Store/Cursor/ReadBack.antt =====
-- SetLastUID and then LastUID of internal/store/store.go: what is written is read back.
use suzie_filtering_system.Base.{ℕ, ◌≤◌, Text, false, text_eq, ◌≡◌, refl, ap, ◌∙◌, inl, inr}
use suzie_filtering_system.Decimal.{max_u32}
use suzie_filtering_system.Tables.{Db}
use suzie_filtering_system.Tables.State.{select_state-upsert_state}
use suzie_filtering_system.World.{World, Env, done, ok, ◌>>◌}
use suzie_filtering_system.World.Keeps.{SameDb-IsFrame}
use suzie_filtering_system.World.Hoare.{Hoare, Hoare-bind, Hoare-ends, EndsWith}
use suzie_filtering_system.World.Live.{Live, Live-bind}
use suzie_filtering_system.Store.{last_uid, set_last_uid}
use suzie_filtering_system.Store.Keeps.{last_uid-Keeps}
use suzie_filtering_system.Store.Returns.{set_last_uid-Returns}
use suzie_filtering_system.Store.Cursor.{
  cursor, moved, cursor-moved, last_uid-finds, last_uid-Returns, set_last_uid-AllOrNothing,
}

-- The values of another folder stay.
cursor-moved_other :
    (folder other : Text) (v u : ℕ) (db : Db)
    → text_eq folder other ≡ false
    → cursor other (moved folder v u db) ≡ cursor other db
unfolding cursor moved
cursor-moved_other folder other v u db h = simp (select_state-upsert_state, h)

module _ ⦃env : Env⦄ (folder : Text) (v u : ℕ) (v_fits : v ≤ max_u32) (u_fits : u ≤ max_u32)
    (w : World) where
  set_last_uid-Moves :
      Hoare (λ x. x.db ≡ w.db) (set_last_uid folder v u) (λ _ x. x.db ≡ moved folder v u w.db)
  set_last_uid-Moves = record {
    at = λ x same a e. elim (set_last_uid-AllOrNothing folder v u x) [
      | inl (b, f, d) ↦ d ∙ ap (moved folder v u) same
      | inr (b, f, d) ↦ absurd (cc)
    ];
  }

  last_uid-Reads :
      Hoare
        (λ x. x.db ≡ moved folder v u w.db)
        (last_uid folder)
        (λ p x. (p ≡ (v, u)) × (x.db ≡ moved folder v u w.db))
  last_uid-Reads = record {
    at = λ x same p e.
        let kept = (last_uid-Keeps SameDb-IsFrame folder).at x in
        let found = (last_uid-finds folder).at x tt p e in
        let read = cursor-moved folder v u w.db v_fits u_fits in
        let moved_to = ap (cursor folder) (kept ∙ same) in (cc, kept ∙ same);
  }

  moves_Live :
      ((n : ℕ) → env.reply n ≡ done)
      → Live (λ x. x.db ≡ w.db) (set_last_uid folder v u) (λ _ x. x.db ≡ moved folder v u w.db)
  moves_Live live = record {
    at = λ x same.
        let (a, e, q) = (set_last_uid-Returns live folder v u).at x tt in
        (a, e, set_last_uid-Moves.at x same a e);
  }

  reads_Live :
      ((n : ℕ) → env.reply n ≡ done)
      → Live (λ x. x.db ≡ moved folder v u w.db) (last_uid folder) (λ p x. p ≡ (v, u))
  reads_Live live = record {
    at = λ x same.
        let written = ap (cursor folder) same ∙ cursor-moved folder v u w.db v_fits u_fits in
        let (p, e) = last_uid-Returns live folder v u x written in
        (p, e, (last_uid-Reads.at x same p e).0);
  }

module _ ⦃env : Env⦄ where
  -- SetLastUID and LastUID behind it: one of them fails, or LastUID returns the UIDVALIDITY and the UID
  -- that SetLastUID was given, two uint32, and the cursor of any other folder is as it was before.
  pub last_uid-set_last_uid :
      (folder other : Text) (v u : ℕ) (w : World)
      → v ≤ max_u32
      → u ≤ max_u32
      → text_eq folder other ≡ false
      → EndsWith
          (set_last_uid folder v u >> last_uid folder)
          (λ p x. (p ≡ (v, u)) × (cursor other x.db ≡ cursor other w.db))
          w
  last_uid-set_last_uid folder other v u w v_fits u_fits differs =
      Hoare-ends _ {Q = λ p x. (p ≡ (v, u)) × (cursor other x.db ≡ cursor other w.db)}
        (Hoare-bind (λ _ x. x.db ≡ moved folder v u w.db) _ _
          (set_last_uid-Moves folder v u v_fits u_fits w)
          (λ a. record {
            at = λ x same p e.
                let (read, still) = (last_uid-Reads folder v u v_fits u_fits w).at x same p e in
                (read, ap (cursor other) still ∙ cursor-moved_other folder other v u w.db differs);
          }))
        w refl

  -- Where every call outside succeeds, LastUID behind SetLastUID returns the UIDVALIDITY and the UID that
  -- SetLastUID was given, two uint32, whatever the database holds.
  pub last_uid-set_last_uid_live :
      (folder : Text) (v u : ℕ) (w : World)
      → ((n : ℕ) → env.reply n ≡ done)
      → v ≤ max_u32
      → u ≤ max_u32
      → ((set_last_uid folder v u >> last_uid folder) w).0 ≡ ok (v, u)
  last_uid-set_last_uid_live folder v u w live v_fits u_fits =
      let both =
        Live-bind (λ _ x. x.db ≡ moved folder v u w.db) (set_last_uid folder v u)
          (λ _. last_uid folder) (moves_Live folder v u v_fits u_fits w live)
          (λ a. reads_Live folder v u v_fits u_fits w live) in
      let (p, e, q) = both.at w refl in e ∙ ap ok q
