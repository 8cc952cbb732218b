-- ===== src/Store/Cursor.antt =====
-- The synchronization cursor: what SetLastUID writes, LastUID reads.
pub mod ReadBack
use suzie_filtering_system.Base.{
  ℕ, ◌+◌, ◌≤◌, Text, codes, false, Option, none, some, ◌≡◌, refl, sym, ap, ◌∙◌, text_eq,
  text_eq_self, arith,
}
use suzie_filtering_system.Decimal.{max_u32, format_uint, parse_uint}
use suzie_filtering_system.Decimal.RoundTrip.{parse_uint-format_uint, parse_uint_bounds}
use suzie_filtering_system.Tables.{Db, Value, number, stamp, select_state}
use suzie_filtering_system.Tables.State.{select_state-upsert_state}
use suzie_filtering_system.World.{World, Env, done, Result, ok, err}
use suzie_filtering_system.World.Keeps.{SameDb-IsFrame}
use suzie_filtering_system.World.Live.{Live, Live-pure, Live-wrap, Live-bind, Live-query}
use suzie_filtering_system.World.Hoare.{
  Hoare, Hoare-pure, Hoare-wrap, Hoare-bind, Hoare-query, Hoare-keep, Always, AtTick, query-AtTick,
}
use suzie_filtering_system.World.Effects.{
  AllOrNothing, rollback-AllOrNothing, Does, Does-sql, Does-wrap, Does-then, Does-ask,
}
use suzie_filtering_system.Store.{
  validity_key, put_state, uid_key, read_uint, state_uint, last_uid, set_state, set_last_uid,
}
use suzie_filtering_system.Store.Keeps.{state_uint-Keeps}

abbrev pair_up : Result ℕ → Result ℕ → Result (ℕ × ℕ)
pair_up (err e) u = err e
pair_up (ok v) (err e) = err e
pair_up (ok v) (ok u) = ok (v, u)

-- The cursor that the database holds for a folder.
unfoldable pub cursor : Text → Db → Result (ℕ × ℕ)
cursor folder db =
    pair_up (read_uint (select_state (validity_key folder) db.state))
      (read_uint (select_state (uid_key folder) db.state))

-- What SetLastUID does.
pub moved : Text → ℕ → ℕ → Db → Db
unfolding put_state
moved folder v u db =
    put_state (uid_key folder) (number (format_uint u))
      (put_state (validity_key folder) (number (format_uint v)) db)

read_number : (n : ℕ) → n ≤ max_u32 → read_uint (some (number (format_uint n))) ≡ ok n
unfolding read_uint
read_number n h = rw (read_uint, parse_uint-format_uint n h)

keys_differ : (f g : Text) → text_eq (uid_key f) (validity_key g) ≡ false
keys_differ f g = refl

-- After SetLastUID the cursor of the folder is the one written, for any two uint32.
pub cursor-moved :
    (folder : Text) (v u : ℕ) (db : Db)
    → v ≤ max_u32
    → u ≤ max_u32
    → cursor folder (moved folder v u db) ≡ ok (v, u)
unfolding cursor moved
cursor-moved folder v u db hv hu =
    simp (select_state-upsert_state, text_eq_self, read_number v hv, read_number u hu)

read_uint_bounds : (found : Option Value) (n : ℕ) → read_uint found ≡ ok n → n ≤ max_u32
unfolding read_uint
read_uint_bounds none n h = ground arith
read_uint_bounds (some (stamp s)) n h = absurd (cc)
read_uint_bounds (some (number t)) n h = go (parse_uint t) (parse_uint_bounds t) h
  where
    go :
        (r : Option ℕ)
        → ((m : ℕ) → r ≡ some m → m ≤ max_u32)
        → elim r [ none ↦ err (codes "parse state") | some m ↦ ok m ] ≡ ok n
        → n ≤ max_u32
    go none fits k = absurd (cc)
    go (some m) fits k = fits n (cc)

-- A cursor is a pair of uint32.
pub cursor_bounds :
    (folder : Text) (v u : ℕ) (db : Db)
    → cursor folder db ≡ ok (v, u)
    → (v ≤ max_u32) × (u ≤ max_u32)
unfolding cursor
cursor_bounds folder v u db h =
    go _ _ (read_uint_bounds (select_state (validity_key folder) db.state))
      (read_uint_bounds (select_state (uid_key folder) db.state)) h
  where
    go :
        (a b : Result ℕ)
        → ((n : ℕ) → a ≡ ok n → n ≤ max_u32)
        → ((n : ℕ) → b ≡ ok n → n ≤ max_u32)
        → pair_up a b ≡ ok (v, u)
        → (v ≤ max_u32) × (u ≤ max_u32)
    go (err e) b ha hb k = absurd (cc)
    go (ok x) (err e) ha hb k = absurd (cc)
    go (ok x) (ok y) ha hb k = (ha v (cc), hb u (cc))

module _ ⦃env : Env⦄ where
  state_uint-finds :
      (key : Text)
      → Hoare Always (state_uint key) (λ n w. read_uint (select_state key w.db.state) ≡ ok n)
  unfolding state_uint
  state_uint-finds key =
      Hoare-bind (λ found w. found ≡ select_state key w.db.state) _ _
        (Hoare-wrap _ _ (Hoare-query _ (λ w p. refl)))
        (λ found. record { at = λ w p n e. ap read_uint (sym p) ∙ e })

  state_uint-AtTick :
      (key : Text) (t s : ℕ) → t + 1 ≡ s → Hoare (AtTick t) (state_uint key) (λ _. AtTick s)
  unfolding state_uint
  state_uint-AtTick key t s h =
      Hoare-bind (λ _. AtTick s) _ _ (Hoare-wrap _ _ (query-AtTick t s _ h))
        (λ found. record { at = λ w p n e. p })

  pub last_uid-AtTick :
      (folder : Text) (t : ℕ) → Hoare (AtTick t) (last_uid folder) (λ _. AtTick (t + 2))
  unfolding last_uid
  last_uid-AtTick folder t =
      Hoare-bind (λ _. AtTick (t + 1)) _ _ (state_uint-AtTick (validity_key folder) t (t + 1) refl)
        (λ v.
          Hoare-bind (λ _. AtTick (t + 2)) _ _
            (state_uint-AtTick (uid_key folder) (t + 1) (t + 2) (omega arith))
            (λ u. Hoare-pure _ (λ w p. p)))

  -- LastUID returns the cursor of the folder.
  pub last_uid-finds :
      (folder : Text) → Hoare Always (last_uid folder) (λ p w. cursor folder w.db ≡ ok p)
  unfolding last_uid cursor
  last_uid-finds folder =
      Hoare-bind
        (λ v w. (read_uint (select_state (validity_key folder) w.db.state) ≡ ok v) × Always w) _ _
        (record { at = λ w p v e. ((state_uint-finds (validity_key folder)).at w tt v e, tt) })
        (λ v.
          Hoare-bind
            (λ u w.
              (read_uint (select_state (validity_key folder) w.db.state) ≡ ok v)
              × (read_uint (select_state (uid_key folder) w.db.state) ≡ ok u))
            _ _
            (Hoare-keep _ (state_uint-Keeps SameDb-IsFrame (uid_key folder)) (λ x y e d. rw d e)
              (state_uint-finds (uid_key folder)))
            (λ u. Hoare-pure _ (λ w (a, b). rw (a, b))))

module _ ⦃env : Env⦄ where
  pub set_state-Does : (key : Text) (v : Value) → Does (put_state key v) (set_state key v)
  unfolding set_state
  set_state-Does key v = Does-wrap _ _ (Does-sql _)

  -- SetLastUID writes both keys or nothing.
  pub set_last_uid-AllOrNothing :
      (folder : Text) (v u : ℕ) (w : World)
      → AllOrNothing (moved folder v u) (set_last_uid folder v u) w
  unfolding set_last_uid moved
  set_last_uid-AllOrNothing folder v u w =
      rollback-AllOrNothing _
        (Does-then {F = λ db. db} {G = moved folder v u} _ _ (Does-wrap _ _ Does-ask) (
          Does-then {F = put_state (validity_key folder) (number (format_uint v))}
            {G = put_state (uid_key folder) (number (format_uint u))} _ _ (set_state-Does _ _)
            (Does-then {F = put_state (uid_key folder) (number (format_uint u))} {G = λ db. db} _ _
              (set_state-Does _ _) (Does-wrap _ _ Does-ask))))
        w

module _ ⦃env : Env⦄ (live : (n : ℕ) → env.reply n ≡ done) where
  state_uint-Live :
      (key : Text) (n : ℕ) (K : Db → Type 0)
      → Live
          (λ w. (read_uint (select_state key w.db.state) ≡ ok n) × K w.db)
          (state_uint key)
          (λ _ w. K w.db)
  unfolding state_uint
  state_uint-Live key n K =
      Live-bind (λ found w. (read_uint found ≡ ok n) × K w.db) _ _
        (Live-wrap _ _ (Live-query live _ (λ w p. p)))
        (λ found. record { at = λ w p. (n, p.0, p.1) })

  read_both : (a b : Result ℕ) (v u : ℕ) → pair_up a b ≡ ok (v, u) → (a ≡ ok v) × (b ≡ ok u)
  read_both (ok x) (ok y) v u h = (cc, cc)
  read_both (ok x) (err e) v u h = absurd (cc)
  read_both (err e) b v u h = absurd (cc)

  both-Live :
      (folder : Text) (v u : ℕ)
      → Live
          (λ w.
            (read_uint (select_state (validity_key folder) w.db.state) ≡ ok v)
            × ((read_uint (select_state (uid_key folder) w.db.state) ≡ ok u) × Unit {0}))
          (last_uid folder)
          (λ _ w. Unit {0})
  unfolding last_uid
  both-Live folder v u =
      Live-bind (λ _ w. (read_uint (select_state (uid_key folder) w.db.state) ≡ ok u) × Unit {0}) _
        _
        (state_uint-Live (validity_key folder) v
          (λ db. (read_uint (select_state (uid_key folder) db.state) ≡ ok u) × Unit {0}))
        (λ a.
          Live-bind (λ _ w. Unit {0}) _ _ (state_uint-Live (uid_key folder) u (λ db. Unit {0}))
            (λ b. Live-pure _ (λ w p. tt)))

  -- LastUID returns, if both numbers can be read.
  pub last_uid-Returns :
      (folder : Text) (v u : ℕ) (w : World)
      → cursor folder w.db ≡ ok (v, u)
      → (p : ℕ × ℕ) × ((last_uid folder w).0 ≡ ok p)
  unfolding cursor
  last_uid-Returns folder v u w h =
      let (a, b) = read_both _ _ v u h in
      let (p, e, q) = (both-Live folder v u).at w (a, (b, tt)) in (p, e)
