-- ===== src/World/Effects.antt =====
-- What an action that returns has done to the database, and transactions: all of it or nothing.
use suzie_filtering_system.Base.{Text, ◌≡◌, refl, sym, ◌∙◌, ap, ◌⊎◌, inl, inr}
use suzie_filtering_system.Tables.{Db}
use suzie_filtering_system.World.{
  World, Env, Reply, done, failed, lost, Result, ok, err, Io, wrap, rollback, ◌>>◌, change, exec,
  ask,
}
use suzie_filtering_system.World.Keeps.{>>=-eq-ok, label-eq-ok}

-- If `m` returns, the database is changed by `F`.
pub record Does {ℓ} {A : Type ℓ} (F : Db → Db) (m : Io A) : Type ℓ where
  pub at : (w : World) (a : A) → (m w).0 ≡ ok a → (m w).1.db ≡ F w.db

module _ {ℓ} {A : Type ℓ} where
  pub Does-wrap : {F : Db → Db} (msg : Text) (m : Io A) → Does F m → Does F (wrap msg m)
  unfolding wrap
  Does-wrap msg m d = record { at = λ w a h. d.at w a (label-eq-ok msg (m w).0 h) }

  -- A transaction returns with all of its effect, or fails and has none.
  abbrev pub AllOrNothing : (Db → Db) → Io A → World → Type ℓ
  AllOrNothing F m w =
      ((a : A) × ((m w).0 ≡ ok a) × ((m w).1.db ≡ F w.db))
      ⊎ ((e : Text) × ((m w).0 ≡ err e) × ((m w).1.db ≡ w.db))

  rollback_of :
      (F : Db → Db) (w v : World) (r : Result A)
      → ((a : A) → r ≡ ok a → v.db ≡ F w.db)
      → ((a : A) × ((rollback (λ _. (r, v)) w).0 ≡ ok a)
          × ((rollback (λ _. (r, v)) w).1.db ≡ F w.db))
        ⊎ ((e : Text) × ((rollback (λ _. (r, v)) w).0 ≡ err e)
            × ((rollback (λ _. (r, v)) w).1.db ≡ w.db))
  unfolding rollback
  rollback_of F w v (ok a) h = inl (a, refl, h a refl)
  rollback_of F w v (err e) h = inr (e, refl, refl)

  pub rollback-AllOrNothing :
      {F : Db → Db} (m : Io A) → Does F m → (w : World) → AllOrNothing F (rollback m) w
  unfolding rollback
  rollback-AllOrNothing {F} m d w = rollback_of F w (m w).1 (m w).0 (d.at w)

module _ {ℓ} {B : Type ℓ} where
  pub Does-then :
      {F G : Db → Db} (m : Io (Unit {0})) (k : Io B)
      → Does F m
      → Does G k
      → Does (λ db. G (F db)) (m >> k)
  Does-then {F} {G} m k dm dk = record {
    at = λ w b h.
        let (a, em, eq) = >>=-eq-ok m (λ _. k) w h in
        ap (λ (x : Result B × World). x.1.db) eq
        ∙ dk.at (m w).1 b (sym (ap (λ (x : Result B × World). x.0) eq) ∙ h)
        ∙ ap G (dm.at w a em);
  }

module _ ⦃env : Env⦄ where
  Does-reply :
      (F : Db → Db) (w : World) (r : Reply)
      → env.reply w.tick ≡ r
      → (a : Unit {0}) → (exec (change F) w).0 ≡ ok a
      → (exec (change F) w).1.db ≡ F w.db
  unfolding exec
  Does-reply F w done e a h = rw e
  Does-reply F w (failed x) e a h = absurd (cc (rw e at h))
  Does-reply F w (lost x) e a h = absurd (cc (rw e at h))

  pub Does-sql : (F : Db → Db) → Does F (exec (change F))
  Does-sql F = record { at = λ w a h. Does-reply F w (env.reply w.tick) refl a h }

  pub Does-ask : Does (λ db. db) ask
  unfolding ask
  Does-ask = record { at = λ w a h. Does-reply (λ db. db) w (env.reply w.tick) refl a h }

pub ruleset does_rules = (Does-wrap, Does-then, Does-sql, Does-ask)
