-- ===== src/World/Keeps.antt =====
-- Relations between the world before an action and the world after it, one rule for each way to
-- build an action, and the inversion of a chain that returns.
use suzie_filtering_system.Base.{Text, Bool, true, false, ◌≡◌, refl, ◌∙◌, if◌then◌else◌}
use suzie_filtering_system.World.{
  World, Env, Reply, done, failed, lost, Result, ok, err, Io, pure, label, wrap, rollback, ◌>>=◌,
  continue, try, next, query, exec, ask, remote, now,
}

-- A relation that chains of actions preserve, and a rollback too.
pub record IsFrame (R : World → World → Type 0) : Type 0 where
  pub same : (w : World) → R w w
  pub trans : (u v w : World) → R u v → R v w → R u w
  pub tick : (w : World) → R w (next w)
  pub undo : (u v : World) → R u v → R u (record v { db = u.db })

abbrev pub SameDb : World → World → Type 0
SameDb u w = w.db ≡ u.db

pub SameDb-IsFrame : IsFrame SameDb
SameDb-IsFrame = record {
  same = λ w. refl;
  trans = λ u v w g h. h ∙ g;
  tick = λ w. refl;
  undo = λ u v g. refl;
}

-- `m` keeps `R`, whether it returns or fails.
pub record Keeps {ℓ} {A : Type ℓ} (R : World → World → Type 0) (m : Io A) : Type ℓ where
  pub at : (w : World) → R w (m w).1

module _ {R : World → World → Type 0} (frame : IsFrame R) where
  module _ {ℓ} {A : Type ℓ} where
    pub Keeps-pure : (a : A) → Keeps R (pure a)
    Keeps-pure a = record { at = frame.same }

    pub Keeps-result : (r : Result A) → Keeps R (λ w. (r, w))
    Keeps-result r = record { at = frame.same }

    pub Keeps-wrap : (msg : Text) (m : Io A) → Keeps R m → Keeps R (wrap msg m)
    unfolding wrap
    Keeps-wrap msg m k = record { at = k.at }

    pub Keeps-try : (m : Io A) → Keeps R m → Keeps R (try m)
    unfolding try
    Keeps-try m k = record { at = k.at }

    pub Keeps-if : (b : Bool) (m n : Io A) → Keeps R m → Keeps R n → Keeps R (if b then m else n)
    Keeps-if true m n km kn = km
    Keeps-if false m n km kn = kn

    rollback_after : (w v : World) (r : Result A) → R w v → R w (rollback (λ _. (r, v)) w).1
    unfolding rollback
    rollback_after w v (ok a) h = h
    rollback_after w v (err e) h = frame.undo w v h

    pub Keeps-rollback : (m : Io A) → Keeps R m → Keeps R (rollback m)
    unfolding rollback
    Keeps-rollback m k = record { at = λ w. rollback_after w (m w).1 (m w).0 (k.at w) }

  module _ {ℓ κ} {A : Type ℓ} {B : Type κ} where
    Keeps-continue :
        (r : Result A) (f : A → Io B) → ((a : A) → Keeps R (f a)) → Keeps R (continue r f)
    Keeps-continue (ok a) f kf = kf a
    Keeps-continue (err e) f kf = record { at = frame.same }

    pub Keeps-bind :
        (m : Io A) (f : A → Io B) → Keeps R m → ((a : A) → Keeps R (f a)) → Keeps R (m >>= f)
    unfolding ◌>>=◌
    Keeps-bind m f km kf = record {
      at = λ w.
          frame.trans w (m w).1 (continue (m w).0 f (m w).1).1 (km.at w)
            ((Keeps-continue (m w).0 f kf).at (m w).1);
    }

  module _ ⦃env : Env⦄ where
    module _ {ℓ} {A : Type ℓ} where
      pub Keeps-query : (f : World → A) → Keeps R (query f)
      unfolding query
      Keeps-query f = record { at = frame.tick }

      exec_after :
          (r : Reply) (f : World → A × World)
          → ((w : World) → R w (f w).1)
          → (w : World) → env.reply w.tick ≡ r
          → R w (exec f w).1
      unfolding exec
      exec_after done f h w e =
          rw e (frame.trans w (next w) (f (next w)).1 (frame.tick w) (h (next w)))
      exec_after (failed x) f h w e = rw e (frame.tick w)
      exec_after (lost x) f h w e = rw e (frame.tick w)

      pub Keeps-exec : (f : World → A × World) → ((w : World) → R w (f w).1) → Keeps R (exec f)
      Keeps-exec f h = record { at = λ w. exec_after (env.reply w.tick) f h w refl }

    pub Keeps-ask : Keeps R ask
    unfolding ask
    Keeps-ask = Keeps-exec _ (λ w. frame.same w)

    remote_after :
        (r : Reply) (f : World → World)
        → ((w : World) → R w (f w))
        → (w : World) → env.reply w.tick ≡ r
        → R w (remote f w).1
    unfolding remote
    remote_after done f h w e =
        rw e (frame.trans w (next w) (f (next w)) (frame.tick w) (h (next w)))
    remote_after (failed x) f h w e = rw e (frame.tick w)
    remote_after (lost x) f h w e =
        rw e (frame.trans w (next w) (f (next w)) (frame.tick w) (h (next w)))

    pub Keeps-remote : (f : World → World) → ((w : World) → R w (f w)) → Keeps R (remote f)
    Keeps-remote f h = record { at = λ w. remote_after (env.reply w.tick) f h w refl }

    pub Keeps-now : Keeps R now
    unfolding now
    Keeps-now = record { at = frame.tick }

pub ruleset keeps_rules = (
  Keeps-pure, Keeps-result, Keeps-wrap, Keeps-try, Keeps-if, Keeps-rollback, Keeps-bind,
  Keeps-query, Keeps-ask, Keeps-now,
)

-- Inversion: what a chain that returns went through.
module _ {ℓ κ} {A : Type ℓ} {B : Type κ} where
  pub >>=-eq-ok :
      (m : Io A) (f : A → Io B) (w : World) {b : B}
      → ((m >>= f) w).0 ≡ ok b
      → (a : A) × ((m w).0 ≡ ok a) × ((m >>= f) w ≡ f a (m w).1)
  unfolding ◌>>=◌
  >>=-eq-ok m f w {b} h = go (m w).0 (m w).1 refl h
    where
      go :
          (r : Result A) (v : World)
          → (m w).0 ≡ r
          → (continue r f v).0 ≡ ok b
          → (a : A) × ((m w).0 ≡ ok a) × (continue (m w).0 f (m w).1 ≡ f a (m w).1)
      go (ok a) v e k = (a, e, rw e)
      go (err x) v e k = cc

module _ {ℓ} {A : Type ℓ} where
  pub label-eq-ok : (msg : Text) (r : Result A) {a : A} → label msg r ≡ ok a → r ≡ ok a
  label-eq-ok msg (ok b) h = h
  label-eq-ok msg (err e) h = cc
