-- ===== src/World/Live.antt =====
-- Actions that return: the rules for a world where every call outside succeeds.
use suzie_filtering_system.Base.{
  ℕ, Text, Bool, true, false, ◌++◌, ◌≡◌, refl, ap, ◌∙◌, subst, sym, ◌⊎◌, inl, inr, if◌then◌else◌,
}
use suzie_filtering_system.Model.{Time}
use suzie_filtering_system.World.Hoare.{Always}
use suzie_filtering_system.World.{
  World, Env, done, Result, ok, err, Io, pure, raise, wrap, label, rollback, settle, ◌>>=◌, next,
  query, exec, ask, remote, now,
}

-- From a world in `P` the action returns some `a`, and leaves a world in `Q a`.
pub record Live {ℓ} {A : Type ℓ} (P : World → Type 0) (m : Io A) (Q : A → World → Type 0)
    : Type ℓ where
  pub at : (w : World) → P w → (a : A) × ((m w).0 ≡ ok a) × Q a (m w).1

module _ {ℓ} {A : Type ℓ} {P : World → Type 0} {Q : A → World → Type 0} where
  pub Live-pure : (a : A) → ((w : World) → P w → Q a w) → Live P (pure a) Q
  Live-pure a h = record { at = λ w p. (a, refl, h w p) }

  pub Live-if : (b : Bool) (m n : Io A) → Live P m Q → Live P n Q → Live P (if b then m else n) Q
  Live-if true m n hm hn = hm
  Live-if false m n hm hn = hn

  -- A fact that the precondition holds.
  pub Live-fact : {F : Type 0} (m : Io A) → (F → Live P m Q) → Live (λ w. F × P w) m Q
  Live-fact m h = record { at = λ w p. (h p.0).at w p.1 }

  pub Live-post :
      {S : A → World → Type 0} (m : Io A)
      → ((a : A) (w : World) → Q a w → S a w)
      → Live P m Q
      → Live P m S
  Live-post m f h = record { at = λ w p. let (a, e, q) = h.at w p in (a, e, f a (m w).1 q) }

  pub Live-wrap : (msg : Text) (m : Io A) → Live P m Q → Live P (wrap msg m) Q
  unfolding wrap
  Live-wrap msg m h = record { at = λ w p. let (a, e, q) = h.at w p in (a, ap (label msg) e, q) }

module _ {ℓ κ} {A : Type ℓ} {B : Type κ} where
  pub Live-bind :
      {P : World → Type 0} (Q : A → World → Type 0) {S : B → World → Type 0} (m : Io A)
      (f : A → Io B)
      → Live P m Q
      → ((a : A) → Live (Q a) (f a) S)
      → Live P (m >>= f) S
  unfolding ◌>>=◌
  Live-bind Q m f hm hf = record {
    at = λ w p. let (a, e, q) = hm.at w p in rw e ((hf a).at (m w).1 q);
  }

settle-ok {ℓ} :
    {A : Type ℓ} (w v : World) (a : A) (r : Result A) → r ≡ ok a → settle w (r, v) ≡ (r, v)
settle-ok w v a (ok b) h = refl
settle-ok w v a (err e) h = absurd (cc)

module _ {ℓ} {A : Type ℓ} {P : World → Type 0} {Q : A → World → Type 0} where
  -- A transaction that commits.
  pub Live-rollback : (m : Io A) → Live P m Q → Live P (rollback m) Q
  unfolding rollback
  Live-rollback m h = record {
    at = λ w p.
        let (a, e, q) = h.at w p in
        let same = settle-ok w (m w).1 a (m w).0 e in
        (
          a,
          ap (λ (x : Result A × World). x.0) same ∙ e,
          subst (λ (x : Result A × World). Q a x.1) (sym same) q,
        );
  }

module _ ⦃env : Env⦄ (live : (n : ℕ) → env.reply n ≡ done) where
  module _ {ℓ} {A : Type ℓ} {P : World → Type 0} {Q : A → World → Type 0} where
    pub Live-query : (f : World → A) → ((w : World) → P w → Q (f w) (next w)) → Live P (query f) Q
    unfolding query
    Live-query f h = record { at = λ w p. (f w, rw (live w.tick) refl, h w p) }

    pub Live-exec :
        (f : World → A × World)
        → ((w : World) → P w → Q (f (next w)).0 (f (next w)).1)
        → Live P (exec f) Q
    unfolding exec
    Live-exec f h = record {
      at = λ w p. ((f (next w)).0, rw (live w.tick) refl, rw (live w.tick) (h w p));
    }

  module _ {P : World → Type 0} {Q : Unit {0} → World → Type 0} where
    pub Live-ask : ((w : World) → P w → Q tt (next w)) → Live P ask Q
    unfolding ask
    Live-ask h = Live-exec _ h

    pub Live-remote :
        (f : World → World) → ((w : World) → P w → Q tt (f (next w))) → Live P (remote f) Q
    unfolding remote
    Live-remote f h = record { at = λ w p. (tt, rw (live w.tick) refl, rw (live w.tick) (h w p)) }

  pub Live-now :
      {P : World → Type 0} {Q : Time → World → Type 0}
      → ((w : World) → P w → Q (env.clock w.tick) (next w))
      → Live P now Q
  unfolding now
  Live-now h = record { at = λ w p. (env.clock w.tick, refl, h w p) }

-- From a world in `P` the action returns some `a` and leaves a world in `Q a`, or it fails and leaves one
-- in `E`.
pub record Settles {ℓ} {A : Type ℓ} (P : World → Type 0) (m : Io A) (Q : A → World → Type 0)
    (E : World → Type 0) : Type ℓ where
  pub at :
      (w : World)
      → P w
      → ((a : A) × ((m w).0 ≡ ok a) × Q a (m w).1) ⊎ ((e : Text) × ((m w).0 ≡ err e) × E (m w).1)

module _ {ℓ} {A : Type ℓ} {P : World → Type 0} {Q : A → World → Type 0} {E : World → Type 0} where
  pub Settles-Live : (m : Io A) → Live P m Q → Settles P m Q E
  Settles-Live m h = record { at = λ w p. inl (h.at w p) }

  pub Settles-raise : (e : Text) → ((w : World) → P w → E w) → Settles P (raise e) Q E
  Settles-raise e h = record { at = λ w p. inr (e, refl, h w p) }

  pub Settles-if :
      (b : Bool) (m n : Io A)
      → (b ≡ true → Settles P m Q E)
      → (b ≡ false → Settles P n Q E)
      → Settles P (if b then m else n) Q E
  Settles-if true m n hm hn = hm refl
  Settles-if false m n hm hn = hn refl

  pub Settles-weaken :
      {F : World → Type 0} (m : Io A)
      → ((w : World) → E w → F w)
      → Settles P m Q E
      → Settles P m Q F
  Settles-weaken m f h = record {
    at = λ w p. elim (h.at w p) [ inl r ↦ inl r | inr (x, e, k) ↦ inr (x, e, f (m w).1 k) ];
  }

  pub Settles-wrap : (msg : Text) (m : Io A) → Settles P m Q E → Settles P (wrap msg m) Q E
  unfolding wrap
  Settles-wrap msg m h = record {
    at = λ w p. elim (h.at w p) [
      | inl (a, e, q) ↦ inl (a, ap (label msg) e, q)
      | inr (x, e, k) ↦ inr (msg ++ x, ap (label msg) e, k)
    ];
  }

module _ {ℓ κ} {A : Type ℓ} {B : Type κ} where
  pub Settles-bind :
      {P E : World → Type 0} (Q : A → World → Type 0) {S : B → World → Type 0} (m : Io A)
      (f : A → Io B)
      → Settles P m Q E
      → ((a : A) → Settles (Q a) (f a) S E)
      → Settles P (m >>= f) S E
  unfolding ◌>>=◌
  Settles-bind Q m f hm hf = record {
    at = λ w p. elim (hm.at w p) [
      | inl (a, e, q) ↦ rw e ((hf a).at (m w).1 q)
      | inr (x, e, k) ↦ rw e (inr (x, refl, k))
    ];
  }

-- The action returns, from any world.
abbrev pub Returns {ℓ} : {A : Type ℓ} → Io A → Type ℓ
Returns m = Live Always m (λ _. Always)

module _ ⦃env : Env⦄ (live : (n : ℕ) → env.reply n ≡ done) where
  pub ask-Returns : (msg : Text) → Returns (wrap msg ask)
  ask-Returns msg = Live-wrap _ _ (Live-ask live (λ w p. tt))
