-- ===== src/World/Hoare.antt =====
-- Postconditions of actions that return, and relations between the worlds before and after an
-- action that starts under a precondition, also where it fails.
use suzie_filtering_system.Base.{
  ℕ, ◌+◌, arith, Text, Bool, true, false, ◌≡◌, refl, sym, ◌∙◌, ap, subst, ◌⊎◌, inl, inr,
  if◌then◌else◌,
}
use suzie_filtering_system.World.{
  World, Env, Reply, done, failed, lost, Result, ok, err, Io, pure, raise, wrap, ◌>>=◌, continue,
  next, query, exec, ask, remote,
}
use suzie_filtering_system.World.Keeps.{Keeps, IsFrame, >>=-eq-ok, label-eq-ok}

-- From a world in `P`, a return of `a` leaves a world in `Q a`.
pub record Hoare {ℓ} {A : Type ℓ} (P : World → Type 0) (m : Io A) (Q : A → World → Type 0)
    : Type ℓ where
  pub at : (w : World) → P w → (a : A) → (m w).0 ≡ ok a → Q a (m w).1

module _ {ℓ} {A : Type ℓ} {P : World → Type 0} {Q : A → World → Type 0} where
  pub Hoare-pure : (a : A) → ((w : World) → P w → Q a w) → Hoare P (pure a) Q
  Hoare-pure a h = record { at = λ w p b e. go b (e) w p }
    where
      go : (b : A) → ok a ≡ ok b → (w : World) → P w → Q b w
      go b e w p = subst (λ x. Q x w) (cc) (h w p)

  pub Hoare-raise : (e : Text) → Hoare P (raise e) Q
  Hoare-raise e = record { at = λ w p a h. absurd (cc) }

  pub Hoare-wrap : (msg : Text) (m : Io A) → Hoare P m Q → Hoare P (wrap msg m) Q
  unfolding wrap
  Hoare-wrap msg m h = record { at = λ w p a e. h.at w p a (label-eq-ok msg (m w).0 e) }

  pub Hoare-if :
      (b : Bool) (m n : Io A)
      → (b ≡ true → Hoare P m Q)
      → (b ≡ false → Hoare P n Q)
      → Hoare P (if b then m else n) Q
  Hoare-if true m n hm hn = hm refl
  Hoare-if false m n hm hn = hn refl

  -- An action that keeps a relation under which `P` leads to `Q`, whatever is returned.
  pub Hoare-Keeps :
      {R : World → World → Type 0} (m : Io A)
      → Keeps R m
      → ((a : A) (u v : World) → P u → R u v → Q a v)
      → Hoare P m Q
  Hoare-Keeps m k h = record { at = λ w p a e. h a w (m w).1 p (k.at w) }

module _ {ℓ κ} {A : Type ℓ} {B : Type κ} where
  pub Hoare-bind :
      {P : World → Type 0} (Q : A → World → Type 0) {S : B → World → Type 0} (m : Io A)
      (f : A → Io B)
      → Hoare P m Q
      → ((a : A) → Hoare (Q a) (f a) S)
      → Hoare P (m >>= f) S
  Hoare-bind Q {S} m f hm hf = record {
    at = λ w p b e.
        let (a, em, eq) = >>=-eq-ok m f w e in
        subst (λ (x : World). S b x) (sym (ap (λ (x : Result B × World). x.1) eq))
          ((hf a).at (m w).1 (hm.at w p a em) b (sym (ap (λ (x : Result B × World). x.0) eq) ∙ e));
  }

ok-injective {ℓ} : {A : Type ℓ} (a b : A) → ok a ≡ ok b → a ≡ b
ok-injective a b h = cc

-- No precondition.
abbrev pub Always : World → Type 0
Always w = Unit

module _ {ℓ} {A : Type ℓ} where
  -- `m` fails, or returns with what `Q` says.
  abbrev pub EndsWith : Io A → (A → World → Type 0) → World → Type ℓ
  EndsWith m Q w = ((a : A) × ((m w).0 ≡ ok a) × Q a (m w).1) ⊎ ((e : Text) × ((m w).0 ≡ err e))

  pub Hoare-ends :
      {P : World → Type 0} (m : Io A) {Q : A → World → Type 0}
      → Hoare P m Q
      → (w : World) → P w
      → EndsWith m Q w
  Hoare-ends m {Q} h w p = go (m w).0 refl
    where
      go : (r : Result A) → (m w).0 ≡ r → EndsWith m Q w
      go (ok a) e = inl (a, e, h.at w p a e)
      go (err x) e = inr (x, e)

  pub Hoare-EndsWith :
      (m : Io A) {Q : A → World → Type 0} → Hoare Always m Q → (w : World) → EndsWith m Q w
  Hoare-EndsWith m h w = Hoare-ends m h w tt

module _ {ℓ κ} {A : Type ℓ} {B : Type κ} where
  -- A step of which nothing is used.
  pub Hoare-skip :
      {S : B → World → Type 0} (m : Io A) (f : A → Io B)
      → ((a : A) → Hoare Always (f a) S)
      → Hoare Always (m >>= f) S
  Hoare-skip m f hf = Hoare-bind (λ a. Always) m f (record { at = λ w p a e. tt }) hf

module _ {ℓ} ⦃env : Env⦄ {A : Type ℓ} where
  pub exec-done :
      (f : World → A × World) (w : World)
      → env.reply w.tick ≡ done
      → exec f w ≡ (ok (f (next w)).0, (f (next w)).1)
  unfolding exec
  exec-done f w e = rw e

module _ {ℓ} ⦃env : Env⦄ {A : Type ℓ} (Q : A → World → Type 0) where
  query_ends :
      (f : World → A) (w : World) (r : Reply)
      → env.reply w.tick ≡ r
      → Q (f w) (next w)
      → (a : A) → (query f w).0 ≡ ok a
      → Q a (query f w).1
  unfolding query
  query_ends f w done e q a h = subst (λ x. Q x (next w)) (cc) q
  query_ends f w (failed x) e q a h = absurd (cc)
  query_ends f w (lost x) e q a h = absurd (cc)

  exec_returned :
      (f : World → A × World) (w : World) (x : Result A × World)
      → x ≡ (ok (f (next w)).0, (f (next w)).1)
      → Q (f (next w)).0 (f (next w)).1
      → (a : A) → x.0 ≡ ok a
      → Q a x.1
  exec_returned f w x e q a h =
      subst (λ (v : World). Q a v) (sym (ap (λ (y : Result A × World). y.1) e))
        (subst (λ b. Q b (f (next w)).1)
          (ok-injective _ _ (sym (ap (λ (y : Result A × World). y.0) e) ∙ h)) q)

  exec_ends :
      (f : World → A × World) (w : World) (r : Reply)
      → env.reply w.tick ≡ r
      → Q (f (next w)).0 (f (next w)).1
      → (a : A) → (exec f w).0 ≡ ok a
      → Q a (exec f w).1
  exec_ends f w done e q a h = exec_returned f w (exec f w) (exec-done f w e) q a h
  exec_ends f w (failed x) e q a h = unfold exec in absurd (cc)
  exec_ends f w (lost x) e q a h = unfold exec in absurd (cc)

module _ {ℓ} ⦃env : Env⦄ {A : Type ℓ} {P : World → Type 0} {Q : A → World → Type 0} where
  pub Hoare-query : (f : World → A) → ((w : World) → P w → Q (f w) (next w)) → Hoare P (query f) Q
  Hoare-query f h = record { at = λ w p a e. query_ends Q f w (env.reply w.tick) refl (h w p) a e }

  pub Hoare-exec :
      (f : World → A × World)
      → ((w : World) → P w → Q (f (next w)).0 (f (next w)).1)
      → Hoare P (exec f) Q
  Hoare-exec f h = record { at = λ w p a e. exec_ends Q f w (env.reply w.tick) refl (h w p) a e }

module _ ⦃env : Env⦄ where
  remote_ends :
      (Q : Unit {0} → World → Type 0) (f : World → World) (w : World) (r : Reply)
      → env.reply w.tick ≡ r
      → Q tt (f (next w))
      → (a : Unit {0}) → (remote f w).0 ≡ ok a
      → Q a (remote f w).1
  unfolding remote
  remote_ends Q f w done e q a h = rw e q
  remote_ends Q f w (failed x) e q a h = absurd (cc)
  remote_ends Q f w (lost x) e q a h = absurd (cc)

  pub Hoare-remote :
      {P : World → Type 0} {Q : Unit {0} → World → Type 0} (f : World → World)
      → ((w : World) → P w → Q tt (f (next w)))
      → Hoare P (remote f) Q
  Hoare-remote {Q = Q} f h = record {
    at = λ w p a e. remote_ends Q f w (env.reply w.tick) refl (h w p) a e;
  }

-- From a world in `P`, the action keeps `R`, whether it returns or fails.
pub record Leads {ℓ} {A : Type ℓ} (P : World → Type 0) (R : World → World → Type 0) (m : Io A)
    : Type ℓ where
  pub at : (w : World) → P w → R w (m w).1

-- `K` is a relation that a chain may pass through before what `R` speaks of.
module _ {K R : World → World → Type 0} (weaken : (u v : World) → K u v → R u v)
    (compose : (u v w : World) → K u v → R v w → R u w) where
  module _ {ℓ κ} {A : Type ℓ} {B : Type κ} where
    leads_after :
        (Q : A → World → Type 0) (f : A → Io B) (u v : World) (r : Result A)
        → K u v
        → ((a : A) → r ≡ ok a → Q a v)
        → ((a : A) → Leads (Q a) R (f a))
        → R u (continue r f v).1
    leads_after Q f u v (ok a) k q h = compose u v _ k ((h a).at v (q a refl))
    leads_after Q f u v (err e) k q h = weaken u v k

    pub Leads-bind :
        {P : World → Type 0} (Q : A → World → Type 0) (m : Io A) (f : A → Io B)
        → Keeps K m
        → Hoare P m Q
        → ((a : A) → Leads (Q a) R (f a))
        → Leads P R (m >>= f)
    unfolding ◌>>=◌
    Leads-bind Q m f k hm hf = record {
      at = λ w p. leads_after Q f w (m w).1 (m w).0 (k.at w) (λ a e. hm.at w p a e) hf;
    }

module _ {ℓ κ} {A : Type ℓ} {B : Type κ} where
  pure_after : (b : B) (v : World) (r : Result A) → (continue r (λ _. pure b) v).1 ≡ v
  pure_after b v (ok a) = refl
  pure_after b v (err e) = refl

  -- A chain that ends in a value has done what its first part does.
  pub Leads-pure :
      {P : World → Type 0} {R : World → World → Type 0} (m : Io A) (b : B)
      → Leads P R m
      → Leads P R (m >>= λ _. pure b)
  unfolding ◌>>=◌
  Leads-pure {R = R} m b h = record {
    at = λ w p. subst (λ v. R w v) (sym (pure_after b (m w).1 (m w).0)) (h.at w p);
  }

module _ {ℓ} {A : Type ℓ} where
  -- A precondition that the action does not disturb holds beside what it establishes.
  pub Hoare-keep :
      {P I : World → Type 0} {Q : A → World → Type 0} {K : World → World → Type 0} (m : Io A)
      → Keeps K m
      → ((u v : World) → I u → K u v → I v)
      → Hoare P m Q
      → Hoare (λ w. I w × P w) m (λ a w. I w × Q a w)
  Hoare-keep m k stable h = record {
    at = λ w p a e. (stable w (m w).1 p.0 (k.at w), h.at w p.1 a e);
  }

-- The count of calls, which says when a call finds the mailbox.
abbrev pub AtTick : ℕ → World → Type 0
AtTick t w = w.tick ≡ t

module _ ⦃env : Env⦄ where
  pub ask-AtTick : (t s : ℕ) → t + 1 ≡ s → Hoare (AtTick t) ask (λ _. AtTick s)
  unfolding ask
  ask-AtTick t s h = Hoare-exec _ (λ w e. omega arith)

  pub query-AtTick {ℓ} :
      {A : Type ℓ} (t s : ℕ) (f : World → A)
      → t + 1 ≡ s
      → Hoare (AtTick t) (query f) (λ _. AtTick s)
  query-AtTick t s f h = Hoare-query f (λ w e. omega arith)

-- A chain whose first action returns only what `Q` says.
module _ {ℓ κ} {A : Type ℓ} {B : Type κ} {R : World → World → Type 0} (frame : IsFrame R)
    (Q : A → Type 0) where
  Keeps-continue_where :
      (r : Result A) (f : A → Io B)
      → ((a : A) → r ≡ ok a → Q a)
      → ((a : A) → Q a → Keeps R (f a))
      → Keeps R (continue r f)
  Keeps-continue_where (ok a) f h k = k a (h a refl)
  Keeps-continue_where (err e) f h k = record { at = frame.same }

  pub Keeps-bind_where :
      (m : Io A) (f : A → Io B)
      → Keeps R m
      → Hoare Always m (λ a w. Q a)
      → ((a : A) → Q a → Keeps R (f a))
      → Keeps R (m >>= f)
  unfolding ◌>>=◌
  Keeps-bind_where m f km hm kf = record {
    at = λ w.
        frame.trans w (m w).1 (continue (m w).0 f (m w).1).1 (km.at w)
          ((Keeps-continue_where (m w).0 f (λ a e. hm.at w tt a e) kf).at (m w).1);
  }
