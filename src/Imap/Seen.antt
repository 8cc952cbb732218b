-- ===== src/Imap/Seen.antt =====
-- MarkSeen: the flag is set in the mailbox that the caller meant, or not at all.
use suzie_filtering_system.Base.{
  ℕ, Text, Bool, true, false, List, ◌∷◌, ◌≡◌, refl, ◌∙◌, ap, ◌⊎◌, inl, inr, ==_iff, arith,
  if◌then◌else◌,
}
use suzie_filtering_system.World.{
  World, Env, Io, Reply, done, failed, lost, raise, wrap, ◌>>=◌, remote,
}
use suzie_filtering_system.World.Keeps.{Keeps, IsFrame}
use suzie_filtering_system.World.Hoare.{
  Hoare, EndsWith, Hoare-EndsWith, Hoare-raise, Hoare-wrap, Hoare-if, Hoare-skip, Hoare-remote,
  Always, Leads, Leads-bind,
}
use suzie_filtering_system.Imap.{add_seen, has_seen, connect, select, mark_seen}
use suzie_filtering_system.Imap.Keeps.{connect-Keeps, select-Keeps}

pub has_seen_more :
    (a b v u : ℕ) (l : List (ℕ × ℕ)) → has_seen a b l ≡ true → has_seen a b ((v, u) ∷ l) ≡ true
unfolding has_seen
has_seen_more a b v u l h = ground arith

pub has_seen_head : (v u : ℕ) (l : List (ℕ × ℕ)) → has_seen v u ((v, u) ∷ l) ≡ true
unfolding has_seen
has_seen_head v u l = ground arith

-- A flag that is there after one was added is that one or was there.
pub has_seen-cons :
    (a b v u : ℕ) (l : List (ℕ × ℕ))
    → has_seen a b ((v, u) ∷ l) ≡ true
    → (has_seen a b l ≡ true) ⊎ ((a ≡ v) × (b ≡ u))
unfolding has_seen
has_seen-cons a b v u l h = ground arith

abbrev pub SameSeen : World → World → Type 0
SameSeen u w = w.seen ≡ u.seen

pub SameSeen-IsFrame : IsFrame SameSeen
SameSeen-IsFrame = record {
  same = λ w. refl;
  trans = λ u v w g h. h ∙ g;
  tick = λ w. refl;
  undo = λ u v g. g;
}

-- At most the flag of this message was added.
abbrev pub SeenBy : ℕ → ℕ → World → World → Type 0
SeenBy v u before after = (after.seen ≡ before.seen) ⊎ (after.seen ≡ (v, u) ∷ before.seen)

module _ ⦃env : Env⦄ (v u : ℕ) where
  remote-SeenBy :
      (x : ℕ)
      → x ≡ v
      → (r : Reply) (w : World) → env.reply w.tick ≡ r
      → SeenBy v u w (remote (add_seen x u) w).1
  unfolding remote
  remote-SeenBy x e done w h = rw h (inr (ap (λ (a : ℕ). (a, u) ∷ w.seen) e))
  remote-SeenBy x e (failed m) w h = rw h (inl refl)
  remote-SeenBy x e (lost m) w h = rw h (inr (ap (λ (a : ℕ). (a, u) ∷ w.seen) e))

  guarded-SeenBy :
      (x : ℕ) (b : Bool)
      → (b ≡ true → x ≡ v)
      → (msg e : Text)
      → Leads Always (SeenBy v u) (if b then wrap msg (remote (add_seen x u)) else raise e)
  unfolding wrap
  guarded-SeenBy x true h msg e = record {
    at = λ w p. remote-SeenBy x (h refl) (env.reply w.tick) w refl;
  }
  guarded-SeenBy x false h msg e = record { at = λ w p. inl refl }

  after_steps :
      {A B : Type 0} (m : Io A) (f : A → Io B)
      → Keeps SameSeen m
      → ((a : A) → Leads Always (SeenBy v u) (f a))
      → Leads Always (SeenBy v u) (m >>= f)
  after_steps m f k h =
      Leads-bind {K = SameSeen} (λ x w e. inl e) (λ x w y e s. ground arith) (λ a. Always) m f k
        (record { at = λ w p a e. tt }) h

  -- Whatever is returned, MarkSeen sets no flag but that of the message, under the UIDVALIDITY that
  -- the caller gave.
  pub mark_seen-SeenBy : (w : World) → SeenBy v u w (mark_seen v u w).1
  unfolding mark_seen
  mark_seen-SeenBy w =
      (after_steps connect _ (connect-Keeps SameSeen-IsFrame) λ a.
          after_steps select _ (select-Keeps SameSeen-IsFrame)
            λ state. guarded-SeenBy state.uid_validity _ (==_iff state.uid_validity v).0 _ _).at
        w tt

  head_of : (x : ℕ) (l : List (ℕ × ℕ)) → x ≡ v → has_seen v u ((x, u) ∷ l) ≡ true
  unfolding has_seen
  head_of x l e = ground arith

  pub mark_seen-Hoare : Hoare Always (mark_seen v u) (λ _ w. has_seen v u w.seen ≡ true)
  unfolding mark_seen
  mark_seen-Hoare = Hoare-skip _ _ λ a. Hoare-skip _ _ λ state.
      Hoare-if _ _ _
        (λ e. Hoare-wrap _ _ (
          Hoare-remote (add_seen state.uid_validity u)
            (λ w p. head_of state.uid_validity w.seen ((==_iff state.uid_validity v).0 e))))
        (λ e. Hoare-raise _)

  -- MarkSeen fails, or it returns and the flag is then set.
  mark_seen-sets : (w : World) → EndsWith (mark_seen v u) (λ _ w. has_seen v u w.seen ≡ true) w
  mark_seen-sets w = Hoare-EndsWith _ mark_seen-Hoare w
