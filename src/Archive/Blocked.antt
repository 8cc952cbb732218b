-- ===== src/Archive/Blocked.antt =====
-- Write of internal/archive/archive.go where both names of the message are taken by other contents.
use suzie_filtering_system.Base.{
  ℕ, Text, false, Option, none, some, ◌++◌, ◌≡◌, refl, text_eq, inl, inr, subst, sym,
}
use suzie_filtering_system.Model.{Time, is_zero}
use suzie_filtering_system.World.{World, Env, err, wrap, ask}
use suzie_filtering_system.World.Hoare.{
  Hoare, Hoare-pure, Hoare-raise, Hoare-wrap, Hoare-if, Hoare-bind, Hoare-query, Hoare-exec,
  Hoare-ends,
}
use suzie_filtering_system.Archive.{
  read_file, eml, alternate_target, base_target, archive_target, received_or_now, archive_stem,
  write,
}
use suzie_filtering_system.Archive.Live.{Taken, Clash}

module _ ⦃env : Env⦄ (raw : Text) where
  -- No world is left, since the action does not return.
  abbrev Never {ℓ} : {A : Type ℓ} → A → World → Type 0
  Never a w = ⊥

  other :
      (o : Option Text) (old : Text)
      → o ≡ some old
      → text_eq old raw ≡ false
      → (existing : Text) → o ≡ some existing
      → text_eq existing raw ≡ false
  other o old e h existing k =
      let same : old ≡ existing = cc in subst (λ x. text_eq x raw ≡ false) same h

  alternate_target-Never :
      (path : Text) (o : Option Text)
      → Hoare
          (λ w. Taken path raw w × (read_file path w.files ≡ o))
          (alternate_target path raw o)
          Never
  unfolding alternate_target
  alternate_target-Never path none = record { at = λ w ((old, e, h), k). absurd (cc) }
  alternate_target-Never path (some existing) =
      Hoare-if (text_eq existing raw) _ _
        (λ same. record {
          at = λ w ((old, e, h), k).
              let differs = other (read_file path w.files) old e h existing k in absurd (cc);
        })
        (λ differs. Hoare-raise _)

  base_target-Never :
      (stem : Text) (o : Option Text)
      → Hoare
          (λ w. Clash stem raw w × (read_file (stem ++ eml) w.files ≡ o))
          (base_target stem raw o)
          Never
  unfolding base_target
  base_target-Never stem none = record { at = λ w (((old, e, h), alternate), k). absurd (cc) }
  base_target-Never stem (some existing) =
      Hoare-if (text_eq existing raw) _ _
        (λ same. record {
          at = λ w (((old, e, h), alternate), k).
              let differs = other (read_file (stem ++ eml) w.files) old e h existing k in
              absurd (cc);
        })
        (λ differs.
          Hoare-bind (λ o w. Taken _ raw w × (read_file _ w.files ≡ o)) _ _
            (Hoare-wrap _ _ (Hoare-query _ (λ w p. (p.0.1, refl))))
            (λ o. alternate_target-Never _ o))

  archive_target-Never : (stem : Text) → Hoare (Clash stem raw) (archive_target stem raw) Never
  unfolding archive_target
  archive_target-Never stem =
      Hoare-bind (λ o w. Clash stem raw w × (read_file (stem ++ eml) w.files ≡ o)) _ _
        (Hoare-wrap _ _ (Hoare-query _ (λ w p. (p, refl)))) (λ o. base_target-Never stem o)

  ask-Clash :
      (stem : Text) (at received : Time) (msg : Text)
      → Hoare
          (λ w. Clash stem raw w × (at ≡ received))
          (wrap msg ask)
          (λ _ w. Clash stem raw w × (at ≡ received))
  unfolding ask
  ask-Clash stem at received msg = Hoare-wrap _ _ (Hoare-exec _ (λ w p. p))

  target-Never :
      (dir message_id : Text) (uid : ℕ) (at received : Time)
      → Hoare
          (λ w. Clash (archive_stem dir received message_id uid) raw w × (at ≡ received))
          (archive_target (archive_stem dir at message_id uid) raw)
          Never
  target-Never dir message_id uid at received = record {
    at = λ w p.
        (archive_target-Never (archive_stem dir at message_id uid)).at w
          (subst (λ t. Clash (archive_stem dir t message_id uid) raw w) (sym p.1) p.0);
  }

  write-Never :
      (dir : Text) (received : Time) (message_id : Text) (uid : ℕ)
      → is_zero received ≡ false
      → Hoare
          (Clash (archive_stem dir received message_id uid) raw)
          (write dir received message_id uid raw)
          Never
  unfolding write received_or_now
  write-Never dir received message_id uid known =
      let stem = archive_stem dir received message_id uid in
      rw known (
        Hoare-bind (λ at w. Clash stem raw w × (at ≡ received)) _ _
          (Hoare-pure received (λ w p. (p, refl)))
          (λ at.
            Hoare-bind (λ _ w. Clash stem raw w × (at ≡ received)) _ _
              (ask-Clash stem at received _)
              (λ made.
                Hoare-bind Never _ _ (target-Never dir message_id uid at received)
                  (λ t. record { at = λ w never. absurd never }))))

  -- Whatever else happens: if the message has a time, and both of its names in the archive are taken by
  -- files with other contents, Write fails.
  pub write-Blocked :
      (dir : Text) (received : Time) (message_id : Text) (uid : ℕ) (w : World)
      → is_zero received ≡ false
      → Clash (archive_stem dir received message_id uid) raw w
      → (e : Text) × ((write dir received message_id uid raw w).0 ≡ err e)
  write-Blocked dir received message_id uid w known clash =
      elim (Hoare-ends _ (write-Never dir received message_id uid known) w clash) [
        | inl (path, e, never) ↦ absurd never
        | inr failed ↦ failed
      ]
