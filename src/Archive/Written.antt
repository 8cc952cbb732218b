-- ===== src/Archive/Written.antt =====
-- What a successful archiving leaves: the file at the path that it returns holds the message.
use suzie_filtering_system.Base.{
  ℕ, Text, codes, Bool, true, false, Option, none, some, ◌++◌, ◌≡◌, refl, ap, ◌∙◌, text_eq,
  text_eq→eq, text_eq_self, arith, if◌then◌else◌,
}
use suzie_filtering_system.Model.{Time}
use suzie_filtering_system.World.{World, Env, pure, wrap, ◌>>=◌, query, next}
use suzie_filtering_system.World.Hoare.{
  Hoare, EndsWith, Hoare-EndsWith, Hoare-pure, Hoare-raise, Hoare-wrap, Hoare-if, Hoare-bind,
  Hoare-query, Hoare-exec, Hoare-skip, Always,
}
use suzie_filtering_system.Archive.{
  read_file, link, archive_target, base_target, alternate_target, accept_existing, publish, eml,
  write,
}

-- The file at `path` holds `raw`.
abbrev pub Holds : Text → Text → World → Type 0
Holds raw path w = read_file path w.files ≡ some raw

-- The target is there already, if the flag says so.
abbrev Ready : Text → Text × Bool → World → Type 0
Ready raw (path, exists) w = exists ≡ true → Holds raw path w

module _ ⦃env : Env⦄ (raw : Text) where
  alternate_target-Ready :
      (path : Text) (o : Option Text)
      → Hoare (λ w. read_file path w.files ≡ o) (alternate_target path raw o) (Ready raw)
  unfolding alternate_target
  alternate_target-Ready path none = Hoare-pure _ (λ w h e. absurd (cc))
  alternate_target-Ready path (some existing) =
      Hoare-if (text_eq existing raw) _ _
        (λ e. Hoare-pure _ (λ w h _. h ∙ ap some (text_eq→eq existing raw e))) (λ e. Hoare-raise _)

  base_target-Ready :
      (stem : Text) (o : Option Text)
      → Hoare (λ w. read_file (stem ++ eml) w.files ≡ o) (base_target stem raw o) (Ready raw)
  unfolding base_target
  base_target-Ready stem none = Hoare-pure _ (λ w h e. absurd (cc))
  base_target-Ready stem (some existing) =
      Hoare-if (text_eq existing raw) _ _
        (λ e. Hoare-pure _ (λ w h _. h ∙ ap some (text_eq→eq existing raw e)))
        (λ e.
          Hoare-bind (λ o w. read_file _ w.files ≡ o) _ _
            (Hoare-wrap _ _ (Hoare-query _ (λ w h. refl))) (λ o. alternate_target-Ready _ o))

  archive_target-Ready : (stem : Text) → Hoare Always (archive_target stem raw) (Ready raw)
  unfolding archive_target
  archive_target-Ready stem =
      Hoare-bind (λ o w. read_file (stem ++ eml) w.files ≡ o) _ _
        (Hoare-wrap _ _ (Hoare-query _ (λ w h. refl))) (λ o. base_target-Ready stem o)

  accept_existing-Holds :
      (path : Text) (o : Option Text)
      → Hoare (λ w. read_file path w.files ≡ o) (accept_existing path raw o) (Holds raw)
  unfolding accept_existing
  accept_existing-Holds path none = Hoare-raise _
  accept_existing-Holds path (some existing) =
      Hoare-if (text_eq existing raw) _ _
        (λ e. Hoare-pure _ (λ w h. h ∙ ap some (text_eq→eq existing raw e))) (λ e. Hoare-raise _)

  link_linked :
      (path : Text) (w : World) → (link path raw w).0 ≡ true → Holds raw path (link path raw w).1
  unfolding link
  link_linked path w h = ground (arith, text_eq_self path)

  after_link :
      (path : Text) (linked : Bool)
      → Hoare
          (λ w. linked ≡ true → Holds raw path w)
          (if linked then pure path else do
            existing ← wrap (codes "publish archive file: ") (query λ w. read_file path w.files)
            accept_existing path raw existing)
          (Holds raw)
  after_link path true = Hoare-pure _ (λ w h. h refl)
  after_link path false =
      Hoare-bind (λ o w. read_file path w.files ≡ o) _ _
        (Hoare-wrap _ _ (Hoare-query _ (λ w h. refl))) (λ o. accept_existing-Holds path o)

  publish-Holds : (path : Text) → Hoare Always (publish path raw) (Holds raw)
  unfolding publish
  publish-Holds path = Hoare-skip _ _ λ a. Hoare-skip _ _ λ b. Hoare-skip _ _ λ c.
      Hoare-skip _ _ λ d. Hoare-skip _ _ λ e.
        Hoare-bind (λ linked w. linked ≡ true → Holds raw path w) _ _
          (Hoare-wrap _ _ (Hoare-exec (link path raw) (λ w _. link_linked path (next w))))
          (after_link path)

  pub write-Hoare :
      (dir : Text) (received : Time) (message_id : Text) (uid : ℕ)
      → Hoare Always (write dir received message_id uid raw) (Holds raw)
  unfolding write
  write-Hoare dir received message_id uid = Hoare-skip _ _ λ time. Hoare-skip _ _ λ made.
      Hoare-bind (Ready raw) _ _ (archive_target-Ready _) λ (target, exists).
        Hoare-if exists _ _ (λ e. Hoare-pure _ (λ w h. h e))
          (λ e. record { at = λ w h. (publish-Holds target).at w tt })

  -- `Write` fails, or it returns a path, and the file at that path then holds exactly the message.
  pub write-Holds :
      (dir : Text) (received : Time) (message_id : Text) (uid : ℕ) (w : World)
      → EndsWith (write dir received message_id uid raw) (Holds raw) w
  write-Holds dir received message_id uid w =
      Hoare-EndsWith _ (write-Hoare dir received message_id uid) w
