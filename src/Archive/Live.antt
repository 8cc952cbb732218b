-- ===== src/Archive/Live.antt =====
-- What can stop Write of internal/archive/archive.go where every call outside succeeds: both names of the
-- message are taken by other contents.
use suzie_filtering_system.Base.{
  ℕ, codes, Text, Bool, true, false, Option, none, some, ◌++◌, ◌∷◌, ◌≡◌, refl, text_eq,
  if◌then◌else◌,
}
use suzie_filtering_system.Model.{Time, is_zero}
use suzie_filtering_system.World.{World, Env, done, pure, wrap, ◌>>=◌, query, ask, next}
use suzie_filtering_system.World.Hoare.{Always}
use suzie_filtering_system.World.Live.{
  Live, Live-if, Settles-weaken, Live-pure, Live-wrap, Live-bind, Live-query, Live-exec, Live-ask,
  Live-now, Settles, Settles-Live, Settles-raise, Settles-if, Settles-wrap, Settles-bind,
}
use suzie_filtering_system.Archive.{
  read_file, link, eml, alternate_target, base_target, archive_target, accept_existing, publish,
  received_or_now, archive_stem, write,
}

-- The file at `path` holds something else than `raw`.
abbrev pub Taken : Text → Text → World → Type 0
Taken path raw w = (old : Text) × (read_file path w.files ≡ some old) × (text_eq old raw ≡ false)

module _ ⦃env : Env⦄ where
  -- Both names of the message are taken.
  abbrev pub Clash : Text → Text → World → Type 0
  Clash stem raw w = Taken (stem ++ eml) raw w × Taken (stem ++ b'-' ∷ env.hash raw ++ eml) raw w

  -- Both names are taken, for a message that was received at some time.
  abbrev pub Clashes : Text → Text → ℕ → Text → World → Type 0
  Clashes dir message_id uid raw w =
      (received : Time) × Clash (archive_stem dir received message_id uid) raw w

  -- Where a file is to be made, there is none.
  abbrev Vacant : Text × Bool → World → Type 0
  Vacant (path, exists) w = exists ≡ false → read_file path w.files ≡ none

  module _ (live : (n : ℕ) → env.reply n ≡ done) (raw : Text) where
    alternate_target-Settles :
        (stem : Text) (o : Option Text)
        → let path = stem ++ b'-' ∷ env.hash raw ++ eml in
          Settles
            (λ w. Taken (stem ++ eml) raw w × (read_file path w.files ≡ o))
            (alternate_target path raw o)
            Vacant
            (Clash stem raw)
    unfolding alternate_target
    alternate_target-Settles stem none = Settles-Live _ (Live-pure _ (λ w p _. p.1))
    alternate_target-Settles stem (some existing) =
        Settles-if (text_eq existing raw) _ _
          (λ e. Settles-Live _ (Live-pure _ (λ w p k. absurd (cc))))
          (λ e. Settles-raise _ (λ w p. (p.0, (existing, p.1, e))))

    base_target-Settles :
        (stem : Text) (o : Option Text)
        → Settles
            (λ w. read_file (stem ++ eml) w.files ≡ o)
            (base_target stem raw o)
            Vacant
            (Clash stem raw)
    unfolding base_target
    base_target-Settles stem none = Settles-Live _ (Live-pure _ (λ w p _. p))
    base_target-Settles stem (some existing) =
        Settles-if (text_eq existing raw) _ _
          (λ e. Settles-Live _ (Live-pure _ (λ w p k. absurd (cc))))
          (λ e.
            Settles-bind (λ o w. Taken (stem ++ eml) raw w × (read_file _ w.files ≡ o)) _ _
              (Settles-wrap _ _
                (Settles-Live _ (Live-query live _ (λ w p. ((existing, p, e), refl)))))
              (λ o. alternate_target-Settles stem o))

    archive_target-Settles :
        (stem : Text) → Settles Always (archive_target stem raw) Vacant (Clash stem raw)
    unfolding archive_target
    archive_target-Settles stem =
        Settles-bind (λ o w. read_file (stem ++ eml) w.files ≡ o) _ _
          (Settles-wrap _ _ (Settles-Live _ (Live-query live _ (λ w p. refl))))
          (λ o. base_target-Settles stem o)

    ask-Vacant :
        (path msg : Text)
        → Live
            (λ w. read_file path w.files ≡ none)
            (wrap msg ask)
            (λ _ w. read_file path w.files ≡ none)
    ask-Vacant path msg = Live-wrap _ _ (Live-ask live (λ w p. p))

    link_vacant :
        (path : Text) (w : World) → read_file path w.files ≡ none → (link path raw w).0 ≡ true
    unfolding link
    link_vacant path w h = rw h refl

    publish-Live :
        (path : Text) → Live (λ w. read_file path w.files ≡ none) (publish path raw) (λ _. Always)
    unfolding publish
    publish-Live path = Live-bind _ _ _ (ask-Vacant path _) λ a.
        Live-bind _ _ _ (ask-Vacant path _) λ b. Live-bind _ _ _ (ask-Vacant path _) λ c.
          Live-bind _ _ _ (ask-Vacant path _) λ d. Live-bind _ _ _ (ask-Vacant path _) λ e.
            Live-bind (λ linked w. linked ≡ true) _ _
              (Live-wrap _ _ (Live-exec live (link path raw) (λ w p. link_vacant path (next w) p)))
              linked_Live
      where
        linked_Live :
            (linked : Bool)
            → Live
                (λ w. linked ≡ true)
                (if linked then pure path else do
                  existing ←
                      wrap (codes "publish archive file: ") (query λ w. read_file path w.files)
                  accept_existing path raw existing)
                (λ _. Always)
        linked_Live true = Live-pure _ (λ w p. tt)
        linked_Live false = record { at = λ w p. absurd (cc) }

    received-Live : (received : Time) → Live Always (received_or_now received) (λ _. Always)
    unfolding received_or_now
    received-Live received =
        Live-if (is_zero received) _ _ (Live-now live (λ w p. tt)) (Live-pure _ (λ w p. tt))

    -- Where every call outside succeeds, Write returns, or both names of the message are taken.
    pub write-Settles :
        (dir : Text) (received : Time) (message_id : Text) (uid : ℕ)
        → Settles Always
            (write dir received message_id uid raw)
            (λ _. Always)
            (Clashes dir message_id uid raw)
    unfolding write
    write-Settles dir received message_id uid =
        Settles-bind (λ _. Always) _ _ (Settles-Live _ (received-Live received))
          λ at.
            Settles-bind (λ _. Always) _ _
              (Settles-wrap _ _ (Settles-Live _ (Live-ask live (λ w p. tt))))
              λ made.
                Settles-bind Vacant _ _
                  (Settles-weaken _ (λ w c. (at, c))
                    (archive_target-Settles (archive_stem dir at message_id uid)))
                  (λ (target, exists).
                    Settles-if exists _ _ (λ e. Settles-Live _ (Live-pure _ (λ w p. tt)))
                      (λ e.
                        Settles-Live _ (record { at = λ w p. (publish-Live target).at w (p e) })))
