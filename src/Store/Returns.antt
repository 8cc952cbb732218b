-- ===== src/Store/Returns.antt =====
-- Operations of the store that the poll job calls: they return, where every call outside succeeds.
use suzie_filtering_system.Base.{ℕ, Text, ◌≡◌}
use suzie_filtering_system.Model.{EmailRow}
use suzie_filtering_system.World.{Env, done}
use suzie_filtering_system.World.Hoare.{Always}
use suzie_filtering_system.World.Live.{
  Returns, ask-Returns, Live-pure, Live-wrap, Live-bind, Live-rollback, Live-query, Live-exec,
}
use suzie_filtering_system.Store.{set_state, set_last_uid, insert_email, email_exists}

module _ ⦃env : Env⦄ (live : (n : ℕ) → env.reply n ≡ done) where
  pub set_last_uid-Returns : (folder : Text) (v u : ℕ) → Returns (set_last_uid folder v u)
  unfolding set_last_uid set_state
  set_last_uid-Returns folder v u = Live-rollback _ (
      Live-bind (λ _. Always) _ _ (ask-Returns live _)
        λ a.
          Live-bind (λ _. Always) _ _ (Live-wrap _ _ (Live-exec live _ (λ w p. tt)))
            λ b.
              Live-bind (λ _. Always) _ _ (Live-wrap _ _ (Live-exec live _ (λ w p. tt)))
                λ c. ask-Returns live _)

  pub email_exists-Returns : (v u : ℕ) (id : Text) → Returns (email_exists v u id)
  unfolding email_exists
  email_exists-Returns v u id = Live-wrap _ _ (Live-query live _ (λ w p. tt))

  pub insert_email-Returns : (row : EmailRow) → Returns (insert_email row)
  unfolding insert_email
  insert_email-Returns row =
      Live-bind (λ _. Always) _ _ (Live-wrap _ _ (Live-exec live _ (λ w p. tt)))
        λ n. Live-pure _ (λ w p. tt)
