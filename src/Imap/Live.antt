-- ===== src/Imap/Live.antt =====
-- The commands of internal/imap/imap.go, where every call outside succeeds and the mailbox keeps its
-- UIDVALIDITY: they return.
use suzie_filtering_system.Base.{
  ℕ, codes, ◌+◌, not, ◌||◌, none, List, [], ◌∷◌, map, All, ltb, ◌==◌, ==_self, Bool-cases, inl, inr,
  ◌≡◌, refl,
}
use suzie_filtering_system.Decimal.{max_u32}
use suzie_filtering_system.Model.{RawMessage}
use suzie_filtering_system.World.{Env, done, ok, intact, wrap, remote}
use suzie_filtering_system.World.Hoare.{Always}
use suzie_filtering_system.World.Live.{
  Live, Live-if, Live-pure, Returns, ask-Returns, Live-wrap, Live-bind, Live-query, Live-ask,
  Live-remote,
}
use suzie_filtering_system.Imap.{
  Item, collect, uid_range, fetch_since, fetch, connect, select, mark_seen, add_seen,
}

module _ ⦃env : Env⦄ (live : (n : ℕ) → env.reply n ≡ done) where
  pub connect-Returns : Returns connect
  unfolding connect
  connect-Returns =
      Live-bind (λ _. Always) _ _ (Live-ask live (λ w p. tt))
        λ a. Live-bind (λ _. Always) _ _ (ask-Returns live _) λ b. ask-Returns live _

  read-select : Returns select
  unfolding select
  read-select = Live-wrap _ _ (Live-query live _ (λ w p. tt))

  module _ (v : ℕ) (steady : (n : ℕ) → (env.mailbox n).uid_validity ≡ v) where
    pub select-Live : Live Always select (λ state w. state.uid_validity ≡ v)
    unfolding select
    select-Live = Live-wrap _ _ (Live-query live _ (λ w p. steady w.tick))

    pub mark_seen-Returns : (u : ℕ) → Returns (mark_seen v u)
    unfolding mark_seen
    mark_seen-Returns u =
        Live-bind (λ _. Always) _ _ connect-Returns
          λ a.
            Live-bind (λ state w. state.uid_validity ≡ v) _ _ select-Live
              λ state. record {
                at = λ w same.
                    let marks : Returns (wrap (codes "mark UID seen: ") (remote (add_seen v u))) =
                      Live-wrap _ _ (Live-remote live (add_seen v u) (λ x p. tt)) in
                    rw (same, ==_self v) (marks.at w tt);
              }

  module _ (whole : (n uid : ℕ) → env.delivery n uid ≡ intact) where
    collect-returns :
        (first : ℕ) (items : List Item) (result : List RawMessage)
        → All (λ i. i.delivery ≡ intact) items
        → (out : List RawMessage) × (collect first items result none ≡ ok out)
    unfolding collect
    collect-returns first [] result h = (result, refl)
    collect-returns first (item ∷ items) result (here, rest) =
        elim (Bool-cases (ltb item.uid first)) [
          | inl e ↦ rw e (collect-returns first items result rest)
          | inr e ↦ rw (e, here) (collect-returns first items _ rest)
        ]

    sent_whole :
        (t : ℕ) (ms : List RawMessage)
        → All
            (λ (i : Item). i.delivery ≡ intact)
            (map (λ m. record { uid = m.uid; raw = m.raw; delivery = env.delivery t m.uid }) ms)
    sent_whole t [] = tt
    sent_whole t (m ∷ ms) = (whole t m.uid, sent_whole t ms)

    fetch_since-Returns : (first : ℕ) → Returns (fetch_since first)
    unfolding fetch_since
    fetch_since-Returns first =
        Live-bind (λ items w. All (λ (i : Item). i.delivery ≡ intact) items) _ _
          (Live-query live _
            (λ w p. sent_whole w.tick (uid_range first (env.mailbox w.tick).messages)))
          λ items. record {
            at = λ w h. let (out, e) = collect-returns first items [] h in (out, e, tt);
          }

    pub fetch-Returns : (v c : ℕ) → Returns (fetch v c)
    unfolding fetch
    fetch-Returns v c =
        Live-bind (λ _. Always) _ _ connect-Returns
          λ a.
            Live-bind (λ _. Always) _ _ read-select
              λ state.
                Live-if (v == 0 || not (v == state.uid_validity)) _ _ (Live-pure _ (λ w p. tt)) (
                  Live-if (c == max_u32) _ _ (Live-pure _ (λ w p. tt)) (
                    Live-bind (λ _. Always) _ _ (Live-wrap _ _ (fetch_since-Returns (c + 1)))
                      λ ms. Live-pure _ (λ w p. tt)))
