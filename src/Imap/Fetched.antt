-- ===== src/Imap/Fetched.antt =====
-- What Fetch returns: a baseline where the UIDVALIDITY is not the known one, else the messages of the
-- mailbox above the cursor, all of them and no others, in the order of their UIDs.
use suzie_filtering_system.Base.{
  ℕ, ◌+◌, Text, codes, Bool, true, false, not, ◌||◌, none, some, List, [], ◌∷◌, ◌++◌, append_assoc,
  append-nil, map, filter, ◌==◌, ◌≡◌, ◌≢◌, refl, sym, ap, subst, ◌∙◌, ◌⊎◌, inl, inr, arith, ltb,
  leb, if◌then◌else◌, Bool-cases,
}
use suzie_filtering_system.Decimal.{max_u32}
use suzie_filtering_system.Model.{RawMessage, FetchResult}
use suzie_filtering_system.World.{
  World, Env, Delivery, intact, missing, unreadable, Mailbox, ok, pure, wrap, ◌>>=◌,
}
use suzie_filtering_system.World.Hoare.{
  Hoare, Hoare-pure, Hoare-wrap, Hoare-if, Hoare-bind, Hoare-query, EndsWith, Hoare-ends, AtTick,
  ask-AtTick,
}
use suzie_filtering_system.Imap.{
  Item, collect, add_body, add_error, last_of, or_last, uid_range, sort_by_uid, latest_uid, connect,
  select, fetch_since, fetch,
}

-- The messages with a UID from `first` on.
abbrev pub from_uid : ℕ → List RawMessage → List RawMessage
from_uid first = filter (λ m. leb first m.uid)

abbrev message_of : Item → RawMessage
message_of item = record { uid = item.uid; raw = item.raw }

collect-ne-ok :
    (first : ℕ) (items : List Item) (result : List RawMessage) (e : Text) (out : List RawMessage)
    → collect first items result (some e) ≢ ok out
unfolding collect
collect-ne-ok first [] result e out h = cc
collect-ne-ok first (item ∷ items) result e out h =
    go (ltb item.uid first) item.delivery (λ r. collect-ne-ok first items r e out) h
  where
    go :
        (b : Bool) (d : Delivery)
        → ((r : List RawMessage) → collect first items r (some e) ≢ ok out)
        → collect first items
            (if b then result else add_body d item result)
            (if b then some e else add_error d (some e))
          ≢ ok out
    go true d never = never _
    go false intact never = never _
    go false missing never = never _
    go false (unreadable x) never = never _

-- If FetchSince returns, it has collected every message from `first` on that the server sent.
collect-eq :
    (first : ℕ) (items : List Item) (result out : List RawMessage)
    → collect first items result none ≡ ok out
    → out ≡ result ++ map message_of (filter (λ item. leb first item.uid) items)
unfolding collect
collect-eq first [] result out h = sym (append-nil result ∙ cc)
collect-eq first (item ∷ items) result out h =
    go (ltb item.uid first) (leb first item.uid) (ground arith) item.delivery
      (λ r. collect-eq first items r out) h
  where
    rest : List RawMessage
    rest = map message_of (filter (λ x. leb first x.uid) items)

    go :
        (b l : Bool)
        → l ≡ not b
        → (d : Delivery)
        → ((r : List RawMessage) → collect first items r none ≡ ok out → out ≡ r ++ rest)
        → collect first items
            (if b then result else add_body d item result)
            (if b then none else add_error d none)
          ≡ ok out
        → out
          ≡ result
            ++ map message_of (
                if l
                then item ∷ filter (λ x. leb first x.uid) items
                else filter (λ x. leb first x.uid) items)
    go true l e d ih k = rw e (ih result k)
    go false l e intact ih k =
        rw e
          (ih (result ++ message_of item ∷ []) k ∙ append_assoc result (message_of item ∷ []) rest)
    go false l e missing ih k = absurd (collect-ne-ok first items _ _ out k)
    go false l e (unreadable x) ih k = absurd (collect-ne-ok first items _ _ out k)

from_uid_again :
    (first : ℕ) (ms : List RawMessage) → from_uid first (from_uid first ms) ≡ from_uid first ms
from_uid_again first [] = refl
from_uid_again first (m ∷ ms) = elim (Bool-cases (leb first m.uid)) [
  | inl e ↦ rw e (rw e (ap (λ (l : List RawMessage). m ∷ l) (from_uid_again first ms)))
  | inr e ↦ rw e (from_uid_again first ms)
]

from_uid-last_of :
    (first : ℕ) (ms : List RawMessage) → from_uid first ms ≡ [] → from_uid first (last_of ms) ≡ []
unfolding last_of
from_uid-last_of first [] h = refl
from_uid-last_of first (m ∷ []) h = h
from_uid-last_of first (m ∷ n ∷ ms) h = from_uid-last_of first (n ∷ ms) (tail (leb first m.uid) h)
  where
    tail :
        (b : Bool)
        → (if b then m ∷ from_uid first (n ∷ ms) else from_uid first (n ∷ ms)) ≡ []
        → from_uid first (n ∷ ms) ≡ []
    tail true k = absurd (cc)
    tail false k = k

-- The last message, which the range first:* may add, is one below `first`.
from_uid-uid_range :
    (first : ℕ) (ms : List RawMessage) → from_uid first (uid_range first ms) ≡ from_uid first ms
unfolding uid_range
from_uid-uid_range first ms = go (from_uid first ms) refl
  where
    go :
        (hits : List RawMessage)
        → from_uid first ms ≡ hits
        → from_uid first (or_last hits ms) ≡ hits
    go [] e = from_uid-last_of first ms e
    go (h ∷ hits) e = subst (λ l. from_uid first l ≡ l) e (from_uid_again first ms)

module _ ⦃env : Env⦄ where
  abbrev item_of : ℕ → RawMessage → Item
  item_of n m = record { uid = m.uid; raw = m.raw; delivery = env.delivery n m.uid }

  map-filter-item_of :
      (n first : ℕ) (ms : List RawMessage)
      → map message_of (filter (λ item. leb first item.uid) (map (item_of n) ms))
        ≡ from_uid first ms
  map-filter-item_of n first [] = refl
  map-filter-item_of n first (m ∷ ms) = elim (Bool-cases (leb first m.uid)) [
    | inl e ↦ rw e (ap (λ (l : List RawMessage). m ∷ l) (map-filter-item_of n first ms))
    | inr e ↦ rw e (map-filter-item_of n first ms)
  ]

  -- A baseline without messages at the last UID of the mailbox, where no UIDVALIDITY is known or
  -- another one; nothing, where there is no UID above the cursor; or the messages of the mailbox
  -- above the cursor, under the known UIDVALIDITY. `t` calls were made before this one: three make
  -- the connection, the next one selects the mailbox, and one more fetches.
  pub data Fetched (t v c : ℕ) (f : FetchResult) : Type 0 where
    baseline :
        f.baseline ≡ true
        → f.uid_validity ≡ (env.mailbox (t + 3)).uid_validity
        → f.last_uid ≡ latest_uid (env.mailbox (t + 3)).uid_next
        → f.messages ≡ []
        → (v ≡ 0) ⊎ (v ≢ f.uid_validity)
        → Fetched t v c f
    full : f.baseline ≡ false → f.uid_validity ≡ v → c ≡ max_u32 → f.messages ≡ [] → Fetched t v c f
    above :
        f.baseline ≡ false
        → f.uid_validity ≡ v
        → f.messages ≡ sort_by_uid (from_uid (c + 1) (env.mailbox (t + 4)).messages)
        → Fetched t v c f

  connect-AtTick : (t : ℕ) → Hoare (AtTick t) connect (λ _. AtTick (t + 3))
  unfolding connect
  connect-AtTick t =
      Hoare-bind (λ _. AtTick (t + 1)) _ _ (ask-AtTick t (t + 1) refl)
        λ a.
          Hoare-bind (λ _. AtTick (t + 2)) _ _
            (Hoare-wrap _ _ (ask-AtTick (t + 1) (t + 2) (omega arith)))
            λ b. Hoare-wrap _ _ (ask-AtTick (t + 2) (t + 3) (omega arith))

  fetch_since-eq :
      (t first : ℕ)
      → Hoare (AtTick t) (fetch_since first) (λ ms w. ms ≡ from_uid first (env.mailbox t).messages)
  unfolding fetch_since
  fetch_since-eq t first =
      Hoare-bind (λ items w. items ≡ map (item_of t) (uid_range first (env.mailbox t).messages)) _ _
        (Hoare-query _ (λ w p. rw p refl))
        λ items. record {
          at = λ w e out h.
              collect-eq first items [] out h
              ∙ rw (e, map-filter-item_of t first (uid_range first (env.mailbox t).messages))
                  (from_uid-uid_range first (env.mailbox t).messages);
        }

  pub fetch-Hoare : (t v c : ℕ) → Hoare (AtTick t) (fetch v c) (λ f w. Fetched t v c f)
  unfolding fetch select
  fetch-Hoare t v c =
      Hoare-bind (λ _. AtTick (t + 3)) _ _ (connect-AtTick t)
        λ a.
          Hoare-bind (λ (state : Mailbox) w. (state ≡ env.mailbox (t + 3)) × AtTick (t + 4) w) _ _
            (Hoare-wrap _ _ (Hoare-query _ (λ w p. (rw p refl, omega arith))))
            λ state.
              Hoare-if (v == 0 || not (v == state.uid_validity)) _ _
                (λ e.
                  let found : FetchResult = record {
                    uid_validity = state.uid_validity;
                    last_uid = latest_uid state.uid_next;
                    baseline = true;
                    messages = [];
                  } in
                  Hoare-pure found (λ w (s, p).
                    baseline refl (ap (λ (m : Mailbox). m.uid_validity) s)
                      (ap (λ (m : Mailbox). latest_uid m.uid_next) s) refl (ground arith)))
                (λ e. known state.uid_validity (ground arith) (state ≡ env.mailbox (t + 3)))
    where
      empty : (uid_validity : ℕ) → FetchResult
      empty uid_validity = record {
        uid_validity = uid_validity;
        last_uid = c;
        baseline = false;
        messages = [];
      }

      known :
          (uid_validity : ℕ)
          → uid_validity ≡ v
          → (S : Type 0)
          → Hoare
              (λ w. S × AtTick (t + 4) w)
              (if c == max_u32 then pure (empty uid_validity) else do
                messages ← wrap (codes "fetch IMAP messages: ") (fetch_since (c + 1))
                pure (record (empty uid_validity) { messages = sort_by_uid messages }))
              (λ f w. Fetched t v c f)
      known u same S =
          Hoare-if (c == max_u32) _ _
            (λ k. Hoare-pure (empty u) (λ w p. full refl same (ground arith) refl))
            (λ k.
              Hoare-bind (λ ms w. ms ≡ from_uid (c + 1) (env.mailbox (t + 4)).messages) _ _
                (Hoare-wrap _ _ (record { at = λ w p. (fetch_since-eq (t + 4) (c + 1)).at w p.1 }))
                (λ ms.
                  Hoare-pure (record (empty u) { messages = sort_by_uid ms })
                    (λ w e. above refl same (ap sort_by_uid e))))

  pub fetch-Fetched : (v c : ℕ) (w : World) → EndsWith (fetch v c) (λ f _. Fetched w.tick v c f) w
  fetch-Fetched v c w = Hoare-ends _ (fetch-Hoare w.tick v c) w refl
