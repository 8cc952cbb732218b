-- ===== src/Config/Loaded.antt =====
-- What Load returns: the error that it reports, or a configuration.
use suzie_filtering_system.Base.{
  ◌*◌, Text, codes, Bool, true, false, not, List, [], ◌∷◌, ◌++◌, append_assoc, append-nil, map,
  filter, split, join, is_empty, All, Bool-cases, ◌≡◌, ◌≢◌, refl, sym, subst, ◌∙◌, inl, inr, Option,
  none, some, if◌then◌else◌,
}
use suzie_filtering_system.Model.{ℤ, pos, is_positive}
use suzie_filtering_system.World.{Env, Result, ok, err}
use suzie_filtering_system.Config.{
  Host, Config, required, opt_str, load_allowlist, clean_address, load_timeout, and_then, load_tz,
  load_level, finish, load,
}

abbrev pub required_keys : List Text
required_keys =
    codes "IMAP_HOST"
    ∷ codes "IMAP_USER"
    ∷ codes "IMAP_PASS"
    ∷ codes "SMTP_HOST"
    ∷ codes "SMTP_USER"
    ∷ codes "SMTP_PASS"
    ∷ codes "SMTP_FROM"
    ∷ codes "DIGEST_TO"
    ∷ codes "OLLAMA_URL"
    ∷ codes "OLLAMA_MODEL"
    ∷ []

filter-All : {A : Type 0} (p : A → Bool) (xs : List A) → All (λ x. p x ≡ true) (filter p xs)
filter-All p [] = tt
filter-All p (x ∷ xs) = elim (Bool-cases (p x)) [
  | inl e ↦ rw e (e, filter-All p xs)
  | inr e ↦ rw e (filter-All p xs)
]

filter-none :
    {A : Type 0} (p : A → Bool) (xs : List A) → filter p xs ≡ [] → All (λ x. p x ≡ false) xs
filter-none p [] h = tt
filter-none p (x ∷ xs) h = go (p x) refl h (filter-none p xs)
  where
    go :
        (b : Bool)
        → p x ≡ b
        → (if b then x ∷ filter p xs else filter p xs) ≡ []
        → (filter p xs ≡ [] → All (λ y. p y ≡ false) xs)
        → (p x ≡ false) × All (λ y. p y ≡ false) xs
    go true e k rest = absurd (cc)
    go false e k rest = (e, rest k)

module _ ⦃env : Env⦄ ⦃host : Host⦄ where
  -- the required variables that are not set, in the order in which Load reads them
  abbrev pub missing_keys : List Text → List Text
  missing_keys = filter (λ key. is_empty (host.getenv key))

  -- Each required variable is a field and is not empty; the timeout is positive; no entry of the
  -- allowlist is empty.
  pub record IsLoaded (c : Config) : Type 0 where
    pub fields :
        map host.getenv required_keys
        ≡ c.imap_host ∷ c.imap_user ∷ c.imap_pass ∷ c.smtp_host ∷ c.smtp_user ∷ c.smtp_pass
          ∷ c.smtp_from ∷ c.digest_to ∷ c.ollama_url ∷ c.ollama_model ∷ []
    pub present : All (λ key. is_empty (host.getenv key) ≡ false) required_keys
    pub in_time : is_positive c.llm_timeout ≡ true
    pub entries : All (λ addr. not (is_empty addr) ≡ true) c.imap_allowlist

  pub data Loaded : Result Config → Type 0 where
    bad_timeout :
        (e : Text) → load_timeout (host.getenv (codes "LLM_TIMEOUT")) ≡ err e → Loaded (err e)
    bad_tz :
        (e : Text)
        → load_tz (opt_str (codes "TZ") (codes "America/Toronto")) ≡ err e
        → Loaded (err e)
    bad_level : (e : Text) → load_level (host.getenv (codes "LOG_LEVEL")) ≡ err e → Loaded (err e)
    incomplete :
        missing_keys required_keys ≢ []
        → Loaded (
            err (
              codes "missing required environment variables: "
              ++ join (codes ", ") (missing_keys required_keys)))
    loaded : (c : Config) → IsLoaded c → Loaded (ok c)

  abbrev required_all : List Text → List Text → List Text
  required_all [] missing = missing
  required_all (key ∷ keys) missing = required_all keys (required key missing).1

  required_all-eq :
      (keys missing : List Text) → required_all keys missing ≡ missing ++ missing_keys keys
  unfolding required
  required_all-eq [] missing = sym (append-nil missing)
  required_all-eq (key ∷ keys) missing = elim (Bool-cases (is_empty (host.getenv key))) [
    | inl e ↦ rw e (
        required_all-eq keys (missing ++ key ∷ [])
        ∙ append_assoc missing (key ∷ []) (missing_keys keys))
    | inr e ↦ rw e (required_all-eq keys missing)
  ]

  load_timeout-positive : (raw : Text) (t : ℤ) → load_timeout raw ≡ ok t → is_positive t ≡ true
  unfolding load_timeout
  load_timeout-positive raw t h = go (is_empty raw) (host.parse_duration raw) h
    where
      bad : Result ℤ
      bad = err (codes "invalid LLM_TIMEOUT: must be a positive Go duration")

      given :
          (n : ℤ) (b : Bool)
          → is_positive n ≡ b
          → (if b then ok n else bad) ≡ ok t
          → is_positive t ≡ true
      given n true e k = cc
      given n false e k = absurd (cc)

      go :
          (b : Bool) (r : Option ℤ)
          → (if b
              then ok (pos (10 * 60 * 1000000000))
              else elim r [ none ↦ bad | some n ↦ if is_positive n then ok n else bad ])
            ≡ ok t
          → is_positive t ≡ true
      go true r k =
          let same : pos (10 * 60 * 1000000000) ≡ t = cc in
          subst (λ x. is_positive x ≡ true) same refl
      go false none k = absurd (cc)
      go false (some n) k = given n (is_positive n) refl k

  load_allowlist-entries :
      (al : Text) → All (λ addr. not (is_empty addr) ≡ true) (load_allowlist al)
  unfolding load_allowlist
  load_allowlist-entries al = elim (Bool-cases (is_empty al)) [
    | inl e ↦ rw e tt
    | inr e ↦ rw e (filter-All _ (map clean_address (split b',' al)))
  ]

  finish-Loaded :
      (missing : List Text) (c : Config)
      → missing ≡ missing_keys required_keys
      → (missing ≡ [] → IsLoaded c)
      → Loaded (finish missing c)
  unfolding finish
  finish-Loaded [] c e k = loaded c (k refl)
  finish-Loaded (key ∷ keys) c e k = rw e (incomplete (λ n. absurd (cc)))

  and_then-Loaded :
      {A : Type 0} (r : Result A) (k : A → Result Config)
      → ((e : Text) → r ≡ err e → Loaded (err e))
      → ((a : A) → r ≡ ok a → Loaded (k a))
      → Loaded (and_then r k)
  and_then-Loaded (ok a) k bad good = good a refl
  and_then-Loaded (err e) k bad good = bad e refl

  -- Load reports a timeout, a time zone or a log level that is not valid; or else it reports the
  -- required variables that are empty, all of them, in order; or there is none, and it returns a
  -- configuration that holds each of them, with a positive timeout and no empty entry in the allowlist.
  pub load-Loaded : Loaded load
  unfolding load
  load-Loaded = and_then-Loaded (load_timeout _) _ bad_timeout λ timeout h.
      and_then-Loaded (load_tz _) _ bad_tz λ tz k.
        and_then-Loaded (load_level _) _ bad_level λ level l.
          finish-Loaded _ _ (required_all-eq required_keys []) λ none. record {
            fields = refl;
            present =
                filter-none (λ key. is_empty (host.getenv key)) required_keys
                  (sym (required_all-eq required_keys []) ∙ none);
            in_time = load_timeout-positive _ timeout h;
            entries = load_allowlist-entries (host.getenv (codes "IMAP_ALLOWLIST"));
          }
