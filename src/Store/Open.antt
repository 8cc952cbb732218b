-- ===== src/Store/Open.antt =====
-- `Open` and `Close` of internal/store/store.go. What runs outside is `Driver`: the directory, the
-- handle of database/sql, and SQLite.
use suzie_filtering_system.Base.{
  ℕ, Text, codes, Bool, true, false, Option, none, some, List, [], ◌∷◌, ◌++◌, text_eq, is_empty,
  ◌≡◌, refl, sym, ◌∙◌, subst, ◌⊎◌, inl, inr, Bool-cases, if◌then◌else◌,
}
use suzie_filtering_system.World.{Result, ok, err}

-- The statements of `Open`.
pub data Statement : Type 0 where
  journal_wal : Statement  -- PRAGMA journal_mode=WAL;
  busy_timeout : ℕ → Statement  -- PRAGMA busy_timeout=…;
  create_schema : Statement  -- the constant `schema`

-- A handle of database/sql: what ran on it, and whether it is closed.
pub record Handle : Type 0 where
  pub path : Text
  pub max_open : ℕ
  pub executed : List Statement
  pub closed : Bool

-- `none` is success. `exec` sees the handle that the statement runs on.
pub record Driver : Type 0 where
  pub dir : Text → Text
  pub mkdir_all : Text → Option Text
  pub sql_open : Text → Option Text
  pub exec : Handle → Statement → Option Text

abbrev pub memory_path : Text
memory_path = codes ":memory:"

abbrev pub close : Handle → Handle
close h = record h { closed = true }

-- What `Open` returns, and the handle that it leaves, if it made one.
abbrev pub Opening : Type 0
Opening = Result Handle × Option Handle

abbrev fail_closed : Text → Handle → Opening
fail_closed e h = (err e, some (close h))

-- A handle as `Open` returns it: open, with one connection, after the pragmas and the schema.
pub record IsReady (path : Text) (h : Handle) : Type 0 where
  pub here : h.path ≡ path
  pub single : h.max_open ≡ 1
  pub prepared : h.executed ≡ journal_wal ∷ busy_timeout 5000 ∷ create_schema ∷ []
  pub alive : h.closed ≡ false

-- No handle that is left is open.
abbrev pub NoneOpen : Option Handle → Type 0
NoneOpen none = Unit
NoneOpen (some h) = h.closed ≡ true

module _ ⦃driver : Driver⦄ where
  abbrev after_exec : Text → Statement → Handle → (Handle → Opening) → Option Text → Opening
  after_exec msg s h k none = k (record h { executed = h.executed ++ s ∷ [] })
  after_exec msg s h k (some e) = fail_closed (msg ++ e) h

  -- db.Exec: on an error the handle is closed
  pub exec_or_close : Text → Statement → Handle → (Handle → Opening) → Opening
  exec_or_close msg s h k = after_exec msg s h k (driver.exec h s)

  pub run_schema : Handle → Opening
  unfolding exec_or_close
  run_schema h =
      exec_or_close (codes "initialize schema: ") create_schema h λ ready. (ok ready, some ready)

  pub run_timeout : Handle → Opening
  unfolding exec_or_close run_schema
  run_timeout h = exec_or_close (codes "set busy timeout: ") (busy_timeout 5000) h run_schema

  pub init_handle : Handle → Opening
  unfolding exec_or_close run_timeout
  init_handle h = exec_or_close (codes "enable WAL: ") journal_wal h run_timeout

  abbrev after_open : Text → Option Text → Opening
  after_open path (some e) = (err (codes "open sqlite: " ++ e), none)
  after_open path none =
      init_handle (record { path = path; max_open = 1; executed = []; closed = false })

  abbrev make_dir : Text → Option Text
  make_dir path = if text_eq path memory_path then none else driver.mkdir_all (driver.dir path)

  abbrev after_mkdir : Text → Option Text → Opening
  after_mkdir path (some e) = (err (codes "create database directory: " ++ e), none)
  after_mkdir path none = after_open path (driver.sql_open path)

  unfoldable pub open_store : Text → Opening
  unfolding init_handle
  open_store path =
      if is_empty path
      then (err (codes "database path is empty"), none)
      else after_mkdir path (make_dir path)

  -- `Open` fails and leaves no open handle; or it returns the handle that it leaves, ready, and the path
  -- is not empty and its directory is there, unless the database is in memory.
  pub data Opens (path : Text) (o : Opening) : Type 0 where
    refused : (e : Text) → o.0 ≡ err e → NoneOpen o.1 → Opens path o
    ready :
        (h : Handle)
        → o ≡ (ok h, some h)
        → IsReady path h
        → is_empty path ≡ false
        → (text_eq path memory_path ≡ true) ⊎ (driver.mkdir_all (driver.dir path) ≡ none)
        → Opens path o

  abbrev Fails : Opening → Type 0
  Fails o = (e : Text) × (o.0 ≡ err e) × NoneOpen o.1

  exec_or_close_ends :
      (msg : Text) (s : Statement) (h : Handle) (k : Handle → Opening)
      → Fails (exec_or_close msg s h k)
        ⊎ (exec_or_close msg s h k ≡ k (record h { executed = h.executed ++ s ∷ [] }))
  unfolding exec_or_close
  exec_or_close_ends msg s h k = go (driver.exec h s)
    where
      go :
          (r : Option Text)
          → Fails (after_exec msg s h k r)
            ⊎ (after_exec msg s h k r ≡ k (record h { executed = h.executed ++ s ∷ [] }))
      go none = inr refl
      go (some e) = inl (msg ++ e, refl, refl)

  move : (o p : Opening) → o ≡ p → Fails p → Fails o
  move o p e f = subst Fails (sym e) f

  abbrev ran : Statement → Handle → Handle
  ran s h = record h { executed = h.executed ++ s ∷ [] }

  init_handle_ends :
      (h : Handle)
      → let last = ran create_schema (ran (busy_timeout 5000) (ran journal_wal h)) in
        Fails (init_handle h) ⊎ (init_handle h ≡ (ok last, some last))
  unfolding init_handle run_timeout run_schema
  init_handle_ends h =
      let h1 = ran journal_wal h in
      let h2 = ran (busy_timeout 5000) h1 in
      elim (exec_or_close_ends (codes "enable WAL: ") journal_wal h run_timeout) [
        | inl f ↦ inl f
        | inr a ↦
            elim (exec_or_close_ends (codes "set busy timeout: ") (busy_timeout 5000) h1
              run_schema) [
                | inl f ↦ inl (move _ _ a f)
                | inr b ↦
                    elim (exec_or_close_ends (codes "initialize schema: ") create_schema h2
                      (λ ready. (ok ready, some ready))) [
                        | inl f ↦ inl (move _ _ (a ∙ b) f)
                        | inr c ↦ inr (a ∙ b ∙ c)
                      ]
              ]
      ]

  -- Whatever the file system and SQLite answer: Open fails and leaves no open handle; or it returns the
  -- handle that it leaves, which is open, has one connection and has run the two pragmas and the schema,
  -- and the path is not empty, and its directory was made, unless the database is in memory.
  pub open_store-Opens : (path : Text) → Opens path (open_store path)
  unfolding open_store
  open_store-Opens path = elim (Bool-cases (is_empty path)) [
    | inl e ↦ rw e (refused _ refl tt)
    | inr named ↦ rw named (made named (make_dir path) refl)
  ]
    where
      dir_there :
          make_dir path ≡ none
          → (text_eq path memory_path ≡ true) ⊎ (driver.mkdir_all (driver.dir path) ≡ none)
      dir_there h = elim (Bool-cases (text_eq path memory_path)) [
        | inl m ↦ inl m
        | inr n ↦ inr (
            subst (λ (b : Bool). (if b then none else driver.mkdir_all (driver.dir path)) ≡ none) n
              h)
      ]

      started :
          is_empty path ≡ false
          → make_dir path ≡ none
          → (r : Option Text) → Opens path (after_open path r)
      started named dir (some e) = refused _ refl tt
      started named dir none = elim (init_handle_ends _) [
        | inl (e, failed, quiet) ↦ refused e failed quiet
        | inr h ↦
            ready _ h (record { here = refl; single = refl; prepared = refl; alive = refl }) named
              (dir_there dir)
      ]

      made :
          is_empty path ≡ false
          → (r : Option Text) → make_dir path ≡ r
          → Opens path (after_mkdir path r)
      made named (some e) h = refused _ refl tt
      made named none h = started named h (driver.sql_open path)
