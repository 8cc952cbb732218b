-- ===== src/Archive.antt =====
-- internal/archive/archive.go: writing an original message under dir/YYYY/MM. A file is its path
-- and its bytes; a temporary file is seen by nobody before os.Link gives it its name.
pub mod Keeps
pub mod Written
pub mod Names
pub mod Live
pub mod Blocked
use suzie_filtering_system.Base.{
  ℕ, zero, suc, Text, codes, Bool, true, false, ◌&&◌, ◌||◌, Option, none, some, List, [], ◌∷◌, ◌++◌,
  leb, ◌==◌, text_eq, is_empty, trim, if◌then◌else◌,
}
use suzie_filtering_system.Decimal.{format_uint}
use suzie_filtering_system.Model.{Time, is_zero}
use suzie_filtering_system.World.{
  World, Env, Result, ok, err, Io, pure, raise, lift, wrap, ◌>>=◌, ◌>>◌, query, exec, ask, now,
}

abbrev pub max_base_name : ℕ
max_base_name = 120

-- The cutset "<> \t" of Message-IDs.
abbrev pub is_bracket : ℕ → Bool
is_bracket c = c == b'<' || c == b'>' || c == b' ' || c == 9

abbrev pub is_dot : ℕ → Bool
is_dot c = c == b'.'

abbrev pub is_safe : ℕ → Bool
is_safe r =
    (leb b'a' r && leb r b'z')
    || (leb b'A' r && leb r b'Z')
    || (leb b'0' r && leb r b'9')
    || r == b'.'
    || r == b'_'
    || r == b'-'

unfoldable pub safe_rune : ℕ → ℕ
safe_rune r = if is_safe r then r else b'_'

-- The loop of `safeName`. Every rune becomes one byte, so the room left is counted down.
unfoldable pub sanitize : ℕ → Text → Text
unfolding safe_rune
sanitize zero s = []
sanitize (suc room) [] = []
sanitize (suc room) (r ∷ s) = safe_rune r ∷ sanitize room s

abbrev reject_dots : Text → Text
reject_dots name = if is_empty name || text_eq name (codes "..") then [] else name

unfoldable pub safe_name : Text → Text
unfolding sanitize
safe_name message_id =
    reject_dots (trim is_dot (sanitize max_base_name (trim is_bracket message_id)))

-- os.ReadFile: `none` is os.ErrNotExist
unfoldable pub read_file : Text → List (Text × Text) → Option Text
read_file path [] = none
read_file path ((p, raw) ∷ files) = if text_eq p path then some raw else read_file path files

-- os.Link: `false` is os.ErrExist
abbrev link_at : Option Text → Text → Text → World → Bool × World
link_at none path raw w = (true, record w { files = (path, raw) ∷ w.files })
link_at (some old) path raw w = (false, w)

unfoldable pub link : Text → Text → World → Bool × World
unfolding read_file
link path raw w = link_at (read_file path w.files) path raw w

infixr 60 ◌/◌
abbrev pub ◌/◌ : Text → Text → Text
a / b = a ++ b'/' ∷ b

abbrev pub eml : Text
eml = codes ".eml"

-- `archiveTarget` for the file stem ++ ".eml": the target, and whether it holds `raw` already.
module _ ⦃env : Env⦄ where
  alternate_target : Text → Text → Option Text → Io (Text × Bool)
  alternate_target alternate raw none = pure (alternate, false)
  alternate_target alternate raw (some existing) =
      if text_eq existing raw
      then pure (alternate, true)
      else raise (codes "archive hash collision")

  base_target : Text → Text → Option Text → Io (Text × Bool)
  unfolding alternate_target read_file
  base_target stem raw none = pure (stem ++ eml, false)
  base_target stem raw (some existing) =
      if text_eq existing raw then pure (stem ++ eml, true) else do
        let alternate = stem ++ b'-' ∷ env.hash raw ++ eml
        found ←
            wrap (codes "inspect alternate archive target: ")
              (query λ w. read_file alternate w.files)
        alternate_target alternate raw found

  pub archive_target : Text → Text → Io (Text × Bool)
  unfolding base_target read_file
  archive_target stem raw = do
    found ← wrap (codes "inspect archive target: ") (query λ w. read_file (stem ++ eml) w.files)
    base_target stem raw found

  -- After os.ErrExist the file that stands there is compared.
  accept_existing : Text → Text → Option Text → Io Text
  accept_existing target raw none = raise (codes "publish archive file: file exists")
  accept_existing target raw (some existing) =
      if text_eq existing raw
      then pure target
      else raise (codes "publish archive file: file exists")

  -- The temporary file is created, written and synced, and then published.
  pub publish : Text → Text → Io Text
  unfolding link accept_existing read_file
  publish target raw = do
    wrap (codes "create archive temp file: ") ask
    wrap (codes "set archive permissions: ") ask
    wrap (codes "write archive temp file: ") ask
    wrap (codes "sync archive temp file: ") ask
    wrap (codes "close archive temp file: ") ask
    linked ← wrap (codes "publish archive file: ") (exec (link target raw))
    if linked then pure target else do
      existing ← wrap (codes "publish archive file: ") (query λ w. read_file target w.files)
      accept_existing target raw existing

  unfoldable pub base_name : Text → ℕ → Text
  base_name name uid = if is_empty name then codes "uid-" ++ format_uint uid else name

  received_or_now : Time → Io Time
  received_or_now received = if is_zero received then now else pure received

  unfoldable pub archive_stem : Text → Time → Text → ℕ → Text
  unfolding base_name safe_name
  archive_stem dir received message_id uid =
      dir / env.year received / env.month received / base_name (safe_name message_id) uid

  pub write : Text → Time → Text → ℕ → Text → Io Text
  unfolding received_or_now archive_stem archive_target publish
  write dir received message_id uid raw = do
    received ← received_or_now received
    wrap (codes "create archive directory: ") ask
    (target, exists) ← archive_target (archive_stem dir received message_id uid) raw
    if exists then pure target else publish target raw
