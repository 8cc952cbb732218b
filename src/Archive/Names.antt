-- ===== src/Archive/Names.antt =====
-- The file names that `safeName` makes.
use suzie_filtering_system.Base.{
  ℕ, zero, suc, ◌≤◌, Text, codes, Bool, true, false, ◌&&◌, ◌||◌, [], ◌∷◌, ◌≡◌, ◌≢◌, refl, subst,
  inl, inr, length, All, arith, is_empty, text_eq, trim, trim_left, trim_right, Bool-cases,
}
use suzie_filtering_system.Archive.{
  max_base_name, is_safe, safe_rune, sanitize, is_dot, is_bracket, safe_name, reject_dots,
}

abbrev AllSafe : Text → Type 0
AllSafe = All (λ c. is_safe c ≡ true)

safe_rune-is_safe : (r : ℕ) → is_safe (safe_rune r) ≡ true
unfolding safe_rune
safe_rune-is_safe r = elim (Bool-cases (is_safe r)) [ inl e ↦ rw e e | inr e ↦ rw e ]

sanitize-AllSafe :
    (room : ℕ) (s : Text) → AllSafe (sanitize room s) × (length (sanitize room s) ≤ room)
unfolding sanitize
sanitize-AllSafe zero s = (tt, omega arith)
sanitize-AllSafe (suc room) [] = (tt, omega arith)
sanitize-AllSafe (suc room) (r ∷ s) =
    let (safe, short) = sanitize-AllSafe room s in ((safe_rune-is_safe r, safe), omega arith)

module _ (P : ℕ → Type 0) (cut : ℕ → Bool) where
  trim_left-All :
      (s : Text) → All P s → All P (trim_left cut s) × (length (trim_left cut s) ≤ length s)
  trim_left-All [] h = (tt, omega arith)
  trim_left-All (c ∷ s) h = elim (Bool-cases (cut c)) [
    | inl e ↦ let (all, short) = trim_left-All s h.1 in rw e (all, omega arith)
    | inr e ↦ rw e (h, omega arith)
  ]

  trim_right-All :
      (s : Text) → All P s → All P (trim_right cut s) × (length (trim_right cut s) ≤ length s)
  trim_right-All [] h = (tt, omega arith)
  trim_right-All (c ∷ s) h =
      let (all, short) = trim_right-All s h.1 in
      elim (Bool-cases (cut c && is_empty (trim_right cut s))) [
        | inl e ↦ rw e (tt, omega arith)
        | inr e ↦ rw e ((h.0, all), omega arith)
      ]

-- what the cut leaves at its ends
trim_left-head :
    (cut : ℕ → Bool) (s : Text) (c : ℕ) (t : Text) → trim_left cut s ≡ c ∷ t → cut c ≡ false
trim_left-head cut [] c t h = absurd (cc)
trim_left-head cut (x ∷ s) c t h = elim (Bool-cases (cut x)) [
  | inl e ↦ trim_left-head cut s c t (rw e at h)
  | inr e ↦ subst (λ y. cut y ≡ false) (head_eq x c s t (rw e at h)) e
]
  where
    head_eq : (a b : ℕ) (l r : Text) → a ∷ l ≡ b ∷ r → a ≡ b
    head_eq a b l r k = cc

-- the first rune is not a dot, if there is one
abbrev pub NoDotFirst : Text → Type 0
NoDotFirst [] = Unit
NoDotFirst (c ∷ s) = c ≢ b'.'

trim_right-first :
    (cut : ℕ → Bool) (c : ℕ) (s : Text)
    → cut c ≡ false
    → (t : Text) × (trim_right cut (c ∷ s) ≡ c ∷ t)
trim_right-first cut c s h = (trim_right cut s, rw h)

NoDotFirst-trim : (s : Text) → NoDotFirst (trim is_dot s)
NoDotFirst-trim s = go (trim_left is_dot s) refl
  where
    go : (l : Text) → trim_left is_dot s ≡ l → NoDotFirst (trim_right is_dot l)
    go [] e = tt
    go (c ∷ l) e =
        let no_dot : is_dot c ≡ false = trim_left-head is_dot s c l e in
        let (t, eq) = trim_right-first is_dot c l no_dot in rw eq (ground arith)

-- A file name of the archive: at most 120 runes, each a letter, a digit or one of . _ -, and no dot in
-- front, so that it is neither hidden nor a way to another directory.
pub record IsFileName (name : Text) : Type 0 where
  pub safe : All (λ c. is_safe c ≡ true) name
  pub short : length name ≤ 120
  pub visible : NoDotFirst name

reject_dots-IsFileName : (name : Text) → IsFileName name → IsFileName (reject_dots name)
reject_dots-IsFileName name h = elim (Bool-cases (is_empty name || text_eq name (codes ".."))) [
  | inl e ↦ rw e (record { safe = tt; short = omega arith; visible = tt })
  | inr e ↦ rw e h
]

-- Whatever the Message-ID, `safeName` returns such a name, or the empty text.
pub safe_name-IsFileName : (message_id : Text) → IsFileName (safe_name message_id)
unfolding safe_name
safe_name-IsFileName message_id =
    let name : Text = sanitize max_base_name (trim is_bracket message_id) in
    let (safe, short) = sanitize-AllSafe max_base_name (trim is_bracket message_id) in
    let (left, left_short) = trim_left-All (λ c. is_safe c ≡ true) is_dot name safe in
    let (right, right_short) =
      trim_right-All (λ c. is_safe c ≡ true) is_dot (trim_left is_dot name) left in
    reject_dots-IsFileName _ (record {
      safe = right;
      short = le_trans _ _ _ right_short (le_trans _ _ _ left_short short);
      visible = NoDotFirst-trim name;
    })
  where
    le_trans : (a b c : ℕ) → a ≤ b → b ≤ c → a ≤ c
    le_trans a b c p q = omega arith
