-- ===== src/Llm/Valid.antt =====
-- What the client returns is always fit to be stored.
use suzie_filtering_system.Base.{
  ℕ, ◌+◌, ◌≤◌, Text, codes, Bool, true, false, not, Option, none, some, [], ◌∷◌, ◌≡◌, refl, sym,
  subst, ◌⊎◌, inl, inr, length, take, length-take, is_empty, ltb, arith, Bool-cases, if◌then◌else◌,
}
use suzie_filtering_system.Model.{Summary, Input, RawDebug, LlmOutput}
use suzie_filtering_system.World.{World, Env, Result, ok, err, Io, ◌>>=◌, continue, try, now}
use suzie_filtering_system.Llm.{
  Client, clip, check_deadline, is_date, is_action, is_tone, valid_summary, validate_output,
  validate, fallback, checked, first_answer, second_answer, timed_call, summarize,
}

-- A summary that the model gave and the client accepted.
pub record IsValid (s : Summary) : Type 0 where
  pub short : length s.text ≤ 200
  pub action : is_action s.action ≡ true
  pub tone : is_tone s.tone ≡ true
  pub deadline : (s.deadline ≡ []) ⊎ (is_date s.deadline ≡ true)
  pub status : s.status ≡ codes "ok"
  pub error : s.error ≡ []

clip_at-le : (n : ℕ) (t : Text) → length (if ltb n (length t) then take n t else t) ≤ n
clip_at-le n t = elim (Bool-cases (ltb n (length t))) [
  | inl long ↦ rw long (length-take n t)
  | inr short ↦ rw short (ground arith)
]

length-clip : (t : Text) → length (clip t) ≤ 200
unfolding clip
length-clip t = clip_at-le 200 t

dated :
    (b : Bool) (d t : Text)
    → is_date d ≡ b
    → (if b then ok d else err (codes "invalid deadline")) ≡ ok t
    → is_date t ≡ true
dated true d t e h = rw (ok-eq d t h) at e
  where
    ok-eq : (a b : Text) → ok a ≡ ok b → a ≡ b
    ok-eq a b k = cc
dated false d t e h = absurd (cc)

check_deadline-ok :
    (d : Option Text) (t : Text) → check_deadline d ≡ ok t → (t ≡ []) ⊎ (is_date t ≡ true)
unfolding check_deadline
check_deadline-ok none t h = inl (cc)
check_deadline-ok (some []) t h = inl (cc)
check_deadline-ok (some (c ∷ d)) t h = inr (dated (is_date (c ∷ d)) (c ∷ d) t refl h)

valid_summary-IsValid :
    (out : LlmOutput) (r : Result Text) (s : Summary)
    → is_action out.action_required ≡ true
    → is_tone out.tone ≡ true
    → check_deadline out.deadline ≡ r
    → valid_summary out r ≡ ok s
    → IsValid s
unfolding valid_summary
valid_summary-IsValid out (err e) s ha ht hd h = absurd (cc)
valid_summary-IsValid out (ok d) s ha ht hd h = subst IsValid (ok-eq _ _ h) (record {
  short = length-clip out.summary;
  action = ha;
  tone = ht;
  deadline = check_deadline-ok out.deadline d hd;
  status = refl;
  error = refl;
})
  where
    ok-eq : (a b : Summary) → ok a ≡ ok b → a ≡ b
    ok-eq a b k = cc

-- Every summary that `validate` accepts has at most 200 runes, an action and a tone of the lists, and
-- no deadline or a calendar date.
pub validate_output-IsValid :
    (o : Option LlmOutput) (s : Summary) → validate_output o ≡ ok s → IsValid s
unfolding validate_output
validate_output-IsValid none s h = absurd (cc)
validate_output-IsValid (some out) s h =
    go (is_empty out.summary) (is_action out.action_required) (is_tone out.tone) refl refl h
  where
    go :
        (b a t : Bool)
        → is_action out.action_required ≡ a
        → is_tone out.tone ≡ t
        → (if b
            then err (codes "empty summary")
            else if not a
            then err (codes "invalid action_required")
            else if not t
            then err (codes "invalid tone")
            else valid_summary out (check_deadline out.deadline))
          ≡ ok s
        → IsValid s
    go true a t ea et k = absurd (cc)
    go false false t ea et k = absurd (cc)
    go false true false ea et k = absurd (cc)
    go false true true ea et k = valid_summary-IsValid out _ s ea et refl k

-- What may be stored of a message: a valid summary, or the fallback with its error.
abbrev pub IsPersistable : Summary → Type 0
IsPersistable s = IsValid s ⊎ ((s.status ≡ codes "error") × (s.text ≡ codes "could not summarize"))

module _ ⦃env : Env⦄ where
  -- an answer is accepted only by `validate`
  checked-IsValid : (a : Result Text) (s : Summary) → checked a ≡ ok s → IsValid s
  unfolding validate
  checked-IsValid (ok raw) s h = validate_output-IsValid (env.decode_output raw) s h
  checked-IsValid (err e) s h = absurd (cc)

  abbrev Returns : Io (Summary × RawDebug) → World → Type 0
  Returns m w = (s : Summary) × (d : RawDebug) × ((m w).0 ≡ ok (s, d)) × IsPersistable s

  second-Returns :
      (a : Result Text) (r : Result Summary) (n : ℕ) (w : World)
      → checked a ≡ r
      → Returns (second_answer a r n) w
  unfolding fallback
  second-Returns a (ok s) n w h = (s, _, refl, inl (checked-IsValid a s h))
  second-Returns a (err e) n w h = (_, _, refl, inr (refl, refl))

  -- The clock and a call that is tried always return.
  timed_call-returns :
      (c : Client) (input : Input) (strict : Bool) (w : World)
      → (a : Result Text) × (n : ℕ) × (v : World) × (timed_call c input strict w ≡ (ok (a, n), v))
  unfolding timed_call now try ◌>>=◌
  timed_call-returns c input strict w = (_, _, _, refl)

  after-Returns :
      {A : Type 0} (m : Io A) (f : A → Io (Summary × RawDebug)) (w : World) (x : A) (v : World)
      → m w ≡ (ok x, v)
      → Returns (f x) v
      → Returns (m >>= f) w
  unfolding ◌>>=◌
  after-Returns {A} m f w x v eq h =
      subst (λ (y : Result A × World). Returns (λ _. continue y.0 f y.1) w) (sym eq) h

  first-Returns :
      (c : Client) (input : Input) (a : Result Text) (r : Result Summary) (n : ℕ) (w : World)
      → checked a ≡ r
      → Returns (first_answer c input a r n) w
  first-Returns c input a (ok s) n w h = (s, _, refl, inl (checked-IsValid a s h))
  first-Returns c input a (err e) n w h =
      let (a2, n2, v, eq) = timed_call-returns c input true w in
      after-Returns _ _ w (a2, n2) v eq (second-Returns a2 (checked a2) (n + n2) v refl)

  -- Whatever the server does, Summarize returns, with a valid summary or the fallback.
  pub summarize-IsPersistable :
      (c : Client) (input : Input) (w : World)
      → (s : Summary) × (d : RawDebug) × ((summarize c input w).0 ≡ ok (s, d)) × IsPersistable s
  unfolding summarize
  summarize-IsPersistable c input w =
      let (a, n, v, eq) = timed_call-returns c input false w in
      after-Returns _ _ w (a, n) v eq (first-Returns c input a (checked a) n v refl)
