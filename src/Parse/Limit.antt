-- ===== src/Parse/Limit.antt =====
-- The limit on the body of a parsed message.
use suzie_filtering_system.Base.{
  ℕ, zero, suc, ◌≤◌, ◌<◌, Text, true, false, ◌⊎◌, inl, inr, none, some, [], ◌∷◌, ◌++◌, ◌≡◌, ◌≢◌,
  refl, sym, length, take, drop, take-drop, Bool-cases, arith,
}
use suzie_filtering_system.Model.{Parsed, Envelope, empty_parsed}
use suzie_filtering_system.World.{Env}
use suzie_filtering_system.Parse.{clean_body, is_over, parse_envelope, message}

-- The body of `p` is the whole text, or as much of it as the limit allows, with the mark.
pub data IsCut (char_limit : ℕ) (whole : Text) (p : Parsed) : Type 0 where
  entire :
      p.truncated ≡ false
      → p.body_text ≡ whole
      → (char_limit ≡ 0) ⊎ (length whole ≤ char_limit)
      → IsCut char_limit whole p
  cut :
      (rest : Text)
      → p.truncated ≡ true
      → whole ≡ p.body_text ++ rest
      → rest ≢ []
      → length p.body_text ≡ char_limit
      → IsCut char_limit whole p

length-take-eq : (n : ℕ) (s : Text) → n ≤ length s → length (take n s) ≡ n
length-take-eq zero s h = refl
length-take-eq (suc n) [] h = absurd (omega arith)
length-take-eq (suc n) (c ∷ s) h = omega (arith, length-take-eq n s)

drop-ne-nil : (n : ℕ) (s : Text) → n < length s → drop n s ≢ []
drop-ne-nil zero [] h e = omega arith
drop-ne-nil zero (c ∷ s) h e = cc
drop-ne-nil (suc n) [] h e = omega arith
drop-ne-nil (suc n) (c ∷ s) h e = drop-ne-nil n s (omega arith) e

over : (n : ℕ) (s : Text) → is_over n s ≡ true → n < length s
unfolding is_over
over n s h = ground arith

not_over : (n : ℕ) (s : Text) → is_over n s ≡ false → (n ≡ 0) ⊎ (length s ≤ n)
unfolding is_over
not_over n s h = ground arith

module _ ⦃env : Env⦄ where
  parse_envelope-IsCut : (e : Envelope) (n : ℕ) → IsCut n (clean_body e) (parse_envelope e n)
  unfolding parse_envelope
  parse_envelope-IsCut e n = elim (Bool-cases (is_over n (clean_body e))) [
    | inl h ↦
        cut (drop n (clean_body e)) h (rw h (sym (take-drop n (clean_body e))))
          (drop-ne-nil n (clean_body e) (over n (clean_body e) h))
          (rw h (length-take-eq n (clean_body e) (omega (arith, over n (clean_body e) h))))
    | inr h ↦ entire h (rw h refl) (not_over n (clean_body e) h)
  ]

  pub message-IsCut :
      (raw : Text) (n : ℕ)
      → ((e : Text) × (env.read_envelope raw ≡ inl e) × (message raw n ≡ (empty_parsed, some e)))
        ⊎ ((e : Envelope) × (env.read_envelope raw ≡ inr e)
            × ((message raw n).1 ≡ none)
            × IsCut n (clean_body e) (message raw n).0)
  unfolding message
  message-IsCut raw n = go (env.read_envelope raw) refl
    where
      go :
          (r : Text ⊎ Envelope)
          → env.read_envelope raw ≡ r
          → ((e : Text) × (env.read_envelope raw ≡ inl e)
              × (message raw n ≡ (empty_parsed, some e)))
            ⊎ ((e : Envelope) × (env.read_envelope raw ≡ inr e)
                × ((message raw n).1 ≡ none)
                × IsCut n (clean_body e) (message raw n).0)
      go (inl e) h = inl (e, h, rw h refl)
      go (inr e) h = inr (e, h, rw h refl, rw h (parse_envelope-IsCut e n))
