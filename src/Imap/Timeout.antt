-- ===== src/Imap/Timeout.antt =====
-- commandTimeout of internal/imap/imap.go: how long one IMAP command may take.
use suzie_filtering_system.Base.{
  ℕ, ◌*◌, ◌≤◌, ◌<◌, Option, none, some, ltb, ◌≡◌, sym, subst, arith, if◌then◌else◌,
}
use suzie_filtering_system.Model.{ℤ, pos, negsuc}

abbrev pub default_command_timeout : ℕ
default_command_timeout = 5 * 60 * 1000000000

-- The argument is what remains until the deadline of the context, if it has one, in nanoseconds.
unfoldable pub command_timeout : Option ℤ → ℕ
command_timeout none = default_command_timeout
command_timeout (some (negsuc n)) = 1
command_timeout (some (pos remaining)) =
    if ltb 0 remaining
    then (if ltb remaining default_command_timeout then remaining else default_command_timeout)
    else 1

at_most : (n : ℕ) → 0 < n → command_timeout (some (pos n)) ≤ n
unfolding command_timeout
at_most n h = ground (arith, h)

-- A command always gets some time, at most the default; and no more than what remains, where that is
-- positive.
pub command_timeout-le :
    (deadline : Option ℤ)
    → (0 < command_timeout deadline)
      × (command_timeout deadline ≤ default_command_timeout)
      × ((n : ℕ) → deadline ≡ some (pos n) → 0 < n → command_timeout deadline ≤ n)
unfolding command_timeout
command_timeout-le none = (omega arith, omega arith, λ n e h. absurd (cc))
command_timeout-le (some (negsuc n)) = (omega arith, omega arith, λ m e h. absurd (cc))
command_timeout-le (some (pos n)) = (
  ground (arith),
  ground (arith),
  λ m e h.
      let same : n ≡ m = cc in
      subst (λ k. command_timeout (some (pos n)) ≤ k) same
        (at_most n (subst (λ k. 0 < k) (sym same) h)),
)
