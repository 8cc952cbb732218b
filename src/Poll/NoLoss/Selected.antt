-- ===== src/Poll/NoLoss/Selected.antt =====
-- What IMAP promises of a mailbox, and the messages of it that are new to a cursor.
use suzie_filtering_system.Base.{
  ℕ, ◌+◌, ◌≤◌, Bool, true, false, List, [], ◌∷◌, ◌==◌, ◌≡◌, refl, inl, inr, arith, any, filter, All,
  leb, Bool-cases, if◌then◌else◌,
}
use suzie_filtering_system.Decimal.{max_u32}
use suzie_filtering_system.Model.{RawMessage}
use suzie_filtering_system.World.{Mailbox}
use suzie_filtering_system.Imap.{latest_uid}
use suzie_filtering_system.Imap.Fetched.{from_uid}
use suzie_filtering_system.Poll.NoSkip.{Ascending}
use suzie_filtering_system.Poll.Batch.{Fresh, same_uid}

-- What IMAP promises of a mailbox: its numbers are uint32, and no two messages have one UID.
pub record IsMailbox (m : Mailbox) : Type 0 where
  pub validity_fits : m.uid_validity ≤ max_u32
  pub next_fits : m.uid_next ≤ max_u32
  pub distinct : Fresh 0 m.messages

pub any-filter :
    {A : Type 0} (p q : A → Bool) (xs : List A) → any p xs ≡ false → any p (filter q xs) ≡ false
any-filter p q [] h = refl
any-filter p q (x ∷ xs) h = ground (arith, any-filter p q xs)

pub All-filter :
    {A : Type 0} (P : A → Type 0) (q : A → Bool) (xs : List A)
    → All P (filter q xs)
    → All (λ x. q x ≡ true → P x) xs
All-filter P q [] h = tt
All-filter P q (x ∷ xs) h = go (q x) h (All-filter P q xs)
  where
    go :
        (b : Bool)
        → All P (if b then x ∷ filter q xs else filter q xs)
        → (All P (filter q xs) → All (λ y. q y ≡ true → P y) xs)
        → (b ≡ true → P x) × All (λ y. q y ≡ true → P y) xs
    go true (here, rest) k = (λ e. here, k rest)
    go false rest k = (λ e. absurd (cc), k rest)

pub filter-All_of :
    {A : Type 0} (P : A → Type 0) (q : A → Bool) (xs : List A) → All P xs → All P (filter q xs)
filter-All_of P q [] h = tt
filter-All_of P q (x ∷ xs) (here, rest) = go (q x) (filter-All_of P q xs rest)
  where
    go : (b : Bool) → All P (filter q xs) → All P (if b then x ∷ filter q xs else filter q xs)
    go true k = (here, k)
    go false k = k

pub Fresh-from_uid : (c : ℕ) (ms : List RawMessage) → Fresh 0 ms → Fresh c (from_uid (c + 1) ms)
Fresh-from_uid c [] h = tt
Fresh-from_uid c (m ∷ ms) (lt, fits, new, rest) = elim (Bool-cases (leb (c + 1) m.uid)) [
  | inl e ↦ rw e (ground arith, fits, any-filter (same_uid m) _ ms new, Fresh-from_uid c ms rest)
  | inr e ↦ rw e (Fresh-from_uid c ms rest)
]

pub any-Ascending :
    (u c : ℕ) (ms : List RawMessage) → u ≤ c → Ascending c ms → any (λ x. u == x.uid) ms ≡ false
any-Ascending u c [] h a = refl
any-Ascending u c (m ∷ ms) h (lt, fits, rest) =
    ground (arith, any-Ascending u m.uid ms (omega arith) rest)

pub Fresh-Ascending : (c : ℕ) (ms : List RawMessage) → Ascending c ms → Fresh c ms
Fresh-Ascending c [] a = tt
Fresh-Ascending c (m ∷ ms) (lt, fits, rest) = (
  lt,
  fits,
  any-Ascending m.uid m.uid ms (omega arith) rest,
  Fresh-below c m.uid ms (omega arith) (Fresh-Ascending m.uid ms rest),
)
  where
    Fresh-below : (c d : ℕ) (ms : List RawMessage) → c ≤ d → Fresh d ms → Fresh c ms
    Fresh-below c d [] h f = tt
    Fresh-below c d (x ∷ xs) h (lt, fits, new, rest) =
        (omega arith, fits, new, Fresh-below c d xs h rest)

pub latest_fits : (n : ℕ) → n ≤ max_u32 → latest_uid n ≤ max_u32
unfolding latest_uid
latest_fits n h = ground arith

pub All-Fresh : (c : ℕ) (ms : List RawMessage) → Fresh c ms → All (λ m. m.uid ≤ max_u32) ms
All-Fresh c [] f = tt
All-Fresh c (m ∷ ms) (lt, fits, new, rest) = (fits, All-Fresh c ms rest)
