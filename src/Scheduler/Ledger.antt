-- ===== src/Scheduler/Ledger.antt =====
-- What the store and the digests of internal/scheduler/scheduler.go promise, without rows, ids and SQL:
-- letters arrive, each once, and a digest lists every letter of its window that none has listed. A
-- window begins where the one before ended.
use suzie_filtering_system.Base.{
  ℕ, ◌+◌, Text, Bool, false, ◌&&◌, ◌||◌, Option, none, some, List, [], ◌∷◌, ◌++◌, map, filter,
  length, any, leb, ltb, ◌==◌, ◌≡◌, refl, sym, ap, ◌∙◌, ◌⊎◌, inl, inr, arith, if◌then◌else◌,
  Option-cases, Bool-cases,
}
use suzie_filtering_system.Tables.{same_key, is_null}

-- A message of the store; `listed` is the end of the window of the digest that listed it.
pub record Letter : Type 0 where
  pub uid_validity : ℕ
  pub imap_uid : ℕ
  pub message_id : Option Text
  pub received_at : ℕ
  pub listed : Option ℕ

-- A digest that was sent, with the number of letters that it listed.
pub record Issue : Type 0 where
  pub start : ℕ
  pub end : ℕ
  pub count : ℕ

pub record Ledger : Type 0 where
  pub letters : List Letter
  pub issues : List Issue

abbrev pub same_letter : Letter → Letter → Bool
same_letter l k =
    (k.uid_validity == l.uid_validity && k.imap_uid == l.imap_uid)
    || same_key l.message_id k.message_id

abbrev pub waits : ℕ → ℕ → Letter → Bool
waits start end l = leb start l.received_at && (ltb l.received_at end && is_null l.listed)

abbrev pub list_letter : ℕ → ℕ → Letter → Letter
list_letter start end l = if waits start end l then record l { listed = some end } else l

abbrev pub last_end : List Issue → Option ℕ
last_end [] = none
last_end (i ∷ []) = some i.end
last_end (i ∷ k ∷ rest) = last_end (k ∷ rest)

-- A window may begin at the end of the last one; a last one that ended at time 0 counts as none.
abbrev pub Follows : Option ℕ → ℕ → Type 0
Follows none start = Unit
Follows (some end) start = (start ≡ end) ⊎ (end ≡ 0)

pub data Step (s : Ledger) : Ledger → Type 0 where
  arrive :
      (l : Letter)
      → any (same_letter l) s.letters ≡ false
      → l.listed ≡ none
      → Step s (record s { letters = s.letters ++ l ∷ [] })
  publish :
      (start end : ℕ)
      → Follows (last_end s.issues) start
      → Step s (record {
        letters = map (list_letter start end) s.letters;
        issues =
            s.issues
            ++ record {
              start = start;
              end = end;
              count = length (filter (waits start end) s.letters);
            }
              ∷ [];
      })

pub data Reach (s : Ledger) : Ledger → Type 0 where
  here : Reach s s
  next : {t u : Ledger} → Reach s t → Step t u → Reach s u

pub Reach-trans : {s t u : Ledger} → Reach s t → Reach t u → Reach s u
Reach-trans r here = r
Reach-trans r (next q step) = next (Reach-trans r q) step

-- Each digest counts letters, and together they count each listed letter once.
abbrev pub listed_count : List Letter → ℕ
listed_count [] = 0
listed_count (l ∷ ls) = let n = listed_count ls in if is_null l.listed then n else n + 1

abbrev pub total : List Issue → ℕ
total [] = 0
total (i ∷ is) = i.count + total is

abbrev pub Balanced : Ledger → Type 0
Balanced s = total s.issues ≡ listed_count s.letters

total-snoc : (is : List Issue) (i : Issue) → total (is ++ i ∷ []) ≡ total is + i.count
total-snoc [] i = omega arith
total-snoc (k ∷ is) i = omega (arith, total-snoc is i)

listed_count-snoc :
    (ls : List Letter) (l : Letter)
    → l.listed ≡ none
    → listed_count (ls ++ l ∷ []) ≡ listed_count ls
listed_count-snoc [] l h = rw h refl
listed_count-snoc (k ∷ ls) l h = ground (arith, listed_count-snoc ls l h)

listed_count-publish :
    (start end : ℕ) (ls : List Letter)
    → listed_count (map (list_letter start end) ls)
      ≡ listed_count ls + length (filter (waits start end) ls)
listed_count-publish start end [] = omega arith
listed_count-publish start end (l ∷ ls) = ground (arith, listed_count-publish start end ls)

Step-Balanced : {s t : Ledger} → Step s t → Balanced s → Balanced t
Step-Balanced {s} (arrive l new unlisted) b = b ∙ sym (listed_count-snoc s.letters l unlisted)
Step-Balanced {s} (publish start end follows) b =
    total-snoc s.issues _ ∙ rw b (sym (listed_count-publish start end s.letters))

pub Reach-Balanced : {s t : Ledger} → Reach s t → Balanced s → Balanced t
Reach-Balanced here b = b
Reach-Balanced (next r step) b = Step-Balanced step (Reach-Balanced r b)

-- Windows one after another leave no gap and do not overlap.
abbrev pub Chained : List Issue → Type 0
Chained [] = Unit
Chained (i ∷ []) = Unit
Chained (i ∷ k ∷ rest) = Follows (some i.end) k.start × Chained (k ∷ rest)

Chained-snoc :
    (is : List Issue) (i : Issue)
    → Follows (last_end is) i.start
    → Chained is
    → Chained (is ++ i ∷ [])
Chained-snoc [] i f c = tt
Chained-snoc (k ∷ []) i f c = (f, tt)
Chained-snoc (k ∷ m ∷ is) i f c = (c.0, Chained-snoc (m ∷ is) i f c.1)

pub Reach-Chained : {s t : Ledger} → Reach s t → Chained s.issues → Chained t.issues
Reach-Chained here c = c
Reach-Chained (next r (arrive l new unlisted)) c = Reach-Chained r c
Reach-Chained (next {t} r (publish start end follows)) c =
    Chained-snoc t.issues _ follows (Reach-Chained r c)

-- A letter later: the same, or listed, and that only if it was not.
abbrev pub Becomes : Letter → Letter → Type 0
Becomes l k = (k ≡ l) ⊎ ((l.listed ≡ none) × (end : ℕ) × (k ≡ record l { listed = some end }))

-- Every letter is there later, at its place.
abbrev pub Later : List Letter → List Letter → Type 0
Later [] later = Unit
Later (l ∷ ls) [] = ⊥
Later (l ∷ ls) (k ∷ ks) = Becomes l k × Later ls ks

Becomes-trans : (l k m : Letter) → Becomes l k → Becomes k m → Becomes l m
Becomes-trans l k m (inl e) (inl f) = inl (f ∙ e)
Becomes-trans l k m (inl e) (inr (unlisted, end, f)) = inr (
  ap (λ (x : Letter). x.listed) (sym e) ∙ unlisted,
  end,
  f ∙ ap (λ (x : Letter). record x { listed = some end }) e,
)
Becomes-trans l k m (inr (unlisted, end, e)) (inl f) = inr (unlisted, end, f ∙ e)
Becomes-trans l k m (inr (unlisted, end, e)) (inr (never, later, f)) =
    absurd (listed_twice (sym (ap (λ (x : Letter). x.listed) e) ∙ never))
  where
    listed_twice : some end ≡ none → ⊥
    listed_twice h = cc

Later-refl : (ls : List Letter) → Later ls ls
Later-refl [] = tt
Later-refl (l ∷ ls) = (inl refl, Later-refl ls)

Later-trans : (ls ks ms : List Letter) → Later ls ks → Later ks ms → Later ls ms
Later-trans [] ks ms g h = tt
Later-trans (l ∷ ls) [] ms g h = absurd g
Later-trans (l ∷ ls) (k ∷ ks) [] g h = absurd h
Later-trans (l ∷ ls) (k ∷ ks) (m ∷ ms) g h =
    (Becomes-trans l k m g.0 h.0, Later-trans ls ks ms g.1 h.1)

Later-snoc : (ls : List Letter) (l : Letter) → Later ls (ls ++ l ∷ [])
Later-snoc [] l = tt
Later-snoc (k ∷ ls) l = (inl refl, Later-snoc ls l)

list_letter-Becomes : (start end : ℕ) (l : Letter) → Becomes l (list_letter start end l)
list_letter-Becomes start end l = elim (Option-cases l.listed) [
  | inl h ↦ elim (Bool-cases (waits start end l)) [
    | inl waits ↦ inr (h, end, rw waits refl)
    | inr stays ↦ inl (rw stays refl)
  ]
  | inr (t, h) ↦ inl (ground arith)
]

Later-publish : (start end : ℕ) (ls : List Letter) → Later ls (map (list_letter start end) ls)
Later-publish start end [] = tt
Later-publish start end (l ∷ ls) = (list_letter-Becomes start end l, Later-publish start end ls)

Step-Later : {s t : Ledger} → Step s t → Later s.letters t.letters
Step-Later {s} (arrive l new unlisted) = Later-snoc s.letters l
Step-Later {s} (publish start end follows) = Later-publish start end s.letters

pub Reach-Later : {s t : Ledger} → Reach s t → Later s.letters t.letters
Reach-Later {s} here = Later-refl s.letters
Reach-Later {s} {t} (next {t = m} r step) =
    Later-trans s.letters m.letters t.letters (Reach-Later r) (Step-Later step)
