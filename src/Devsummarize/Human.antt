-- ===== src/Devsummarize/Human.antt =====
-- printHuman of cmd/devsummarize/main.go, as the bytes that it prints.
use suzie_filtering_system.Base.{
  ℕ, zero, suc, ◌+◌, ◌-◌, ◌*◌, ◌/◌, ◌%◌, ◌<◌, Text, codes, Bool, false, not, ◌&&◌, List, [], ◌∷◌,
  ◌++◌, length, drop, join, ltb, leb, ◌==◌, is_empty, ◌≡◌, refl, sym, ap, ◌∙◌, arith, if◌then◌else◌,
}
use suzie_filtering_system.Decimal.{format_uint}
use suzie_filtering_system.Devsummarize.{Record}

-- The UTF-8 bytes of a code point.
unfoldable pub utf8_rune : ℕ → List ℕ
utf8_rune c =
    if ltb c 0x80
    then c ∷ []
    else if ltb c 0x800
    then (0xc0 + c / 64) ∷ (0x80 + c % 64) ∷ []
    else if ltb c 0x10000
    then (0xe0 + c / 4096) ∷ (0x80 + c / 64 % 64) ∷ (0x80 + c % 64) ∷ []
    else (0xf0 + c / 262144) ∷ (0x80 + c / 4096 % 64) ∷ (0x80 + c / 64 % 64) ∷ (0x80 + c % 64) ∷ []

unfoldable pub utf8 : Text → List ℕ
unfolding utf8_rune
utf8 [] = []
utf8 (c ∷ s) = utf8_rune c ++ utf8 s

-- U+2500, n times
ruled : ℕ → Text
ruled zero = []
ruled (suc n) = 0x2500 ∷ ruled n

line : List ℕ
unfolding ruled utf8
line = utf8 (ruled 60)

-- line[len(label)+4:]; where no byte is left, nothing
unfoldable pub line_pad : Text → List ℕ
unfolding line utf8
line_pad label = drop (length (utf8 label) + 4) line

spaces : ℕ → Text
spaces zero = []
spaces (suc n) = b' ' ∷ spaces n

-- %-10s and the like
left_aligned : ℕ → Text → Text
unfolding spaces
left_aligned width s = s ++ spaces (width - length s)

heading : Record → List ℕ
unfolding line_pad utf8
heading r = utf8 (codes "\n── " ++ r.file ++ codes " ") ++ line_pad r.file ++ 10 ∷ []

deadline_shown : Record → Text
deadline_shown r = if is_empty r.summary.deadline then codes "(none)" else r.summary.deadline

checks_shown : List Text → Text
checks_shown [] = codes "Checks:  OK\n"
checks_shown (w ∷ ws) = codes "Checks:  WARN  " ++ join (codes "; ") (w ∷ ws) ++ codes "\n"

details : Record → Text
unfolding left_aligned deadline_shown checks_shown
details r =
    codes "From:    "
    ++ r.sender
    ++ codes "\nSubject: "
    ++ r.subject
    ++ (if r.has_attach then codes "  [attachment]" else [])
    ++ (if r.truncated then codes "  [truncated]" else [])
    ++ codes "\nSummary: "
    ++ r.summary.text
    ++ codes "\nAction:  "
    ++ left_aligned 10 r.summary.action
    ++ codes " Deadline: "
    ++ left_aligned 12 (deadline_shown r)
    ++ codes " Tone: "
    ++ r.summary.tone
    ++ codes "\nLLM:     "
    ++ left_aligned 6 r.summary.status
    ++ codes " (retried="
    ++ (if r.debug.retried then codes "true" else codes "false")
    ++ codes ", "
    ++ format_uint r.debug.latency_ms
    ++ codes "ms)\n"
    ++ checks_shown r.checks

pub print_human : Record → Bool → List ℕ
unfolding heading details utf8
print_human r show_body =
    heading r
    ++ (if not (is_empty r.parse_err)
        then utf8 (codes "PARSE ERROR: " ++ r.parse_err ++ codes "\n")
        else utf8 (
            details r
            ++ (if show_body && not (is_empty r.body)
                then codes "--- cleaned body ---\n" ++ r.body ++ codes "\n"
                else [])))

-- The bytes begin within a rune.
abbrev pub is_broken : List ℕ → Bool
is_broken [] = false
is_broken (b ∷ bs) = leb 0x80 b && ltb b 0xc0

ruled-broken : (n k : ℕ) → k < 3 * n → is_broken (drop k (utf8 (ruled n))) ≡ not (k % 3 == 0)
unfolding ruled utf8 utf8_rune
ruled-broken zero k h = absurd (omega arith)
ruled-broken (suc n) zero h = refl
ruled-broken (suc n) (suc zero) h = refl
ruled-broken (suc n) (suc (suc zero)) h = refl
ruled-broken (suc n) (suc (suc (suc k))) h =
    let same : (suc (suc (suc k))) % 3 ≡ k % 3 = omega arith in
    ruled-broken n k (omega arith) ∙ ap (λ x. not (x == 0)) (sym same)

-- Where the heading of printHuman has a padding, it begins within a rune of the line, unless the bytes of
-- the file's name and four more are a multiple of three.
pub line_pad-broken :
    (label : Text)
    → length (utf8 label) + 4 < 180
    → is_broken (line_pad label) ≡ not ((length (utf8 label) + 4) % 3 == 0)
unfolding line_pad line
line_pad-broken label h = ruled-broken 60 (length (utf8 label) + 4) h
