-- ===== src/Store/Scan.antt =====
-- What InsertEmail writes, scanEmail reads back.
use suzie_filtering_system.Base.{
  ℕ, Text, codes, Bool, true, false, not, Option, none, some, [], ◌∷◌, ◌==◌, ◌≡◌, refl,
}
use suzie_filtering_system.Model.{Time, EmailRow, format_time, parse_time}
use suzie_filtering_system.Tables.{coalesce}
use suzie_filtering_system.Store.{
  nullable, nullable_time, default_string, bool_int, columns, scan_email, scan_time,
}

-- A time without its fraction of a second, in UTC.
abbrev pub whole : Time → Time
whole t = parse_time (format_time t)

abbrev pub whole_or_none : Option Time → Option Time
whole_or_none none = none
whole_or_none (some t) = some (whole t)

coalesce-nullable : (s : Text) → coalesce (nullable s) [] ≡ s
unfolding nullable
coalesce-nullable [] = refl
coalesce-nullable (c ∷ s) = refl

scan_time-nullable_time : (t : Option Time) → scan_time (nullable_time t) ≡ whole_or_none t
unfolding nullable_time
scan_time-nullable_time none = refl
scan_time-nullable_time (some t) = refl

not-bool_int : (b : Bool) → not (bool_int b == 0) ≡ b
unfolding bool_int
not-bool_int true = refl
not-bool_int false = refl

-- A row is read back as it was inserted, with the id that it was given, but for its times, which lose
-- their fraction of a second and their zone, and an empty status, which becomes "ok".
pub scan_email-columns :
    (e : EmailRow) (n : ℕ)
    → scan_email (record (columns e) { id = n }) ≡ record e {
      id = n;
      received_at = whole e.received_at;
      llm_status = default_string e.llm_status (codes "ok");
      processed_at = whole e.processed_at;
      digested_at = whole_or_none e.digested_at;
    }
unfolding scan_email columns
scan_email-columns e n =
    simp (coalesce-nullable, scan_time-nullable_time e.digested_at, not-bool_int e.in_scope)
