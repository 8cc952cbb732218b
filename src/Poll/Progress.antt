-- ===== src/Poll/Progress.antt =====
-- A round that returns has archived and acknowledged its message, and EmailExists reports it; so the
-- cursor passes no message that is not.
use suzie_filtering_system.Parse
use suzie_filtering_system.Base.{ℕ, ◌≤◌, Text, Bool, true, false, Option, ◌≡◌, refl, if◌then◌else◌}
use suzie_filtering_system.Decimal.{max_u32}
use suzie_filtering_system.Model.{Time, RawMessage, Parsed}
use suzie_filtering_system.Tables.{select_exists}
use suzie_filtering_system.World.{World, Env, pure, ◌>>=◌, ◌>>◌}
use suzie_filtering_system.World.Hoare.{
  Hoare, Hoare-pure, Hoare-wrap, Hoare-bind, Hoare-skip, Always, EndsWith, Hoare-EndsWith,
}
use suzie_filtering_system.Store.{email_exists}
use suzie_filtering_system.Store.Insert.{email_exists-finds}
use suzie_filtering_system.Store.Keeps.{set_last_uid-Keeps, email_exists-Keeps}
use suzie_filtering_system.Imap.{has_seen}
use suzie_filtering_system.Imap.Keeps.{mark_seen-Keeps}
use suzie_filtering_system.Imap.Seen.{mark_seen-Hoare}
use suzie_filtering_system.Archive.Written.{Holds, write-Hoare}
use suzie_filtering_system.Poll.{
  Job, acknowledge, process_new, process_parsed, process_one, round, duplicate_outcome,
}
use suzie_filtering_system.Poll.Growth.{Grows, Grows-IsFrame, state-Grows, seen-Grows}
use suzie_filtering_system.Poll.Acknowledged.{IsSafe, IsSafe-Grows}
use suzie_filtering_system.Poll.Safety.{insert_email-Safe, fill_row-Kept, message_id_of}

-- The message is in the archive, EmailExists reports its UID or its Message-ID, and it is flagged.
pub record IsDone (v uid : ℕ) (id raw : Text) (w : World) : Type 0 where
  pub safe : IsSafe v uid id raw w
  pub flagged : has_seen v uid w.seen ≡ true

pub IsDone-Grows :
    (v uid : ℕ) (id raw : Text) (u w : World)
    → IsDone v uid id raw u
    → Grows u w
    → IsDone v uid id raw w
IsDone-Grows v uid id raw u w d g = record {
  safe = IsSafe-Grows v uid id raw u w d.safe g;
  flagged = g.seen v uid d.flagged;
}

module _ ⦃env : Env⦄ (j : Job) (v : ℕ) (m : RawMessage) (id : Text) where
  abbrev Safe : World → Type 0
  Safe = IsSafe v m.uid id m.raw

  abbrev Done : World → Type 0
  Done = IsDone v m.uid id m.raw

  acknowledge-Done : Hoare Safe (acknowledge j v m.uid) (λ _. Done)
  unfolding acknowledge
  acknowledge-Done =
      Hoare-bind (λ _. Done) _ _
        (record {
          at = λ w s a e. record {
            safe =
                IsSafe-Grows v m.uid id m.raw w _ s
                  ((mark_seen-Keeps Grows-IsFrame seen-Grows v m.uid).at w);
            flagged = (mark_seen-Hoare v m.uid).at w tt a e;
          };
        })
        (λ _. record {
          at = λ w d a e. IsDone-Grows v m.uid id m.raw w _ d (
              (set_last_uid-Keeps Grows-IsFrame (λ k x n. state-Grows k x) j.cfg.folder v m.uid).at
                w);
        })

  module _ (v_fits : v ≤ max_u32) (m_fits : m.uid ≤ max_u32) (parsed : Parsed)
      (same_id : parsed.message_id ≡ id) where
    process_new-Done :
        (e : Option Text) (t : Time) (path : Text)
        → Hoare (Holds m.raw path) (process_new j v m parsed e t path) (λ _. Done)
    unfolding process_new
    process_new-Done e t path =
        Hoare-bind _ _ _ (fill_row-Kept j v v_fits m m_fits id parsed same_id path e t) (λ r.
          Hoare-bind _ _ _ (insert_email-Safe j v v_fits m m_fits id parsed same_id path r)
            (λ inserted.
              Hoare-bind (λ _. Done) _ _ acknowledge-Done (λ a. Hoare-pure _ (λ w d. d))))

    lookup-Done :
        (e : Option Text) (t : Time) (path : Text)
        → Hoare
            (Holds m.raw path)
            (email_exists v m.uid parsed.message_id >>= λ found.
              if found
              then acknowledge j v m.uid >> pure duplicate_outcome
              else process_new j v m parsed e t path)
            (λ _. Done)
    lookup-Done e t path =
        Hoare-bind
          (λ found w.
            Holds m.raw path w × (select_exists v m.uid parsed.message_id w.db.emails ≡ found))
          _ _
          (record {
            at = λ w h a k. (
              ((email_exists-Keeps Grows-IsFrame v m.uid parsed.message_id).at w).files path m.raw
                  h,
              (email_exists-finds v m.uid parsed.message_id).at w tt a k,
            );
          })
          (known e t path)
      where
        known :
            (e : Option Text) (t : Time) (path : Text) (found : Bool)
            → Hoare
                (λ w.
                  Holds m.raw path w
                  × (select_exists v m.uid parsed.message_id w.db.emails ≡ found))
                (if found
                  then acknowledge j v m.uid >> pure duplicate_outcome
                  else process_new j v m parsed e t path)
                (λ _. Done)
        known e t path true =
            Hoare-bind (λ _. Done) _ _
              (record {
                at = λ w (kept, found) a k.
                    acknowledge-Done.at w
                      (record { path = path; archived = kept; reported = rw (← same_id) found }) a
                      k;
              })
              (λ a. Hoare-pure _ (λ w d. d))
        known e t path false = record { at = λ w p a k. (process_new-Done e t path).at w p.0 a k }

    process_parsed-Done :
        (e : Option Text) (t : Time) → Hoare Always (process_parsed j v m parsed e t) (λ _. Done)
    unfolding process_parsed
    process_parsed-Done e t =
        Hoare-bind (λ path. Holds m.raw path) _ _ (Hoare-wrap _ _ (write-Hoare m.raw _ _ _ _))
          (λ path. lookup-Done e t path)

module _ ⦃env : Env⦄ (j : Job) (v : ℕ) (v_fits : v ≤ max_u32) where
  process_one-Done :
      (m : RawMessage)
      → m.uid ≤ max_u32
      → Hoare Always (process_one j v m) (λ _. IsDone v m.uid (message_id_of j m) m.raw)
  unfolding process_one
  process_one-Done m m_fits =
      let (parsed, e) = Parse.message m.raw j.cfg.body_char_limit in
      Hoare-skip _ _
        (λ t. process_parsed-Done j v m (message_id_of j m) v_fits m_fits parsed refl e t)

  pub round-Hoare :
      (m : RawMessage)
      → m.uid ≤ max_u32
      → Hoare Always (round j v m) (λ _. IsDone v m.uid (message_id_of j m) m.raw)
  unfolding round
  round-Hoare m m_fits = Hoare-skip _ _ (λ a. Hoare-wrap _ _ (process_one-Done m m_fits))

  -- Processing a message fails, or it returns, and the message is then in the archive, unchanged, is
  -- reported by EmailExists, by its UID or its Message-ID, and carries its \Seen flag. The UID and the UIDVALIDITY are in the range of a uint32.
  pub round-Done :
      (m : RawMessage) (w : World)
      → m.uid ≤ max_u32
      → EndsWith (round j v m) (λ _. IsDone v m.uid (message_id_of j m) m.raw) w
  round-Done m w m_fits = Hoare-EndsWith _ (round-Hoare m m_fits) w
