-- ===== src/Poll/Safety.antt =====
-- A message is acknowledged, by \Seen on the server and by the cursor, only after it is archived and
-- reported by EmailExists.
use suzie_filtering_system.Parse
use suzie_filtering_system.Base.{
  ℕ, ◌≤◌, Text, Bool, true, false, not, Option, none, some, ◌≡◌, refl, ap, ◌∙◌, subst, ◌⊎◌, inl,
  inr, if◌then◌else◌,
}
use suzie_filtering_system.Decimal.{max_u32}
use suzie_filtering_system.Model.{Time, EmailRow, RawMessage, Parsed}
use suzie_filtering_system.Tables.{Db, select_exists}
use suzie_filtering_system.World.{World, Env, ok, wrap, pure, ◌>>=◌, ◌>>◌}
use suzie_filtering_system.World.Keeps.{Keeps, Keeps-wrap, Keeps-now, Keeps-ask, SameDb-IsFrame}
use suzie_filtering_system.World.Hoare.{
  Hoare, Hoare-pure, Hoare-wrap, Hoare-skip, Always, Leads, Leads-bind, Leads-pure, Hoare-if,
}
use suzie_filtering_system.Store.{email_exists, insert_email, set_last_uid}
use suzie_filtering_system.Store.Cursor.{cursor, cursor-moved, set_last_uid-AllOrNothing}
use suzie_filtering_system.Store.Insert.{email_exists-finds, insert_email-stores}
use suzie_filtering_system.Store.Keeps.{email_exists-Keeps, insert_email-Keeps, set_last_uid-Keeps}
use suzie_filtering_system.Imap.{mark_seen, has_seen}
use suzie_filtering_system.Imap.Keeps.{mark_seen-Keeps}
use suzie_filtering_system.Imap.Seen.{
  SameSeen-IsFrame, SeenBy, mark_seen-SeenBy, mark_seen-Hoare, has_seen-cons,
}
use suzie_filtering_system.Archive.Keeps.{write-Keeps}
use suzie_filtering_system.Archive.Written.{Holds, write-Hoare}
use suzie_filtering_system.Llm.{summarize}
use suzie_filtering_system.Poll.{
  Job, Outcome, new_row, fill_row, acknowledge, process_new, process_parsed, process_one, round,
  count_insert, duplicate_outcome, in_scope, without_summary, with_summary, llm_input,
}
use suzie_filtering_system.Poll.Keeps.{fill_row-Keeps}
use suzie_filtering_system.Poll.Growth.{Grows, Grows-IsFrame, state-Grows, seen-Grows}
use suzie_filtering_system.Poll.Acknowledged.{
  IsSafe, IsSafe-Grows, Acked, Quiet, Quiet-IsFrame, link-Quiet, insert-Quiet, Acked-of-Quiet,
  Acked-after,
}

module _ ⦃env : Env⦄ where
  module _ (j : Job) (v : ℕ) (v_fits : v ≤ max_u32) (m : RawMessage) (m_fits : m.uid ≤ max_u32)
      (id : Text) where
    abbrev folder : Text
    folder = j.cfg.folder

    abbrev pub Safe : World → Type 0
    Safe = IsSafe v m.uid id m.raw

    abbrev Ack : World → World → Type 0
    Ack = Acked folder v m.uid id m.raw

    -- SetLastUID after MarkSeen
    cursor_Ack :
        (x : World)
        → Safe x
        → has_seen v m.uid x.seen ≡ true
        → Ack x (set_last_uid folder v m.uid x).1
    cursor_Ack x s h =
        let y : World = (set_last_uid folder v m.uid x).1 in
        let grows : Grows x y =
          (set_last_uid-Keeps Grows-IsFrame (λ k x n. state-Grows k x) folder v m.uid).at x in
        let same : y.seen ≡ x.seen =
          (set_last_uid-Keeps SameSeen-IsFrame (λ key value n w. refl) folder v m.uid).at x in
        record {
          seen = λ a b k. inl (rw same at k);
          moves = elim (set_last_uid-AllOrNothing folder v m.uid x) [
            | inl (a, e, d) ↦ inr (
              ap (cursor folder) d ∙ cursor-moved folder v m.uid x.db v_fits m_fits,
              grows.seen v m.uid h,
              IsSafe-Grows v m.uid id m.raw x y s grows,
            )
            | inr (a, e, d) ↦ inl (ap (cursor folder) d)
          ];
        }

    -- after MarkSeen: nothing else than the flag
    record Marked (u w : World) : Type 0 where
      flags : SeenBy v m.uid u w
      db : w.db ≡ u.db
      grows : Grows u w

    abbrev Ends : World → World → Type 0
    Ends u w = Grows u w × (Safe u → Ack u w)

    mark_seen-Marked : Keeps Marked (mark_seen v m.uid)
    mark_seen-Marked = record {
      at = λ w. record {
        flags = mark_seen-SeenBy v m.uid w;
        db = (mark_seen-Keeps SameDb-IsFrame (λ a b x. refl) v m.uid).at w;
        grows = (mark_seen-Keeps Grows-IsFrame seen-Grows v m.uid).at w;
      };
    }

    flag_Ack :
        (a b : ℕ) (u x w : World)
        → SeenBy v m.uid u x
        → Safe w
        → has_seen a b x.seen ≡ true
        → (has_seen a b u.seen ≡ true) ⊎ ((a ≡ v) × (b ≡ m.uid) × Safe w)
    flag_Ack a b u x w (inl e) s h = inl (rw e at h)
    flag_Ack a b u x w (inr e) s h = elim (has_seen-cons a b v m.uid u.seen (rw e at h)) [
      | inl old ↦ inl old
      | inr (p, q) ↦ inr (p, q, s)
    ]

    Marked-weaken : (u w : World) → Marked u w → Ends u w
    Marked-weaken u w k = (
      k.grows,
      λ s. record {
        seen = λ a b h. flag_Ack a b u w w k.flags (IsSafe-Grows v m.uid id m.raw u w s k.grows) h;
        moves = inl (ap (cursor folder) k.db);
      },
    )

    Marked-compose : (u x w : World) → Marked u x → Ends x w → Ends u w
    Marked-compose u x w k (grows, ends) =
        let all : Grows u w = Grows-IsFrame.trans u x w k.grows grows in
        (
          all,
          λ s.
              let ack : Ack x w = ends (IsSafe-Grows v m.uid id m.raw u x s k.grows) in
              record {
                seen = λ a b h. elim (ack.seen a b h) [
                  | inl old ↦
                      flag_Ack a b u x w k.flags (IsSafe-Grows v m.uid id m.raw u w s all) old
                  | inr new ↦ inr new
                ];
                moves =
                    subst
                      (λ c.
                        (cursor folder w.db ≡ c)
                        ⊎ ((cursor folder w.db ≡ ok (v, m.uid))
                            × (has_seen v m.uid w.seen ≡ true)
                            × Safe w))
                      (ap (cursor folder) k.db) ack.moves;
              },
        )

    set_last_uid-Ends :
        Leads (λ w. has_seen v m.uid w.seen ≡ true) Ends (set_last_uid folder v m.uid)
    set_last_uid-Ends = record {
      at = λ w h. (
        (set_last_uid-Keeps Grows-IsFrame (λ k x n. state-Grows k x) folder v m.uid).at w,
        λ s. cursor_Ack w s h,
      );
    }

    acknowledge-Ends : Leads Always Ends (acknowledge j v m.uid)
    unfolding acknowledge
    acknowledge-Ends =
        Leads-bind Marked-weaken Marked-compose (λ _ w. has_seen v m.uid w.seen ≡ true) _ _
          mark_seen-Marked (mark_seen-Hoare v m.uid) (λ a. set_last_uid-Ends)

    acknowledge-Ack : Leads Safe Ack (acknowledge j v m.uid)
    acknowledge-Ack = record { at = λ w s. (acknowledge-Ends.at w tt).1 s }

    -- the row that is inserted carries the keys of the message
    abbrev pub HasKeys : EmailRow × Outcome → Type 0
    HasKeys (row, o) = (row.uid_validity ≡ v) × (row.imap_uid ≡ m.uid) × (row.message_id ≡ id)

    module _ (parsed : Parsed) (same_id : parsed.message_id ≡ id) (path : Text) where
      abbrev pub Kept : World → Type 0
      Kept = Holds m.raw path

      pub Kept-stable : (u w : World) → Kept u → Quiet folder u w → Kept w
      Kept-stable u w h q = q.grows.files path m.raw h

      fill_row-HasKeys :
          (e : Option Text) (t : Time)
          → Hoare Always (fill_row j parsed e (new_row v m parsed t path)) (λ r w. HasKeys r)
      unfolding fill_row new_row
      fill_row-HasKeys (some e) t = Hoare-pure _ (λ w p. (refl, refl, same_id))
      fill_row-HasKeys none t =
          Hoare-if (not (in_scope j parsed.sender.addr))
            (pure (without_summary (new_row v m parsed t path)))
            (do
              (summary, debug) ← summarize j.llm (llm_input j parsed)
              pure (with_summary summary (new_row v m parsed t path)))
            (λ _.
              Hoare-pure (without_summary (new_row v m parsed t path))
                (λ w p. (refl, refl, same_id)))
            (λ _. Hoare-skip (summarize j.llm (llm_input j parsed)) _ (λ s.
              Hoare-pure (with_summary s.0 (new_row v m parsed t path))
                (λ w p. (refl, refl, same_id))))

      pub insert_email-Safe :
          (r : EmailRow × Outcome)
          → Hoare (λ w. Kept w × HasKeys r) (insert_email r.0) (λ _ w. Safe w)
      insert_email-Safe (row, o) = record {
        at = λ w (kept, keys) a e. record {
          path = path;
          archived =
              ((insert_email-Keeps (Quiet-IsFrame folder) row (insert-Quiet folder row)).at
                  w).grows.files
                path m.raw kept;
          reported =
              rename row o (insert_email row w).1.db keys ((insert_email-stores row).at w tt a e);
        };
      }
        where
          rename :
              (row : EmailRow) (o : Outcome) (db : Db)
              → HasKeys (row, o)
              → select_exists row.uid_validity row.imap_uid row.message_id db.emails ≡ true
              → select_exists v m.uid id db.emails ≡ true
          rename row o db keys h = rw (← keys.0, ← keys.1, ← keys.2) h

      tail_Ack :
          (r : EmailRow × Outcome)
          → Leads
              (λ w. Kept w × HasKeys r)
              Ack
              (insert_email r.0 >>= λ inserted.
                acknowledge j v m.uid >>= λ _. pure (count_insert inserted r.1))
      tail_Ack r =
          Leads-bind (Acked-of-Quiet folder v m.uid id m.raw) (Acked-after folder v m.uid id m.raw)
            (λ _. Safe) _ _
            (insert_email-Keeps (Quiet-IsFrame folder) r.0 (insert-Quiet folder r.0))
            (insert_email-Safe r) (λ n. Leads-pure _ _ acknowledge-Ack)

      pub fill_row-Kept :
          (e : Option Text) (t : Time)
          → Hoare Kept (fill_row j parsed e (new_row v m parsed t path)) (λ r w. Kept w × HasKeys r)
      fill_row-Kept e t = record {
        at = λ w h a k. (
          Kept-stable w _ h
              ((fill_row-Keeps (Quiet-IsFrame folder) j parsed e (new_row v m parsed t path)).at w),
          (fill_row-HasKeys e t).at w tt a k,
        );
      }

      process_new-Ack :
          (e : Option Text) (t : Time) → Leads Kept Ack (process_new j v m parsed e t path)
      unfolding process_new
      process_new-Ack e t =
          Leads-bind (Acked-of-Quiet folder v m.uid id m.raw) (Acked-after folder v m.uid id m.raw)
            (λ r w. Kept w × HasKeys r) _ _
            (fill_row-Keeps (Quiet-IsFrame folder) j parsed e (new_row v m parsed t path))
            (fill_row-Kept e t) tail_Ack

      -- where EmailExists finds the message, it is safe already
      known_Ack :
          (found : Bool) (e : Option Text) (t : Time)
          → Leads
              (λ w. Kept w × (select_exists v m.uid parsed.message_id w.db.emails ≡ found))
              Ack
              (if found
                then acknowledge j v m.uid >> pure duplicate_outcome
                else process_new j v m parsed e t path)
      known_Ack true e t = record {
        at = λ w (kept, known).
            (Leads-pure _ duplicate_outcome acknowledge-Ack).at w
              (record { path = path; archived = kept; reported = rw (← same_id) known });
      }
      known_Ack false e t = record { at = λ w p. (process_new-Ack e t).at w p.0 }

      lookup_Ack :
          (e : Option Text) (t : Time)
          → Leads Kept Ack (
              email_exists v m.uid parsed.message_id >>= λ found.
              if found
              then acknowledge j v m.uid >> pure duplicate_outcome
              else process_new j v m parsed e t path)
      lookup_Ack e t =
          Leads-bind (Acked-of-Quiet folder v m.uid id m.raw) (Acked-after folder v m.uid id m.raw)
            (λ found w. Kept w × (select_exists v m.uid parsed.message_id w.db.emails ≡ found)) _ _
            (email_exists-Keeps (Quiet-IsFrame folder) v m.uid parsed.message_id)
            (record {
              at = λ w h a k. (
                Kept-stable w _ h
                    ((email_exists-Keeps (Quiet-IsFrame folder) v m.uid parsed.message_id).at w),
                (email_exists-finds v m.uid parsed.message_id).at w tt a k,
              );
            })
            (λ found. known_Ack found e t)

    process_parsed-Ack :
        (parsed : Parsed) (same_id : parsed.message_id ≡ id) (e : Option Text) (t : Time)
        → Leads Always Ack (process_parsed j v m parsed e t)
    unfolding process_parsed
    process_parsed-Ack parsed same_id e t =
        Leads-bind (Acked-of-Quiet folder v m.uid id m.raw) (Acked-after folder v m.uid id m.raw)
          (λ path. Holds m.raw path) _ _
          (Keeps-wrap (Quiet-IsFrame folder) _ _
            (write-Keeps (Quiet-IsFrame folder) (link-Quiet folder) _ _ _ _ _))
          (Hoare-wrap _ _ (write-Hoare m.raw _ _ _ _)) (λ path. lookup_Ack parsed same_id path e t)

  -- the Message-ID that processing a message works with
  abbrev pub message_id_of : Job → RawMessage → Text
  message_id_of j m = (Parse.message m.raw j.cfg.body_char_limit).0.message_id

  -- Whatever fails, processing one message sets no \Seen flag but its own and moves the cursor of the
  -- folder nowhere but to it, and each only if the message is at the end in the archive, unchanged,
  -- and reported by EmailExists; the cursor moves only if the flag is set too. The UID and the
  -- UIDVALIDITY are in the range of a uint32.
  pub process_one-Acked :
      (j : Job) (v : ℕ) (m : RawMessage) (w : World)
      → v ≤ max_u32
      → m.uid ≤ max_u32
      → Acked j.cfg.folder v m.uid (message_id_of j m) m.raw w (process_one j v m w).1
  unfolding process_one
  process_one-Acked j v m w hv hm =
      let (parsed, e) = Parse.message m.raw j.cfg.body_char_limit in
      (Leads-bind (Acked-of-Quiet j.cfg.folder v m.uid (message_id_of j m) m.raw)
          (Acked-after j.cfg.folder v m.uid (message_id_of j m) m.raw) {P = Always} (λ t. Always) _
          _ (Keeps-now (Quiet-IsFrame j.cfg.folder)) (record { at = λ x p a h. tt })
          (λ t. process_parsed-Ack j v hv m hm (message_id_of j m) parsed refl e t)).at
        w (tt {0})

  -- The same of a round of the loop, which looks at the context first.
  pub round-Acked :
      (j : Job) (v : ℕ) (m : RawMessage) (w : World)
      → v ≤ max_u32
      → m.uid ≤ max_u32
      → Acked j.cfg.folder v m.uid (message_id_of j m) m.raw w (round j v m w).1
  unfolding round wrap
  round-Acked j v m w hv hm =
      (Leads-bind (Acked-of-Quiet j.cfg.folder v m.uid (message_id_of j m) m.raw)
          (Acked-after j.cfg.folder v m.uid (message_id_of j m) m.raw) {P = Always} (λ t. Always) _
          _ (Keeps-ask (Quiet-IsFrame j.cfg.folder)) (record { at = λ x p a h. tt })
          (λ t. record { at = λ x p. process_one-Acked j v m x hv hm })).at
        w (tt {0})
