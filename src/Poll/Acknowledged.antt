-- ===== src/Poll/Acknowledged.antt =====
-- What a step of the poll job may do to the acknowledgements: the \Seen flags and the cursor.
use suzie_filtering_system.Base.{ℕ, Text, true, ◌≡◌, refl, ◌∙◌, subst, ◌⊎◌, inl, arith}
use suzie_filtering_system.Model.{EmailRow}
use suzie_filtering_system.Tables.{select_exists}
use suzie_filtering_system.World.{World, ok}
use suzie_filtering_system.World.Keeps.{IsFrame}
use suzie_filtering_system.Store.{insert_at}
use suzie_filtering_system.Store.Cursor.{cursor}
use suzie_filtering_system.Imap.{has_seen}
use suzie_filtering_system.Archive.{link}
use suzie_filtering_system.Archive.Written.{Holds}
use suzie_filtering_system.Poll.Growth.{Grows, Grows-IsFrame, link-Grows, insert-Grows}

-- Some file of the archive holds the message, and EmailExists reports it.
pub record IsSafe (v uid : ℕ) (message_id raw : Text) (w : World) : Type 0 where
  pub path : Text
  pub archived : Holds raw path w
  pub reported : select_exists v uid message_id w.db.emails ≡ true

pub IsSafe-Grows :
    (v uid : ℕ) (id raw : Text) (u w : World)
    → IsSafe v uid id raw u
    → Grows u w
    → IsSafe v uid id raw w
IsSafe-Grows v uid id raw u w s g = record {
  path = s.path;
  archived = g.files s.path raw s.archived;
  reported = g.emails v uid id s.reported;
}

-- What may be acknowledged between two worlds: nothing new, but for the message, and that only if
-- it is safe at the end.
pub record Acked (folder : Text) (v uid : ℕ) (id raw : Text) (u w : World) : Type 0 where
  pub seen :
      (a b : ℕ)
      → has_seen a b w.seen ≡ true
      → (has_seen a b u.seen ≡ true) ⊎ ((a ≡ v) × (b ≡ uid) × IsSafe v uid id raw w)
  pub moves :
      (cursor folder w.db ≡ cursor folder u.db)
      ⊎ ((cursor folder w.db ≡ ok (v, uid))
          × (has_seen v uid w.seen ≡ true)
          × IsSafe v uid id raw w)

-- No acknowledgement at all, and nothing undone.
pub record Quiet (folder : Text) (u w : World) : Type 0 where
  pub seen : w.seen ≡ u.seen
  pub moves : cursor folder w.db ≡ cursor folder u.db
  pub grows : Grows u w

module _ (folder : Text) where
  pub Quiet-IsFrame : IsFrame (Quiet folder)
  Quiet-IsFrame = record {
    same = λ w. record { seen = refl; moves = refl; grows = Grows-IsFrame.same w };
    trans = λ u v w g h. record {
      seen = h.seen ∙ g.seen;
      moves = h.moves ∙ g.moves;
      grows = Grows-IsFrame.trans u v w g.grows h.grows;
    };
    tick = λ w. record { seen = refl; moves = refl; grows = Grows-IsFrame.tick w };
    undo = λ u v g. record { seen = g.seen; moves = refl; grows = Grows-IsFrame.undo u v g.grows };
  }

  pub link-Quiet : (path raw : Text) (w : World) → Quiet folder w (link path raw w).1
  unfolding link
  link-Quiet path raw w = record {
    seen = ground arith;
    moves = ground arith;
    grows = link-Grows path raw w;
  }

  pub insert-Quiet : (e : EmailRow) (w : World) → Quiet folder w (insert_at e w).1
  unfolding insert_at cursor
  insert-Quiet e w = record { seen = refl; moves = refl; grows = insert-Grows e w }

  module _ (v uid : ℕ) (id raw : Text) where
    pub Acked-of-Quiet : (u w : World) → Quiet folder u w → Acked folder v uid id raw u w
    Acked-of-Quiet u w q = record { seen = λ a b h. inl (rw q.seen at h); moves = inl q.moves }

    pub Acked-after :
        (u x w : World)
        → Quiet folder u x
        → Acked folder v uid id raw x w
        → Acked folder v uid id raw u w
    Acked-after u x w q a = record {
      seen = λ c d h.
          subst (λ l. (has_seen c d l ≡ true) ⊎ ((c ≡ v) × (d ≡ uid) × IsSafe v uid id raw w))
            q.seen (a.seen c d h);
      moves =
          subst
            (λ c.
              (cursor folder w.db ≡ c)
              ⊎ ((cursor folder w.db ≡ ok (v, uid))
                  × (has_seen v uid w.seen ≡ true)
                  × IsSafe v uid id raw w))
            q.moves a.moves;
    }
