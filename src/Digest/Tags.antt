-- ===== src/Digest/Tags.antt =====
-- The markup of the HTML digest of internal/digest/digest.go: what a mail says adds no tag to it.
use suzie_filtering_system.Base.{
  ℕ, Text, arith, codes, false, not, List, [], ◌∷◌, ◌==◌, is_empty, text_eq, length, map, ◌≡◌, refl,
  sym, ap, ◌∙◌, if◌then◌else◌,
}
use suzie_filtering_system.Model.{EmailRow, RenderRow, RenderView}
use suzie_filtering_system.World.{Env}
use suzie_filtering_system.Digest.{View, tone_of, render_row, make_render_view}
use suzie_filtering_system.Digest.Html.{
  deadline_badge, heated_badge, tone_badge, error_badge, scope_badge, badge_end, badge_gap,
  row_begin, subject_begin, summary_begin, action_begin, action_end, original_begin, row_end,
  page_begin, window_close, no_messages, page_end, gap, bar, html_badges, html_row, html_rows,
  html_template,
}
use suzie_filtering_system.Digest.Markup.{
  markup, ends_inside, NoOpen, Same, Same-closed, Same-NoOpen, ◌⨾◌, Same-if, Same-markup,
}

-- The rows show the same badges.
pub record SameBadges (r s : RenderRow) : Type 0 where
  pub deadline : is_empty r.deadline ≡ is_empty s.deadline
  pub heated : r.heated ≡ s.heated
  pub error : r.error ≡ s.error
  pub out_of_scope : r.out_of_scope ≡ s.out_of_scope

-- The views have equally many rows, and these show the same badges.
abbrev pub SameShape : List RenderRow → List RenderRow → Type 0
SameShape [] [] = Unit
SameShape [] (s ∷ ss) = ⊥
SameShape (r ∷ rs) [] = ⊥
SameShape (r ∷ rs) (s ∷ ss) = SameBadges r s × SameShape rs ss

module _ ⦃env : Env⦄ (safe : (s : Text) → NoOpen (env.escape_html s)) where
  hole : (s t : Text) → Same (env.escape_html s) (env.escape_html t)
  hole s t = Same-NoOpen _ _ (safe s) (safe t)

  html_badges-Same : (r s : RenderRow) → SameBadges r s → Same (html_badges r) (html_badges s)
  unfolding html_badges ends_inside
  html_badges-Same r s h =
      Same-if _ _ (ap not h.deadline)
        (Same-closed deadline_badge refl ⨾ hole r.deadline s.deadline ⨾ Same-closed badge_end refl)
        (Same-closed [] refl)
      ⨾ Same-closed badge_gap refl
      ⨾ Same-if _ _ h.heated (Same-closed heated_badge refl)
          (Same-closed tone_badge refl ⨾ hole r.tone s.tone ⨾ Same-closed badge_end refl)
      ⨾ Same-closed badge_gap refl
      ⨾ Same-if _ _ h.error (Same-closed error_badge refl) (Same-closed [] refl)
      ⨾ Same-closed badge_gap refl
      ⨾ Same-if _ _ h.out_of_scope (Same-closed scope_badge refl) (Same-closed [] refl)

  html_row-Same : (r s : RenderRow) → SameBadges r s → Same (html_row r) (html_row s)
  unfolding html_row ends_inside
  html_row-Same r s h =
      Same-closed row_begin refl
      ⨾ hole r.date s.date
      ⨾ Same-closed bar refl
      ⨾ hole r.sender s.sender
      ⨾ Same-closed subject_begin refl
      ⨾ hole r.subject s.subject
      ⨾ Same-closed summary_begin refl
      ⨾ hole r.summary s.summary
      ⨾ Same-closed action_begin refl
      ⨾ hole r.action s.action
      ⨾ Same-closed action_end refl
      ⨾ html_badges-Same r s h
      ⨾ Same-closed original_begin refl
      ⨾ hole r.original s.original
      ⨾ Same-closed row_end refl

  html_rows-Same : (rs ss : List RenderRow) → SameShape rs ss → Same (html_rows rs) (html_rows ss)
  unfolding html_rows ends_inside
  html_rows-Same [] [] h = Same-closed [] refl
  html_rows-Same [] (s ∷ ss) h = absurd h
  html_rows-Same (r ∷ rs) [] h = absurd h
  html_rows-Same (r ∷ rs) (s ∷ ss) (here, rest) = html_row-Same r s here ⨾ html_rows-Same rs ss rest

  html_template-Same :
      (v w : RenderView)
      → v.empty ≡ w.empty
      → SameShape v.rows w.rows
      → Same (html_template v) (html_template w)
  unfolding html_template ends_inside
  html_template-Same v w e h =
      Same-closed page_begin refl
      ⨾ hole v.window w.window
      ⨾ Same-closed window_close refl
      ⨾ Same-if _ _ e (Same-closed no_messages refl)
          (Same-closed gap refl ⨾ html_rows-Same v.rows w.rows h ⨾ Same-closed gap refl)
      ⨾ Same-closed page_end refl

-- The mails have the same badges: a deadline or none, a heated tone or not, an error or none, in
-- scope or not.
pub record SameFlags (r s : EmailRow) : Type 0 where
  pub deadline : is_empty r.deadline ≡ is_empty s.deadline
  pub heated : text_eq r.tone (codes "heated") ≡ text_eq s.tone (codes "heated")
  pub error : text_eq r.llm_status (codes "error") ≡ text_eq s.llm_status (codes "error")
  pub in_scope : r.in_scope ≡ s.in_scope

-- There are equally many mails, and they have the same badges, in their order.
abbrev pub Alike : List EmailRow → List EmailRow → Type 0
Alike [] [] = Unit
Alike [] (s ∷ ss) = ⊥
Alike (r ∷ rs) [] = ⊥
Alike (r ∷ rs) (s ∷ ss) = SameFlags r s × Alike rs ss

tone_heated :
    (r : EmailRow) → text_eq (tone_of r) (codes "heated") ≡ text_eq r.tone (codes "heated")
unfolding tone_of
tone_heated r = heated r.tone
  where
    heated :
        (t : Text)
        → text_eq (if is_empty t then codes "neutral" else t) (codes "heated")
          ≡ text_eq t (codes "heated")
    heated [] = refl
    heated (c ∷ t) = refl

module _ ⦃env : Env⦄ where
  render_row-SameBadges :
      (y z : ℕ) (r s : EmailRow) → SameFlags r s → SameBadges (render_row y r) (render_row z s)
  unfolding render_row
  render_row-SameBadges y z r s h = record {
    deadline = h.deadline;
    heated = tone_heated r ∙ h.heated ∙ sym (tone_heated s);
    error = h.error;
    out_of_scope = ap not h.in_scope;
  }

  map-SameShape :
      (y z : ℕ) (rs ss : List EmailRow)
      → Alike rs ss
      → SameShape (map (render_row y) rs) (map (render_row z) ss)
  map-SameShape y z [] [] h = tt
  map-SameShape y z [] (s ∷ ss) h = absurd h
  map-SameShape y z (r ∷ rs) [] h = absurd h
  map-SameShape y z (r ∷ rs) (s ∷ ss) (here, rest) =
      (render_row-SameBadges y z r s here, map-SameShape y z rs ss rest)

  Alike-empty : (rs ss : List EmailRow) → Alike rs ss → (length rs == 0) ≡ (length ss == 0)
  Alike-empty [] [] h = refl
  Alike-empty [] (s ∷ ss) h = absurd h
  Alike-empty (r ∷ rs) [] h = absurd h
  Alike-empty (r ∷ rs) (s ∷ ss) h = ground arith

  -- What a mail says does not change the markup: the HTML digests of two views have the same tags, in
  -- the same order, if they have equally many rows and these agree, one by one, in having a deadline,
  -- a heated tone, an error and being in scope. What html/template escapes opens no tag.
  pub html_digest-markup :
      (v w : View)
      → ((s : Text) → NoOpen (env.escape_html s))
      → Alike v.rows w.rows
      → markup false (html_template (make_render_view v))
        ≡ markup false (html_template (make_render_view w))
  unfolding make_render_view
  html_digest-markup v w safe h = Same-markup _ _ (
      html_template-Same safe _ _ (Alike-empty v.rows w.rows h)
        (map-SameShape v.window_end.zone w.window_end.zone v.rows w.rows h))
