-- ===== src/Comments/Held.antt =====
-- Which comments go live without a moderator, and that what was taken away stays away.
use article.Prelude.{
  true, false, some, refl, inl, inr, Bool, ℕ, Text, ◌≡◌, ◌==◌, ◌&&◌, ◌⊎◌, ◌≤◌, arith, Bool-cases,
  ap, leb, trim, subst,
}
use article.Comments.Changes.{posted, edited, taken_back, left, moderated, Change, status_for}
use article.Comments.Threads.{
  trusted, new_accounts, all_held, deleted, CommentModerationMode, Comment, SiteSettings,
  decide_comment_status, is_approved, decided, is_staff, is_gone,
}
use article.Store.{Table}
use article.Auth.Rbac.{SessionUser}
use article.Comments.Spam.{needs_review}
use article.Comments.Posting.{new_comment, rewritten, with_state}

abbrev pub is_open : CommentModerationMode → Bool
is_open trusted = true
is_open _ = false

abbrev pub trusts_known : CommentModerationMode → Bool
trusts_known new_accounts = true
trusts_known _ = false

module _ (C : Table Comment) (settings : SiteSettings) where
  abbrev pub approved_count : ℕ → C.Rows → ℕ
  approved_count user_id t = C.count (λ _ c. c.user_id == user_id && is_approved c.status) t

  -- A text of a reader that the rules let through.
  pub record Passes (user : SessionUser) (body : Text) (t : C.Rows) : Type 0 where
    pub clean : needs_review body ≡ false
    pub by_rule :
        (is_open settings.comment_moderation ≡ true)
        ⊎ ((trusts_known settings.comment_moderation ≡ true)
            × (settings.trusted_after_approved_comments ≤ approved_count user.id t))

  decided-approved :
      (flagged enough : Bool) (mode : CommentModerationMode)
      → is_approved (decided flagged mode enough).0 ≡ true
      → (flagged ≡ false) × ((is_open mode ≡ true) ⊎ ((trusts_known mode ≡ true) × (enough ≡ true)))
  decided-approved true enough mode h = absurd (ground arith)
  decided-approved false enough all_held h = absurd (ground arith)
  decided-approved false enough trusted h = (refl, inl refl)
  decided-approved false true new_accounts h = (refl, inr (refl, refl))
  decided-approved false false new_accounts h = absurd (ground arith)

  status_for-Passes :
      (user : SessionUser) (body : Text) (t : C.Rows)
      → is_staff user.role ≡ false
      → is_approved (status_for C settings user body t) ≡ true
      → Passes user body t
  unfolding decide_comment_status
  status_for-Passes user body t r h =
      let enough = leb settings.trusted_after_approved_comments (approved_count user.id t) in
      let d = decided (needs_review body) settings.comment_moderation enough in
      let e : status_for C settings user body t ≡ d.0 = ground (arith, r) in
      let (k, m) =
        decided-approved (needs_review body) enough settings.comment_moderation
          (subst (λ s. is_approved s ≡ true) e h) in
      record { clean = k; by_rule = elim m [ inl o ↦ inl o | inr (n, e) ↦ inr (n, ground arith) ] }

  -- What a reader leaves of a comment that was changed or is new: their own, and live only if it passes.
  abbrev IsTheirs : SessionUser → C.Rows → Comment → Type 0
  IsTheirs user t c = (c.user_id ≡ user.id) × (is_approved c.status ≡ true → Passes user c.body t)

  changed-row :
      (user : SessionUser) (t : C.Rows) (id : ℕ) (f : Comment → Comment) (c : Comment)
      → C.find id t ≡ some c
      → IsTheirs user t (f c)
      → (j : ℕ) (b : Comment) → C.find j (C.update id f t) ≡ some b
      → (C.find j t ≡ some b) ⊎ IsTheirs user t b
  changed-row user t id f c g o j b h = elim (Bool-cases (id == j)) [
    | inr n ↦ inl (ground (arith, C.find-update j id f t))
    | inl y ↦
        let e : id ≡ j = ground arith in
        let k : f c ≡ b = ground (arith, C.find-update j id f t, g, ap (λ k. C.find k t) e) in
        inr (subst (IsTheirs user t) k o)
  ]

  pub Change-IsTheirs :
      (user : SessionUser) (t t' : C.Rows)
      → Change C settings user t t'
      → is_staff user.role ≡ false
      → (j : ℕ) (b : Comment) → C.find j t' ≡ some b
      → (C.find j t ≡ some b) ⊎ IsTheirs user t b
  Change-IsTheirs user t t' (posted input now id new h) r = λ j b f.
      let c = new_comment user input (status_for C settings user (trim input.body) t) now in
      elim (Bool-cases (id == j)) [
        | inr n ↦ inl (ground (arith, C.find-put j id c t))
        | inl y ↦
            let k : c ≡ b = ground (arith, C.find-put j id c t) in
            inr (subst (IsTheirs user t) k (refl, status_for-Passes user (trim input.body) t r))
      ]
  Change-IsTheirs user t t' (edited id body now c f o g e) r =
      changed-row user t id _ c f (o, status_for-Passes user body t r)
  Change-IsTheirs user t t' (taken_back id c f o) r =
      changed-row user t id _ c f (o, λ h. absurd (ground arith))
  Change-IsTheirs user t t' left r = λ j b f. inl f
  Change-IsTheirs user t t' (moderated id status e) r = absurd (ground arith)

  -- It is there, taken away, with its text.
  abbrev IsAway : ℕ → Comment → C.Rows → Type 0
  IsAway j c t =
      (b : Comment) × (C.find j t ≡ some b) × (is_gone b.status ≡ true) × (b.body ≡ c.body)

  pub Change-IsAway :
      (user : SessionUser) (t t' : C.Rows)
      → Change C settings user t t'
      → is_staff user.role ≡ false
      → (j : ℕ) (c : Comment) → C.find j t ≡ some c
      → is_gone c.status ≡ true
      → IsAway j c t'
  Change-IsAway user t t' (posted input now id new h) r = λ j c f g.
      let n = new_comment user input (status_for C settings user (trim input.body) t) now in
      elim (Bool-cases (id == j)) [
        | inl y ↦ let e : id ≡ j = ground arith in absurd (ground (arith, ap (λ k. C.find k t) e))
        | inr o ↦ (c, ground (arith, C.find-put j id n t), g, refl)
      ]
  Change-IsAway user t t' (edited id body now a f o z e) r = λ j c g h.
      elim (Bool-cases (id == j)) [
        | inl y ↦
            let e : id ≡ j = ground arith in
            let k : a ≡ c = ground (arith, ap (λ k. C.find k t) e) in
            absurd (ground (arith, ap (λ (c : Comment). is_gone c.status) k))
        | inr n ↦ (
          c,
          ground (
            arith,
            C.find-update j id (rewritten body (status_for C settings user body t) now) t,
          ),
          h,
          refl,
        )
      ]
  Change-IsAway user t t' (taken_back id a f o) r = λ j c g h. elim (Bool-cases (id == j)) [
    | inl y ↦ (
      with_state deleted c,
      ground (arith, C.find-update j id (with_state deleted) t),
      refl,
      refl,
    )
    | inr n ↦ (c, ground (arith, C.find-update j id (with_state deleted) t), h, refl)
  ]
  Change-IsAway user t t' left r = λ j c g h. (c, g, h, refl)
  Change-IsAway user t t' (moderated id status e) r = absurd (ground arith)
