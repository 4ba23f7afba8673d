-- ===== src/Comments/Depth.antt =====
-- How deep comments nest.
use article.Prelude.{
  none, some, ok, refl, inl, inr, zero, suc, then-ok, guard-ok, ℕ, ◌≡◌, ◌≤◌, ◌∙◌, Option,
  Option-cases, Bool-cases, arith, guard, ◌+◌, ==_iff, ◌==◌, ap, subst,
}
use article.Comments.Changes.{
  posted, edited, taken_back, left, moderated, empty, later, Reachable, Change,
}
use article.Articles.Records.{refuses}
use article.Comments.Posting.{no_parent, reply_allowed, can_answer}
use article.Store.{Table}
use article.Comments.Threads.{
  Comment, SiteSettings, depth_from, reply_depth, max_reply_depth, parent_of,
}
use article.Auth.Rbac.{SessionUser}

module _ (C : Table Comment) where
  -- A comment has that many comments above it, each a reply to the next.
  pub data Above (t : C.Rows) : ℕ → ℕ → Type 0 where
    top : (id : ℕ) (c : Comment) → C.find id t ≡ some c → c.parent_id ≡ none → Above t id 0
    reply :
        (id p n : ℕ) (c : Comment)
        → C.find id t ≡ some c
        → c.parent_id ≡ some p
        → Above t p n
        → Above t id (suc n)

  -- Every comment leads up to a comment that answers nothing, in at most three steps.
  abbrev pub IsShallow : C.Rows → Type 0
  IsShallow t =
      (id : ℕ) (c : Comment) → C.find id t ≡ some c → (n : ℕ) × Above t id n × (n ≤ max_reply_depth)

  depth_from-Above :
      (t : C.Rows) (id n rounds d : ℕ)
      → Above t id n
      → n ≤ rounds
      → depth_from C rounds d (parent_of C (C.find id t)) t ≡ d + n
  unfolding depth_from
  depth_from-Above t id zero rounds d (top _ c f e) h = ground (arith, ap (parent_of C) f)
  depth_from-Above t id (suc n) zero d (reply _ p _ c f e a) h = absurd (omega arith)
  depth_from-Above t id (suc n) (suc rounds) d (reply _ p _ c f e a) h =
      ground (arith, ap (parent_of C) f, depth_from-Above t p n rounds (d + 1) a (omega arith))

  -- Whoever is there before is there after, as an answer to the same comment.
  abbrev IsKept : C.Rows → C.Rows → Type 0
  IsKept t t' =
      (id : ℕ) (c : Comment)
      → C.find id t ≡ some c
      → (c' : Comment) × (C.find id t' ≡ some c') × (c'.parent_id ≡ c.parent_id)

  Above-kept : (t t' : C.Rows) (id n : ℕ) → IsKept t t' → Above t id n → Above t' id n
  Above-kept t t' id zero k (top _ c f e) = let (c', f', e') = k id c f in top id c' f' (e' ∙ e)
  Above-kept t t' id (suc n) k (reply _ p _ c f e a) =
      let (c', f', e') = k id c f in reply id p n c' f' (e' ∙ e) (Above-kept t t' p n k a)

  put-IsKept : (t : C.Rows) (id : ℕ) (c : Comment) → C.find id t ≡ none → IsKept t (C.put id c t)
  put-IsKept t id c n j b f = (
    b,
    ground (arith, C.find-put j id c t, ==_iff id j, (λ (e : id ≡ j). ap (λ k. C.find k t) e)),
    refl,
  )

  update-IsKept :
      (t : C.Rows) (id : ℕ) (f : Comment → Comment)
      → ((c : Comment) → (f c).parent_id ≡ c.parent_id)
      → IsKept t (C.update id f t)
  update-IsKept t id f same j c g = elim (Bool-cases (id == j)) [
    | inl y ↦ (f c, ground (arith, C.find-update j id f t), same c)
    | inr n ↦ (c, ground (arith, C.find-update j id f t), refl)
  ]

  update-IsShallow :
      (t : C.Rows) (id : ℕ) (f : Comment → Comment)
      → ((c : Comment) → (f c).parent_id ≡ c.parent_id)
      → IsShallow t
      → IsShallow (C.update id f t)
  update-IsShallow t id f same s j c g = elim (Option-cases (C.find j t)) [
    | inl e ↦ absurd (ground (arith, C.find-update j id f t))
    | inr (b, e) ↦
        let (n, a, l) = s j b e in (n, Above-kept t _ j n (update-IsKept t id f same) a, l)
  ]

  posted-Above :
      (t : C.Rows) (id article : ℕ) (p : Option ℕ) (c : Comment)
      → C.find id t ≡ none
      → c.parent_id ≡ p
      → reply_allowed C article p t ≡ ok tt
      → IsShallow t
      → (n : ℕ) × Above (C.put id c t) id n × (n ≤ max_reply_depth)
  unfolding reply_depth
  posted-Above t id article none c new e h s =
      (0, top id c (ground (arith, C.find-put id id c t)) e, omega arith)
  posted-Above t id article (some p) c new e h s =
      then-ok (guard (can_answer C article (C.find p t)) (refuses no_parent)) _ tt h (λ e1 h1.
        elim (Option-cases (C.find p t)) [
          | inl g ↦ absurd (ground arith)
          | inr (b, g) ↦
              let (n, a, l) = s p b g in
              let d = depth_from-Above t p n max_reply_depth 1 a l in
              let k = guard-ok _ _ h1 in
              (
                suc n,
                reply id p n c (ground (arith, C.find-put id id c t)) e
                    (Above-kept t _ p n (put-IsKept t id c new) a),
                ground (arith, d, k),
              )
        ])

  put-IsShallow :
      (t : C.Rows) (id article : ℕ) (p : Option ℕ) (c : Comment)
      → C.find id t ≡ none
      → c.parent_id ≡ p
      → reply_allowed C article p t ≡ ok tt
      → IsShallow t
      → IsShallow (C.put id c t)
  put-IsShallow t id article p c new e h s j b f = elim (Bool-cases (id == j)) [
    | inl y ↦
        let k : id ≡ j = ground arith in
        subst (λ j. (n : ℕ) × Above (C.put id c t) j n × (n ≤ max_reply_depth)) k
          (posted-Above t id article p c new e h s)
    | inr o ↦
        let (n, a, l) = s j b (ground (arith, C.find-put j id c t)) in
        (n, Above-kept t _ j n (put-IsKept t id c new) a, l)
  ]

  module _ (settings : SiteSettings) where
    pub Change-IsShallow :
        (user : SessionUser) (t t' : C.Rows)
        → Change C settings user t t'
        → IsShallow t
        → IsShallow t'
    Change-IsShallow user t t' (posted input now id new h) s =
        put-IsShallow t id input.article_id input.parent_id _ new refl h s
    Change-IsShallow user t t' (edited id body now c f o g e) s =
        update-IsShallow t id _ (λ c. refl) s
    Change-IsShallow user t t' (taken_back id c f o) s = update-IsShallow t id _ (λ c. refl) s
    Change-IsShallow user t t' left s = s
    Change-IsShallow user t t' (moderated id status e) s = update-IsShallow t id _ (λ c. refl) s

    pub Reachable-IsShallow : (t : C.Rows) → Reachable C settings t → IsShallow t
    Reachable-IsShallow t (empty _ e) = λ id c f. absurd (ground (arith, e id))
    Reachable-IsShallow t (later user s _ r c) =
        Change-IsShallow user s t c (Reachable-IsShallow s r)
