-- ===== src/Articles/Sources/Edits.antt =====
-- What the actions on references keep.
use article.Prelude.{
  some, none, refl, ok, ◌≡◌, ◌<◌, bind-ok, then-ok, ok-inj, ◌+◌, ap, subst, arith, guard-ok,
}
use article.Store.{Table}
use article.Articles.Records.{Article, throwing, refuses, throws}
use article.Articles.Sources.{
  Reference, ArticleLink, add_article_reference, Text, Bool, Option, SessionUser, ReferenceInput, ℕ,
  Desk, of_article, require_role, guard, is_valid_reference, invalid_source, or_fail, article_gone,
  may_edit, ltb, too_many, new_reference, last_position, dropping, remove_article_reference,
  renumbered, is_after, fault, step_down,
}
use article.Auth.Rbac.{succeeded, require_role}
use article.Articles.Sources.Numbers.{AreNumbered, put-AreNumbered}
use article.Auth.Permissions.{moderator}
use article.Articles.Inversion.{answer-ok}
use article.Articles.Sources.Renumbered.{renumbered-AreNumbered}

module _ (A : Table Article) (R : Table Reference) (L : Table ArticleLink) where
  -- If the references of every article are numbered from 1 on without a gap or a repeat, they still are after
  -- a reference is added under an id that was not in use; the answer is the number of the new one, and
  -- the article had fewer than 50 references.
  pub add_article_reference-AreNumbered :
      (is_url : Text → Bool) (auth : Option SessionUser) (input : ReferenceInput) (id p : ℕ)
      (desk desk' : Desk A R L)
      → add_article_reference A R L is_url auth input id desk ≡ ok (succeeded (p, desk'))
      → R.find id desk.references ≡ none
      → AreNumbered R desk.references
      → AreNumbered R desk'.references
        × ((r : Reference) × (R.find id desk'.references ≡ some r) × (r.position ≡ p))
        × (R.count (of_article A R L input.article_id) desk.references < 50)
  unfolding add_article_reference
  add_article_reference-AreNumbered is_url auth input id p desk desk' h0 new n =
      bind-ok (throwing (require_role moderator auth)) _ (p, desk') (answer-ok _ (p, desk') h0)
        (λ user e0 h1.
          then-ok (guard (is_valid_reference is_url input) (refuses invalid_source)) _ (p, desk') h1
            (λ _ h2.
              bind-ok (or_fail (A.find input.article_id desk.articles) (refuses article_gone)) _
                (p, desk') h2
                (λ a e1 h3.
                  then-ok (may_edit A R L user a) _ (p, desk') h3
                    (λ e2 h4.
                      then-ok
                        (guard
                          (ltb (R.count (of_article A R L input.article_id) desk.references) 50)
                          (refuses too_many))
                        _ (p, desk') h4
                        (λ e3 h5.
                          let q = ok-inj _ (p, desk') _ refl h5 in
                          let r = new_reference A R L input (
                            last_position
                              (R.select (of_article A R L input.article_id) desk.references)
                            + 1) in
                          let t : R.put id r desk.references ≡ desk'.references =
                            ap (λ (e : ℕ × Desk A R L). e.1.references) q in
                          (
                            subst (AreNumbered R) t
                                (put-AreNumbered R desk.references id r new n refl),
                            (
                              r,
                              subst (λ t. R.find id t ≡ some r) t
                                  (ground (arith, R.find-put id id r desk.references)),
                              ap (λ (e : ℕ × Desk A R L). e.0) q,
                            ),
                            ground (arith, guard-ok _ _ e3),
                          ))))))

  gone_now :
      (id : ℕ) (gone : Reference) (t : R.Rows) → R.find id (renumbered A R L id gone t) ≡ none
  gone_now id gone t = ground (
    arith,
    R.find-update_many id (is_after A R L gone) step_down (R.delete id t),
    R.find-delete id id t,
  )

  dropping-AreNumbered :
      (user : SessionUser) (id : ℕ) (o : Option Reference) (desk desk' : Desk A R L)
      → R.find id desk.references ≡ o
      → dropping A R L user id o desk ≡ ok desk'
      → AreNumbered R desk.references
      → AreNumbered R desk'.references × (R.find id desk'.references ≡ none)
  dropping-AreNumbered user id none desk desk' f h n = (
    subst (λ (d : Desk A R L). AreNumbered R d.references) (ok-inj desk desk' _ refl h) n,
    subst (λ (d : Desk A R L). R.find id d.references ≡ none) (ok-inj desk desk' _ refl h) f,
  )
  dropping-AreNumbered user id (some gone) desk desk' f h n =
      bind-ok (or_fail (A.find gone.article_id desk.articles) (throws fault)) _ desk' h (λ a e0 h1.
        then-ok (may_edit A R L user a) _ desk' h1 (λ _ h2.
          let t : renumbered A R L id gone desk.references ≡ desk'.references =
            ap (λ (d : Desk A R L). d.references) (ok-inj _ desk' _ refl h2) in
          (
            subst (AreNumbered R) t (renumbered-AreNumbered R A L desk.references id gone f n),
            subst (λ t. R.find id t ≡ none) t (gone_now id gone desk.references),
          )))

  -- If the references of every article are numbered from 1 on without a gap or a repeat, they still are after
  -- one is removed, and that one is gone.
  pub remove_article_reference-AreNumbered :
      (auth : Option SessionUser) (id : ℕ) (desk desk' : Desk A R L)
      → remove_article_reference A R L auth id desk ≡ ok (succeeded desk')
      → AreNumbered R desk.references
      → AreNumbered R desk'.references × (R.find id desk'.references ≡ none)
  unfolding remove_article_reference
  remove_article_reference-AreNumbered auth id desk desk' h n =
      bind-ok (throwing (require_role moderator auth)) _ desk' (answer-ok _ desk' h) (λ user e0 h1.
        dropping-AreNumbered user id (R.find id desk.references) desk desk' refl h1 n)
