-- ===== src/Articles/Sources/Tests.antt =====
-- An article with two references.
use mathlib.Core.Option
use article.Prelude.{
  [], ◌∷◌, true, none, some, ok, refl, zero, suc, Text, ℕ, ◌≡◌, codes, ◌≤◌, utf16_length, trim,
  arith, ◌<◌, ap, ◌+◌,
}
use article.Store.Memory.{memory, count_from, select_from, put, update_many, delete}
use article.Auth.Rbac.{succeeded, require_role}
use article.Articles.Tests.{A, story, author}
use article.Store.{Table}
use article.Articles.Sources.{
  ReferenceInput, Desk, remove_article_reference, add_article_reference, ArticleLink, Reference,
  article_entry, Bool, of_article, is_valid_reference,
}
use article.Articles.Sources.Numbers.{AreNumbered}
use article.Articles.Sources.Edits.{
  remove_article_reference-AreNumbered, add_article_reference-AreNumbered,
}
use article.Articles.Records.{answer}
use article.Audit.{record_audit}

abbrev R : Table Reference
R = memory Reference

abbrev L : Table ArticleLink
L = memory ArticleLink

abbrev source : ℕ → Reference
source n = record {
  article_id = 0;
  position = n;
  title = codes "Report";
  author = none;
  publication = none;
  url = none;
  published_on = none;
  note = none;
}

abbrev desk : Desk A R L
desk = record {
  articles = some story ∷ [];
  references = some (source 1) ∷ some (source 2) ∷ [];
  links = [];
  audit = [];
}

abbrev form : ReferenceInput
form = record {
  article_id = 0;
  title = codes "Report";
  author = none;
  publication = none;
  url = none;
  published_on = none;
  note = none;
}

abbrev is_url : Text → Bool
is_url s = true

abbrev longer : Desk A R L
longer = record desk {
  references = some (source 1) ∷ some (source 2) ∷ some (source 3) ∷ [];
  audit = article_entry 1 "article.reference.add" 0 ∷ [];
}

abbrev shorter : Desk A R L
shorter = record desk {
  references = none ∷ some (source 1) ∷ [];
  audit = article_entry 1 "article.reference.remove" 0 ∷ [];
}

adds_it : add_article_reference A R L is_url (some author) form 2 desk ≡ ok (succeeded (3, longer))
unfolding add_article_reference answer require_role is_valid_reference utf16_length trim count_from
    select_from put record_audit
adds_it = refl

removes_it : remove_article_reference A R L (some author) 0 desk ≡ ok (succeeded shorter)
unfolding remove_article_reference answer require_role update_many record_audit delete
removes_it = refl

desk-AreNumbered : AreNumbered R desk.references
desk-AreNumbered = record { positive = positive; distinct = distinct; before = before }
  where
    positive : (i : ℕ) (r : Reference) → R.find i desk.references ≡ some r → 1 ≤ r.position
    positive zero r f = ground (arith, ap (λ o. Option.map (λ (r : Reference). r.position) o) f)
    positive (suc zero) r f =
        ground (arith, ap (λ o. Option.map (λ (r : Reference). r.position) o) f)
    positive (suc (suc i)) r f = absurd (ground arith)

    distinct :
        (i j : ℕ) (r s : Reference)
        → R.find i desk.references ≡ some r
        → R.find j desk.references ≡ some s
        → r.article_id ≡ s.article_id
        → r.position ≡ s.position
        → i ≡ j
    distinct zero zero r s f g a q = refl
    distinct zero (suc zero) r s f g a q = absurd (
        ground (
          arith,
          ap (λ o. Option.map (λ (r : Reference). r.position) o) f,
          ap (λ o. Option.map (λ (r : Reference). r.position) o) g,
        ))
    distinct (suc zero) zero r s f g a q = absurd (
        ground (
          arith,
          ap (λ o. Option.map (λ (r : Reference). r.position) o) f,
          ap (λ o. Option.map (λ (r : Reference). r.position) o) g,
        ))
    distinct (suc zero) (suc zero) r s f g a q = refl
    distinct zero (suc (suc j)) r s f g a q = absurd (ground arith)
    distinct (suc zero) (suc (suc j)) r s f g a q = absurd (ground arith)
    distinct (suc (suc i)) j r s f g a q = absurd (ground arith)

    before :
        (i : ℕ) (r : Reference)
        → R.find i desk.references ≡ some r
        → 1 < r.position
        → (j : ℕ) × (s : Reference) × (R.find j desk.references ≡ some s)
          × (s.article_id ≡ r.article_id)
          × (s.position + 1 ≡ r.position)
    before zero r f h =
        absurd (ground (arith, ap (λ o. Option.map (λ (r : Reference). r.position) o) f))
    before (suc zero) r f h = (
      0,
      source 1,
      refl,
      ground (arith, ap (λ o. Option.map (λ (r : Reference). r.article_id) o) f),
      ground (arith, ap (λ o. Option.map (λ (r : Reference). r.position) o) f),
    )
    before (suc (suc i)) r f h = absurd (ground arith)

add_article_reference-AreNumbered_example :
    AreNumbered R longer.references
    × ((r : Reference) × (R.find 2 longer.references ≡ some r) × (r.position ≡ 3))
    × (R.count (of_article A R L 0) desk.references < 50)
add_article_reference-AreNumbered_example =
    add_article_reference-AreNumbered A R L is_url (some author) form 2 3 desk longer adds_it refl
      desk-AreNumbered

remove_article_reference-AreNumbered_example :
    AreNumbered R shorter.references × (R.find 0 shorter.references ≡ none)
remove_article_reference-AreNumbered_example =
    remove_article_reference-AreNumbered A R L (some author) 0 desk shorter removes_it
      desk-AreNumbered
