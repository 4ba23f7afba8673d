-- ===== src/Issues/Outbox.antt =====
-- A table of notices in memory. It shows that what is assumed of such a table can hold, and tests run on it.
use article.Prelude.{
  [], ◌∷◌, true, inl, inr, List, Bool, if◌then◌else◌, ◌≡◌, any, ◌||◌, arith, Bool-cases, sym, refl,
}
use article.Issues.Alerts.{NoticeTable, Notice, same_notice}

abbrev pub has_notice : Notice → List Notice → Bool
has_notice n t = any (λ m. same_notice m n) t

abbrev pub add_notice : Notice → List Notice → List Notice
add_notice n t = if has_notice n t then t else n ∷ t

absorbed :
    (n m : Notice) (t : List Notice)
    → has_notice m t ≡ true
    → (same_notice m n || has_notice n t) ≡ has_notice n t
absorbed n m [] h = ground arith
absorbed n m (k ∷ t) h = ground (arith, absorbed n m t)

pub has-add_notice :
    (n m : Notice) (t : List Notice)
    → has_notice n (add_notice m t) ≡ (same_notice m n || has_notice n t)
has-add_notice n m t = elim (Bool-cases (has_notice m t)) [
  | inr new ↦ rw new refl
  | inl old ↦ rw old (sym (absorbed n m t old))
]

abbrev pub outbox : NoticeTable
outbox = record { Rows = List Notice; has = has_notice; add = add_notice; has-add = has-add_notice }
