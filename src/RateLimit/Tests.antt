-- ===== src/RateLimit/Tests.antt =====
-- Two comments from one address in a window for one.
use article.Prelude.{none, [], ◌∷◌, refl, List, codes, ◌≤◌, arith}
use article.RateLimit.{asks, sweeps, MemoryStore, passed, Event}
use article.RateLimit.Bound.{memory_limit-passed}

abbrev nothing : MemoryStore
nothing k = none

abbrev asked : List Event
asked = sweeps 3 ∷ asks (codes "a") 5 ∷ []

memory_limit-passed_example : passed 1 10 (codes "a") (asks (codes "a") 0 ∷ asked) nothing ≤ 1
memory_limit-passed_example =
    memory_limit-passed 1 10 0 (codes "a") asked nothing (omega arith) refl
      (omega arith, (omega arith, tt))
