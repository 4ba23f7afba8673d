-- ===== src/RateLimit/Bound.antt =====
-- How often a limit kept in memory lets a key through.
use article.Prelude.{
  some, [], ◌∷◌, true, false, inl, inr, refl, Text, ℕ, text_eq, ◌≡◌, List, ◌<◌, Bool-cases, arith,
  ◌+◌, All, leb, text_eq_iff, ◌≤◌, ◌-◌, if◌then◌else◌,
}
use article.RateLimit.{
  asks, sweeps, passed, MemoryStore, memory_limit, sweep, Event, is_over, time_of,
}

-- The window of a key is open until that time, with that count.
abbrev IsOpen : MemoryStore → Text → ℕ → ℕ → Type 0
IsOpen store key n end = store key ≡ some (record { count = n; reset_at = end })

sweep-IsOpen :
    (now : ℕ) (store : MemoryStore) (key : Text) (n end : ℕ)
    → now < end
    → IsOpen store key n end
    → IsOpen (sweep now store) key n end
unfolding sweep
sweep-IsOpen now store key n end h o = ground (arith, o)

other-IsOpen :
    (limit window_ms now : ℕ) (store : MemoryStore) (k key : Text) (n end : ℕ)
    → text_eq k key ≡ false
    → IsOpen store key n end
    → IsOpen (memory_limit k limit window_ms now store).1 key n end
unfolding memory_limit
other-IsOpen limit window_ms now store k key n end h o = elim (Bool-cases (is_over now (store k))) [
  | inl y ↦ ground (arith, o)
  | inr y ↦ ground (arith, o)
]

own-IsOpen :
    (limit window_ms now : ℕ) (store : MemoryStore) (key : Text) (n end : ℕ)
    → now < end
    → IsOpen store key n end
    → IsOpen (memory_limit key limit window_ms now store).1 key (n + 1) end
      × ((memory_limit key limit window_ms now store).0.success ≡ leb (n + 1) limit)
unfolding memory_limit
own-IsOpen limit window_ms now store key n end h o =
    let r : text_eq key key ≡ true = ground (arith, text_eq_iff key key) in
    let l : leb end now ≡ false = ground arith in (rw (o, l, r) refl, rw (o, l) refl)

left_over :
    (limit n rest : ℕ)
    → rest ≤ limit - (n + 1)
    → (if leb (n + 1) limit then 1 else 0) + rest ≤ limit - n
left_over limit n rest h = ground arith

-- In an open window, what is left of the limit is let through at most.
open-passed :
    (limit window_ms : ℕ) (key : Text) (n end : ℕ) (events : List Event) (store : MemoryStore)
    → IsOpen store key n end
    → All (λ e. time_of e < end) events
    → passed limit window_ms key events store ≤ limit - n
unfolding passed
open-passed limit window_ms key n end [] store o h = omega arith
open-passed limit window_ms key n end (sweeps now ∷ events) store o (t, h) =
    open-passed limit window_ms key n end events (sweep now store)
      (sweep-IsOpen now store key n end t o) h
open-passed limit window_ms key n end (asks k now ∷ events) store o (t, h) =
    elim (Bool-cases (text_eq k key)) [
      | inr other ↦
          let ih =
            open-passed limit window_ms key n end events
              (memory_limit k limit window_ms now store).1
              (other-IsOpen limit window_ms now store k key n end other o) h in
          ground arith
      | inl same ↦
          let e : k ≡ key = ground (arith, text_eq_iff k key) in
          let (o', q) = own-IsOpen limit window_ms now store key n end t o in
          let ih =
            open-passed limit window_ms key (n + 1) end events
              (memory_limit key limit window_ms now store).1 o' h in
          let r : text_eq key key ≡ true = ground (arith, text_eq_iff key key) in
          rw (e, r, q)
            (left_over limit n
              (passed limit window_ms key events (memory_limit key limit window_ms now store).1) ih)
    ]

first-IsOpen :
    (limit window_ms now : ℕ) (store : MemoryStore) (key : Text)
    → is_over now (store key) ≡ true
    → IsOpen (memory_limit key limit window_ms now store).1 key 1 (now + window_ms)
unfolding memory_limit
first-IsOpen limit window_ms now store key h =
    let r : text_eq key key ≡ true = ground (arith, text_eq_iff key key) in rw (h, r) refl

-- From the moment that a key is asked for without an open window, and for as long as the window is, it is let
-- through as often as the limit says at most, whatever else is asked and whenever the sweep runs, for a
-- limit of at least one.
pub memory_limit-passed :
    (limit window_ms now : ℕ) (key : Text) (events : List Event) (store : MemoryStore)
    → 1 ≤ limit
    → is_over now (store key) ≡ true
    → All (λ e. time_of e < now + window_ms) events
    → passed limit window_ms key (asks key now ∷ events) store ≤ limit
unfolding passed
memory_limit-passed limit window_ms now key events store pos over h =
    let rest =
      open-passed limit window_ms key 1 (now + window_ms) events
        (memory_limit key limit window_ms now store).1
        (first-IsOpen limit window_ms now store key over) h in
    ground arith
