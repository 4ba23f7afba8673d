-- ===== src/RateLimit.antt =====
-- src/lib/rateLimit.ts: the limit kept in memory, with the sweep of expired entries. The limiter of the
-- hosted store is third-party code.
pub mod Bound
pub mod Tests
use article.Prelude.{
  none, some, [], ◌∷◌, true, false, Text, Bool, ℕ, Option, leb, List, ◌+◌, if◌then◌else◌, ◌++◌,
  text_eq, ◌-◌, ◌&&◌,
}

pub record Window : Type 0 where
  pub count : ℕ
  pub reset_at : ℕ

-- `memoryStore`
abbrev pub MemoryStore : Type 0
MemoryStore = Text → Option Window

abbrev pub set : Text → Window → MemoryStore → MemoryStore
set key w store k = if text_eq key k then some w else store k

pub record LimitResult : Type 0 where
  pub success : Bool
  pub remaining : ℕ

abbrev pub is_over : ℕ → Option Window → Bool
is_over now none = true
is_over now (some w) = leb w.reset_at now

abbrev count_in : Option Window → ℕ
count_in none = 0
count_in (some w) = w.count

abbrev end_of : Option Window → ℕ
end_of none = 0
end_of (some w) = w.reset_at

unfoldable pub memory_limit : Text → ℕ → ℕ → ℕ → MemoryStore → LimitResult × MemoryStore
memory_limit key limit window_ms now store =
    let counted = count_in (store key) + 1 in
    if is_over now (store key)
    then (
      record { success = true; remaining = limit - 1 },
      set key (record { count = 1; reset_at = now + window_ms }) store,
    )
    else (
      record { success = leb counted limit; remaining = limit - counted },
      set key (record { count = counted; reset_at = end_of (store key) }) store,
    )

-- The sweep drops what is over.
unfoldable pub sweep : ℕ → MemoryStore → MemoryStore
sweep now store k = if is_over now (store k) then none else store k

-- `${prefix}:${identifier}`
unfoldable pub limit_key : Text → Text → Text
limit_key prefix identifier = prefix ++ b':' ∷ identifier

-- What happens to a limiter: somebody asks, or the sweep runs, each at its time.
pub data Event : Type 0 where
  asks : Text → ℕ → Event
  sweeps : ℕ → Event

abbrev pub time_of : Event → ℕ
time_of (asks key now) = now
time_of (sweeps now) = now

-- How often a key is let through.
unfoldable pub passed : ℕ → ℕ → Text → List Event → MemoryStore → ℕ
passed limit window_ms key [] store = 0
passed limit window_ms key (sweeps now ∷ events) store =
    passed limit window_ms key events (sweep now store)
passed limit window_ms key (asks k now ∷ events) store =
    let (result, store') = memory_limit k limit window_ms now store in
    (if text_eq k key && result.success then 1 else 0) + passed limit window_ms key events store'
