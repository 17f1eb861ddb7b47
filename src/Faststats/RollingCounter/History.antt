-- ===== src/Faststats/RollingCounter/History.antt =====
-- faststats/rolling_counter.go: what a counter promises, with no buckets: a window that slides over
-- the absolute indices of the events, and drops those that it leaves behind.
use circuit.Prelude.{
  ℕ, suc, ℤ, pos, negsuc, pos_part, ltb_ℤ, leb, List, [], ◌∷◌, Option, some, none, length,
  get_elem?, if◌then◌else◌, ◌+◌, ◌/◌, ◌%◌, ◌<◌, ◌≡◌, time_sub, wrap64, ◌==◌,
}
use circuit.Faststats.RollingBuckets.Window.{IsWindow}
use circuit.Faststats.RollingCounter.{RollingCounter}
use circuit.Faststats.RollingCounter.Slots.{slot_count, live, InWindow}

pub record History : Type 0 where
  pub last : ℕ
  pub events : List ℕ
  pub total : ℕ

abbrev pub no_events : History
no_events = record { last = 0; events = []; total = 0 }

-- The absolute index of `now`, if it is not before the start.
abbrev pub index? : ℤ → ℕ → ℤ → Option ℕ
index? start w now =
    if ltb_ℤ (time_sub now start) (pos 0) then none else some (pos_part (time_sub now start) / w)

-- The window after a look at the clock.
abbrev pub moved : ℕ → Option ℕ → History → History
moved n none h = h
moved n (some a) h = if leb a h.last then h else record h { last = a; events = live a n h.events }

-- The window after an event, if that is not before the start nor before the window.
abbrev pub counted : ℕ → Option ℕ → History → History
counted n none h = h
counted n (some a) h =
    let h' = moved n (some a) h in
    if leb (a + n) h.last then h' else record h' { events = a ∷ h'.events }

-- Every event counts in the total.
abbrev pub recorded : ℕ → Option ℕ → History → History
recorded n a h = counted n a (record h { total = suc h.total })

-- How many events are `age` buckets old.
unfoldable pub age_count : ℕ → ℕ → List ℕ → ℕ
age_count l age [] = 0
age_count l age (e ∷ es) = let rest = age_count l age es in if e + age == l then suc rest else rest

-- The bucket that `Advance` returns.
abbrev pub slot_of : ℕ → ℕ → Option ℕ → ℤ
slot_of n l none = negsuc 0
slot_of n l (some a) = if leb (a + n) l then negsuc 0 else pos (a % n)

-- A counter of `n` buckets of `w` nanoseconds holds the history: each bucket counts its events,
-- and no index can overflow.
pub record Represents (n w : ℕ) (start : ℤ) (h : History) (c : RollingCounter) : Type 0 where
  pub window : IsWindow n w h.last c.rolling_bucket
  pub started : c.rolling_bucket.start_time ≡ start
  pub sized : length c.buckets ≡ n
  pub total : c.total_sum ≡ wrap64 (pos h.total)
  pub inside : InWindow h.last n h.events
  pub counted :
      (j : ℕ) → j < n → get_elem? c.buckets j ≡ some (wrap64 (pos (slot_count n j h.events)))
