-- ===== src/Faststats/TimedCheck/Rate.antt =====
-- faststats/timedcheck.go: how many checks pass.
use circuit.Prelude.{
  ◌⊎◌, ℕ, zero, suc, ℤ, pos, Bool, true, false, List, [], ◌∷◌, add64-pos, time_add, if◌then◌else◌,
  ◌≡◌, refl, arith, ◌+◌, ◌*◌, ◌-◌, ◌^◌, ◌≤◌, ◌<◌, ◌≤ℤ◌, ◌<ℤ◌, ◌+ℤ◌, +ℤ_parts, inl, inr,
}
use circuit.Faststats.TimedCheck.{TimedCheck, sleep_start, fire, check, check_locked}

-- What callers and timers do: a check, the part of a check under the lock (whose unlocked tests were
-- made in an earlier state), and a callback.
pub data Event : Type 0 where
  checks locks fires : ℤ → Event

unfoldable pub react : Event → TimedCheck → Bool × TimedCheck
unfolding check check_locked fire
react (checks now) c = check now c
react (locks now) c = check_locked now c
react (fires version) c = (false, fire version c)

-- How many checks pass.
unfoldable pub passed : List Event → TimedCheck → ℕ
unfolding react
passed [] c = 0
passed (e ∷ events) c = let (ok, c') = react e c in (if ok then 1 else 0) + passed events c'

-- No check is at or after `t`.
abbrev pub Before : ℤ → List Event → Type 0
Before t [] = Unit {0}
Before t (checks now ∷ events) = (now <ℤ t) × Before t events
Before t (locks now ∷ events) = (now <ℤ t) × Before t events
Before t (fires version ∷ events) = Before t events

-- A sleep of `d`, at most `n` checks to a sleep, of which `k` are used up.
record Holding (d n k : ℕ) (c : TimedCheck) : Type 0 where
  sleep : c.sleep_duration ≡ pos d
  limit : c.event_count_to_allow ≤ℤ pos n
  used : c.currently_allowed_event_count ≡ pos k
  left : k < n
  fits : n < 2 ^ 63

-- A check that passes comes when the sleep is over; it is counted, or it starts the next sleep.
abbrev Passes : ℕ → ℕ → ℕ → ℤ → TimedCheck → Bool × TimedCheck → Type 0
Passes d n k now c r =
    (r.0 ≡ true)
    × (c.next_open_time ≤ℤ now)
    × ((Holding d n (suc k) r.1 × (r.1.next_open_time ≡ c.next_open_time))
        ⊎ (Holding d n 0 r.1 × (r.1.next_open_time ≡ now +ℤ pos d)))

locked_cases :
    (d n k : ℕ) (now : ℤ) (c : TimedCheck)
    → Holding d n k c
    → (check_locked now c ≡ (false, c)) ⊎ Passes d n k now c (check_locked now c)
unfolding check_locked time_add
locked_cases d n k now c v = ground (arith, add64-pos k 1)

check_cases :
    (d n k : ℕ) (now : ℤ) (c : TimedCheck)
    → Holding d n k c
    → (check now c ≡ (false, c)) ⊎ Passes d n k now c (check now c)
unfolding check
check_cases d n k now c v = ground (arith, locked_cases d n k now c v)

-- A callback decides about the fast path alone.
fire_same : (version : ℤ) (c : TimedCheck) → (fire version c).next_open_time ≡ c.next_open_time
unfolding fire
fire_same version c = ground arith

fire-Holding :
    (d n k : ℕ) (version : ℤ) (c : TimedCheck) → Holding d n k c → Holding d n k (fire version c)
unfolding fire
fire-Holding d n k version c v = ground arith

-- The bound for the events that follow, at every state.
abbrev Bounded : ℕ → ℕ → ℤ → List Event → Type 0
Bounded d n h events =
    (k m : ℕ) (c : TimedCheck)
    → Holding d n k c
    → h ≤ℤ c.next_open_time +ℤ pos (m * d)
    → passed events c ≤ m * n - k

Passes-bound :
    (d n k m : ℕ) (h now : ℤ) (events : List Event) (c : TimedCheck) (r : Bool × TimedCheck)
    → Passes d n k now c r
    → k < n
    → now <ℤ h
    → h ≤ℤ c.next_open_time +ℤ pos (m * d)
    → Bounded d n h events
    → (if r.0 then 1 else 0) + passed events r.1 ≤ m * n - k
Passes-bound d n k zero h now events c r (ok, over, next) l b e rest =
    absurd (omega (arith, +ℤ_parts c.next_open_time (pos (0 * d))))
Passes-bound d n k (suc m) h now events c r (ok, over, inl (v, same)) l b e rest =
    let more = rest (suc k) (suc m) r.1 v (rw same e) in
    let room : n ≤ suc m * n = grind arith in rw ok (omega (arith, more))
Passes-bound d n k (suc m) h now events c r (ok, over, inr (v, next)) l b e rest =
    let later : h ≤ℤ r.1.next_open_time +ℤ pos (m * d) = rw next (
      omega (
        arith,
        +ℤ_parts now (pos d),
        +ℤ_parts (now +ℤ pos d) (pos (m * d)),
        +ℤ_parts c.next_open_time (pos (suc m * d)),
      )) in
    let more = rest 0 m r.1 v later in rw ok (omega (arith, more))

passed-le : (d n : ℕ) (h : ℤ) (events : List Event) → Before h events → Bounded d n h events
unfolding passed react
passed-le d n h [] b k m c v e = omega arith
passed-le d n h (fires version ∷ events) b k m c v e = omega (
  arith,
  passed-le d n h events b k m (fire version c) (fire-Holding d n k version c v)
      (rw (fire_same version c) e),
)
passed-le d n h (checks now ∷ events) b k m c v e = elim (check_cases d n k now c v) [
  | inl same ↦ rw same (omega (arith, passed-le d n h events b.1 k m c v e))
  | inr passes ↦
      Passes-bound d n k m h now events c (check now c) passes v.left b.0 e
        (passed-le d n h events b.1)
]
passed-le d n h (locks now ∷ events) b k m c v e = elim (locked_cases d n k now c v) [
  | inl same ↦ rw same (omega (arith, passed-le d n h events b.1 k m c v e))
  | inr passes ↦
      Passes-bound d n k m h now events c (check_locked now c) passes v.left b.0 e
        (passed-le d n h events b.1)
]

-- After `SleepStart` at `start` with a sleep of `d`, as long as the settings stay, at most `m * n`
-- checks pass before `start + (m + 1) * d`, where n (at least 1) is no less than the event count; in
-- whatever order the checks, the locked parts of checks and the timers' callbacks come.
pub sleep_start-rate :
    (d n m : ℕ) (start : ℤ) (events : List Event) (c : TimedCheck)
    → c.sleep_duration ≡ pos d
    → c.event_count_to_allow ≤ℤ pos n
    → 0 < n
    → n < 2 ^ 63
    → Before (start +ℤ pos (suc m * d)) events
    → passed events (sleep_start start c) ≤ m * n
unfolding sleep_start time_add
sleep_start-rate d n m start events c sleep limit p fits b =
    let slept : Holding d n 0 (sleep_start start c) = record {
      sleep = sleep;
      limit = limit;
      used = refl;
      left = p;
      fits = fits;
    } in
    let bound = passed-le d n (start +ℤ pos (suc m * d)) events b 0 m (sleep_start start c) slept (
      rw sleep (
        omega (
          arith,
          +ℤ_parts start (pos d),
          +ℤ_parts (start +ℤ pos d) (pos (m * d)),
          +ℤ_parts start (pos (suc m * d)),
        ))) in
    omega (arith, bound)
