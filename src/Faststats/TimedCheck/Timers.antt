-- ===== src/Faststats/TimedCheck/Timers.antt =====
-- faststats/timedcheck.go: the timers.
use circuit.Prelude.{
  ℤ, pos, leb_ℤ, eqb_ℤ, true, false, List, [], ◌∷◌, add64, time_add, ◌≡◌, ◌≢◌, refl, arith,
  eq_of_parts,
}
use circuit.Faststats.TimedCheck.{TimedCheck, sleep_start, fire, check}

-- The callbacks of timers with these versions, one after the other.
unfoldable pub fires : List ℤ → TimedCheck → TimedCheck
unfolding fire
fires [] c = c
fires (v ∷ versions) c = fires versions (fire v c)

-- None of these timers has the version.
abbrev pub Stale : ℤ → List ℤ → Type 0
Stale current [] = Unit {0}
Stale current (v ∷ versions) = (v ≢ current) × Stale current versions

eqb_ℤ-ne : (a b : ℤ) → a ≢ b → eqb_ℤ a b ≡ false
eqb_ℤ-ne a b h = ground (arith, eq_of_parts a b)

eqb_ℤ_refl : (a : ℤ) → eqb_ℤ a a ≡ true
eqb_ℤ_refl a = ground arith

fires-Stale :
    (versions : List ℤ) (c : TimedCheck)
    → Stale c.is_fail_fast_version versions
    → fires versions c ≡ c
unfolding fires fire
fires-Stale [] c h = refl
fires-Stale (v ∷ versions) c h =
    rw (eqb_ℤ-ne v c.is_fail_fast_version h.0) (fires-Stale versions c h.1)

-- After `SleepStart`, callbacks of timers that were set for an older version change nothing, so every
-- check still fails fast, whatever its time.
pub check-fires-sleep_start :
    (now later : ℤ) (versions : List ℤ) (c : TimedCheck)
    → Stale (sleep_start now c).is_fail_fast_version versions
    → fires versions (sleep_start now c) ≡ sleep_start now c
      × check later (fires versions (sleep_start now c)) ≡ (false, sleep_start now c)
unfolding sleep_start check
check-fires-sleep_start now later versions c h =
    let same = fires-Stale versions (sleep_start now c) h in (same, rw same)

-- Once the timer of the sleep has called back, a check passes exactly if the sleep is over by its time.
pub fired_check :
    (now later : ℤ) (c : TimedCheck)
    → let slept = sleep_start now c in
      (check later (fire slept.is_fail_fast_version slept)).0
      ≡ leb_ℤ (time_add now c.sleep_duration) later
unfolding sleep_start check fire
fired_check now later c = rw (eqb_ℤ_refl (add64 c.is_fail_fast_version (pos 1))) (ground arith)
