-- ===== src/Faststats/RollingCounter/Ages.antt =====
-- faststats/rolling_counter.go: `GetBuckets` reads the buckets backwards in time.
use native.Mathlib.Nat.{mod-lt, div-add-mod, mul-add-mod_self_left, mod-eq_of_lt, add-mod_right}
use circuit.Prelude.{
  ℕ, zero, suc, ℤ, pos, ltb_ℤ, leb, List, [], ◌∷◌, some, length, get_elem?, if◌then◌else◌, ◌+◌, ◌*◌,
  ◌/◌, ◌%◌, ◌-◌, ◌-ℤ◌, ◌^◌, ◌<◌, ◌≤◌, ◌≡◌, ◌∙◌, sym, refl, ap, wrap64, ◌==◌, false, Bool-cases, inl,
  inr, arith, add64, sub64, sub64-pos, add64-pos, add64-eq, ◌+ℤ◌, leb_ℤ, ◌||◌, get_elem?-lt,
  rem64-pos, leb→le, leb-false→lt,
}
use circuit.Faststats.RollingCounter.{RollingCounter, get_buckets, read_back}
use circuit.Faststats.RollingCounter.Slots.{slot_count, InWindow, mod_apart}
use circuit.Faststats.RollingCounter.History.{History, index?, moved, age_count, Represents}
use circuit.Faststats.RollingCounter.Advancing.{advance_counter-Represents}

-- The slot that lies `age` places behind slot `s` in the ring.
abbrev back : ℕ → ℕ → ℕ → ℕ
back s n age = if leb age s then s - age else s + n - age

pos_of_lt : (a n : ℕ) → a < n → 0 < n
pos_of_lt a n h = omega arith

mod_unique : (x n q r : ℕ) → x ≡ n * q + r → r < n → x % n ≡ r
mod_unique x n q r e h = rw (e, mul-add-mod_self_left n q r) (mod-eq_of_lt h)

mod-back : (x l n age : ℕ) → x + age ≡ l + n → age < n → x % n ≡ back (l % n) n age
mod-back x l n age e h = elim (Bool-cases (leb age (l % n))) [
  | inl near ↦ rw near (
      mod_unique x n (l / n + 1) (l % n - age) (omega (arith, leb→le _ _ near, div-add-mod l n))
        (omega (arith, mod-lt l (pos_of_lt age n h))))
  | inr far ↦ rw far (
      mod_unique x n (l / n) (l % n + n - age)
        (omega (arith, leb-false→lt _ _ far, div-add-mod l n, mod-lt l (pos_of_lt age n h)))
        (omega (arith, leb-false→lt _ _ far)))
]

-- An event of the window lies in the slot of its age, and in no other.
slot-age :
    (l n e age : ℕ) → e ≤ l → l < e + n → age < n → (e % n == back (l % n) n age) ≡ (e + age == l)
slot-age l n e age le lt h = ground (
  arith,
  mod-back (e + n) l n age,
  add-mod_right e n,
  mod-back (l - age + n) l n age,
  add-mod_right (l - age) n,
  mod-back (l + n - age) l n age,
  mod_apart e (l - age) n,
  mod_apart (l - age) e n,
  mod_apart e (l + n - age) n,
)

slot_count-age_count :
    (l n age : ℕ) (es : List ℕ)
    → InWindow l n es
    → age < n
    → slot_count n (back (l % n) n age) es ≡ age_count l age es
unfolding slot_count age_count
slot_count-age_count l n age [] v h = refl
slot_count-age_count l n age (e ∷ es) v h =
    rw (slot-age l n e age v.0 v.1 h, slot_count-age_count l n age es v.2 h)

-- The index that the loop reads in round `i`.
index_back :
    (s n i : ℕ)
    → s < n
    → i < n
    → n < 2 ^ 62
    → (if ltb_ℤ (sub64 (pos s) (pos i)) (pos 0)
        then add64 (sub64 (pos s) (pos i)) (pos n)
        else sub64 (pos s) (pos i))
      ≡ pos (back s n i)
unfolding ◌-ℤ◌ ◌+ℤ◌
index_back s n i h k b =
    rw (sub64-pos s i (omega arith) (omega arith))
      (ground (arith, add64-eq (pos s -ℤ pos i) (pos n)))

next : (i n : ℕ) → i < n → n < 2 ^ 62 → add64 (pos i) (pos 1) ≡ pos (suc i)
next i n h b = add64-pos i 1 (omega arith) ∙ ap pos (omega arith)

read_back-slots :
    (rounds i s n : ℕ) (buckets : List ℤ)
    → length buckets ≡ n
    → s < n
    → i + rounds ≡ n
    → n < 2 ^ 62
    → (vs : List ℤ) × (read_back rounds (pos i) (pos s) (pos n) buckets ≡ some vs)
      × (length vs ≡ rounds)
      × ((j : ℕ) → j < rounds → get_elem? vs j ≡ get_elem? buckets (back s n (i + j)))
unfolding read_back
read_back-slots zero i s n buckets e h k b = ([], refl, refl, λ j q. absurd (omega arith))
read_back-slots (suc rounds) i s n buckets e h k b =
    let (v, found) = get_elem?-lt buckets (back s n i) (rw e (ground arith)) in
    let (vs, run, size, slots) = read_back-slots rounds (suc i) s n buckets e h (omega arith) b in
    (
      v ∷ vs,
      rw (index_back s n i h (omega arith) b, found, next i n (omega arith) b, run) refl,
      ap suc size,
      each v vs found slots,
    )
  where
    each :
        (v : ℤ) (vs : List ℤ)
        → get_elem? buckets (back s n i) ≡ some v
        → ((j : ℕ) → j < rounds → get_elem? vs j ≡ get_elem? buckets (back s n (suc i + j)))
        → (j : ℕ) → j < suc rounds
        → get_elem? (v ∷ vs) j ≡ get_elem? buckets (back s n (i + j))
    each v vs found slots zero q =
        sym found ∙ ap (λ m. get_elem? buckets (back s n m)) {x = i} (omega arith)
    each v vs found slots (suc j) q =
        slots j (omega arith)
        ∙ ap (λ m. get_elem? buckets (back s n m)) {x = suc i + j} (omega arith)

usable_size : (n : ℕ) → 0 < n → (leb_ℤ (pos n) (pos 0) || n == 0) ≡ false
usable_size n p = ground arith

back-lt : (s n age : ℕ) → s < n → age < n → back s n age < n
back-lt s n age h k = ground arith

module _ (n w : ℕ) (start : ℤ) where
  -- The buckets come newest first: place `age` holds the events of that age.
  pub get_buckets-Represents :
      (h : History) (c : RollingCounter) (now : ℤ)
      → Represents n w start h c
      → n < 2 ^ 62
      → let h' = moved n (index? start w now) h in
        (vs : List ℤ) × (c' : RollingCounter) × (get_buckets c now ≡ some (vs, c'))
        × (length vs ≡ n)
        × ((age : ℕ)
            → age < n
            → get_elem? vs age ≡ some (wrap64 (pos (age_count h'.last age h'.events))))
        × Represents n w start h' c'
  unfolding get_buckets
  get_buckets-Represents h c now v b =
      let h' = moved n (index? start w now) h in
      let (c', run, v') = advance_counter-Represents n w start h c v now in
      let p = v.window.some_buckets in
      let s = h'.last % n in
      let q : s < n = mod-lt h'.last p in
      let (vs, run', size, slots) = read_back-slots n 0 s n c'.buckets v'.sized q (omega arith) b in
      let usable : (leb_ℤ c.rolling_bucket.num_buckets (pos 0) || length c.buckets == 0) ≡ false =
        rw (v.window.buckets, v.sized) (usable_size n p) in
      (
        vs,
        c',
        simp (usable, run, v'.window.buckets, v'.window.last, rem64-pos h'.last n, run'),
        size,
        λ age r.
            slots age r
            ∙ ap (λ m. get_elem? c'.buckets (back s n m)) {x = 0 + age} {y = age} (omega arith)
            ∙ v'.counted (back s n age) (back-lt s n age q r)
            ∙ ap (λ m. some (wrap64 (pos m)))
                (slot_count-age_count h'.last n age h'.events v'.inside r),
        v',
      )
