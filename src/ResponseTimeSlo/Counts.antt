-- ===== src/ResponseTimeSlo/Counts.antt =====
-- metrics/responsetimeslo/responsetime.go: what a tracker has counted and told after any requests.
use circuit.Prelude.{
  ℕ, suc, ℤ, pos, Bool, true, false, Option, some, none, List, [], ◌∷◌, leb_ℤ, ltb_ℤ, add64, wrap64,
  wrap64-suc, wrap64-eq, if◌then◌else◌, ◌≡◌, ◌∙◌, refl, ap, sym, subst, arith, ◌+◌,
}
use circuit.Circuit.Logic.{
  RunEvent, success, err_failure, err_timeout, err_bad_request, err_interrupt,
  err_concurrency_limit_reject, err_short_circuit, tell_all,
}
use circuit.ResponseTimeSlo.{Tracker, observe, healthy, failure}

-- Whether a request met the objective, if it counts at all.
unfoldable pub judged : ℤ → RunEvent → Option Bool
judged limit (success now duration) = some (leb_ℤ duration limit)
judged limit (err_bad_request now duration) = none
judged limit (err_interrupt now duration) = if ltb_ℤ limit duration then some false else none
judged limit _ = some false

abbrev more : Option Bool → List Bool → List Bool
more none bs = bs
more (some b) bs = b ∷ bs

unfoldable pub judgements : ℤ → List RunEvent → List Bool
judgements limit [] = []
judgements limit (event ∷ events) = more (judged limit event) (judgements limit events)

unfoldable pub count : Bool → List Bool → ℕ
count b [] = 0
count true (true ∷ bs) = suc (count true bs)
count true (false ∷ bs) = count true bs
count false (true ∷ bs) = count false bs
count false (false ∷ bs) = suc (count false bs)

module _ {E : Type 0} where
  -- The first event first.
  unfoldable pub observes : List RunEvent → Tracker E → E → Tracker E × E
  observes [] r e = (r, e)
  observes (event ∷ events) r e = let (r', e') = observe event r e in observes events r' e'

  unfoldable pub tells : List (Bool → E → E) → List Bool → E → E
  tells collectors [] e = e
  tells collectors (b ∷ bs) e = tells collectors bs (tell_all collectors b e)

  -- One judgement.
  unfoldable pub judge : Bool → Tracker E → E → Tracker E × E
  judge b r e = if b then healthy r e else failure r e

  -- The counts before.
  record Counted (m f : ℕ) (r : Tracker E) : Type 0 where
    met : r.meets_slo_count ≡ wrap64 (pos m)
    failed : r.fails_slo_count ≡ wrap64 (pos f)

  -- The counts after these judgements, modulo 2^64, and the environment that the collectors leave.
  pub record Told (m f : ℕ) (bs : List Bool) (r : Tracker E) (e : E) (x : Tracker E × E)
      : Type 0 where
    pub met : x.0.meets_slo_count ≡ wrap64 (pos (m + count true bs))
    pub failed : x.0.fails_slo_count ≡ wrap64 (pos (f + count false bs))
    pub left : x.1 ≡ tells r.collectors bs e

  judge-Told :
      (b : Bool) (bs : List Bool) (m f : ℕ) (r : Tracker E) (e : E) (x : Tracker E × E)
      → (let (r', e') = judge b r e in
          Told (if b then suc m else m) (if b then f else suc f) bs r' e' x
          → Told m f (b ∷ bs) r e x)
  unfolding judge healthy failure count tells
  judge-Told true bs m f r e x t = record {
    met = t.met ∙ ap (λ n. wrap64 (pos n)) (omega arith);
    failed = t.failed;
    left = t.left;
  }
  judge-Told false bs m f r e x t = record {
    met = t.met;
    failed = t.failed ∙ ap (λ n. wrap64 (pos n)) (omega arith);
    left = t.left;
  }

  judge-Counted :
      (b : Bool) (m f : ℕ) (r : Tracker E) (e : E)
      → Counted m f r
      → Counted (if b then suc m else m) (if b then f else suc f) (judge b r e).0
  unfolding judge healthy failure
  judge-Counted true m f r e c = record {
    met = ap (λ k. add64 k (pos 1)) c.met ∙ wrap64-suc m;
    failed = c.failed;
  }
  judge-Counted false m f r e c = record {
    met = c.met;
    failed = ap (λ k. add64 k (pos 1)) c.failed ∙ wrap64-suc f;
  }

  judge-limit :
      (b : Bool) (r : Tracker E) (e : E)
      → (judge b r e).0.maximum_healthy_time ≡ r.maximum_healthy_time
  unfolding judge healthy failure
  judge-limit true r e = refl
  judge-limit false r e = refl

  -- What a judgement, or none, leaves.
  abbrev after : Option Bool → Tracker E → E → Tracker E × E
  after none r e = (r, e)
  after (some b) r e = judge b r e

  after-Told :
      (j : Option Bool) (events : List RunEvent) (m f : ℕ) (r : Tracker E) (e : E)
      → Counted m f r
      → ((m' f' : ℕ) (r' : Tracker E) (e' : E)
          → Counted m' f' r'
          → Told m' f' (judgements r'.maximum_healthy_time events) r' e' (observes events r' e'))
      → Told m f
          (more j (judgements r.maximum_healthy_time events))
          r
          e
          (observes events (after j r e).0 (after j r e).1)
  after-Told none events m f r e c later = later m f r e c
  after-Told (some b) events m f r e c later =
      let limit = r.maximum_healthy_time in
      let (r', e') = judge b r e in
      let told =
        later (if b then suc m else m) (if b then f else suc f) r' e' (judge-Counted b m f r e c) in
      judge-Told b (judgements limit events) m f r e (observes events r' e') (
        subst
          (λ l.
            Told (if b then suc m else m) (if b then f else suc f) (judgements l events) r' e'
              (observes events r' e'))
          (judge-limit b r e) told)

  observe-after :
      (event : RunEvent) (r : Tracker E) (e : E)
      → observe event r e ≡ after (judged r.maximum_healthy_time event) r e
  unfolding observe judged judge
  observe-after (success now duration) r e = refl
  observe-after (err_failure now duration) r e = refl
  observe-after (err_timeout now duration) r e = refl
  observe-after (err_concurrency_limit_reject now) r e = refl
  observe-after (err_short_circuit now) r e = refl
  observe-after (err_bad_request now duration) r e = refl
  observe-after (err_interrupt now duration) r e = grind arith

  observes-Told :
      (events : List RunEvent) (m f : ℕ) (r : Tracker E) (e : E)
      → Counted m f r
      → Told m f (judgements r.maximum_healthy_time events) r e (observes events r e)
  unfolding observes count tells judgements
  observes-Told [] m f r e c = record {
    met = c.met ∙ ap (λ n. wrap64 (pos n)) (omega arith);
    failed = c.failed ∙ ap (λ n. wrap64 (pos n)) (omega arith);
    left = refl;
  }
  observes-Told (event ∷ events) m f r e c =
      let limit = r.maximum_healthy_time in
      let told = after-Told (judged limit event) events m f r e c (observes-Told events) in
      subst
        (λ x.
          Told m f (more (judged limit event) (judgements limit events)) r e
            (observes events x.0 x.1))
        (sym (observe-after event r e)) told

  -- After any requests a tracker that began with no counts has counted, modulo 2^64, the successes within
  -- the limit as meeting the objective, and as failing it the slower ones, failures, timeouts, rejections
  -- and short circuits, and the interrupts past the limit; the collectors were told the same, in order.
  pub observes-counts :
      (events : List RunEvent) (r : Tracker E) (e : E)
      → r.meets_slo_count ≡ pos 0
      → r.fails_slo_count ≡ pos 0
      → Told 0 0 (judgements r.maximum_healthy_time events) r e (observes events r e)
  observes-counts events r e met failed = observes-Told events 0 0 r e (record {
    met = met ∙ sym (wrap64-eq (pos 0) (omega arith));
    failed = failed ∙ sym (wrap64-eq (pos 0) (omega arith));
  })
