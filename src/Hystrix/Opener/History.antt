-- ===== src/Hystrix/Opener/History.antt =====
-- closers/hystrix/opener.go: from its factory through any outcomes and transitions to its decision.
use circuit.Prelude.{
  ℕ, ℤ, pos, List, [], ◌∷◌, length, Option, some, ◌>>=◌, ◌*◌, ◌/◌, ◌^◌, ◌<◌, ◌≡◌, refl, ap, ◌∙◌,
  div64, div64-pos,
}
use circuit.Faststats.RollingCounter.History.{no_events, index?, moved}
use circuit.Faststats.RollingCounter.Refinement.{IsUsable, new-Represents}
use circuit.Hystrix.Opener.{
  ConfigureOpener, Opener, merge, default_configure_opener, repair, set_config_thread_safe,
  set_config_not_thread_safe, opener_factory, should_open,
}
use circuit.Hystrix.Opener.Threshold.{
  Event, react, Tally, tally, Holds, decision, react-Holds, should_open-decision,
}

-- The events, the latest one first.
unfoldable pub reacts : List Event → Opener → Option Opener
reacts [] e = some e
reacts (ev ∷ evs) e = reacts evs e >>= λ e'. react ev e'

unfoldable pub tallies : ℕ → ℕ → ℤ → List Event → Tally
tallies n w start [] = record { attempts = no_events; errors = no_events }
tallies n w start (ev ∷ evs) = tally n w start ev (tallies n w start evs)

-- The settings with the defaults.
abbrev pub complete : ConfigureOpener → ConfigureOpener
complete config = merge config default_configure_opener

-- Settings that give n buckets of w nanoseconds, and the percentage p.
pub record HasWindow (config : ConfigureOpener) (n w p : ℕ) : Type 0 where
  pub span : ℕ
  pub duration : (repair (complete config)).rolling_duration ≡ pos span
  pub span_fits : span < 2 ^ 63
  pub buckets : (repair (complete config)).num_buckets ≡ pos n
  pub width : span / n ≡ w
  pub usable : IsUsable n w
  pub percentage : (complete config).error_threshold_percentage ≡ pos p

module _ (config : ConfigureOpener) (n w p : ℕ) (start : ℤ) (h : HasWindow config n w p) where
  -- An opener with the given window and settings.
  record Follows (evs : List Event) (e : Opener) : Type 0 where
    holds : Holds n w start (tallies n w start evs) e
    percentage : e.error_percentage ≡ pos p
    volume : e.request_volume ≡ (complete config).request_volume_threshold

  opener_factory-Follows :
      (zero_opener : Opener)
      → (e : Opener) × (opener_factory config start zero_opener ≡ some e) × Follows [] e
  unfolding opener_factory set_config_not_thread_safe set_config_thread_safe tallies repair
  opener_factory-Follows zero_opener =
      let (c, new, v) = new-Represents n w start h.usable in
      let width : div64 (repair (complete config)).rolling_duration
            (repair (complete config)).num_buckets
          ≡ pos w =
        rw (h.duration, h.buckets) (div64-pos h.span n h.span_fits ∙ ap pos h.width) in
      (
        record (set_config_thread_safe (repair (complete config)) zero_opener) {
          errors_count = c;
          legitimate_attempts_count = c;
        },
        rw width (rw h.buckets (rw new refl)),
        record {
          holds = record { attempts = v; errors = v };
          percentage = h.percentage;
          volume = refl;
        },
      )

  reacts-Follows :
      (evs : List Event) (e : Opener)
      → Follows [] e
      → (e' : Opener) × (reacts evs e ≡ some e') × Follows evs e'
  unfolding reacts tallies
  reacts-Follows [] e v = (e, refl, v)
  reacts-Follows (ev ∷ evs) e v =
      let (e₁, run, v₁) = reacts-Follows evs e v in
      let (e₂, run', holds, same_percentage, same_volume) =
        react-Holds n w start ev (tallies n w start evs) e₁ v₁.holds in
      (
        e₂,
        rw run run',
        record {
          holds = holds;
          percentage = same_percentage ∙ v₁.percentage;
          volume = same_volume ∙ v₁.volume;
        },
      )

-- The attempts and the errors in the window at `now`.
abbrev pub attempts_at : ℕ → ℕ → ℤ → List Event → ℤ → ℕ
attempts_at n w start evs now =
    length (moved n (index? start w now) (tallies n w start evs).attempts).events

abbrev pub errors_at : ℕ → ℕ → ℤ → List Event → ℤ → ℕ
errors_at n w start evs now =
    length (moved n (index? start w now) (tallies n w start evs).errors).events

-- An opener of the factory, whose settings give n buckets of w nanoseconds and the percentage p, takes any
-- outcomes and transitions without a panic, and then at any time opens exactly if the sliding window since
-- the last transition has enough attempts, at least one, and p percent of them are errors, where the
-- products with p and with 100 stay below 2^63.
pub opener_factory-decision :
    (config : ConfigureOpener) (n w p : ℕ) (start now : ℤ) (evs : List Event) (zero_opener : Opener)
    → HasWindow config n w p
    → p * attempts_at n w start evs now < 2 ^ 63
    → attempts_at n w start evs now < 2 ^ 63
    → errors_at n w start evs now * 100 < 2 ^ 63
    → (e : Opener) × (e' : Opener) × ((opener_factory config start zero_opener >>= λ e₀.
          reacts evs e₀)
        ≡ some e)
      × (should_open now e
          ≡ some (
            decision p
                (complete config).request_volume_threshold
                (attempts_at n w start evs now)
                (errors_at n w start evs now),
            e',
          ))
opener_factory-decision config n w p start now evs zero_opener h fits few fits' =
    let t = tallies n w start evs in
    let a = attempts_at n w start evs now in
    let b = errors_at n w start evs now in
    let (e₀, new, v₀) = opener_factory-Follows config n w p start h zero_opener in
    let (e, run, v) = reacts-Follows config n w p start h evs e₀ v₀ in
    let (_, e', decides, _, _, _, _, _) =
      should_open-decision n w start now p a b t e v.holds v.percentage refl refl fits few fits' in
    (e, e', rw new run, decides ∙ ap (λ x. some (decision p x a b, e')) v.volume)
