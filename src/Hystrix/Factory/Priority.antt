-- ===== src/Hystrix/Factory/Priority.antt =====
-- closers/hystrix/config.go: the constructor that was appended last wins.
use circuit.Prelude.{
  ℕ, ℤ, pos, Option, none, some, List, [], ◌∷◌, ◌++◌, eq_of_parts, ◌≡◌, ◌∙◌, refl, ap, sym, arith,
}
use circuit.Hystrix.Closer
use circuit.Hystrix.Closer.{ConfigureCloser}
use circuit.Hystrix.Opener
use circuit.Hystrix.Opener.{ConfigureOpener, or_else, or_func}
use circuit.Hystrix.Factory.{
  Factory, zero_closer, zero_opener, merge_closers, merge_openers, closer_config, opener_config,
}

or_else_assoc : (a b c : ℤ) → or_else (or_else a b) c ≡ or_else a (or_else b c)
or_else_assoc a b c = ground arith

or_else_zero : (a : ℤ) → or_else a (pos 0) ≡ a
or_else_zero a = ground (arith, eq_of_parts a (pos 0))

or_func_assoc : (a b c : Option ℕ) → or_func (or_func a b) c ≡ or_func a (or_func b c)
or_func_assoc none b c = refl
or_func_assoc (some a) b c = refl

or_func-none : (a : Option ℕ) → or_func a none ≡ a
or_func-none none = refl
or_func-none (some a) = refl

closer_assoc :
    (a b c : ConfigureCloser)
    → Closer.merge (Closer.merge a b) c ≡ Closer.merge a (Closer.merge b c)
unfolding Closer.merge
closer_assoc a b c = λ i. record {
  after_func = or_func_assoc a.after_func b.after_func c.after_func i;
  sleep_window = or_else_assoc a.sleep_window b.sleep_window c.sleep_window i;
  half_open_attempts =
      or_else_assoc a.half_open_attempts b.half_open_attempts c.half_open_attempts i;
  required_concurrent_successful =
      or_else_assoc a.required_concurrent_successful b.required_concurrent_successful
        c.required_concurrent_successful i;
}

closer_zero : (a : ConfigureCloser) → Closer.merge a zero_closer ≡ a
unfolding Closer.merge
closer_zero a = λ i. record {
  after_func = or_func-none a.after_func i;
  sleep_window = or_else_zero a.sleep_window i;
  half_open_attempts = or_else_zero a.half_open_attempts i;
  required_concurrent_successful = or_else_zero a.required_concurrent_successful i;
}

closer_from_zero : (a : ConfigureCloser) → Closer.merge zero_closer a ≡ a
unfolding Closer.merge
closer_from_zero a = refl

merge_closers-merge :
    (name : ℕ) (creates : List (ℕ → ConfigureCloser)) (a b : ConfigureCloser)
    → merge_closers name creates (Closer.merge a b) ≡ Closer.merge a (merge_closers name creates b)
unfolding merge_closers
merge_closers-merge name [] a b = refl
merge_closers-merge name (create ∷ creates) a b =
    ap (λ c. Closer.merge c (create name)) (merge_closers-merge name creates a b)
    ∙ closer_assoc a (merge_closers name creates b) (create name)

merge_closers-snoc :
    (name : ℕ) (creates : List (ℕ → ConfigureCloser)) (create : ℕ → ConfigureCloser)
    (c : ConfigureCloser)
    → merge_closers name (creates ++ create ∷ []) c
      ≡ merge_closers name creates (Closer.merge c (create name))
unfolding merge_closers
merge_closers-snoc name [] create c = refl
merge_closers-snoc name (first ∷ creates) create c =
    ap (λ x. Closer.merge x (first name)) (merge_closers-snoc name creates create c)

-- The settings of the closer for a name with one more constructor at the end are that constructor's,
-- and the settings without it for what it leaves unset.
pub closer_config-snoc :
    (c : Factory) (create : ℕ → ConfigureCloser) (name : ℕ)
    → closer_config
        (record c { create_configure_closer = c.create_configure_closer ++ create ∷ [] })
        name
      ≡ Closer.merge (create name) (closer_config c name)
unfolding closer_config
closer_config-snoc c create name =
    let creates = c.create_configure_closer in
    ap (λ x. Closer.merge x c.configure_closer)
      (merge_closers-snoc name creates create zero_closer
        ∙ ap (merge_closers name creates)
            (closer_from_zero (create name) ∙ sym (closer_zero (create name)))
        ∙ merge_closers-merge name creates (create name) zero_closer)
    ∙ closer_assoc (create name) (merge_closers name creates zero_closer) c.configure_closer

opener_assoc :
    (a b c : ConfigureOpener)
    → Opener.merge (Opener.merge a b) c ≡ Opener.merge a (Opener.merge b c)
unfolding Opener.merge
opener_assoc a b c = λ i. record {
  now_func = or_func_assoc a.now_func b.now_func c.now_func i;
  error_threshold_percentage =
      or_else_assoc a.error_threshold_percentage b.error_threshold_percentage
        c.error_threshold_percentage i;
  request_volume_threshold =
      or_else_assoc a.request_volume_threshold b.request_volume_threshold c.request_volume_threshold
        i;
  rolling_duration = or_else_assoc a.rolling_duration b.rolling_duration c.rolling_duration i;
  num_buckets = or_else_assoc a.num_buckets b.num_buckets c.num_buckets i;
}

opener_zero : (a : ConfigureOpener) → Opener.merge a zero_opener ≡ a
unfolding Opener.merge
opener_zero a = λ i. record {
  now_func = or_func-none a.now_func i;
  error_threshold_percentage = or_else_zero a.error_threshold_percentage i;
  request_volume_threshold = or_else_zero a.request_volume_threshold i;
  rolling_duration = or_else_zero a.rolling_duration i;
  num_buckets = or_else_zero a.num_buckets i;
}

opener_from_zero : (a : ConfigureOpener) → Opener.merge zero_opener a ≡ a
unfolding Opener.merge
opener_from_zero a = refl

merge_openers-merge :
    (name : ℕ) (creates : List (ℕ → ConfigureOpener)) (a b : ConfigureOpener)
    → merge_openers name creates (Opener.merge a b) ≡ Opener.merge a (merge_openers name creates b)
unfolding merge_openers
merge_openers-merge name [] a b = refl
merge_openers-merge name (create ∷ creates) a b =
    ap (λ c. Opener.merge c (create name)) (merge_openers-merge name creates a b)
    ∙ opener_assoc a (merge_openers name creates b) (create name)

merge_openers-snoc :
    (name : ℕ) (creates : List (ℕ → ConfigureOpener)) (create : ℕ → ConfigureOpener)
    (c : ConfigureOpener)
    → merge_openers name (creates ++ create ∷ []) c
      ≡ merge_openers name creates (Opener.merge c (create name))
unfolding merge_openers
merge_openers-snoc name [] create c = refl
merge_openers-snoc name (first ∷ creates) create c =
    ap (λ x. Opener.merge x (first name)) (merge_openers-snoc name creates create c)

-- The settings of the opener for a name with one more constructor at the end are that constructor's,
-- and the settings without it for what it leaves unset.
pub opener_config-snoc :
    (c : Factory) (create : ℕ → ConfigureOpener) (name : ℕ)
    → opener_config
        (record c { create_configure_opener = c.create_configure_opener ++ create ∷ [] })
        name
      ≡ Opener.merge (create name) (opener_config c name)
unfolding opener_config
opener_config-snoc c create name =
    let creates = c.create_configure_opener in
    ap (λ x. Opener.merge x c.configure_opener)
      (merge_openers-snoc name creates create zero_opener
        ∙ ap (merge_openers name creates)
            (opener_from_zero (create name) ∙ sym (opener_zero (create name)))
        ∙ merge_openers-merge name creates (create name) zero_opener)
    ∙ opener_assoc (create name) (merge_openers name creates zero_opener) c.configure_opener
