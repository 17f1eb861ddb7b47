-- ===== src/Hystrix/Factory.antt =====
-- closers/hystrix/config.go: the factory of the logic of a circuit, by its name, a number.
pub mod Priority
use circuit.Prelude.{ℕ, ℤ, pos, Option, none, List, [], ◌∷◌}
use circuit.Hystrix.Closer
use circuit.Hystrix.Closer.{ConfigureCloser, Closer, closer_factory}
use circuit.Hystrix.Opener
use circuit.Hystrix.Opener.{ConfigureOpener, Opener, opener_factory}

pub record Factory : Type 0 where
  pub configure_closer : ConfigureCloser
  pub configure_opener : ConfigureOpener
  pub create_configure_closer : List (ℕ → ConfigureCloser)
  pub create_configure_opener : List (ℕ → ConfigureOpener)

-- `ConfigureCloser{}` and `ConfigureOpener{}`.
abbrev pub zero_closer : ConfigureCloser
zero_closer = record {
  after_func = none;
  sleep_window = pos 0;
  half_open_attempts = pos 0;
  required_concurrent_successful = pos 0;
}

abbrev pub zero_opener : ConfigureOpener
zero_opener = record {
  error_threshold_percentage = pos 0;
  request_volume_threshold = pos 0;
  now_func = none;
  rolling_duration = pos 0;
  num_buckets = pos 0;
}

-- The loops over the constructors, from the last to the first.
unfoldable pub merge_closers : ℕ → List (ℕ → ConfigureCloser) → ConfigureCloser → ConfigureCloser
merge_closers name [] c = c
merge_closers name (create ∷ creates) c = Closer.merge (merge_closers name creates c) (create name)

unfoldable pub merge_openers : ℕ → List (ℕ → ConfigureOpener) → ConfigureOpener → ConfigureOpener
merge_openers name [] c = c
merge_openers name (create ∷ creates) c = Opener.merge (merge_openers name creates c) (create name)

-- The settings that `createCloser` and `createOpener` end with.
unfoldable pub closer_config : Factory → ℕ → ConfigureCloser
closer_config c name =
    Closer.merge (merge_closers name c.create_configure_closer zero_closer) c.configure_closer

unfoldable pub opener_config : Factory → ℕ → ConfigureOpener
opener_config c name =
    Opener.merge (merge_openers name c.create_configure_opener zero_opener) c.configure_opener

unfoldable pub create_closer : Factory → ℕ → Closer
create_closer c name = closer_factory (closer_config c name)

unfoldable pub create_opener : Factory → ℕ → ℤ → Opener → Option Opener
create_opener c name = opener_factory (opener_config c name)

-- The two factories of the settings of a circuit.
unfoldable pub configure : Factory → ℕ → Closer × (ℤ → Opener → Option Opener)
configure c name = (create_closer c name, create_opener c name)
