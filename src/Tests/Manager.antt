-- ===== src/Tests/Manager.antt =====
-- config.go, manager.go and the building of circuits: instances.
use circuit.Prelude.{ℕ, ℤ, pos, true, Option, some, none, [], ◌∷◌, ◌≡◌, refl}
use circuit.Circuit.Config.{Config, empty_config, merge, reset}
use circuit.Circuit.Config.Merging.{merge_assoc}
use circuit.Circuit.Configure.{
  Functions, Circuit, Idle, zero_circuit, set_config_not_thread_safe, new_circuit_from_config,
}
use circuit.Circuit.Configure.Rebuilding.{
  IsNew, KeepsState, new_circuit_from_config-IsNew, set_config_not_thread_safe-open,
}
use circuit.Manager.{
  Manager, Constructor, created, get_circuit, merge_all, merge_defaults, create_circuit,
  create_unless, lookup, assign,
}
use circuit.Manager.Creating.{holds, create_circuit-get_circuit}
use circuit.Hystrix.Closer.{Closer, closer_factory, default_configure_closer}
use circuit.Hystrix.Closer.Logic.{closer_logic}
use circuit.SimpleLogic.{
  ConsecutiveErrOpener, consecutive_err_logic, consecutive_err_opener_factory,
}

-- The environment is the clock; the logic is that of the packages hystrix and simplelogic.
abbrev functions : Functions ConsecutiveErrOpener Closer ℤ
functions = record {
  closed_to_open_factory =
      λ f e. (consecutive_err_opener_factory (record { error_threshold = pos 3 }), e);
  open_to_closed_factory = λ f e. (closer_factory default_configure_closer, e);
  time_now = λ f e. (e, e);
  opener_logic = consecutive_err_logic;
  closer_logic = closer_logic;
  opener_thread_safe = λ config o. o;
  opener_not_thread_safe = λ config o. o;
  closer_thread_safe = λ config c. c;
  closer_not_thread_safe = λ config c. c;
}

abbrev slow : Config
slow = record empty_config {
  execution = record empty_config.execution { timeout = pos 5 };
  general = record empty_config.general { custom_config = (1, 7) ∷ [] };
}

abbrev complete : Config
complete = record slow {
  general = record slow.general {
    closed_to_open_factory = some 8;
    open_to_closed_factory = some 9;
    custom_config = (1, 6) ∷ (2, 4) ∷ [];
    time_keeper = record { now = some 2; after_func = none };
  };
}

merge_assoc_example :
    merge (merge slow complete) empty_config ≡ merge slow (merge complete empty_config)
merge_assoc_example = merge_assoc slow complete empty_config

new_circuit_from_config-IsNew_example :
    (c : Circuit ConsecutiveErrOpener Closer ℤ) × (new_circuit_from_config functions 4 slow
        (pos 100)
      ≡ some c)
    × IsNew functions 4 slow c
new_circuit_from_config-IsNew_example = new_circuit_from_config-IsNew functions 4 slow (pos 100)

abbrev opened_idle : Idle ℤ
opened_idle = record (zero_circuit 4 (pos 100)) { is_open = true }

set_config_not_thread_safe-open_example :
    (c : Circuit ConsecutiveErrOpener Closer ℤ) × (t : ℤ) × (set_config_not_thread_safe functions
        complete opened_idle
      ≡ some c)
    × KeepsState functions opened_idle c
    × (c.world.config ≡ reset complete)
    × (c.world.closer
        ≡ functions.closer_logic.notice
            (record { to_open = true; at = t })
            (closer_factory default_configure_closer))
    × (c.world.opener
        ≡ functions.opener_logic.notice
            (record { to_open = true; at = t })
            (consecutive_err_opener_factory (record { error_threshold = pos 3 })))
set_config_not_thread_safe-open_example =
    set_config_not_thread_safe-open functions complete opened_idle 9 8 2 refl refl refl refl

-- A manager of circuits that are their own settings, and one constructor.
abbrev build : ℕ → Config → ℕ → Option (Config × ℕ)
build name config e = some (config, e)

abbrev constructor : Constructor Config ℕ
constructor m name e = (complete, e)

abbrev manager : Manager Config ℕ
manager = record { default_circuit_properties = constructor ∷ []; circuit_map = (3, slow) ∷ [] }

abbrev made : Config
made =
    (merge_defaults manager.circuit_map 5 manager.default_circuit_properties
      (merge_all empty_config (slow ∷ [])) 0).0

abbrev after : Manager Config ℕ
after = record manager { circuit_map = assign 5 made manager.circuit_map }

create_circuit-get_circuit_example :
    get_circuit 5 (some after) ≡ holds build 5 5 manager (created made)
    × after.default_circuit_properties ≡ manager.default_circuit_properties
unfolding create_circuit create_unless get_circuit lookup merge_defaults
create_circuit-get_circuit_example =
    create_circuit-get_circuit build 5 5 (slow ∷ []) manager after 0 0 (created made) refl
