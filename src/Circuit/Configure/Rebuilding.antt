-- ===== src/Circuit/Configure/Rebuilding.antt =====
-- circuit.go: what building and configuring a circuit does to it.
use circuit.Prelude.{ℕ, ℤ, pos, true, false, Option, some, none, [], ◌∷◌, map, ◌≡◌, refl}
use circuit.Circuit.Logic.{Transition}
use circuit.Circuit.Config.{Config, or_nil, merge, merge_general, default_command_properties, reset}
use circuit.Circuit.Configure.{
  Functions, open_to_close, closed_to_open, listener, Circuit, Idle, zero_circuit, rebuilt,
  tell_open, set_config_thread_safe, set_config_not_thread_safe, new_circuit_from_config,
}

module _ {O C E : Type 0} (fs : Functions O C E) where
  -- A new circuit: the settings are the caller's with the defaults for what is not set; it is closed, and
  -- nothing runs, waits or is delivered; events go to the close logic, the open logic and then the
  -- listeners in their order.
  pub record IsNew (name : ℕ) (config : Config) (c : Circuit O C E) : Type 0 where
    pub named : c.name ≡ name
    pub settings : c.not_thread_safe_config ≡ merge config default_command_properties
    pub atomics : c.world.config ≡ reset (merge config default_command_properties)
    pub closed : c.world.is_open ≡ false
    pub no_commands : c.world.concurrent_commands ≡ pos 0
    pub no_fallbacks : c.world.concurrent_fallbacks ≡ pos 0
    pub nothing_waits : c.world.pending_transitions ≡ []
    pub listeners :
        c.cmd_metric_collector
        ≡ open_to_close
          ∷ closed_to_open
          ∷ map listener (merge config default_command_properties).metrics.run

  or_nil-some : (x : Option ℕ) (d : ℕ) → (y : ℕ) × (or_nil x (some d) ≡ some y)
  or_nil-some none d = (d, refl)
  or_nil-some (some y) d = (y, refl)

  rebuilt_closed :
      (config : Config) (i : Idle E) (o : O) (c : C) (e : E)
      → i.is_open ≡ false
      → tell_open fs (rebuilt fs config i o c e) ≡ some (rebuilt fs config i o c e)
  unfolding tell_open rebuilt set_config_thread_safe
  rebuilt_closed config i o c e h = simp h refl

  default_factories :
      (config : Config)
      → (f : ℕ) × (g : ℕ) × ((merge config
            default_command_properties).general.open_to_closed_factory
          ≡ some f)
        × ((merge config default_command_properties).general.closed_to_open_factory ≡ some g)
  unfolding merge merge_general
  default_factories config =
      let (f, has_closer) = or_nil-some config.general.open_to_closed_factory 1 in
      let (g, has_opener) = or_nil-some config.general.closed_to_open_factory 0 in
      (f, g, has_closer, has_opener)

  set_config_not_thread_safe-closed :
      (config : Config) (i : Idle E) (f g : ℕ)
      → i.is_open ≡ false
      → config.general.open_to_closed_factory ≡ some f
      → config.general.closed_to_open_factory ≡ some g
      → (let (closer, e) = fs.open_to_closed_factory f i.env in
          let (opener, e') = fs.closed_to_open_factory g e in
          set_config_not_thread_safe fs config i ≡ some (rebuilt fs config i opener closer e'))
  unfolding set_config_not_thread_safe
  set_config_not_thread_safe-closed config i f g is_closed has_closer has_opener =
      let (closer, e) = fs.open_to_closed_factory f i.env in
      let (opener, e') = fs.closed_to_open_factory g e in
      simp (has_closer, has_opener, rebuilt_closed config i opener closer e' is_closed) refl

  -- A new circuit is always built, whatever the caller left out, and is as `IsNew` says: closed, with the
  -- caller's settings and the defaults in force, and with its listeners in order.
  pub new_circuit_from_config-IsNew :
      (name : ℕ) (config : Config) (e : E)
      → (c : Circuit O C E) × (new_circuit_from_config fs name config e ≡ some c)
        × IsNew name config c
  unfolding new_circuit_from_config rebuilt set_config_thread_safe
  new_circuit_from_config-IsNew name config e =
      let settings = merge config default_command_properties in
      let (f, g, has_closer, has_opener) = default_factories config in
      (
        _,
        set_config_not_thread_safe-closed settings (zero_circuit name e) f g refl has_closer
            has_opener,
        record {
          named = refl;
          settings = refl;
          atomics = refl;
          closed = refl;
          no_commands = refl;
          no_fallbacks = refl;
          nothing_waits = refl;
          listeners = refl;
        },
      )

  -- A circuit that is given new logic keeps its state: what is open stays open, and the counts and the
  -- queue stay.
  pub record KeepsState (i : Idle E) (c : Circuit O C E) : Type 0 where
    pub open_stays : c.world.is_open ≡ i.is_open
    pub commands : c.world.concurrent_commands ≡ i.concurrent_commands
    pub fallbacks : c.world.concurrent_fallbacks ≡ i.concurrent_fallbacks
    pub waiting : c.world.pending_transitions ≡ i.pending_transitions

  -- Reconfiguring an open circuit that has both factories and a clock: the state stays, the settings are
  -- in force, and each new logic, configured, was told that the circuit is open at the clock's time.
  pub set_config_not_thread_safe-open :
      (config : Config) (i : Idle E) (f g clock : ℕ)
      → i.is_open ≡ true
      → config.general.open_to_closed_factory ≡ some f
      → config.general.closed_to_open_factory ≡ some g
      → config.general.time_keeper.now ≡ some clock
      → (c : Circuit O C E) × (t : ℤ) × (set_config_not_thread_safe fs config i ≡ some c)
        × KeepsState i c
        × (c.world.config ≡ reset config)
        × (c.world.closer
            ≡ fs.closer_logic.notice
                (record { to_open = true; at = t })
                (fs.closer_thread_safe config
                  (fs.closer_not_thread_safe config (fs.open_to_closed_factory f i.env).0)))
        × (c.world.opener
            ≡ fs.opener_logic.notice
                (record { to_open = true; at = t })
                (fs.opener_thread_safe config (
                  fs.opener_not_thread_safe config
                    (fs.closed_to_open_factory g (fs.open_to_closed_factory f i.env).1).0)))
  unfolding set_config_not_thread_safe rebuilt set_config_thread_safe tell_open
  set_config_not_thread_safe-open config i f g clock is_open has_closer has_opener has_clock =
      let (closer, e) = fs.open_to_closed_factory f i.env in
      let (opener, e') = fs.closed_to_open_factory g e in
      let (t, e'') = fs.time_now clock e' in
      let opened : Transition = record { to_open = true; at = t } in
      let c = rebuilt fs config i opener closer e' in
      (
        record c {
          world = record c.world {
            closer = fs.closer_logic.notice opened c.world.closer;
            opener = fs.opener_logic.notice opened c.world.opener;
            env = e'';
          };
        },
        t,
        simp (is_open, has_closer, has_opener, has_clock) refl,
        record { open_stays = refl; commands = refl; fallbacks = refl; waiting = refl },
        refl,
        refl,
        refl,
      )
