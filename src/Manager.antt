-- ===== src/Manager.antt =====
-- manager.go: circuits by their names. A name is a number, for only its equality matters, and a map is
-- the list of its entries. `NewCircuitFromConfig` comes from outside, and so do the constructors of the
-- settings, which may read the manager and act on the environment, but not create circuits.
pub mod Creating
use circuit.Prelude.{
  ℕ, Bool, true, false, Option, some, none, List, [], ◌∷◌, ◌++◌, map, ◌==◌, ◌>>=◌, if◌then◌else◌,
}
use circuit.Circuit.Config.{Config, empty_config, merge}

-- The value of a name in a map.
unfoldable pub lookup : {K : Type 0} → ℕ → List (ℕ × K) → Option K
lookup name [] = none
lookup name ((n, c) ∷ rest) = if name == n then some c else lookup name rest

-- An assignment to a map.
unfoldable pub assign : {K : Type 0} → ℕ → K → List (ℕ × K) → List (ℕ × K)
assign name c [] = (name, c) ∷ []
assign name c ((n, d) ∷ rest) =
    let others = assign name c rest in if name == n then (n, c) ∷ rest else (n, d) ∷ others

abbrev pub Constructor : Type 0 → Type 0 → Type 0
Constructor K E = List (ℕ × K) → ℕ → E → Config × E

pub record Manager (K E : Type 0) : Type 0 where
  pub default_circuit_properties : List (Constructor K E)
  pub circuit_map : List (ℕ × K)

-- What `CreateCircuit` returns: the circuit or `errCircuitExists`.
pub data Created (K : Type 0) : Type 0 where
  created : K → Created K
  circuit_exists : Created K

-- A nil manager is `none`.
unfoldable pub get_circuit : {K E : Type 0} → ℕ → Option (Manager K E) → Option K
get_circuit name none = none
get_circuit name (some h) = lookup name h.circuit_map

-- The order of a range over a map is open; here it is that of the entries.
unfoldable pub all_circuits : {K E : Type 0} → Option (Manager K E) → List K
all_circuits none = []
all_circuits (some h) = map (λ entry. entry.1) h.circuit_map

-- `for _, c := range configs { finalConfig.Merge(c) }`.
unfoldable pub merge_all : Config → List Config → Config
merge_all c [] = c
merge_all c (other ∷ configs) = merge_all (merge c other) configs

-- The constructors from the last to the first.
unfoldable pub merge_defaults :
    {K E : Type 0} → List (ℕ × K) → ℕ → List (Constructor K E) → Config → E → Config × E
merge_defaults m name [] c e = (c, e)
merge_defaults m name (constructor ∷ constructors) c e =
    let (c', e') = merge_defaults m name constructors c e in
    let (other, e'') = constructor m name e' in (merge c' other, e'')

module _ {K E : Type 0} (new_circuit_from_config : ℕ → Config → E → Option (K × E)) where
  -- `CreateCircuit` after its test for the name; none is a panic of the constructor of the circuit.
  unfoldable pub create_unless :
      Option K → ℕ → List Config → Manager K E → E → Option (Created K × Manager K E × E)
  create_unless (some old) name configs h e = some (circuit_exists, h, e)
  create_unless none name configs h e =
      let (config, e') =
        merge_defaults h.circuit_map name h.default_circuit_properties
          (merge_all empty_config configs) e in
      new_circuit_from_config name config e' >>= λ (c, e'').
      some (created c, record h { circuit_map = assign name c h.circuit_map }, e'')

  unfoldable pub create_circuit :
      ℕ → List Config → Manager K E → E → Option (Created K × Manager K E × E)
  create_circuit name configs h e = create_unless (get_circuit name (some h)) name configs h e

  -- `MustCreateCircuit` panics if the name exists.
  unfoldable pub must_create_circuit :
      ℕ → List Config → Manager K E → E → Option (K × Manager K E × E)
  must_create_circuit name configs h e = create_circuit name configs h e >>= λ (result, h', e').
      elim result [ created c ↦ some (c, h', e') | circuit_exists ↦ none ]
