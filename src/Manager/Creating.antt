-- ===== src/Manager/Creating.antt =====
-- manager.go: what a creation leaves in the manager, and which settings the circuit gets.
use circuit.Prelude.{
  ℕ, Option, some, none, List, [], ◌∷◌, ◌==◌, ◌>>=◌, ◌≡◌, ◌∙◌, refl, ap, subst, arith,
  if◌then◌else◌,
}
use circuit.Circuit.Config.{Config, empty_config, merge}
use circuit.Circuit.Config.Merging.{merge_assoc}
use circuit.Manager.{
  lookup, assign, Constructor, Manager, Created, created, circuit_exists, get_circuit, merge_all,
  merge_defaults, create_unless, create_circuit,
}

pub lookup-assign :
    {K : Type 0}
    → (name n : ℕ) (c : K) (m : List (ℕ × K))
    → lookup n (assign name c m) ≡ (if n == name then some c else lookup n m)
unfolding lookup assign
lookup-assign name n c [] = refl
lookup-assign name n c ((k, d) ∷ m) = ground (arith, lookup-assign name n c m)

-- The first settings win over the others, which merge among themselves.
merge_all-merge :
    (a b : Config) (configs : List Config)
    → merge_all (merge a b) configs ≡ merge a (merge_all b configs)
unfolding merge_all
merge_all-merge a b [] = refl
merge_all-merge a b (c ∷ configs) =
    ap (λ x. merge_all x configs) (merge_assoc a b c) ∙ merge_all-merge a (merge b c) configs

module _ {K E : Type 0} (new_circuit_from_config : ℕ → Config → E → Option (K × E)) where
  -- A creation under a name that exists changes nothing, runs no constructor, and says so.
  pub create_circuit-exists :
      (name : ℕ) (configs : List Config) (h : Manager K E) (e : E) (old : K)
      → get_circuit name (some h) ≡ some old
      → create_circuit new_circuit_from_config name configs h e ≡ some (circuit_exists, h, e)
  unfolding create_circuit create_unless
  create_circuit-exists name configs h e old exists =
      ap (λ found. create_unless new_circuit_from_config found name configs h e) exists

  -- What the manager holds after a creation.
  abbrev pub holds : ℕ → ℕ → Manager K E → Created K → Option K
  holds name other h (created c) = if other == name then some c else get_circuit other (some h)
  holds name other h circuit_exists = get_circuit other (some h)

  abbrev Keeps : ℕ → ℕ → Manager K E → Option (Created K × Manager K E × E) → Type 0
  Keeps name other h none = Unit {0}
  Keeps name other h (some (result, h', e')) =
      get_circuit other (some h') ≡ holds name other h result
      × h'.default_circuit_properties ≡ h.default_circuit_properties

  create_unless-Keeps :
      (found : Option K) (name other : ℕ) (configs : List Config) (h : Manager K E) (e : E)
      → Keeps name other h (create_unless new_circuit_from_config found name configs h e)
  unfolding create_unless get_circuit
  create_unless-Keeps (some old) name other configs h e = (refl, refl)
  create_unless-Keeps none name other configs h e =
      let (config, e') =
        merge_defaults h.circuit_map name h.default_circuit_properties
          (merge_all empty_config configs) e in
      built (new_circuit_from_config name config e')
    where
      built :
          (r : Option (K × E))
          → Keeps name other h (
              r >>= λ (c, e'').
              some (created c, record h { circuit_map = assign name c h.circuit_map }, e''))
      built none = tt
      built (some (c, e'')) = (lookup-assign name other c h.circuit_map, refl)

  -- After any creation that does not panic, a created circuit is the one of its name, every other name
  -- has what it had, and so has the name itself if it existed; the constructors are the same.
  pub create_circuit-get_circuit :
      (name other : ℕ) (configs : List Config) (h h' : Manager K E) (e e' : E) (result : Created K)
      → create_circuit new_circuit_from_config name configs h e ≡ some (result, h', e')
      → get_circuit other (some h') ≡ holds name other h result
        × h'.default_circuit_properties ≡ h.default_circuit_properties
  unfolding create_circuit
  create_circuit-get_circuit name other configs h h' e e' result run =
      subst (Keeps name other h) run
        (create_unless-Keeps (get_circuit name (some h)) name other configs h e)

merge_defaults-merge :
    {K E : Type 0}
    → (m : List (ℕ × K)) (name : ℕ) (constructors : List (Constructor K E)) (a b : Config) (e : E)
    → merge_defaults m name constructors (merge a b) e ≡ (
      merge a (merge_defaults m name constructors b e).0,
      (merge_defaults m name constructors b e).1,
    )
unfolding merge_defaults
merge_defaults-merge m name [] a b e = refl
merge_defaults-merge m name (constructor ∷ constructors) a b e =
    let (c, e') = merge_defaults m name constructors b e in
    let (other, e'') = constructor m name e' in
    ap (λ (x, y). (merge x (constructor m name y).0, (constructor m name y).1))
      (merge_defaults-merge m name constructors a b e)
    ∙ ap (λ x. (x, e'')) (merge_assoc a c other)

-- The first of the caller's settings wins in every field over what all the others make, the caller's
-- and those of the constructors, and the constructors run in the same order on the same environment.
pub merge_defaults-merge_all :
    {K E : Type 0}
    → (m : List (ℕ × K)) (name : ℕ) (constructors : List (Constructor K E)) (a b : Config)
      (configs : List Config) (e : E)
    → (let others = merge_defaults m name constructors (merge_all b configs) e in
        merge_defaults m name constructors (merge_all a (b ∷ configs)) e
        ≡ (merge a others.0, others.1))
unfolding merge_all
merge_defaults-merge_all m name constructors a b configs e =
    ap (λ c. merge_defaults m name constructors c e) (merge_all-merge a b configs)
    ∙ merge_defaults-merge m name constructors a (merge_all b configs) e
