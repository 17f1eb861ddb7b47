-- ===== src/Prelude/Maybe.antt =====
-- A run-time panic of Go is `none`: what follows it is not run. An index out of range panics.
use mathlib.Core.Option.{Option, none, some}
use mathlib.Core.List.{List}
use circuit.Prelude.Tests.{ltb, if◌then◌else◌}
use circuit.Prelude.Lists.{length, get_elem?, set}
use circuit.Prelude.Int.{ℤ, pos, negsuc}

infixl 5 ◌>>=◌
abbrev pub ◌>>=◌ {ℓ κ} : {A : Type ℓ} {B : Type κ} → Option A → (A → Option B) → Option B
some a >>= f = f a
none >>= f = none

-- `xs[i]` and `xs[i] = v`.
abbrev pub read_at {ℓ} : {A : Type ℓ} → List A → ℤ → Option A
read_at xs (pos i) = get_elem? xs i
read_at xs (negsuc i) = none

abbrev pub write_at {ℓ} : {A : Type ℓ} → List A → ℤ → A → Option (List A)
write_at xs (pos i) v = if ltb i (length xs) then some (set xs i v) else none
write_at xs (negsuc i) v = none
