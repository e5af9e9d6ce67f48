-- ===== src/Prelude/Maps.antt =====
-- JavaScript's `Map` with number keys, by its look-ups. Strings that are only compared (ids, symbols)
-- are numbers here, so one module serves every map of the program.
use Prim.Native.Nat.{ℕ}
use mathlib.Core.Option.{Option, none, some}
use aether_x.Prelude.Tests.{◌==◌, if◌then◌else◌}

abbrev pub Map {ℓ} : Type ℓ → Type ℓ
Map V = ℕ → Option V

module _ {ℓ} {V : Type ℓ} where
  abbrev pub empty : Map V
  empty k = none

  abbrev pub insert : ℕ → V → Map V → Map V
  insert k v m j = if j == k then some v else m j

  abbrev pub erase : ℕ → Map V → Map V
  erase k m j = if j == k then none else m j
