-- ===== src/Prelude/Dict.antt =====
-- A dict as an association list, by keys that are numbers.
use Prim.Native.Nat.{ℕ}
use mathlib.Core.List.{List, [], ◌∷◌}
use mathlib.Core.Option.{Option, none, some}
use idic.Prelude.Tests.{◌==◌, if◌then◌else◌}
use idic.Prelude.Int.{ℤ, pos, negsuc}

-- `d[k]`; `none` is a missing key.
abbrev pub entry {ℓ} : {A : Type ℓ} → ℕ → List (ℕ × A) → Option A
entry k [] = none
entry k ((j, a) ∷ d) = if j == k then some a else entry k d

abbrev pub entry_ℤ {ℓ} : {A : Type ℓ} → ℤ → List (ℕ × A) → Option A
entry_ℤ (pos k) d = entry k d
entry_ℤ (negsuc k) d = none
