-- ===== src/Base/Maps.antt =====
-- Go maps keyed by text. A map is read as a function: a key that is absent reads as the zero value
-- that the caller names, `none` where the source tests presence.
use Prim.Native.String.{String}
use text.Mathlib.Text.{◌==◌ as str_eq}
use text.Mathlib.TextEquality.{eq_iff}
use text.Mathlib.TextPositions.{eq_refl}
use mathlib.Core.Path.{◌≡◌}
use mathlib.Core.Logic.{◌≢◌}
use mathlib.Core.Bool.{false}
use native.Mathlib.Omega.{arith}
use hybrid_quantum_banking_b.Base.Tests.{if◌then◌else◌}

-- `m[k] = v`; with `none` for `v`, `delete(m, k)`.
abbrev pub put {ℓ} : {V : Type ℓ} → (String → V) → String → V → String → V
put m k v j = if str_eq j k then v else m j

pub put_self {ℓ} : {V : Type ℓ} (m : String → V) (k : String) (v : V) → put m k v k ≡ v
put_self m k v = rw (eq_refl k)

pub str_eq_ne : (a b : String) → a ≢ b → str_eq a b ≡ false
str_eq_ne a b h = ground (arith, eq_iff a b)

pub put_ne {ℓ} : {V : Type ℓ} (m : String → V) (k j : String) (v : V) → j ≢ k → put m k v j ≡ m j
put_ne m k j v h = rw (str_eq_ne j k h)
