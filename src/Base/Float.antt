-- ===== src/Base/Float.antt =====
-- float64 as an abstract type: the program compares, adds, multiplies and divides such values and
-- converts int64 to and from them. What a theorem needs of them it names as a hypothesis.
use Prim.Native.Nat.{ℕ, ◌+◌, ◌-◌, ◌*◌, ◌/◌}
use mathlib.Core.Bool.{Bool, false}
use hybrid_quantum_banking_b.Base.Tests.{ltb, leb}

pub record Floats : Type 1 where
  pub F : Type 0
  -- `a < b` and `a <= b`: both fail where one side is NaN.
  pub lt : F → F → Bool
  pub le : F → F → Bool
  -- `math.IsNaN(a) || math.IsInf(a, 0)`
  pub not_finite : F → Bool
  pub add : F → F → F
  pub sub : F → F → F
  pub mul : F → F → F
  pub div : F → F → F
  -- A constant of the source, in thousandths: `0.7` is `lit 700`.
  pub lit : ℕ → F
  -- `float64(n)`, with `n` an int64 bit pattern.
  pub of_int : ℕ → F
  -- `int64(math.Round(f))`, an int64 bit pattern.
  pub round : F → ℕ

-- Thousandths in ℕ: a model of the interface for tests.
abbrev pub milli : Floats
milli = record {
  F = ℕ;
  lt = ltb;
  le = leb;
  not_finite = λ _. false;
  add = λ a b. a + b;
  sub = λ a b. a - b;
  mul = λ a b. a * b / 1000;
  div = λ a b. a * 1000 / b;
  lit = λ n. n;
  of_int = λ n. n * 1000;
  round = λ f. (f + 500) / 1000;
}
