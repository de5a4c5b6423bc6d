-- ===== src/Base/Int.antt =====
-- Go's int: an integer. The sizes of the machine type play no part in what is modelled with it.
use Prim.Native.Nat.{ℕ}
use mathlib.Core.Path.{◌≡◌}
use mathlib.Core.Bool.{Bool, true, false}
use mathlib.Core.Logic.{◌↔◌, ◌≢◌, inl, inr}
use native.Mathlib.Omega.{arith}
use rocklet.Base.Tests.{◌==◌, Bool-cases}
use rocklet.Base.Assoc.{Eq}

-- `negsuc n` is -(n + 1).
pub data ℤ : Type 0 where
  pos : ℕ → ℤ
  negsuc : ℕ → ℤ

abbrev pub int_eq : ℤ → ℤ → Bool
int_eq (pos a) (pos b) = a == b
int_eq (negsuc a) (negsuc b) = a == b
int_eq (pos a) (negsuc b) = false
int_eq (negsuc a) (pos b) = false

pub int_eq_iff : (a b : ℤ) → (int_eq a b ≡ true) ↔ (a ≡ b)
int_eq_iff (pos a) (pos b) = ground arith
int_eq_iff (negsuc a) (negsuc b) = ground arith
int_eq_iff (pos a) (negsuc b) = ground arith
int_eq_iff (negsuc a) (pos b) = ground arith

instance abbrev pub int_equality : Eq ℤ
int_equality = record { beq = int_eq; beq_iff = int_eq_iff }

pub int_eq_ne : (a b : ℤ) → a ≢ b → int_eq a b ≡ false
int_eq_ne a b ne = elim (Bool-cases (int_eq a b)) [
  | inl same ↦ absurd (ne ((int_eq_iff a b).0 same))
  | inr other ↦ other
]
