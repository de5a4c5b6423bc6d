-- ===== src/Base/Decimal.antt =====
-- strconv.Itoa, as fmt's %d uses it, on the integers of Base/Int.
use Prim.Native.Nat.{ℕ, zero, suc, ◌+◌, ◌-◌, ◌*◌, ◌/◌, ◌%◌, ◌≤◌, ◌<◌}
use mathlib.Core.Path.{◌≡◌, refl, sym, ap, ◌∙◌}
use mathlib.Core.Logic.{inl, inr}
use mathlib.Core.List.{List, [], ◌∷◌, ◌++◌}
use native.Mathlib.Omega.{arith}
use rocklet.Base.Tests.{ltb, if◌then◌else◌, Bool-cases}
use rocklet.Base.Int.{ℤ, pos, negsuc}

-- The digits of a number below 10 ^ fuel.
digits : ℕ → ℕ → List ℕ
digits zero n = []
digits (suc fuel) n =
    let rest = digits fuel (n / 10) in
    if ltb n 10 then (b'0' + n) ∷ [] else rest ++ (b'0' + n % 10) ∷ []

unfoldable pub itoa : ℤ → List ℕ
unfolding digits
itoa (pos n) = digits (suc n) n
itoa (negsuc n) = b'-' ∷ digits (suc (suc n)) (suc n)

value : ℕ → List ℕ → ℕ
value acc [] = acc
value acc (d ∷ ds) = value (acc * 10 + (d - b'0')) ds

value-append :
    (acc : ℕ) (xs : List ℕ) (d : ℕ) → value acc (xs ++ d ∷ []) ≡ value acc xs * 10 + (d - b'0')
unfolding value
value-append acc [] d = refl
value-append acc (x ∷ xs) d = value-append (acc * 10 + (x - b'0')) xs d

-- The digits are those of the number.
value-digits : (fuel n : ℕ) → n < fuel → value 0 (digits fuel n) ≡ n
unfolding value digits
value-digits zero n h = absurd (omega arith)
value-digits (suc fuel) n h = elim (Bool-cases (ltb n 10)) [
  | inl small ↦ rw small (omega arith)
  | inr large ↦ rw large (
      omega (
        arith,
        value-append 0 (digits fuel (n / 10)) (b'0' + n % 10),
        value-digits fuel (n / 10) (ground arith),
      ))
]

abbrev head_or : ℕ → List ℕ → ℕ
head_or d [] = d
head_or d (x ∷ xs) = x

head_or-append :
    (d x : ℕ) (xs : List ℕ) → b'0' ≤ head_or d xs → b'0' ≤ x → b'0' ≤ head_or d (xs ++ x ∷ [])
head_or-append d x [] h k = k
head_or-append d x (y ∷ ys) h k = h

-- The first character of a number is no sign.
head-digits : (fuel n : ℕ) → b'0' ≤ head_or b'0' (digits fuel n)
unfolding digits
head-digits zero n = omega arith
head-digits (suc fuel) n = elim (Bool-cases (ltb n 10)) [
  | inl small ↦ rw small (omega arith)
  | inr large ↦
      rw large
        (head_or-append b'0' _ (digits fuel (n / 10)) (head-digits fuel (n / 10)) (omega arith))
]

abbrev tail_of : List ℕ → List ℕ
tail_of [] = []
tail_of (x ∷ xs) = xs

-- Different integers are printed differently.
pub itoa-injective : (a b : ℤ) → itoa a ≡ itoa b → a ≡ b
unfolding itoa
itoa-injective (pos a) (pos b) e = ap pos (
    sym (value-digits (suc a) a (omega arith))
    ∙ (ap (value 0) e ∙ value-digits (suc b) b (omega arith)))
itoa-injective (negsuc a) (negsuc b) e = ap negsuc (
    omega (
      arith,
      value-digits (suc (suc a)) (suc a) (omega arith),
      value-digits (suc (suc b)) (suc b) (omega arith),
      ap (λ l. value 0 (tail_of l)) e,
    ))
itoa-injective (pos a) (negsuc b) e =
    absurd (omega (arith, head-digits (suc a) a, ap (head_or b'0') e))
itoa-injective (negsuc a) (pos b) e =
    absurd (omega (arith, head-digits (suc b) b, ap (head_or b'0') e))
