-- ===== src/Base/Calls.antt =====
-- How a Go call ends: it returns a value, returns an error, or panics.
use mathlib.Core.Path.{◌≡◌, refl}

-- A call with an `error` result.
pub data Outcome {ℓ} (E A : Type ℓ) : Type ℓ where
  ok : A → Outcome E A
  err : E → Outcome E A
  panic : Outcome E A

infixl 5 ◌>>=◌
abbrev pub ◌>>=◌ {ℓ} : {E A B : Type ℓ} → Outcome E A → (A → Outcome E B) → Outcome E B
ok a >>= f = f a
err e >>= f = err e
panic >>= f = panic

-- Two pairs of steps behind one call agree where they agree on its results.
pub >>=-congruence {ℓ} :
    {E A B B' C : Type ℓ} (m : Outcome E A) (f : A → Outcome E B) (g : B → Outcome E C)
    (f' : A → Outcome E B') (g' : B' → Outcome E C)
    → ((a : A) → (f a >>= g) ≡ (f' a >>= g'))
    → ((m >>= f) >>= g) ≡ ((m >>= f') >>= g')
>>=-congruence (ok a) f g f' g' h = h a
>>=-congruence (err e) f g f' g' h = refl
>>=-congruence panic f g f' g' h = refl
