-- ===== src/NavMap/RobotDb/Total.antt =====
-- ConvertMap of pkg/navmap/robotdb.go on any bytes: it returns.
use rocklet.Base.{ℕ, ◌≤◌, ◌≡◌, List, Option, none, some, Outcome, ok, err, panic, length, false}
use rocklet.NavMap.Reader.{Error}
use rocklet.NavMap.RobotDb.{Images}

module _ (images : Images) where
  -- image.NewRGBA panics for some width and height.
  abbrev pub Refused : Type 0
  Refused = (w : ℕ) × (h : ℕ) × (images.allocates w h ≡ false)

  -- No panic but that of image.NewRGBA, and at most `n` bytes left.
  abbrev Leaves : {A : Type 0} → ℕ → Outcome Error (A × List ℕ) → Type 0
  Leaves n (ok (a, rest)) = length rest ≤ n
  Leaves n (err e) = Unit
  Leaves n panic = Refused

  abbrev pub Returns : {E A : Type 0} → Outcome E A → Type 0
  Returns (ok a) = Unit
  Returns (err e) = Unit
  Returns panic = Refused

  -- It ends with a result or an error.
  abbrev pub Ends : {A : Type 0} → Option (Outcome Error A) → Type 0
  Ends none = ⊥
  Ends (some r) = Returns r
