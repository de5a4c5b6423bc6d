-- ===== src/Ui/Tests.antt =====
-- cmd/ui.go on some keys, with natural numbers in place of floats.
use rocklet.Base.{ℕ, ◌+◌, ◌-◌, List, [], ◌∷◌, true, ltb, refl, arith, le→ltb}
use rocklet.Ui.{Floats, IsFloats, SteeringAxis, q, a, up, left, State, Event, key, tick, move, new}
use rocklet.Ui.Limits.{IsSteering}

-- The axes stand at 100 at the start.
naturals : Floats ℕ
naturals = record { zero = 0; plus = λ w k. w + k; minus = λ w k. w - k; less = ltb }

naturals_laws : IsFloats naturals
unfolding naturals
naturals_laws = record {
  less_self = λ w. le→ltb w w (omega arith);
  less-plus = λ w y k e h. le→ltb (w + k) y (ground (arith, h));
  less-minus = λ w y k e h. le→ltb w (y - k) (ground (arith, h));
}

abbrev axis : SteeringAxis ℕ
axis = record { value = 100; max = 103; min = 97; start = 100; step = 2 }

axis-IsSteering : IsSteering naturals naturals_laws axis
unfolding naturals
axis-IsSteering = record {
  in_order = refl;
  forward = refl;
  start_within = (refl, refl);
  value_within = (refl, refl);
}

abbrev drive : List Event
drive = key a true ∷ key up true ∷ key up true ∷ key left true ∷ tick ∷ move ∷ key q true ∷ []

abbrev driving : State ℕ
driving = record (new naturals axis axis) { remote_control = true }
