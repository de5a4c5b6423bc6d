-- ===== src/NavMap/Slam/Tests.antt =====
-- pkg/navmap/navmap.go on a concrete log, with natural numbers in place of floats.
use rocklet.Base.{ℕ, ◌+◌, ◌-◌, ◌*◌, List, [], ◌∷◌, Option, none, some, ◌==◌}
use rocklet.Base.Int.{pos}
use rocklet.Base.Text.{codes}
use rocklet.NavMap.RobotDb.{Map, Position}
use rocklet.NavMap.Slam.{Floats, SlamLine, command_reset}

abbrev digit : List ℕ → Option ℕ
digit (d ∷ []) = some (d - 48)
digit _ = none

abbrev pub naturals : Floats ℕ ℕ
naturals = record {
  parse_float = digit;
  parse_int = λ s. none;
  zero = 0;
  twenty = 20;
  times = λ a b. a * b;
  to_float32 = λ a. a;
  of_uint32 = λ a. a;
  plus = λ a b. a + b;
  minus = λ a b. a - b;
  equal = ◌==◌;
}

abbrev pub here : Position ℕ
here = record { x = 532; y = 472 }

abbrev pub there : Position ℕ
there = record { x = 1; y = 2 }

abbrev reset_line : List ℕ
reset_line = codes "7 reset"

abbrev log : List (List ℕ)
log = codes "4 lidar" ∷ codes "5 reset" ∷ []

abbrev reset : SlamLine ℕ
reset = record { command = command_reset; x = 0; y = 0; angle = 0; int = pos 0; timestamp = 7 }

abbrev pub map_image : Map
map_image = record { contents = []; width = 3; height = 3; left = 500; top = 400 }
