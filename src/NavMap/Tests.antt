-- ===== src/NavMap/Tests.antt =====
-- pkg/navmap on concrete files.
use rocklet.Base.{
  ℕ, ◌+◌, ◌-◌, ◌*◌, ◌≡◌, List, [], ◌∷◌, ◌++◌, none, some, refl, arith, ltb, ◌>>=◌, replicate,
}
use rocklet.NavMap.RobotDb.{Arith, Images, convert_map, found_before}
use rocklet.NavMap.RobotDb.Blocks.{
  Block, charger, image, path, other, all_bytes, contribute_all, converted, convert_map-blocks,
}

-- Whole numbers of pixels, fifty units each.
abbrev pub naturals : Arith ℕ
naturals = record {
  of_uint32 = λ n. n;
  scale = 1;
  times = λ a b. a * b;
  plus = λ a b. a + b;
  minus = λ a b. a - b;
}

abbrev pub encoder : Images
encoder = record {
  allocates = λ w h. ltb (w * h) 1000000;
  encode = λ i. some (i.width ∷ i.height ∷ (i.pixel 0 0).r ∷ []);
}

abbrev pub blocks : List Block
blocks =
    charger 8 (record { x = 3; y = 4 })
    ∷ other 9 (1 ∷ 2 ∷ [])
    ∷ image 22 5 6 2 3 (1 ∷ 0 ∷ 255 ∷ 7 ∷ 8 ∷ 9 ∷ [])
    ∷ path 24 4 0 0 0 (record { x = 1; y = 2 } ∷ [])
    ∷ []

convert_map-blocks_example :
    convert_map naturals encoder none (replicate 20 0 ++ all_bytes blocks)
    ≡ some (contribute_all encoder blocks (found_before none) >>= λ f. converted naturals f f.image)
convert_map-blocks_example = convert_map-blocks naturals encoder none (replicate 20 0) blocks refl (
  (omega arith, omega arith, omega arith),
  (
    (omega arith, omega arith, omega arith, omega arith, omega arith),
    (
      (omega arith, omega arith, omega arith, omega arith, omega arith, refl, omega arith),
      ((omega arith, omega arith, (omega arith, omega arith, tt)), tt),
    ),
  ),
)
