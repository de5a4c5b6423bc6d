-- ===== src/NavMap/RobotDb.antt =====
-- pkg/navmap/robotdb.go: the map files of the vacuum's database. A reader is the list of the bytes
-- that are left. `Arith` is Go's float32 arithmetic, `Images` is the package image.
pub mod Drawing
pub mod Blocks
pub mod Total
use rocklet.Base.{
  ℕ, zero, suc, ◌+◌, ◌-◌, ◌*◌, ◌/◌, ◌%◌, List, [], ◌∷◌, ◌++◌, Option, none, some, Bool, true, false,
  not, ◌&&◌, Outcome, ok, err, panic, ◌>>=◌, ◌==◌, ltb, leb, if◌then◌else◌, length, take, drop, map,
}
use rocklet.Base.Bytes.{le_value, u32}
use rocklet.NavMap.Reader.{Error, eof, unexpected_eof, encode_failed, no_map, read_full}

-- float32: conversion from uint32, the constant 0.02, product, sum and difference.
pub record Arith (F : Type 0) : Type 0 where
  pub of_uint32 : ℕ → F
  pub scale : F
  pub times : F → F → F
  pub plus : F → F → F
  pub minus : F → F → F

-- v1alpha1.Position
pub record Position (F : Type 0) : Type 0 where
  pub x : F
  pub y : F

-- v1alpha1.Map
pub record Map : Type 0 where
  pub contents : List ℕ
  pub width : ℕ
  pub height : ℕ
  pub left : ℕ
  pub top : ℕ

-- color.RGBA
pub record Rgba : Type 0 where
  pub r : ℕ
  pub g : ℕ
  pub b : ℕ
  pub a : ℕ

abbrev pub pixel_wall : ℕ
pixel_wall = 1

abbrev pub pixel_inside : ℕ
pixel_inside = 255

abbrev pub pixel_unknown : ℕ
pixel_unknown = 0

abbrev pub color_wall : Rgba
color_wall = record { r = 105; g = 207; b = 254; a = 255 }

abbrev pub color_inside : Rgba
color_inside = record { r = 33; g = 115; b = 187; a = 255 }

abbrev pub color_unknown : Rgba
color_unknown = record { r = 0; g = 0; b = 0; a = 0 }

-- image.RGBA with its bounds from (0, 0) to (width, height).
pub record Image : Type 0 where
  pub width : ℕ
  pub height : ℕ
  pub pixel : ℕ → ℕ → Rgba

-- The package image and png.Encode: whether image.NewRGBA has the memory for an image of this
-- width and height, since it panics for one that is too large, and the encoding into a buffer.
pub record Images : Type 0 where
  pub allocates : ℕ → ℕ → Bool
  pub encode : Image → Option (List ℕ)

abbrev pub blank : ℕ → ℕ → Image
blank width height = record { width = width; height = height; pixel = λ x y. color_unknown }

unfoldable pub new_rgba : Images → ℕ → ℕ → Outcome Error Image
new_rgba images width height =
    if images.allocates width height then ok (blank width height) else panic

-- SetRGBA, which does nothing outside the bounds.
unfoldable pub set_rgba : Image → ℕ → ℕ → Rgba → Image
set_rgba i x y c =
    if ltb x i.width && ltb y i.height
    then record i { pixel = λ u v. if u == x && v == y then c else i.pixel u v }
    else i

unfoldable pub color_convert : ℕ → Rgba
color_convert b =
    if b == pixel_wall
    then color_wall
    else if b == pixel_inside
    then color_inside
    else if b == pixel_unknown
    then color_unknown
    else record { r = b; g = b; b = b; a = 255 }

-- The body of the loop over the bytes. A row above the image, height - (pos / width + 1) < 0, is
-- out of bounds; a width of 0 is a division by zero.
unfoldable pub draw_byte : ℕ → ℕ → Image → ℕ → ℕ → Outcome Error Image
unfolding set_rgba color_convert
draw_byte width height i pos b =
    if width == 0
    then panic
    else if leb (pos / width + 1) height
    then ok (set_rgba i (pos % width) (height - (pos / width + 1)) (color_convert b))
    else ok i

-- `for pos, b := range buf.Bytes()`
unfoldable pub draw_bytes : ℕ → ℕ → Image → ℕ → List ℕ → Outcome Error Image
draw_bytes width height i pos [] = ok i
draw_bytes width height i pos (b ∷ bs) =
    draw_byte width height i pos b >>= λ j. draw_bytes width height j (pos + 1) bs

abbrev pub of_encoder : Option (List ℕ) → Outcome Error (List ℕ)
of_encoder none = err encode_failed
of_encoder (some bytes) = ok bytes

-- drawMap. io.CopyN takes what there is, up to Height * Width in uint32 arithmetic.
unfoldable pub draw_map : Images → List ℕ → Outcome Error (Map × List ℕ)
unfolding read_full new_rgba
draw_map images bytes = read_full 16 bytes >>= λ p.
    let top = le_value (take 4 p.0) in
    let left = le_value (take 4 (drop 4 p.0)) in
    let height = le_value (take 4 (drop 8 p.0)) in
    let width = le_value (take 4 (drop 12 p.0)) in
    let size = u32 (height * width) in
    new_rgba images width height >>= λ empty.
    draw_bytes width height empty 0 (take size p.1) >>= λ image.
    of_encoder (images.encode image) >>= λ data_bytes. ok (
      record { contents = data_bytes; width = width; height = height; left = left; top = top },
      drop size p.1,
    )

-- A pair of uint16 in parsePath, of uint32 for the charger.
pub record Point : Type 0 where
  pub x : ℕ
  pub y : ℕ

unfoldable pub read_points : ℕ → List ℕ → Outcome Error (List Point × List ℕ)
unfolding read_full
read_points zero bytes = ok ([], bytes)
read_points (suc n) bytes = read_full 4 bytes >>= λ p. read_points n p.1 >>= λ q.
    ok (record { x = le_value (take 2 p.0); y = le_value (drop 2 p.0) } ∷ q.0, q.1)

-- parsePath: the loop counts from 1 to PointLength, so it reads one point less.
unfoldable pub parse_path : List ℕ → Outcome Error (List Point × List ℕ)
unfolding read_full read_points
parse_path bytes = read_full 16 bytes >>= λ p. read_points (le_value (take 4 p.0) - 1) p.1

-- The variables of the loop of ConvertMap.
pub record Found : Type 0 where
  pub charger : Option Point
  pub path : Option (List Point)
  pub image : Option Map

unfoldable pub read_block : Images → ℕ → ℕ → List ℕ → Found → Outcome Error (Found × List ℕ)
unfolding read_full draw_map parse_path
read_block images type size bytes f =
    if type == 1
    then (read_full 8 bytes >>= λ p. ok (
      record f { charger = some (record { x = le_value (take 4 p.0); y = le_value (drop 4 p.0) }) },
      p.1,
    ))
    else if type == 2
    then (draw_map images bytes >>= λ p. ok (record f { image = some p.0 }, p.1))
    else if type == 3
    then (parse_path bytes >>= λ p. ok (record f { path = some p.0 }, p.1))
    else ok (f, drop size bytes)

-- The loop: io.EOF at the header of a block ends it, any other error is returned. `none` means
-- that the fuel ran out.
at_end : Error → Found → Outcome Error Found
at_end eof f = ok f
at_end e f = err e

next_block :
    Outcome Error (List ℕ × List ℕ)
    → Found
    → (List ℕ → List ℕ → Option (Outcome Error Found))
    → Option (Outcome Error Found)
unfolding at_end
next_block (ok (h, rest)) f body = body h rest
next_block (err e) f body = some (at_end e f)
next_block panic f body = some panic

after_block :
    Outcome Error (Found × List ℕ)
    → (Found → List ℕ → Option (Outcome Error Found))
    → Option (Outcome Error Found)
after_block (ok (f, rest)) more = more f rest
after_block (err e) more = some (err e)
after_block panic more = some panic

unfoldable pub read_blocks : Images → ℕ → List ℕ → Found → Option (Outcome Error Found)
unfolding read_full next_block after_block read_block
read_blocks images zero bytes f = none
read_blocks images (suc fuel) bytes f = next_block (read_full 8 bytes) f λ h rest.
    after_block (read_block images (le_value (take 2 h)) (le_value (drop 4 h)) rest f)
      (λ g left. read_blocks images fuel left g)

-- At the start; `image` is the map that the cleaning has.
abbrev pub found_before : Option Map → Found
found_before image = record { charger = none; path = none; image = image }

-- What ConvertMap sets in the status of the cleaning.
pub record Converted (F : Type 0) : Type 0 where
  pub image : Map
  pub path : Option (List (Position F))
  pub charger : Option (Position F)

module _ {F : Type 0} (ar : Arith F) where
  -- converts coordinates into pngs dimensions
  unfoldable pub position_in_map_dimensions : Map → ℕ → ℕ → Position F
  position_in_map_dimensions m x y = record {
    x = ar.minus (ar.times (ar.of_uint32 x) ar.scale) (ar.of_uint32 m.left);
    y =
        ar.plus (ar.minus (ar.of_uint32 m.height) (ar.times (ar.of_uint32 y) ar.scale))
          (ar.of_uint32 m.top);
  }

  unfoldable pub positions : Map → Option (List Point) → Option (List (Position F))
  unfolding position_in_map_dimensions
  positions m none = none
  positions m (some ps) = some (map (λ p. position_in_map_dimensions m p.x p.y) ps)

  unfoldable pub charger_position : Map → Option Point → Option (Position F)
  unfolding position_in_map_dimensions
  charger_position m none = none
  charger_position m (some p) = some (position_in_map_dimensions m p.x p.y)

  unfoldable pub place : Found → Option Map → Outcome Error (Converted F)
  unfolding positions charger_position
  place f none = err no_map
  place f (some m) =
      ok (record { image = m; path = positions m f.path; charger = charger_position m f.charger })

  unfoldable pub finish : Option (Outcome Error Found) → Option (Outcome Error (Converted F))
  unfolding place
  finish none = none
  finish (some r) = some (r >>= λ f. place f f.image)

  -- What follows the header of the file.
  unfoldable pub convert_rest :
      Images → Option Map → Outcome Error (List ℕ × List ℕ) → Option (Outcome Error (Converted F))
  unfolding read_blocks finish
  convert_rest images old (ok p) =
      finish (read_blocks images (suc (length p.1)) p.1 (found_before old))
  convert_rest images old (err e) = some (err e)
  convert_rest images old panic = some panic

  -- ConvertMap, for a cleaning with this map, if any.
  unfoldable pub convert_map : Images → Option Map → List ℕ → Option (Outcome Error (Converted F))
  unfolding read_full convert_rest
  convert_map images old bytes = convert_rest images old (read_full 20 bytes)
