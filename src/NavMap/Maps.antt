-- ===== src/NavMap/Maps.antt =====
-- pkg/navmap/navmap.go: lookupMaps and NewMap. Times are seconds, 0 the zero time.Time; a pixel is
-- what the decoder of the file says, in 8 bits for a component. png.Encode on the sub-image of a
-- rectangle is a parameter, and so are the decoder and os.Stat, by their results.

pub mod Bounds
pub mod Newest
mod Tests
use rocklet.Base.{
  ℕ, zero, suc, ◌+◌, ◌-◌, ◌%◌, List, [], ◌∷◌, Option, none, some, Bool, true, false, not, ◌&&◌,
  ◌==◌, ltb, bytes_eq, if◌then◌else◌, Outcome, ok, err, panic,
}
use rocklet.Base.Bytes.{u32}
use rocklet.NavMap.RobotDb.{Map, Rgba, color_wall, color_inside, color_unknown}

-- filepath.Glob with os.Stat: the paths with their times, none where Stat fails.
abbrev pub Files : Type 0
Files = List (List ℕ × Option ℕ)

-- The loop over the matches, with the newest file and time so far.
unfoldable pub newest : List ℕ → ℕ → Files → List ℕ × ℕ
newest file time [] = (file, time)
newest file time ((path, none) ∷ rest) = newest file time rest
newest file time ((path, some t) ∷ rest) =
    let older = newest file time rest in
    let newer = newest path t rest in if ltb t time then older else newer

-- The area that is in use.
pub record Box : Type 0 where
  pub min_x : ℕ
  pub max_x : ℕ
  pub min_y : ℕ
  pub max_y : ℕ

unfoldable pub update_min_max : Box → ℕ → ℕ → Box
update_min_max b x y = record {
  min_x = if ltb x b.min_x then x else b.min_x;
  max_x = if ltb b.max_x x then x else b.max_x;
  min_y = if ltb y b.min_y then y else b.min_y;
  max_y = if ltb b.max_y y then y else b.max_y;
}

abbrev pub same_color : Rgba → Rgba → Bool
same_color c d = c.r == d.r && (c.g == d.g && (c.b == d.b && c.a == d.a))

abbrev pub gray : Rgba
gray = record { r = 125; g = 125; b = 125; a = 255 }

abbrev pub white : Rgba
white = record { r = 255; g = 255; b = 255; a = 255 }

abbrev pub black : Rgba
black = record { r = 0; g = 0; b = 0; a = 255 }

-- The colour that is set; the special point and all other colours stay.
unfoldable pub recolor : Rgba → Rgba
recolor c =
    if same_color c gray
    then color_unknown
    else if same_color c white
    then color_inside
    else if same_color c black
    then color_wall
    else c

module _ (at : ℕ → ℕ → Rgba) where
  -- The body of the loops: every pixel that is not gray counts.
  unfoldable pub visit : Box → ℕ → ℕ → Box
  unfolding update_min_max
  visit b x y = if same_color (at x y) gray then b else update_min_max b x y

  unfoldable pub scan_row : Box → ℕ → ℕ → ℕ → Box
  unfolding visit
  scan_row b y x zero = b
  scan_row b y x (suc n) = scan_row (visit b x y) y (x + 1) n

  unfoldable pub scan : Box → ℕ → ℕ → ℕ → ℕ → Box
  unfolding scan_row
  scan b x width y zero = b
  scan b x width y (suc n) = scan (scan_row b y x width) x width (y + 1) n

-- The decoded image: its bounds and its pixels.
pub record Picture : Type 0 where
  pub x0 : ℕ
  pub y0 : ℕ
  pub x1 : ℕ
  pub y1 : ℕ
  pub at : ℕ → ℕ → Rgba

unfoldable pub used_area : Picture → Box
unfolding scan
used_area p =
    scan p.at (record { min_x = p.x1; max_x = p.x0; min_y = p.y1; max_y = p.y0 }) p.x0 (p.x1 - p.x0)
      p.y0 (p.y1 - p.y0)

-- uint32(a - b) on int.
abbrev pub sub_u32 : ℕ → ℕ → ℕ
sub_u32 a b = u32 (4294967296 + a - b)

pub data Error : Type 0 where
  decode_failed : Error
  encode_failed : Error

-- The sub-image of a rectangle, without its right and lower edge, and the pixels.
pub record Image : Type 0 where
  pub box : Box
  pub pixels : ℕ → ℕ → Rgba

pub record LatestMap : Type 0 where
  pub path : List ℕ
  pub m_time : ℕ
  pub image : Image
  pub kubernetes_map : Map

abbrev pub encoded : List ℕ → ℕ → Image → Option (List ℕ) → Outcome Error LatestMap
encoded path time image none = err encode_failed
encoded path time image (some bytes) = ok (record {
  path = path;
  m_time = time;
  image = image;
  kubernetes_map = record {
    contents = bytes;
    width = sub_u32 image.box.max_x image.box.min_x;
    height = sub_u32 image.box.max_y image.box.min_y;
    left = u32 image.box.min_x;
    top = u32 image.box.min_y;
  };
})

-- The image of NewMap.
unfoldable pub recolored : Picture → Image
unfolding used_area recolor
recolored p = record { box = used_area p; pixels = λ x y. recolor (p.at x y) }

-- NewMap
unfoldable pub new_map :
    (Image → Option (List ℕ)) → Option Picture → List ℕ → ℕ → Outcome Error LatestMap
unfolding recolored
new_map encode none path time = err decode_failed
new_map encode (some p) path time = encoded path time (recolored p) (encode (recolored p))

abbrev pub known_file : Option LatestMap → List ℕ → ℕ → Bool
known_file none path time = false
known_file (some m) path time = bytes_eq m.path path && m.m_time == time

abbrev pub keep_or_set :
    Option LatestMap → Outcome Error LatestMap → Option LatestMap × Option Error
keep_or_set old (ok m) = (some m, none)
keep_or_set old (err e) = (old, some e)
keep_or_set old panic = (old, none)

-- The newest file is read, and `f` is applied, unless it is the one that is known.
abbrev pub with_newest :
    {A : Type 0}
    → (Image → Option (List ℕ))
    → (List ℕ → Option Picture)
    → Files
    → Option LatestMap
    → A
    → (Outcome Error LatestMap → A)
    → A
with_newest encode decode files latest unchanged f =
    let path = (newest [] 0 files).0 in
    let time = (newest [] 0 files).1 in
    if known_file latest path time then unchanged else f (new_map encode (decode path) path time)

-- lookupMaps on the latest map.
unfoldable pub lookup_maps :
    (Image → Option (List ℕ))
    → (List ℕ → Option Picture)
    → Files
    → Option LatestMap
    → Option LatestMap × Option Error
unfolding newest new_map
lookup_maps encode decode files latest =
    with_newest encode decode files latest (latest, none) (keep_or_set latest)
