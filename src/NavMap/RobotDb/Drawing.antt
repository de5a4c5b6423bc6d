-- ===== src/NavMap/RobotDb/Drawing.antt =====
-- drawMap of pkg/navmap/robotdb.go: where each byte of the map ends up in the image.
use native.Mathlib.Nat.{mod-eq_of_lt}
use rocklet.Base.{
  ℕ, ◌+◌, ◌-◌, ◌*◌, ◌/◌, ◌%◌, ◌<◌, ◌≤◌, ◌≡◌, ◌≢◌, List, ◌++◌, Option, none, some, ok, ◌>>=◌, length,
  take-append_eq, drop-append_eq, get_elem?, refl,
}
use rocklet.Base.Bytes.{le32, IsU32, le_value-le32, u32}
use rocklet.NavMap.Reader.{read_full-append}
use rocklet.NavMap.RobotDb.{
  Image, Images, Rgba, new_rgba, set_rgba, color_convert, draw_bytes, draw_map, of_encoder,
}

-- The position of the byte for a pixel: rows are stored from the bottom up.
abbrev pub byte_index : ℕ → ℕ → ℕ → ℕ → ℕ
byte_index width height x y = (height - 1 - y) * width + x

-- One byte: in an image of its size, the pixel at its position is set and no other.
record Draws (w h : ℕ) (i : Image) (pos b : ℕ) (j : Image) : Type 0 where
  same_width : j.width ≡ w
  same_height : j.height ≡ h
  here : (x y : ℕ) → x < w → y < h → byte_index w h x y ≡ pos → j.pixel x y ≡ color_convert b
  elsewhere : (x y : ℕ) → x < w → y < h → byte_index w h x y ≢ pos → j.pixel x y ≡ i.pixel x y

module _ (w h : ℕ) (i : Image) (pos b : ℕ) (sw : i.width ≡ w) (sh : i.height ≡ h)
    (lt : pos < h * w) where
  drawn : Image
  drawn = set_rgba i (pos % w) (h - (pos / w + 1)) (color_convert b)

-- What a pixel shows: the colour of its byte, or what was there before where there is none.
abbrev pub shown : Option ℕ → Rgba → Rgba
shown none c = c
shown (some b) c = color_convert b

-- The loop from position `pos` on.
record DrawsAll (w h : ℕ) (i : Image) (pos : ℕ) (bs : List ℕ) (j : Image) : Type 0 where
  wide : j.width ≡ w
  high : j.height ≡ h
  before : (x y : ℕ) → x < w → y < h → byte_index w h x y < pos → j.pixel x y ≡ i.pixel x y
  onwards :
      (x y : ℕ)
      → x < w
      → y < h
      → pos ≤ byte_index w h x y
      → j.pixel x y ≡ shown (get_elem? bs (byte_index w h x y - pos)) (i.pixel x y)

-- The size fields of a map and its pixels, as drawMap reads them.
abbrev pub map_bytes : ℕ → ℕ → ℕ → ℕ → List ℕ → List ℕ
map_bytes top left height width pixels =
    (le32 top ++ (le32 left ++ (le32 height ++ le32 width))) ++ pixels

module _ (images : Images) (top left h w : ℕ) (pixels rest : List ℕ) (rt : IsU32 top)
    (rl : IsU32 left) (rh : IsU32 h) (rw' : IsU32 w) (size : length pixels ≡ h * w)
    (fits : IsU32 (h * w)) where
  -- What drawMap does with a whole map: it draws the pixels and encodes the image.
  pub draw_map_lem : draw_map images (map_bytes top left h w pixels ++ rest) ≡ (
      new_rgba images w h >>= λ i. draw_bytes w h i 0 pixels >>= λ j.
      of_encoder (images.encode j) >>= λ d.
      ok (record { contents = d; width = w; height = h; left = left; top = top }, rest))
  unfolding draw_map le32
  draw_map_lem =
      let u : u32 (h * w) ≡ h * w = mod-eq_of_lt fits in
      rw (
        read_full-append 15 (le32 top ++ (le32 left ++ (le32 h ++ le32 w))) (pixels ++ rest) refl,
        le_value-le32 top rt,
        le_value-le32 left rl,
        le_value-le32 h rh,
        le_value-le32 w rw',
        u,
        take-append_eq (h * w) pixels rest size,
        drop-append_eq (h * w) pixels rest size,
      )
