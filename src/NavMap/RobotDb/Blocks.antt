-- ===== src/NavMap/RobotDb/Blocks.antt =====
-- ConvertMap of pkg/navmap/robotdb.go on files that are made of whole blocks.
use rocklet.Base.{
  ℕ, zero, suc, ◌+◌, ◌-◌, ◌*◌, ◌<◌, ◌≤◌, ◌≡◌, ◌≢◌, List, [], ◌∷◌, ◌++◌, Option, none, some, map,
  Outcome, ok, err, panic, ◌>>=◌, >>=-congruence, length, refl, arith, ap, ==_ne, length-append,
  drop-append_eq,
}
use rocklet.Base.Bytes.{le16, le32, IsU16, IsU32, le_value-le16, le_value-le32}
use rocklet.NavMap.Reader.{Error, no_map, read_full, read_full-append}
use rocklet.NavMap.RobotDb.{
  Arith, Map, Images, new_rgba, draw_bytes, of_encoder, Point, read_points, parse_path, Found,
  read_block, read_blocks, found_before, convert_map, place, after_block, Position, Converted,
  finish, convert_rest, positions, charger_position, position_in_map_dimensions,
}
use rocklet.NavMap.RobotDb.Drawing.{map_bytes, draw_map_lem}

-- A block of a map file; the size that a block of a known type states is not used.
pub data Block : Type 0 where
  charger : ℕ → Point → Block
  image : ℕ → (top left height width : ℕ) → List ℕ → Block
  path : ℕ → (point_size angle image_width image_height : ℕ) → List Point → Block
  other : ℕ → List ℕ → Block

-- The type, two bytes that are not used, and the size.
abbrev block_head : ℕ → ℕ → List ℕ
block_head type size = le16 type ++ (0 ∷ 0 ∷ le32 size)

abbrev point_bytes : List Point → List ℕ
point_bytes [] = []
point_bytes (p ∷ ps) = (le16 p.x ++ le16 p.y) ++ point_bytes ps

abbrev path_head : ℕ → ℕ → ℕ → ℕ → ℕ → List ℕ
path_head n point_size angle w h =
    le32 (n + 1) ++ (le32 point_size ++ (le32 angle ++ (le16 w ++ le16 h)))

abbrev pub block_bytes : Block → List ℕ
block_bytes (charger size p) = block_head 1 size ++ (le32 p.x ++ le32 p.y)
block_bytes (image size top left h w pixels) = block_head 2 size ++ map_bytes top left h w pixels
block_bytes (path size ps angle w h points) =
    block_head 3 size ++ (path_head (length points) ps angle w h ++ point_bytes points)
block_bytes (other type contents) = block_head type (length contents) ++ contents

abbrev pub all_bytes : List Block → List ℕ
all_bytes [] = []
all_bytes (b ∷ bs) = block_bytes b ++ all_bytes bs

abbrev PointsFit : List Point → Type 0
PointsFit [] = Unit
PointsFit (p ∷ ps) = IsU16 p.x × IsU16 p.y × PointsFit ps

-- The numbers fit their fields, a map has as many pixels as it says, and a block of another type
-- has another type.
abbrev pub Fits : Block → Type 0
Fits (charger size p) = IsU32 size × IsU32 p.x × IsU32 p.y
Fits (image size top left h w pixels) =
    IsU32 size
    × IsU32 top
    × IsU32 left
    × IsU32 h
    × IsU32 w
    × (length pixels ≡ h * w)
    × IsU32 (h * w)
Fits (path size ps angle w h points) = IsU32 size × IsU32 (length points + 1) × PointsFit points
Fits (other type contents) =
    IsU32 (length contents) × IsU16 type × (type ≢ 1) × (type ≢ 2) × (type ≢ 3)

abbrev pub AllFit : List Block → Type 0
AllFit [] = Unit
AllFit (b ∷ bs) = Fits b × AllFit bs

read_points-append :
    (ps : List Point) (rest : List ℕ)
    → PointsFit ps
    → read_points (length ps) (point_bytes ps ++ rest) ≡ ok (ps, rest)
unfolding read_points le16
read_points-append [] rest h = refl
read_points-append (p ∷ ps) rest h = rw (
  read_full-append 3 (le16 p.x ++ le16 p.y) (point_bytes ps ++ rest) refl,
  read_points-append ps rest h.2,
  le_value-le16 p.x h.0,
  le_value-le16 p.y h.1,
)

abbrev type_of : Block → ℕ
type_of (charger size p) = 1
type_of (image size top left h w pixels) = 2
type_of (path size ps angle w h points) = 3
type_of (other type contents) = type

abbrev size_of : Block → ℕ
size_of (charger size p) = size
size_of (image size top left h w pixels) = size
size_of (path size ps angle w h points) = size
size_of (other type contents) = length contents

abbrev payload : Block → List ℕ
payload (charger size p) = le32 p.x ++ le32 p.y
payload (image size top left h w pixels) = map_bytes top left h w pixels
payload (path size ps angle w h points) =
    path_head (length points) ps angle w h ++ point_bytes points
payload (other type contents) = contents

block_bytes_lem : (b : Block) → block_bytes b ≡ block_head (type_of b) (size_of b) ++ payload b
block_bytes_lem (charger size p) = refl
block_bytes_lem (image size top left h w pixels) = refl
block_bytes_lem (path size ps angle w h points) = refl
block_bytes_lem (other type contents) = refl

head-Fits : (b : Block) → Fits b → IsU16 (type_of b) × IsU32 (size_of b)
head-Fits (charger size p) h = (omega arith, h.0)
head-Fits (image size top left ht w pixels) h = (omega arith, h.0)
head-Fits (path size ps angle w ht points) h = (omega arith, h.0)
head-Fits (other type contents) h = (h.1, h.0)

parse_path-append :
    (ps angle w h : ℕ) (points : List Point) (rest : List ℕ)
    → IsU32 (length points + 1)
    → PointsFit points
    → parse_path ((path_head (length points) ps angle w h ++ point_bytes points) ++ rest)
      ≡ ok (points, rest)
unfolding parse_path le16 le32
parse_path-append ps angle w h points rest n fit =
    let e : length points + 1 - 1 ≡ length points = omega arith in
    rw (
      read_full-append 15 (path_head (length points) ps angle w h) (point_bytes points ++ rest)
          refl,
      le_value-le32 (length points + 1) n,
      e,
      read_points-append points rest fit,
    )

module _ (images : Images) where
  -- What a block contributes.
  abbrev pub contribute : Block → Found → Outcome Error Found
  contribute (charger size p) f = ok (record f { charger = some p })
  contribute (image size top left h w pixels) f = new_rgba images w h >>= λ i.
      draw_bytes w h i 0 pixels >>= λ j. of_encoder (images.encode j) >>= λ d. ok (record f {
        image = some (record { contents = d; width = w; height = h; left = left; top = top });
      })
  contribute (path size ps angle w h points) f = ok (record f { path = some points })
  contribute (other type contents) f = ok f

  abbrev pub contribute_all : List Block → Found → Outcome Error Found
  contribute_all [] f = ok f
  contribute_all (b ∷ bs) f = contribute b f >>= λ g. contribute_all bs g

  read_block-bytes :
      (b : Block) (f : Found) (rest : List ℕ)
      → Fits b
      → read_block images (type_of b) (size_of b) (payload b ++ rest) f
        ≡ (contribute b f >>= λ g. ok (g, rest))
  unfolding read_block
  read_block-bytes (charger size p) f rest h =
      unfold le32 in
      rw (
        read_full-append 7 (le32 p.x ++ le32 p.y) rest refl,
        le_value-le32 p.x h.1,
        le_value-le32 p.y h.2,
      )
  read_block-bytes (image size top left ht w pixels) f rest h =
      rw (draw_map_lem images top left ht w pixels rest h.1 h.2 h.3 h.4 h.5 h.6) (
        >>=-congruence (new_rgba images w ht) _ _ _ _ (λ i.
          >>=-congruence (draw_bytes w ht i 0 pixels) _ _ _ _
            (λ j. >>=-congruence (of_encoder (images.encode j)) _ _ _ _ (λ d. refl))))
  read_block-bytes (path size ps angle w ht points) f rest h =
      rw (parse_path-append ps angle w ht points rest h.1 h.2)
  read_block-bytes (other type contents) f rest h = rw (
    ==_ne type 1 h.2,
    ==_ne type 2 h.3,
    ==_ne type 3 h.4,
    drop-append_eq (length contents) contents rest refl,
  )

  after_contribution :
      (r : Outcome Error Found) (rest : List ℕ)
      (more : Found → List ℕ → Option (Outcome Error Found)) (next : Found → Outcome Error Found)
      → ((g : Found) → more g rest ≡ some (next g))
      → after_block (r >>= λ g. ok (g, rest)) more ≡ some (r >>= next)
  unfolding after_block
  after_contribution (ok g) rest more next h = h g
  after_contribution (err e) rest more next h = refl
  after_contribution panic rest more next h = refl

  read_blocks-bytes :
      (bs : List Block) (fuel : ℕ) (f : Found)
      → AllFit bs
      → length bs < fuel
      → read_blocks images fuel (all_bytes bs) f ≡ some (contribute_all bs f)
  unfolding read_blocks le16 le32
  read_blocks-bytes bs zero f h lt = absurd (omega arith)
  read_blocks-bytes [] (suc fuel) f h lt = unfold read_full in refl
  read_blocks-bytes (b ∷ bs) (suc fuel) f h lt =
      rw
        (
          block_bytes_lem b,
          read_full-append 7 (block_head (type_of b) (size_of b)) (payload b ++ all_bytes bs) refl,
          le_value-le16 (type_of b) (head-Fits b h.0).0,
          le_value-le32 (size_of b) (head-Fits b h.0).1,
          read_block-bytes b f (all_bytes bs) h.0,
        )
        (after_contribution (contribute b f) (all_bytes bs) _ (contribute_all bs)
          (λ g. read_blocks-bytes bs fuel g h.1 (omega arith)))

  length-le-all_bytes : (bs : List Block) → length bs ≤ length (all_bytes bs)
  unfolding le16 le32
  length-le-all_bytes [] = omega arith
  length-le-all_bytes (b ∷ bs) = omega (
    arith,
    length-append (block_bytes b) (all_bytes bs),
    ap length (block_bytes_lem b),
    length-append (block_head (type_of b) (size_of b)) (payload b),
    length-le-all_bytes bs,
  )

module _ {F : Type 0} (ar : Arith F) where
  -- A point of the file in pixels of the map: its coordinates are scaled, x counts from the left
  -- edge, and y is turned over and counts from the top.
  abbrev pub in_pixels : Map → Point → Position F
  in_pixels m p = record {
    x = ar.minus (ar.times (ar.of_uint32 p.x) ar.scale) (ar.of_uint32 m.left);
    y =
        ar.plus (ar.minus (ar.of_uint32 m.height) (ar.times (ar.of_uint32 p.y) ar.scale))
          (ar.of_uint32 m.top);
  }

  abbrev pub if_some : {A B : Type 0} → (A → B) → Option A → Option B
  if_some f none = none
  if_some f (some a) = some (f a)

  -- What the cleaning gets from what was found.
  abbrev pub converted : Found → Option Map → Outcome Error (Converted F)
  converted f none = err no_map
  converted f (some m) = ok (record {
    image = m;
    path = if_some (map (in_pixels m)) f.path;
    charger = if_some (in_pixels m) f.charger;
  })

  positions-in_pixels :
      (m : Map) (o : Option (List Point)) → positions ar m o ≡ if_some (map (in_pixels m)) o
  unfolding positions position_in_map_dimensions
  positions-in_pixels m none = refl
  positions-in_pixels m (some ps) = refl

  charger-in_pixels :
      (m : Map) (o : Option Point) → charger_position ar m o ≡ if_some (in_pixels m) o
  unfolding charger_position position_in_map_dimensions
  charger-in_pixels m none = refl
  charger-in_pixels m (some p) = refl

  place-converted : (f : Found) (o : Option Map) → place ar f o ≡ converted f o
  unfolding place
  place-converted f none = refl
  place-converted f (some m) = rw (positions-in_pixels m f.path, charger-in_pixels m f.charger) refl

  bind_place :
      (r : Outcome Error Found) → (r >>= λ f. place ar f f.image) ≡ (r >>= λ f. converted f f.image)
  bind_place (ok f) = place-converted f f.image
  bind_place (err e) = refl
  bind_place panic = refl

-- ConvertMap on a file of a 20-byte header and whole blocks goes through all of them, and never
-- runs out of fuel: the charger, the path and the map of the result are those of the last block of
-- each kind, the points in pixels of the map, other blocks are skipped, and the result is an error
-- if the cleaning has no map and gets none. A map's image is the one that drawMap draws.
pub convert_map-blocks :
    {F : Type 0} (ar : Arith F) (images : Images) (old : Option Map) (header : List ℕ)
    (bs : List Block)
    → length header ≡ 20
    → AllFit bs
    → convert_map ar images old (header ++ all_bytes bs)
      ≡ some (contribute_all images bs (found_before old) >>= λ f. converted ar f f.image)
unfolding convert_map finish convert_rest
convert_map-blocks ar images old header bs twenty fit =
    rw
      (
        read_full-append 19 header (all_bytes bs) twenty,
        read_blocks-bytes images bs (suc (length (all_bytes bs))) (found_before old) fit
            (omega (arith, length-le-all_bytes images bs)),
      )
      (ap some (bind_place ar (contribute_all images bs (found_before old))))
