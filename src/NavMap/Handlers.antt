-- ===== src/NavMap/Handlers.antt =====
-- pkg/navmap/navmap.go: the handlers of the PNG and the JPEG of the latest map, with the buffers
-- of Map. `I` is an image; the encoders are functions of the image, none for an error. Requests
-- are served one after the other; the texts of the error responses are left out.
pub mod Fresh
mod Tests
use rocklet.Base.{ℕ, List, [], ◌∷◌, ◌++◌, Option, none, some, length}
use rocklet.Base.Text.{codes}

-- Map, as far as the handlers go.
pub record Buffered (I : Type 0) : Type 0 where
  pub image : I
  pub jpeg_buf : Option (List ℕ)
  pub png_buf : Option (List ℕ)

-- What a handler writes.
pub data Response : Type 0 where
  not_found : Response
  internal_server_error : Response
  content : List ℕ → ℕ → List ℕ → Response

-- The latest map, and what has been written.
pub record State (I : Type 0) : Type 0 where
  pub latest_map : Option (Buffered I)
  pub responses : List Response

-- A request, or lookupMaps sets a new map.
pub data Event (I : Type 0) : Type 0 where
  get_png : Event I
  get_jpeg : Event I
  new_latest : I → Event I

-- A map of NewMap, without buffers.
abbrev pub unbuffered : {I : Type 0} → I → Buffered I
unbuffered image = record { image = image; jpeg_buf = none; png_buf = none }

abbrev pub png_content : List ℕ → Response
png_content bytes = content (codes "image/png") (length bytes) bytes

abbrev pub jpeg_content : List ℕ → Response
jpeg_content bytes = content (codes "image/jpeg") (length bytes) bytes

module _ {I : Type 0} (encode_png encode_jpeg : I → Option (List ℕ)) where
  abbrev encoded_png : Buffered I → Option (List ℕ) → Buffered I × Response
  encoded_png m none = (m, internal_server_error)
  encoded_png m (some bytes) = (record m { png_buf = some bytes }, png_content bytes)

  -- Map.handlePNG, with Map.PNG.
  unfoldable pub handle_png : Buffered I → Option (List ℕ) → Buffered I × Response
  handle_png m none = encoded_png m (encode_png m.image)
  handle_png m (some bytes) = (m, png_content bytes)

  abbrev encoded_jpeg : Buffered I → Option (List ℕ) → Buffered I × Response
  encoded_jpeg m none = (m, internal_server_error)
  encoded_jpeg m (some bytes) = (record m { jpeg_buf = some bytes }, jpeg_content bytes)

  -- Map.handleJPEG
  unfoldable pub handle_jpeg : Buffered I → Option (List ℕ) → Buffered I × Response
  handle_jpeg m none = encoded_jpeg m (encode_jpeg m.image)
  handle_jpeg m (some bytes) = (m, jpeg_content bytes)

  abbrev pub answered : State I → Buffered I × Response → State I
  answered s r = record s { latest_map = some r.0; responses = s.responses ++ r.1 ∷ [] }

  abbrev pub on_png : State I → Option (Buffered I) → State I
  on_png s none = record s { responses = s.responses ++ not_found ∷ [] }
  on_png s (some m) = answered s (handle_png m m.png_buf)

  abbrev pub on_jpeg : State I → Option (Buffered I) → State I
  on_jpeg s none = record s { responses = s.responses ++ not_found ∷ [] }
  on_jpeg s (some m) = answered s (handle_jpeg m m.jpeg_buf)

  unfoldable pub serve : State I → Event I → State I
  unfolding handle_png handle_jpeg
  serve s get_png = on_png s s.latest_map
  serve s get_jpeg = on_jpeg s s.latest_map
  serve s (new_latest image) = record s { latest_map = some (unbuffered image) }

  unfoldable pub serve_all : State I → List (Event I) → State I
  unfolding serve
  serve_all s [] = s
  serve_all s (e ∷ es) = serve_all (serve s e) es
