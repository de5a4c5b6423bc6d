-- ===== src/NavMap/Handlers/Tests.antt =====
-- The handlers of pkg/navmap/navmap.go on some requests, with numbers as images.
use rocklet.Base.{if◌then◌else◌, ℕ, ◌≡◌, List, [], ◌∷◌, Option, none, some, ltb, refl}
use rocklet.NavMap.Handlers.{
  not_found, internal_server_error, Event, get_png, get_jpeg, new_latest, png_content, jpeg_content,
  handle_png, handle_jpeg, serve, serve_all,
}

abbrev one_byte : ℕ → Option (List ℕ)
one_byte image = if ltb image 5 then some (image ∷ []) else none

abbrev two_bytes : ℕ → Option (List ℕ)
two_bytes image = some (0 ∷ image ∷ [])

abbrev requests : List (Event ℕ)
requests =
    get_png ∷ new_latest 3 ∷ get_png ∷ get_jpeg ∷ get_png ∷ new_latest 7 ∷ get_png ∷ get_jpeg ∷ []

serve_all-requests :
    (serve_all one_byte two_bytes (record { latest_map = none; responses = [] }) requests).responses
    ≡ not_found
      ∷ png_content (3 ∷ [])
      ∷ jpeg_content (0 ∷ 3 ∷ [])
      ∷ png_content (3 ∷ [])
      ∷ internal_server_error
      ∷ jpeg_content (0 ∷ 7 ∷ [])
      ∷ []
unfolding serve_all serve handle_png handle_jpeg
serve_all-requests = refl
