-- ===== src/NavMap/Server/Tests.antt =====
-- Run of pkg/navmap/navmap.go on some passes and requests.
use rocklet.Base.{
  ℕ, ◌≡◌, List, [], ◌∷◌, Option, none, some, ◌&&◌, ◌==◌, if◌then◌else◌, ltb, bytes_eq, refl,
}
use rocklet.Base.Text.{codes}
use rocklet.NavMap.Maps.{
  Picture, Image, newest, new_map, recolored, used_area, scan, scan_row, visit, update_min_max,
  recolor, gray, white,
}
use rocklet.NavMap.Loop.{Directory}
use rocklet.NavMap.Handlers.{
  not_found, internal_server_error, png_content, jpeg_content, serve, handle_png, handle_jpeg,
}
use rocklet.NavMap.Server.{Event, pass, png_request, jpeg_request, after_pass, step, run}
use rocklet.NavMap.Server.Shown.{shown, run-shown}

-- One white pixel at (x, 2).
abbrev picture : ℕ → Picture
picture u = record {
  x0 = 0;
  y0 = 0;
  x1 = 4;
  y1 = 4;
  at = λ x y. if x == u && y == 2 then white else gray;
}

abbrev encode_png : Image → Option (List ℕ)
encode_png image = some (image.box.min_x ∷ [])

abbrev encode_jpeg : Image → Option (List ℕ)
encode_jpeg image = if ltb image.box.min_x 2 then some (9 ∷ image.box.min_x ∷ []) else none

abbrev content : List ℕ → ℕ → Option Picture
content path time = some (picture time)

-- A directory with one file of a time.
abbrev at_time : ℕ → Directory
at_time t = record { files = (codes "navmap0.ppm", some t) ∷ []; decode = λ p. some (picture t) }

abbrev events : List Event
events =
    png_request
    ∷ pass (at_time 1)
    ∷ png_request
    ∷ pass (at_time 1)
    ∷ png_request
    ∷ jpeg_request
    ∷ pass (at_time 3)
    ∷ png_request
    ∷ jpeg_request
    ∷ []

run-events :
    (run encode_png encode_jpeg (record { latest_map = none; responses = [] }) events).responses
    ≡ not_found
      ∷ png_content (1 ∷ [])
      ∷ png_content (1 ∷ [])
      ∷ jpeg_content (9 ∷ 1 ∷ [])
      ∷ png_content (3 ∷ [])
      ∷ internal_server_error
      ∷ []
unfolding run step after_pass serve handle_png handle_jpeg newest new_map recolored used_area scan
    scan_row visit update_min_max recolor bytes_eq
run-events = refl

run-shown_example :
    (run encode_png encode_jpeg (record { latest_map = none; responses = [] }) events).responses
    ≡ shown encode_png encode_jpeg content none events
run-shown_example =
    run-shown encode_png encode_jpeg content events (unfold newest in (refl, (refl, (refl, tt))))
