-- ===== src/NavMap/Server.antt =====
-- pkg/navmap/navmap.go: Run, with the passes of LoopMaps and the requests between them. An image
-- is encoded as a PNG for the map and again for the first request, by the same encoder.
pub mod Shown
mod Tests
use rocklet.Base.{ℕ, List, [], ◌∷◌, Option, none, some, Outcome, ok, err, panic}
use rocklet.NavMap.Maps.{Image, LatestMap, Error, with_newest}
use rocklet.NavMap.Loop.{Directory}
use rocklet.NavMap.Handlers.{Buffered, State, get_png, get_jpeg, unbuffered, serve}

-- A pass of the loop, or a request to /navmap/png or /navmap/jpeg.
pub data Event : Type 0 where
  pass : Directory → Event
  png_request : Event
  jpeg_request : Event

abbrev pub latest_of : Option (Buffered LatestMap) → Option LatestMap
latest_of none = none
latest_of (some b) = some b.image

-- A map that has been read replaces the one with the buffers.
abbrev pub replaced :
    Option (Buffered LatestMap) → Outcome Error LatestMap → Option (Buffered LatestMap)
replaced old (ok m) = some (unbuffered m)
replaced old (err e) = old
replaced old panic = old

module _ (encode_png encode_jpeg : Image → Option (List ℕ)) where
  abbrev pub png_of_map : LatestMap → Option (List ℕ)
  png_of_map m = encode_png m.image

  abbrev pub jpeg_of_map : LatestMap → Option (List ℕ)
  jpeg_of_map m = encode_jpeg m.image

  -- The map after a pass of lookupMaps.
  unfoldable pub after_pass : Option (Buffered LatestMap) → Directory → Option (Buffered LatestMap)
  after_pass old d = with_newest encode_png d.decode d.files (latest_of old) old (replaced old)

  unfoldable pub step : State LatestMap → Event → State LatestMap
  unfolding after_pass
  step s (pass d) = record s { latest_map = after_pass s.latest_map d }
  step s png_request = serve png_of_map jpeg_of_map s get_png
  step s jpeg_request = serve png_of_map jpeg_of_map s get_jpeg

  unfoldable pub run : State LatestMap → List Event → State LatestMap
  unfolding step
  run s [] = s
  run s (e ∷ es) = run (step s e) es
