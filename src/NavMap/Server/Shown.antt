-- ===== src/NavMap/Server/Shown.antt =====
-- Run of pkg/navmap/navmap.go: what the requests show.
use rocklet.Base.{
  ℕ, ◌≡◌, List, [], ◌∷◌, ◌++◌, Option, none, some, Bool, true, false, if◌then◌else◌, Outcome, ok,
  err, panic, refl, sym, ap, ◌∙◌,
}
use mathlib.Core.Path.{subst}
use mathlib.Core.List.{append-nil, append_assoc}
use rocklet.NavMap.Maps.{
  Image, Picture, LatestMap, Error, newest, new_map, encoded, recolored, known_file, keep_or_set,
  lookup_maps,
}
use rocklet.NavMap.Loop.{Directory, lookup}
use rocklet.NavMap.Loop.Newest.{IsStable, read_anew, IsRead, lookup-read_anew, read_anew-IsRead}
use rocklet.NavMap.Handlers.{
  Buffered, Response, not_found, png_content, jpeg_content, handle_png, handle_jpeg, serve,
}
use rocklet.NavMap.Handlers.Fresh.{IsBuffered, or_error, png-IsBuffered, jpeg-IsBuffered}
use rocklet.NavMap.Server.{
  Event, pass, png_request, jpeg_request, latest_of, replaced, png_of_map, jpeg_of_map, after_pass,
  step, run,
}

module _ (encode_png encode_jpeg : Image → Option (List ℕ))
    (content : List ℕ → ℕ → Option Picture) where
  -- The PNG that Kubernetes is told about.
  abbrev pub png_answer : Option LatestMap → Response
  png_answer none = not_found
  png_answer (some m) = png_content m.kubernetes_map.contents

  abbrev pub jpeg_answer : Option LatestMap → Response
  jpeg_answer none = not_found
  jpeg_answer (some m) = or_error jpeg_content (encode_jpeg m.image)

  -- The answers of a server that reads the newest file in each pass and keeps no encoded image.
  abbrev pub shown : Option LatestMap → List Event → List Response
  shown latest [] = []
  shown latest (pass d ∷ es) = shown (read_anew encode_png content latest d) es
  shown latest (png_request ∷ es) = png_answer latest ∷ shown latest es
  shown latest (jpeg_request ∷ es) = jpeg_answer latest ∷ shown latest es

  abbrev pub AreStable : List Event → Type 0
  AreStable [] = Unit
  AreStable (pass d ∷ es) = IsStable encode_png content d × AreStable es
  AreStable (png_request ∷ es) = AreStable es
  AreStable (jpeg_request ∷ es) = AreStable es

  abbrev png : LatestMap → Option (List ℕ)
  png = png_of_map encode_png encode_jpeg

  abbrev jpeg : LatestMap → Option (List ℕ)
  jpeg = jpeg_of_map encode_png encode_jpeg

  -- A map that has been read has its image as a PNG.
  abbrev HasPng : Outcome Error LatestMap → Type 0
  HasPng (ok m) = encode_png m.image ≡ some m.kubernetes_map.contents
  HasPng (err e) = Unit
  HasPng panic = Unit

  encoded-HasPng :
      (path : List ℕ) (time : ℕ) (image : Image) (o : Option (List ℕ))
      → encode_png image ≡ o
      → HasPng (encoded path time image o)
  encoded-HasPng path time image none e = tt
  encoded-HasPng path time image (some bytes) e = e

  new_map-HasPng :
      (o : Option Picture) (path : List ℕ) (time : ℕ) → HasPng (new_map encode_png o path time)
  unfolding new_map
  new_map-HasPng none path time = tt
  new_map-HasPng (some p) path time =
      encoded-HasPng path time (recolored p) (encode_png (recolored p)) refl

  read-HasPng : (m : LatestMap) → IsRead encode_png content (some m) → HasPng (ok m)
  read-HasPng m read = subst HasPng read (new_map-HasPng (content m.path m.m_time) m.path m.m_time)

  replaced-IsBuffered :
      (o : Option (Buffered LatestMap)) (r : Outcome Error LatestMap) (known : Bool)
      → IsBuffered png jpeg o
      → IsBuffered png jpeg (if known then o else replaced o r)
        × (latest_of (if known then o else replaced o r)
            ≡ (if known then (latest_of o, none) else keep_or_set (latest_of o) r).0)
  replaced-IsBuffered o r true h = (h, refl)
  replaced-IsBuffered o (ok m) false h = ((tt, tt), refl)
  replaced-IsBuffered o (err e) false h = (h, refl)
  replaced-IsBuffered o panic false h = (h, refl)

  after_pass_lem :
      (o : Option (Buffered LatestMap)) (d : Directory)
      → IsStable encode_png content d
      → IsBuffered png jpeg o
      → IsRead encode_png content (latest_of o)
      → IsBuffered png jpeg (after_pass encode_png encode_jpeg o d)
        × (latest_of (after_pass encode_png encode_jpeg o d)
            ≡ read_anew encode_png content (latest_of o) d)
  unfolding after_pass lookup lookup_maps
  after_pass_lem o d stable h read =
      let (path, time) = newest [] 0 d.files in
      let r =
        replaced-IsBuffered o (new_map encode_png (d.decode path) path time)
          (known_file (latest_of o) path time) h in
      (r.0, r.1 ∙ lookup-read_anew encode_png content (latest_of o) d stable read)

  one_more :
      (rs : List Response) (r r' : Response) (l l' : Option LatestMap) (es : List Event)
      → r ≡ r'
      → l ≡ l'
      → (rs ++ r ∷ []) ++ shown l es ≡ rs ++ r' ∷ shown l' es
  one_more rs r r' l l' es response same =
      ap (λ x. (rs ++ x ∷ []) ++ shown l es) response
      ∙ (ap (λ x. (rs ++ r' ∷ []) ++ shown x es) same ∙ append_assoc rs (r' ∷ []) (shown l' es))

  abbrev answers : Option (Buffered LatestMap) → List Response → List Event → List Response
  answers o rs es =
      (run encode_png encode_jpeg (record { latest_map = o; responses = rs }) es).responses

  from_state :
      (es : List Event) (o : Option (Buffered LatestMap)) (rs : List Response)
      → AreStable es
      → IsBuffered png jpeg o
      → IsRead encode_png content (latest_of o)
      → answers o rs es ≡ rs ++ shown (latest_of o) es
  unfolding run step serve
  from_state [] o rs stable h read = sym (append-nil rs)
  from_state (pass d ∷ es) o rs (now, later) h read =
      let p = after_pass_lem o d now h read in
      from_state es (after_pass encode_png encode_jpeg o d) rs later p.0 (
        subst (IsRead encode_png content) (sym p.1)
          (read_anew-IsRead encode_png content (latest_of o) d read))
      ∙ ap (λ l. rs ++ shown l es) p.1
  from_state (png_request ∷ es) none rs stable h read =
      from_state es none (rs ++ not_found ∷ []) stable h read
      ∙ append_assoc rs (not_found ∷ []) (shown none es)
  from_state (jpeg_request ∷ es) none rs stable h read =
      from_state es none (rs ++ not_found ∷ []) stable h read
      ∙ append_assoc rs (not_found ∷ []) (shown none es)
  from_state (png_request ∷ es) (some b) rs stable h read =
      let r = handle_png png jpeg b b.png_buf in
      let p = png-IsBuffered png jpeg b b.png_buf h.0 h in
      let same = sym p.1 in
      from_state es (some r.0) (rs ++ r.1 ∷ []) stable p.0
        (subst (λ m. IsRead encode_png content (some m)) same read)
      ∙ one_more rs r.1 (png_answer (some b.image)) (some r.0.image) (some b.image) es
          (p.2 ∙ ap (or_error png_content) (read-HasPng b.image read)) (ap some p.1)
  from_state (jpeg_request ∷ es) (some b) rs stable h read =
      let r = handle_jpeg png jpeg b b.jpeg_buf in
      let p = jpeg-IsBuffered png jpeg b b.jpeg_buf h.1 h in
      let same = sym p.1 in
      from_state es (some r.0) (rs ++ r.1 ∷ []) stable p.0
        (subst (λ m. IsRead encode_png content (some m)) same read)
      ∙ one_more rs r.1 (jpeg_answer (some b.image)) (some r.0.image) (some b.image) es p.2
          (ap some p.1)

  -- If what is read from the newest file depends on its path and time only, then whatever passes
  -- and requests come from the start on, the answers are those of a server that reads the newest
  -- file in each pass whether it is known or not, keeps no encoded image, and answers a request
  -- for the PNG with the contents of the map that is reported to Kubernetes.
  pub run-shown :
      (es : List Event)
      → AreStable es
      → (run encode_png encode_jpeg (record { latest_map = none; responses = [] }) es).responses
        ≡ shown none es
  run-shown es stable = from_state es none [] stable tt tt
